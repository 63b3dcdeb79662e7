-- ===== src/UrlStat/Histogram.antt =====
-- What a histogram holds after a run of `UrlStatHistogram::add`.
use pinpoint_cpp_agent.Common.{
  ℕ, zero, suc, ◌+◌, ◌<◌, ◌≡◌, ◌⊎◌, inl, inr, Bool, true, false, not, ◌&&◌, Bool-cases, refl, sym,
  ap, ◌∙◌, List, [], ◌∷◌, arith, ◌==◌, if◌then◌else◌, length, All,
}
use pinpoint_cpp_agent.Common.Int.{ℤ, pos, ltb_ℤ, ◌+ℤ◌, ◌≤ℤ◌, int_laws, eq_of_parts}
use pinpoint_cpp_agent.UrlStat.{
  UrlStatHistogram, empty_histogram, get_bucket, count_at, add_elapsed,
}

abbrev pub add_all : List ℤ → UrlStatHistogram → UrlStatHistogram
add_all [] h = h
add_all (e ∷ es) h = add_all es (add_elapsed h e)

-- The elapsed times of each of the eight buckets, in milliseconds.
abbrev pub belongs : ℕ → ℤ → Bool
belongs zero elapsed = ltb_ℤ elapsed (pos 100)
belongs (suc zero) elapsed = not (ltb_ℤ elapsed (pos 100)) && ltb_ℤ elapsed (pos 300)
belongs (suc (suc zero)) elapsed = not (ltb_ℤ elapsed (pos 300)) && ltb_ℤ elapsed (pos 500)
belongs (suc (suc (suc zero))) elapsed = not (ltb_ℤ elapsed (pos 500)) && ltb_ℤ elapsed (pos 1000)
belongs (suc (suc (suc (suc zero)))) elapsed =
    not (ltb_ℤ elapsed (pos 1000)) && ltb_ℤ elapsed (pos 3000)
belongs (suc (suc (suc (suc (suc zero))))) elapsed =
    not (ltb_ℤ elapsed (pos 3000)) && ltb_ℤ elapsed (pos 5000)
belongs (suc (suc (suc (suc (suc (suc zero)))))) elapsed =
    not (ltb_ℤ elapsed (pos 5000)) && ltb_ℤ elapsed (pos 8000)
belongs _ elapsed = not (ltb_ℤ elapsed (pos 8000))

abbrev pub in_bucket : ℕ → ℤ → ℕ
in_bucket i elapsed = if belongs i elapsed then 1 else 0

abbrev pub count_in : ℕ → List ℤ → ℕ
count_in i [] = 0
count_in i (e ∷ es) = in_bucket i e + count_in i es

abbrev pub sum_ℤ : List ℤ → ℤ
sum_ℤ [] = pos 0
sum_ℤ (e ∷ es) = e +ℤ sum_ℤ es

-- `histogram_[i]`
abbrev pub bucket : List ℕ → ℕ → ℕ
bucket [] i = 0
bucket (n ∷ l) zero = n
bucket (n ∷ l) (suc i) = bucket l i

abbrev pub sum : List ℕ → ℕ
sum [] = 0
sum (n ∷ l) = n + sum l

pub get_bucket-lt : (elapsed : ℤ) → get_bucket elapsed < 8
unfolding get_bucket
get_bucket-lt elapsed = ground arith

pub length-count_at : (i : ℕ) (l : List ℕ) → length (count_at i l) ≡ length l
length-count_at i [] = refl
length-count_at zero (n ∷ l) = refl
length-count_at (suc i) (n ∷ l) = ap suc (length-count_at i l)

pub sum-count_at : (i : ℕ) (l : List ℕ) → i < length l → sum (count_at i l) ≡ suc (sum l)
sum-count_at i [] h = absurd (omega arith)
sum-count_at zero (n ∷ l) h = omega arith
sum-count_at (suc i) (n ∷ l) h = omega (arith, sum-count_at i l (omega arith))

bucket-count_at :
    (i j : ℕ) (l : List ℕ)
    → j < length l
    → bucket (count_at i l) j ≡ (if i == j then 1 else 0) + bucket l j
bucket-count_at i j [] h = absurd (omega arith)
bucket-count_at zero zero (n ∷ l) h = omega arith
bucket-count_at zero (suc j) (n ∷ l) h = ground arith
bucket-count_at (suc i) zero (n ∷ l) h = ground arith
bucket-count_at (suc i) (suc j) (n ∷ l) h = ground (arith, bucket-count_at i j l)

get_bucket-belongs :
    (i : ℕ) (elapsed : ℤ) → i < 8 → (if get_bucket elapsed == i then 1 else 0) ≡ in_bucket i elapsed
unfolding get_bucket
get_bucket-belongs zero elapsed h = ground arith
get_bucket-belongs (suc zero) elapsed h = ground arith
get_bucket-belongs (suc (suc zero)) elapsed h = ground arith
get_bucket-belongs (suc (suc (suc zero))) elapsed h = ground arith
get_bucket-belongs (suc (suc (suc (suc zero)))) elapsed h = ground arith
get_bucket-belongs (suc (suc (suc (suc (suc zero))))) elapsed h = ground arith
get_bucket-belongs (suc (suc (suc (suc (suc (suc zero)))))) elapsed h = ground arith
get_bucket-belongs (suc (suc (suc (suc (suc (suc (suc zero))))))) elapsed h = ground arith
get_bucket-belongs (suc (suc (suc (suc (suc (suc (suc (suc i)))))))) elapsed h =
    absurd (omega arith)

bucket-add_all :
    (es : List ℤ) (h : UrlStatHistogram) (i : ℕ)
    → i < 8
    → i < length h.histogram
    → bucket (add_all es h).histogram i ≡ count_in i es + bucket h.histogram i
unfolding add_elapsed
bucket-add_all [] h i b k = omega arith
bucket-add_all (e ∷ es) h i b k = omega (
  arith,
  get_bucket-belongs i e b,
  bucket-add_all es (add_elapsed h e) i b
      (omega (arith, length-count_at (get_bucket e) h.histogram)),
  bucket-count_at (get_bucket e) i h.histogram k,
)

+ℤ_assoc : (a b c : ℤ) → a +ℤ (b +ℤ c) ≡ (a +ℤ b) +ℤ c
+ℤ_assoc a b c = eq_of_parts (a +ℤ (b +ℤ c)) ((a +ℤ b) +ℤ c) (omega int_laws)

zero-+ℤ : (a : ℤ) → a +ℤ pos 0 ≡ a
zero-+ℤ a = eq_of_parts (a +ℤ pos 0) a (omega int_laws)

total-add_all : (es : List ℤ) (h : UrlStatHistogram) → (add_all es h).total ≡ h.total +ℤ sum_ℤ es
unfolding add_elapsed
total-add_all [] h = sym (zero-+ℤ h.total)
total-add_all (e ∷ es) h = total-add_all es (add_elapsed h e) ∙ sym (+ℤ_assoc h.total e (sum_ℤ es))

max_grows : (es : List ℤ) (h : UrlStatHistogram) → h.max_elapsed ≤ℤ (add_all es h).max_elapsed
unfolding add_elapsed
max_grows [] h = omega arith
max_grows (e ∷ es) h = ground (arith, max_grows es (add_elapsed h e))

max_above : (es : List ℤ) (h : UrlStatHistogram) → All (λ e. e ≤ℤ (add_all es h).max_elapsed) es
unfolding add_elapsed
max_above [] h = tt
max_above (e ∷ es) h =
    (ground (arith, max_grows es (add_elapsed h e)), max_above es (add_elapsed h e))

-- `x` is one of the samples.
abbrev pub IsSample : ℤ → List ℤ → Type 0
IsSample x [] = false ≡ true
IsSample x (e ∷ es) = (x ≡ e) ⊎ IsSample x es

max_reached :
    (es : List ℤ) (h : UrlStatHistogram)
    → ((add_all es h).max_elapsed ≡ h.max_elapsed) ⊎ IsSample (add_all es h).max_elapsed es
unfolding add_elapsed
max_reached [] h = inl refl
max_reached (e ∷ es) h = elim (max_reached es (add_elapsed h e)) [
  | inr later ↦ inr (inr later)
  | inl now ↦ elim (Bool-cases (ltb_ℤ h.max_elapsed e)) [
    | inl more ↦ inr (inl (now ∙ rw more refl))
    | inr same ↦ inl (now ∙ rw same refl)
  ]
]

new_bucket : (i : ℕ) → bucket empty_histogram.histogram i ≡ 0
new_bucket i =
    all_zero empty_histogram.histogram i
      (refl, (refl, (refl, (refl, (refl, (refl, (refl, (refl, tt))))))))
  where
    all_zero : (l : List ℕ) (i : ℕ) → All (λ n. n ≡ 0) l → bucket l i ≡ 0
    all_zero [] i h = refl
    all_zero (n ∷ l) zero h = h.0
    all_zero (n ∷ l) (suc i) h = all_zero l i h.1

-- After any run of samples on a new histogram, each of the eight buckets counts the samples that
-- belong to it: those below 100 milliseconds, and from there below 300, 500, 1000, 3000, 5000 and
-- 8000, and the others. The total is their sum. The maximum is below none of them, and it is one
-- of them or 0; it is not negative.
pub add_all_lem :
    (es : List ℤ)
    → let h = add_all es empty_histogram in
      ((i : ℕ) → i < 8 → bucket h.histogram i ≡ count_in i es)
      × (h.total ≡ sum_ℤ es)
      × All (λ e. e ≤ℤ h.max_elapsed) es
      × ((h.max_elapsed ≡ pos 0) ⊎ IsSample h.max_elapsed es)
      × (pos 0 ≤ℤ h.max_elapsed)
add_all_lem es = (
  λ i h. omega (arith, bucket-add_all es empty_histogram i h h, new_bucket i),
  total-add_all es empty_histogram ∙ eq_of_parts (pos 0 +ℤ sum_ℤ es) (sum_ℤ es) (omega int_laws),
  max_above es empty_histogram,
  max_reached es empty_histogram,
  max_grows es empty_histogram,
)
