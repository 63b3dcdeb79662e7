-- ===== src/Http/Address/Trim.antt =====
-- What `extractFirstIp` makes of a list of addresses.
use pinpoint_cpp_agent.Common.{
  ℕ, ◌+◌, ◌-◌, ◌≡◌, refl, sym, true, false, not, [], ◌∷◌, ◌++◌, arith, length, length-append, Bytes,
  All, NoneOf, find_if-none, find_if-append, find_last_if-append, take-append, drop-append,
  append_assoc,
}
use pinpoint_cpp_agent.Http.Address.{is_blank, trim}

abbrev pub Blank : Bytes → Type 0
Blank = All (λ c. is_blank c ≡ true)

-- A text that begins and ends with a byte that is not blank.
pub data Trimmed : Bytes → Type 0 where
  single : {c : ℕ} → is_blank c ≡ false → Trimmed (c ∷ [])
  ends :
      {c : ℕ} (d : ℕ) (mid : Bytes)
      → is_blank c ≡ false
      → is_blank d ≡ false
      → Trimmed (c ∷ (mid ++ d ∷ []))

Blank-NoneOf : (s : Bytes) → Blank s → NoneOf (λ c. not (is_blank c)) s
Blank-NoneOf [] h = tt
Blank-NoneOf (c ∷ s) h = (ground arith, Blank-NoneOf s h.1)

pub trim-Blank : (s : Bytes) → Blank s → trim s ≡ []
unfolding trim
trim-Blank s h = rw (trim, find_if-none (λ c. not (is_blank c)) s (Blank-NoneOf s h)) refl

trim_single :
    (lead trail : Bytes) (c : ℕ)
    → Blank lead
    → Blank trail
    → is_blank c ≡ false
    → trim (lead ++ c ∷ trail) ≡ c ∷ []
unfolding trim
trim_single lead trail c hl ht n =
    let plain : not (is_blank c) ≡ true = ground arith in
    let size : length lead - length lead + 1 ≡ 1 = omega arith in
    rw
      (
        trim,
        find_if-append (λ c. not (is_blank c)) lead trail c (Blank-NoneOf lead hl) plain,
        find_last_if-append (λ c. not (is_blank c)) lead trail c (Blank-NoneOf trail ht) plain,
        size,
        drop-append lead (c ∷ trail),
      )
      refl

trim_ends :
    (lead mid trail : Bytes) (c d : ℕ)
    → Blank lead
    → Blank trail
    → is_blank c ≡ false
    → is_blank d ≡ false
    → trim (lead ++ c ∷ (mid ++ d ∷ trail)) ≡ c ∷ (mid ++ d ∷ [])
unfolding trim
trim_ends lead mid trail c d hl ht n m =
    let first =
      find_if-append (λ c. not (is_blank c)) lead (mid ++ d ∷ trail) c (Blank-NoneOf lead hl)
        (ground arith) in
    let last =
      find_last_if-append (λ c. not (is_blank c)) (lead ++ c ∷ mid) trail d (Blank-NoneOf trail ht)
        (ground arith) in
    let whole : (lead ++ c ∷ mid) ++ d ∷ trail ≡ lead ++ c ∷ (mid ++ d ∷ trail) =
      append_assoc lead (c ∷ mid) (d ∷ trail) in
    let size : length (lead ++ c ∷ mid) - length lead + 1 ≡ length (c ∷ (mid ++ d ∷ [])) =
      omega (arith, length-append lead (c ∷ mid), length-append mid (d ∷ [])) in
    let tail : c ∷ (mid ++ d ∷ trail) ≡ (c ∷ (mid ++ d ∷ [])) ++ trail =
      sym (append_assoc (c ∷ mid) (d ∷ []) trail) in
    cc (
      first,
      last,
      whole,
      size,
      tail,
      drop-append lead (c ∷ (mid ++ d ∷ trail)),
      take-append (c ∷ (mid ++ d ∷ [])) trail,
    )

pub trim-Trimmed :
    (lead ip trail : Bytes)
    → Blank lead
    → Blank trail
    → Trimmed ip
    → trim (lead ++ (ip ++ trail)) ≡ ip
trim-Trimmed lead ip trail hl ht (single {c} n) = trim_single lead trail c hl ht n
trim-Trimmed lead ip trail hl ht (ends {c} d mid n m) =
    cc (trim_ends lead mid trail c d hl ht n m, append_assoc (c ∷ mid) (d ∷ []) trail)
