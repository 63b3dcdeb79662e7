-- ===== src/Common/Sum.antt =====
-- Arrays and threads as functions of their index: one value changed, and sums over the first ones.
use Prim.Native.Nat.{ℕ, zero, suc, ◌+◌, ◌≤◌, ◌<◌, max}
use mathlib.Core.Path.{◌≡◌, refl, sym, ap, ◌∙◌}
use mathlib.Core.Logic.{◌≢◌, inl, inr}
use mathlib.Core.Bool.{Bool}
use native.Mathlib.Omega.{arith}
use pinpoint_cpp_agent.Common.Tests.{if◌then◌else◌, ◌==◌, Bool-cases}

-- `f` with the value `v` at `i`
abbrev pub put {ℓ} : {A : Type ℓ} → (ℕ → A) → ℕ → A → ℕ → A
put f i v j = if j == i then v else f j

pub put_self {ℓ} : {A : Type ℓ} (f : ℕ → A) (i : ℕ) (v : A) → put f i v i ≡ v
put_self f i v = let e : (i == i) ≡ Bool.true = ground arith in rw e refl

pub put_other {ℓ} : {A : Type ℓ} (f : ℕ → A) (i j : ℕ) (v : A) → j ≢ i → put f i v j ≡ f j
put_other f i j v n = let e : (j == i) ≡ Bool.false = ground arith in rw e refl

unfoldable pub sum_below : ℕ → (ℕ → ℕ) → ℕ
sum_below zero f = 0
sum_below (suc n) f = f n + sum_below n f

pub sum_below_same :
    (n : ℕ) (f g : ℕ → ℕ) → ((i : ℕ) → i < n → f i ≡ g i) → sum_below n f ≡ sum_below n g
unfolding sum_below
sum_below_same zero f g h = refl
sum_below_same (suc n) f g h =
    omega (arith, h n (omega arith), sum_below_same n f g (λ i k. h i (omega arith)))

-- The sum with one term changed.
pub sum_below_change :
    (n i : ℕ) (f g : ℕ → ℕ)
    → i < n
    → ((j : ℕ) → j ≢ i → f j ≡ g j)
    → sum_below n g + f i ≡ sum_below n f + g i
unfolding sum_below
sum_below_change zero i f g h k = absurd (omega arith)
sum_below_change (suc n) i f g h k = elim (Bool-cases (n == i)) [
  | inl e ↦
      let same : n ≡ i = ground arith in
      let rest = sum_below_same n f g (λ j l. k j (ground arith)) in
      rw (← same) (omega (arith, rest))
  | inr m ↦
      let other : n ≢ i = ground arith in
      omega (arith, k n other, sum_below_change n i f g (ground arith) k)
]

pub sum_below_zero : (n : ℕ) (f : ℕ → ℕ) → ((i : ℕ) → i < n → f i ≡ 0) → sum_below n f ≡ 0
unfolding sum_below
sum_below_zero zero f h = refl
sum_below_zero (suc n) f h =
    omega (arith, h n (omega arith), sum_below_zero n f (λ i k. h i (omega arith)))

pub term-le-sum_below : (n i : ℕ) (f : ℕ → ℕ) → i < n → f i ≤ sum_below n f
unfolding sum_below
term-le-sum_below zero i f h = absurd (omega arith)
term-le-sum_below (suc n) i f h = elim (Bool-cases (n == i)) [
  | inl e ↦ let same : n ≡ i = ground arith in rw (← same) (omega arith)
  | inr m ↦ omega (arith, term-le-sum_below n i f (ground arith))
]

-- The sum with the value at `i` replaced.
pub sum_below-put {ℓ} :
    {A : Type ℓ} (size : A → ℕ) (n i : ℕ) (f : ℕ → A) (v : A)
    → i < n
    → sum_below n (λ j. size (put f i v j)) + size (f i) ≡ sum_below n (λ j. size (f j)) + size v
sum_below-put size n i f v h =
    let rest =
      sum_below_change n i (λ j. size (f j)) (λ j. size (put f i v j)) h
        (λ j k. sym (ap size (put_other f i j v k))) in
    rest ∙ ap (λ x. sum_below n (λ j. size (f j)) + size x) (put_self f i v)

unfoldable pub max_below : ℕ → (ℕ → ℕ) → ℕ
max_below zero f = 0
max_below (suc n) f = max (f n) (max_below n f)

pub term-le-max_below : (n i : ℕ) (f : ℕ → ℕ) → i < n → f i ≤ max_below n f
unfolding max_below
term-le-max_below zero i f h = absurd (omega arith)
term-le-max_below (suc n) i f h = elim (Bool-cases (n == i)) [
  | inl e ↦ let same : n ≡ i = ground arith in rw (← same) (omega arith)
  | inr m ↦ omega (arith, term-le-max_below n i f (ground arith))
]

pub max_below-le : (n b : ℕ) (f : ℕ → ℕ) → ((i : ℕ) → i < n → f i ≤ b) → max_below n f ≤ b
unfolding max_below
max_below-le zero b f h = omega arith
max_below-le (suc n) b f h =
    omega (arith, h n (omega arith), max_below-le n b f (λ i k. h i (omega arith)))

-- What holds of the first values holds with one replaced.
pub put-holds {ℓ κ} :
    {A : Type ℓ} (P : A → Type κ) (n i : ℕ) (f : ℕ → A) (v : A)
    → ((j : ℕ) → j < n → j ≢ i → P (f j))
    → (i < n → P v)
    → (j : ℕ) → j < n
    → P (put f i v j)
put-holds P n i f v h k j l = elim (Bool-cases (j == i)) [
  | inl e ↦ let same : j ≡ i = ground arith in rw (same, put_self f i v) (k (ground arith))
  | inr m ↦ let other : j ≢ i = ground arith in rw (put_other f i j v other) (h j l other)
]

-- The maximum with the value at `i` replaced.
module _ {ℓ} {A : Type ℓ} (size : A → ℕ) (n i : ℕ) (f : ℕ → A) (v : A) where
  pub max_below-put-le :
      max_below n (λ j. size (put f i v j)) ≤ max (max_below n (λ j. size (f j))) (size v)
  max_below-put-le =
      max_below-le n _ (λ j. size (put f i v j))
        (put-holds (λ a. size a ≤ max (max_below n (λ j. size (f j))) (size v)) n i f v
          (λ j h m. omega (arith, term-le-max_below n j (λ j. size (f j)) h)) (λ h. omega arith))

  pub max_below-le-put :
      max_below n (λ j. size (f j)) ≤ max (size (f i)) (max_below n (λ j. size (put f i v j)))
  max_below-le-put =
      max_below-le n _ (λ j. size (f j))
        (λ j h. elim (Bool-cases (j == i)) [
          | inl e ↦ let same : j ≡ i = ground arith in omega (arith, ap (λ k. size (f k)) same)
          | inr m ↦
              let other : j ≢ i = ground arith in
              omega (
                arith,
                ap size (put_other f i j v other),
                term-le-max_below n j (λ j. size (put f i v j)) h,
              )
        ])

  pub value-le-max_below-put : i < n → size v ≤ max_below n (λ j. size (put f i v j))
  value-le-max_below-put h =
      omega (arith, ap size (put_self f i v), term-le-max_below n i (λ j. size (put f i v j)) h)
