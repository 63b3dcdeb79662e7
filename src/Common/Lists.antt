-- ===== src/Common/Lists.antt =====
-- Lists measured and indexed by native numbers, under the library's names.
use Prim.Native.Nat.{ℕ, zero, suc, ◌+◌, ◌≤◌}
use mathlib.Core.Path.{◌≡◌, refl, sym, ap, ◌∙◌}
use mathlib.Core.Bool.{Bool, true, false, ◌||◌}
use mathlib.Core.List.{List, [], ◌∷◌, ◌++◌, append_assoc}
use mathlib.Core.Option.{Option, none, some}
use native.Mathlib.Omega.{arith}

module _ {ℓ} {A : Type ℓ} where
  abbrev pub length : List A → ℕ
  length [] = 0
  length (a ∷ l) = suc (length l)

  abbrev pub take : ℕ → List A → List A
  take zero l = []
  take (suc n) [] = []
  take (suc n) (a ∷ l) = a ∷ take n l

  abbrev pub drop : ℕ → List A → List A
  drop zero l = l
  drop (suc n) [] = []
  drop (suc n) (a ∷ l) = drop n l

  abbrev pub get_elem? : List A → ℕ → Option A
  get_elem? [] i = none
  get_elem? (a ∷ l) zero = some a
  get_elem? (a ∷ l) (suc i) = get_elem? l i

  -- A write out of bounds changes nothing.
  abbrev pub set : List A → ℕ → A → List A
  set [] i v = []
  set (a ∷ l) zero v = v ∷ l
  set (a ∷ l) (suc i) v = a ∷ set l i v

  abbrev pub replicate : ℕ → A → List A
  replicate zero v = []
  replicate (suc n) v = v ∷ replicate n v

  -- `std::any_of`
  abbrev pub any : (A → Bool) → List A → Bool
  any p [] = false
  any p (a ∷ l) = p a || any p l

  abbrev pub is_empty : List A → Bool
  is_empty [] = true
  is_empty (a ∷ l) = false

module _ {ℓ} {A : Type ℓ} where
  pub length-append : (l m : List A) → length (l ++ m) ≡ length l + length m
  length-append [] m = omega arith
  length-append (a ∷ l) m = omega (arith, length-append l m)

  pub length-set : (l : List A) (i : ℕ) (v : A) → length (set l i v) ≡ length l
  length-set [] i v = refl
  length-set (a ∷ l) zero v = refl
  length-set (a ∷ l) (suc i) v = ap suc (length-set l i v)

  pub length-take-le : (n : ℕ) (l : List A) → length (take n l) ≤ n
  length-take-le zero l = omega arith
  length-take-le (suc n) [] = omega arith
  length-take-le (suc n) (a ∷ l) = omega (arith, length-take-le n l)

  pub take_of_length-le : (n : ℕ) (l : List A) → length l ≤ n → take n l ≡ l
  take_of_length-le zero [] h = refl
  take_of_length-le zero (a ∷ l) h = absurd (omega arith)
  take_of_length-le (suc n) [] h = refl
  take_of_length-le (suc n) (a ∷ l) h = cc (take_of_length-le n l (omega arith))

-- A predicate by recursion computes to tuples, which the tactics read and build.
module _ {ℓ κ} {A : Type ℓ} (P : A → Type κ) where
  abbrev pub All : List A → Type κ
  All [] = Unit
  All (a ∷ l) = P a × All l

  pub All-append : (l m : List A) → All l → All m → All (l ++ m)
  All-append [] m hx hy = hy
  All-append (a ∷ l) m (px, hx) hy = (px, All-append l m hx hy)

pub All_mono {ℓ κ κ'} :
    {A : Type ℓ} {P : A → Type κ} {Q : A → Type κ'} (l : List A)
    → ((x : A) → P x → Q x)
    → All P l
    → All Q l
All_mono [] f h = tt
All_mono (a ∷ l) f (px, h) = (f a px, All_mono l f h)

abbrev pub concat {ℓ} : {A : Type ℓ} → List (List A) → List A
concat [] = []
concat (l ∷ m) = l ++ concat m

pub concat-append {ℓ} : {A : Type ℓ} (l m : List (List A)) → concat (l ++ m) ≡ concat l ++ concat m
concat-append [] m = refl
concat-append (a ∷ l) m =
    ap (λ x. a ++ x) (concat-append l m) ∙ sym (append_assoc a (concat l) (concat m))
