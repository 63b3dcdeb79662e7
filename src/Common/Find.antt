-- ===== src/Common/Find.antt =====
-- `find`, `rfind` and their kin on texts, with the index as `Option`, which is `npos` as none.
use Prim.Native.Nat.{ℕ, suc, ◌+◌}
use mathlib.Core.Path.{◌≡◌, refl, ap}
use mathlib.Core.Bool.{Bool, true, false}
use mathlib.Core.List.{List, [], ◌∷◌, ◌++◌}
use native.Mathlib.Omega.{arith}
use mathlib.Core.Option.{Option, none, some}
use pinpoint_cpp_agent.Common.Lists.{length, take, drop, All}
use pinpoint_cpp_agent.Common.Tests.{if◌then◌else◌}

module _ {ℓ} {A : Type ℓ} (p : A → Bool) where
  unfoldable pub find_if : List A → Option ℕ
  find_if [] = none
  find_if (a ∷ s) =
      let rest = find_if s in
      if p a then some 0 else elim rest [ none ↦ none | some i ↦ some (suc i) ]

  unfoldable pub find_last_if : List A → Option ℕ
  find_last_if [] = none
  find_last_if (a ∷ s) = elim (find_last_if s) [
    | some i ↦ some (suc i)
    | none ↦ if p a then some 0 else none
  ]

  abbrev pub NoneOf : List A → Type 0
  NoneOf s = All (λ a. p a ≡ false) s

  pub find_if-none : (s : List A) → NoneOf s → find_if s ≡ none
  unfolding find_if
  find_if-none [] h = refl
  find_if-none (a ∷ s) h = rw (h.0, find_if-none s h.1) refl

  pub find_if-append :
      (s t : List A) (a : A) → NoneOf s → p a ≡ true → find_if (s ++ a ∷ t) ≡ some (length s)
  unfolding find_if
  find_if-append [] t a h e = rw e refl
  find_if-append (b ∷ s) t a h e = rw (h.0, find_if-append s t a h.1 e) refl

  pub find_last_if-none : (s : List A) → NoneOf s → find_last_if s ≡ none
  unfolding find_last_if
  find_last_if-none [] h = refl
  find_last_if-none (a ∷ s) h = rw (find_last_if-none s h.1, h.0) refl

  pub find_last_if-append :
      (s t : List A) (a : A) → NoneOf t → p a ≡ true → find_last_if (s ++ a ∷ t) ≡ some (length s)
  unfolding find_last_if
  find_last_if-append [] t a h e = rw (find_last_if-none t h, e) refl
  find_last_if-append (b ∷ s) t a h e = rw (find_last_if-append s t a h e) refl

module _ {ℓ} {A : Type ℓ} where
  pub take-append : (s t : List A) → take (length s) (s ++ t) ≡ s
  take-append [] t = refl
  take-append (a ∷ s) t = ap (◌∷◌ a) (take-append s t)

  pub drop-append : (s t : List A) → drop (length s) (s ++ t) ≡ t
  drop-append [] t = refl
  drop-append (a ∷ s) t = drop-append s t

  pub drop-past : (s t : List A) (a : A) → drop (length s + 1) (s ++ a ∷ t) ≡ t
  drop-past [] t a = refl
  drop-past (b ∷ s) t a =
      let e : length (b ∷ s) + 1 ≡ suc (length s + 1) = omega arith in rw e (drop-past s t a)
