-- ===== src/Cache/Shared.antt =====
-- src/cache.h: `LruCacheImpl` under any interleaving of the critical sections of its callers.
use pinpoint_cpp_agent.Common.{
  ℕ, ◌<◌, ◌≡◌, ◌≢◌, sym, ◌∙◌, Option, none, some, some_inj, none≢some, Option-cases, inl, inr,
  arith, Bool, false,
}
use pinpoint_cpp_agent.Cache.{
  Lru, CacheResult, fault, init, get_fast, promote, insert_or_promote, remove,
}
use mathlib.Core.Path.{subst}
use pinpoint_cpp_agent.Cache.Spec.{entries, IsValid, find_entry}
use pinpoint_cpp_agent.Cache.Promote.{init-IsValid}
use pinpoint_cpp_agent.Cache.Refine.{
  promote-Promotes, insert-Inserts, fast-find_entry, remove-Removes, remove_stored,
}

module _ {ℓ} {K V : Type ℓ} (dec : Discrete K) where
  -- one exclusive section of some thread
  pub data Section (c : Lru K V) : Lru K V → Type ℓ where
    promoted : (k : K) (c' : Lru K V) (v : Option V) → promote dec c k ≡ some (c', v) → Section c c'
    inserted :
        (k : K) (v : V) (c' : Lru K V) (r : CacheResult V)
        → insert_or_promote dec c k v ≡ some (c', r)
        → Section c c'
    removed :
        (rehashes : Bool) (k : K) (c' : Lru K V) → remove dec rehashes c k ≡ some c' → Section c c'

  pub data Sections (c : Lru K V) : Lru K V → Type ℓ where
    none_yet : Sections c c
    after : {d e : Lru K V} → Sections c d → Section d e → Sections c e

  Section-IsValid : {c d : Lru K V} → Section c d → IsValid dec c → IsValid dec d
  Section-IsValid {c} (promoted k d o run) valid = elim (promote-Promotes dec c valid k) [
    | inl (_, gone) ↦
        subst (λ (x : Lru K V × Option V). IsValid dec x.0) (some_inj (sym gone ∙ run)) valid
    | inr (_, _, _, moved, keeps, _, _) ↦
        subst (λ (x : Lru K V × Option V). IsValid dec x.0) (some_inj (sym moved ∙ run)) keeps
  ]
  Section-IsValid {c} (inserted k v d r run) valid = elim (insert-Inserts dec c valid k v) [
    | inl (_, _, new, keeps, _, _) ↦
        subst (λ (x : Lru K V × CacheResult V). IsValid dec x.0) (some_inj (sym new ∙ run)) keeps
    | inr (_, _, _, moved, keeps, _, _) ↦
        subst (λ (x : Lru K V × CacheResult V). IsValid dec x.0) (some_inj (sym moved ∙ run)) keeps
  ]
  Section-IsValid {c} (removed rehashes k d run) valid =
      (remove-Removes dec c valid k rehashes d run).0

  Sections-IsValid : {c d : Lru K V} → Sections c d → IsValid dec c → IsValid dec d
  Sections-IsValid none_yet valid = valid
  Sections-IsValid (after cs s) valid = Section-IsValid s (Sections-IsValid cs valid)

  fast_safe : (c : Lru K V) (k : K) → IsValid dec c → get_fast dec c k ≢ fault
  fast_safe c k valid e = elim (Option-cases (find_entry dec k (entries c))) [
    | inl gone ↦ cc (fast-find_entry dec c valid k, gone)
    | inr (v, there) ↦ ground (arith, fast-find_entry dec c valid k)
  ]

  promote_safe : (c : Lru K V) (k : K) → IsValid dec c → promote dec c k ≢ none
  promote_safe c k valid e = elim (promote-Promotes dec c valid k) [
    | inl (_, gone) ↦ none≢some (sym e ∙ gone)
    | inr (_, _, _, moved, _, _, _) ↦ none≢some (sym e ∙ moved)
  ]

  insert_safe : (c : Lru K V) (k : K) (v : V) → IsValid dec c → insert_or_promote dec c k v ≢ none
  insert_safe c k v valid e = elim (insert-Inserts dec c valid k v) [
    | inl (_, _, new, _, _, _) ↦ none≢some (sym e ∙ new)
    | inr (_, _, _, moved, _, _, _) ↦ none≢some (sym e ∙ moved)
  ]

  remove_safe : (c : Lru K V) (k : K) → IsValid dec c → remove dec false c k ≢ none
  remove_safe c k valid e = none≢some (sym e ∙ remove_stored dec c valid k)

  -- Whatever exclusive sections the threads have run, in whatever order, on a cache made with a
  -- positive size, as long as no removal has read a key that it freed: the map and the list agree,
  -- the cache is within its size, and no lookup, promotion or insertion that a thread enters next
  -- reads through a dangling iterator, nor does a removal from a map that stores the hash codes.
  pub Sections-safe :
      (n : ℕ) {c : Lru K V}
      → 0 < n
      → Sections (init n) c
      → IsValid dec c
        × ((k : K) → get_fast dec c k ≢ fault)
        × ((k : K) → promote dec c k ≢ none)
        × ((k : K) (v : V) → insert_or_promote dec c k v ≢ none)
        × ((k : K) → remove dec false c k ≢ none)
  Sections-safe n {c} pos run =
      let valid = Sections-IsValid run (init-IsValid dec n pos) in
      (
        valid,
        λ k. fast_safe c k valid,
        λ k. promote_safe c k valid,
        λ k v. insert_safe c k v valid,
        λ k. remove_safe c k valid,
      )
