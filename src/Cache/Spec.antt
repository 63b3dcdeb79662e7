-- ===== src/Cache/Spec.antt =====
-- What the cache promises: a list of entries, most recently used first, of bounded length.
use mathlib.Core.Logic.{ite}
use pinpoint_cpp_agent.Common.{
  ℕ, ◌<◌, ◌≤◌, ◌≡◌, true, false, Option, none, some, List, [], ◌∷◌, map, ltb, if◌then◌else◌, length,
  take, All,
}
use pinpoint_cpp_agent.Cache.{Node, Lru, CacheResult}
use pinpoint_cpp_agent.Cache.Nodes.{Apart, key_at}

module _ {ℓ} {K V : Type ℓ} where
  abbrev pub addr_of : Option (Node K V) → Option ℕ
  addr_of none = none
  addr_of (some n) = some n.addr

  abbrev pub entry_of : Node K V → K × V
  entry_of n = (n.key, n.value)

  abbrev pub entries : Lru K V → List (K × V)
  entries c = map entry_of c.items

-- The map holds exactly the iterators of the list, and the cache never exceeds its size.
pub record IsValid {ℓ} {K V : Type ℓ} (dec : Discrete K) (c : Lru K V) : Type ℓ where
  pub positive : 0 < c.max_size
  pub keyed : (k : K) → c.find k ≡ addr_of (key_at dec k c.items)
  pub sized : c.size ≡ length c.items
  pub bounded : c.size ≤ c.max_size
  pub apart : Apart c.items
  pub fresh : All (λ n. n.addr < c.next) c.items

module _ {ℓ} {K V : Type ℓ} (dec : Discrete K) where
  unfoldable pub find_entry : K → List (K × V) → Option V
  find_entry k [] = none
  find_entry k ((j, v) ∷ l) = ite (dec j k) (some v) (find_entry k l)

  unfoldable pub remove_entry : K → List (K × V) → List (K × V)
  remove_entry k [] = []
  remove_entry k ((j, v) ∷ l) = ite (dec j k) l ((j, v) ∷ remove_entry k l)

  -- A hit moves to the front once the cache is full; a miss goes in front, and what no longer
  -- fits is the least recently used entry.
  unfoldable pub get_spec {κ} :
      {S : Type κ} → (S → V × S) → S → ℕ → List (K × V) → K → S × List (K × V) × CacheResult V
  unfolding find_entry remove_entry
  get_spec gen s max_size l k = elim (find_entry k l) [
    | some v ↦ (
      s,
      (if ltb (length l) max_size then l else (k, v) ∷ remove_entry k l),
      record { value = v; found = true },
    )
    | none ↦
        let (v, s') = gen s in (s', take max_size ((k, v) ∷ l), record { value = v; found = false })
  ]
