-- ===== src/Cache.antt =====
-- src/cache.h: `LruCacheImpl`. The list is a sequence of nodes with their addresses, front first;
-- an iterator is an address, and a read through an iterator that is not in the list is a fault
-- (`none`). The hash map is its `find` and its `size`, since nothing observes its order.
-- `get` is composed of the three critical sections that the code has: the shared-lock lookup, the
-- promotion, and the insertion after the generator ran.
mod Nodes
mod Keys
mod Promote
mod Insert
pub mod Spec
pub mod Refine
pub mod Shared
pub mod Ids
pub mod Tests
use mathlib.Core.Logic.{ite}
use pinpoint_cpp_agent.Common.{
  ℕ, zero, suc, ◌+◌, ◌-◌, Bool, true, false, Option, none, some, List, [], ◌∷◌, ltb, ◌==◌,
  if◌then◌else◌,
}

pub record Node {ℓ} (K V : Type ℓ) : Type ℓ where
  pub addr : ℕ
  pub key : K
  pub value : V

-- `cache_list_`, `cache_map_` and `max_size_`; `next` is an address that no node has had.
pub record Lru {ℓ} (K V : Type ℓ) : Type ℓ where
  pub items : List (Node K V)
  pub find : K → Option ℕ
  pub size : ℕ
  pub next : ℕ
  pub max_size : ℕ

-- `LruCacheResult`
pub record CacheResult {ℓ} (V : Type ℓ) : Type ℓ where
  pub value : V
  pub found : Bool

-- How the shared-lock section ends; `fault` is a read through a dangling iterator.
pub data Fast {ℓ} (V : Type ℓ) : Type ℓ where
  hit : V → Fast V
  hit_while_full miss fault : Fast V

unfoldable pub init {ℓ} : {K V : Type ℓ} → ℕ → Lru K V
init max_size = record { items = []; find = λ k. none; size = 0; next = 0; max_size = max_size }

module _ {ℓ} {K V : Type ℓ} where
  -- the node that an iterator refers to
  unfoldable pub node_at : ℕ → List (Node K V) → Option (Node K V)
  node_at a [] = none
  node_at a (n ∷ l) = if n.addr == a then some n else node_at a l

  -- `list::erase`
  unfoldable pub erase_at : ℕ → List (Node K V) → List (Node K V)
  erase_at a [] = []
  erase_at a (n ∷ l) = if n.addr == a then l else n ∷ erase_at a l

  -- `splice(begin(), list, it)`, and the node that is then in front
  unfoldable pub splice_front : ℕ → List (Node K V) → Option (Node K V × List (Node K V))
  unfolding node_at erase_at
  splice_front a l = elim (node_at a l) [ none ↦ none | some n ↦ some (n, n ∷ erase_at a l) ]

  unfoldable pub back : List (Node K V) → Option (Node K V)
  back [] = none
  back (n ∷ []) = some n
  back (n ∷ m ∷ l) = back (m ∷ l)

  unfoldable pub pop_back : List (Node K V) → List (Node K V)
  pop_back [] = []
  pop_back (n ∷ []) = []
  pop_back (n ∷ m ∷ l) = n ∷ pop_back (m ∷ l)

-- `try_emplace` of an absent key, and `erase`, as the new `find`
abbrev pub map_set {ℓ} : {K : Type ℓ} → Discrete K → (K → Option ℕ) → K → Option ℕ → K → Option ℕ
map_set dec find k a j = ite (dec j k) a (find j)

module _ {ℓ} {K V : Type ℓ} (dec : Discrete K) where
  -- the shared-lock section of `get`
  unfoldable pub get_fast : Lru K V → K → Fast V
  unfolding node_at
  get_fast c k = elim (c.find k) [
    | none ↦ miss
    | some a ↦
        if ltb c.size c.max_size
        then elim (node_at a c.items) [ none ↦ fault | some n ↦ hit n.value ]
        else hit_while_full
  ]

  -- the exclusive section that promotes a hit: no value if the key is gone by then
  unfoldable pub promote : Lru K V → K → Option (Lru K V × Option V)
  unfolding splice_front
  promote c k = elim (c.find k) [
    | none ↦ some (c, none)
    | some a ↦ elim (splice_front a c.items) [
      | none ↦ none
      | some (n, l) ↦ some (record c { items = l }, some n.value)
    ]
  ]

  -- the tail of `insert_or_promote`, with the new node `n` in front and in the map
  unfoldable pub evict : Lru K V → Node K V → Option (Lru K V × CacheResult V)
  unfolding node_at back pop_back
  evict c n =
      if ltb c.max_size c.size
      then elim (back c.items) [
        | none ↦ none
        | some b ↦
            let l = pop_back c.items in
            elim (node_at n.addr l) [
              | none ↦ none
              | some m ↦ some (
                record c { items = l; find = map_set dec c.find b.key none; size = c.size - 1 },
                record { value = m.value; found = false },
              )
            ]
      ]
      else some (c, record { value = n.value; found = false })

  -- The speculative node takes the next address; it is dropped when the key is in the map.
  unfoldable pub insert_or_promote : Lru K V → K → V → Option (Lru K V × CacheResult V)
  unfolding splice_front evict
  insert_or_promote c k v =
      let n : Node K V = record { addr = c.next; key = k; value = v } in
      elim (c.find k) [
        | some a ↦ elim (splice_front a c.items) [
          | none ↦ none
          | some (m, l) ↦
              some (
                record c { items = l; next = suc c.next },
                record { value = m.value; found = true },
              )
        ]
        | none ↦
            evict
              (record c {
                items = n ∷ c.items;
                find = map_set dec c.find k (some c.next);
                size = suc c.size;
                next = suc c.next;
              })
              n
      ]

  -- The two erasures of `remove`, when the key is in the map.
  unfoldable pub erase_entry : Lru K V → K → Lru K V
  unfolding erase_at
  erase_entry c k = elim (c.find k) [
    | none ↦ c
    | some a ↦ record c {
      items = erase_at a c.items;
      find = map_set dec c.find k none;
      size = c.size - 1;
    }
  ]

  -- Whether `cache_map_.erase` reads freed memory: the key of the map entry is a view into the list
  -- node, which is erased before it. `rehashes` says that the map hashes the key again.
  unfoldable pub reads_freed : Bool → Lru K V → K → Bool
  unfolding node_at erase_at
  reads_freed rehashes c k = elim (c.find k) [
    | none ↦ false
    | some a ↦ elim (node_at a (erase_at a c.items)) [ none ↦ rehashes | some n ↦ false ]
  ]

  -- `remove`; none when it reads through the erased node. libstdc++ hashes again with
  -- `ApiCacheKeyHash`, and stores the hash codes of strings.
  unfoldable pub remove : Bool → Lru K V → K → Option (Lru K V)
  unfolding erase_entry reads_freed
  remove rehashes c k = if reads_freed rehashes c k then none else some (erase_entry c k)

  -- What `get` does on a miss: the generator runs on the state `s` that it closes over.
  unfoldable pub get_miss {κ} :
      {S : Type κ} → (S → V × S) → S → Lru K V → K → Option (S × Lru K V × CacheResult V)
  unfolding insert_or_promote
  get_miss gen s c k =
      let (v, s') = gen s in
      elim (insert_or_promote c k v) [ none ↦ none | some (c', r) ↦ some (s', c', r) ]

  -- `get`, run by one thread with no other in between
  unfoldable pub get {κ} :
      {S : Type κ} → (S → V × S) → S → Lru K V → K → Option (S × Lru K V × CacheResult V)
  unfolding get_fast promote get_miss
  get gen s c k = elim (get_fast c k) [
    | hit v ↦ some (s, c, record { value = v; found = true })
    | hit_while_full ↦ elim (promote c k) [
      | none ↦ none
      | some (c', some v) ↦ some (s, c', record { value = v; found = true })
      | some (c', none) ↦ get_miss gen s c' k
    ]
    | miss ↦ get_miss gen s c k
    | fault ↦ none
  ]
