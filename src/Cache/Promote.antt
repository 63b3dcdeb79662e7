-- ===== src/Cache/Promote.antt =====
-- A hit: the node of the key moves to the front.
use pinpoint_cpp_agent.Common.{
  ℕ, suc, ◌<◌, ◌≡◌, ◌≢◌, refl, true, none, some, List, [], ◌∷◌, map, arith,
}
use pinpoint_cpp_agent.Cache.{Node, Lru, init, erase_at, promote, insert_or_promote}
use pinpoint_cpp_agent.Cache.Nodes.{
  Apart, key_at, key-key_at, All-key_at, node_at-key_at, length-erase_at, All-erase_at,
}
use pinpoint_cpp_agent.Cache.Keys.{key_at-erase_at, Apart-promote}
use pinpoint_cpp_agent.Cache.Spec.{entry_of, entries, IsValid, find_entry, remove_entry}

module _ {ℓ} {K V : Type ℓ} (dec : Discrete K) where
  -- A new cache of a positive size is valid and empty.
  pub init-IsValid : (n : ℕ) → 0 < n → IsValid dec (init {K = K} {V = V} n)
  unfolding init key_at
  init-IsValid n h = record {
    positive = h;
    keyed = λ k. refl;
    sized = refl;
    bounded = omega arith;
    apart = tt;
    fresh = tt;
  }

  pub find_entry-key_at :
      (k : K) (l : List (Node K V)) (n : Node K V)
      → key_at dec k l ≡ some n
      → find_entry dec k (map entry_of l) ≡ some n.value
  unfolding key_at find_entry
  find_entry-key_at k [] n h = cc
  find_entry-key_at k (m ∷ l) n h = ground (arith, find_entry-key_at k l n)

  pub find_entry-none :
      (k : K) (l : List (Node K V))
      → key_at dec k l ≡ none
      → find_entry dec k (map entry_of l) ≡ none
  unfolding key_at find_entry
  find_entry-none k [] h = refl
  find_entry-none k (m ∷ l) h = ground (arith, find_entry-none k l)

  pub remove_entry-erase_at :
      (k : K) (l : List (Node K V)) (n : Node K V)
      → Apart l
      → key_at dec k l ≡ some n
      → map entry_of (erase_at n.addr l) ≡ remove_entry dec k (map entry_of l)
  unfolding key_at erase_at remove_entry
  remove_entry-erase_at k [] n a h = cc
  remove_entry-erase_at k (m ∷ l) n a h = elim (dec m.key k) [
    | yes p ↦ ground arith
    | no p ↦
        let rest : key_at dec k l ≡ some n = ground arith in
        ground (
          arith,
          remove_entry-erase_at k l n a.1 rest,
          All-key_at dec (λ (i : Node K V). (i.key ≢ m.key) × (i.addr ≢ m.addr)) k l n a.0 rest,
        )
  ]

  -- The cache after a promotion.
  abbrev pub promoted : Lru K V → Node K V → Lru K V
  promoted c n = record c { items = n ∷ erase_at n.addr c.items }

  module _ (c : Lru K V) (valid : IsValid dec c) (k : K) (n : Node K V)
      (here : key_at dec k c.items ≡ some n) where
    pub promote_hit : promote dec c k ≡ some (promoted c n, some n.value)
    unfolding promote
    promote_hit = ground (arith, valid.keyed k, node_at-key_at dec k c.items n valid.apart)

    pub promoted-IsValid : IsValid dec (promoted c n)
    unfolding key_at
    promoted-IsValid = record {
      positive = valid.positive;
      keyed = λ j. ground (
        arith,
        valid.keyed j,
        key_at-erase_at dec k j c.items n valid.apart,
        key-key_at dec k c.items n,
      );
      sized = omega (
        arith,
        valid.sized,
        length-erase_at dec n.addr c.items n (node_at-key_at dec k c.items n valid.apart here),
      );
      bounded = valid.bounded;
      apart = Apart-promote dec k c.items n valid.apart here;
      fresh = (
        All-key_at dec (λ (i : Node K V). i.addr < c.next) k c.items n valid.fresh here,
        All-erase_at (λ (i : Node K V). i.addr < c.next) n.addr c.items valid.fresh,
      );
    }

    pub entries-promoted : entries (promoted c n) ≡ (k, n.value) ∷ remove_entry dec k (entries c)
    entries-promoted =
        ground (arith, remove_entry-erase_at k c.items n valid.apart, key-key_at dec k c.items n)

    pub insert_hit :
        (v : V)
        → insert_or_promote dec c k v
          ≡ some (
            record (promoted c n) { next = suc c.next },
            record { value = n.value; found = true },
          )
    unfolding insert_or_promote
    insert_hit v = ground (arith, valid.keyed k, node_at-key_at dec k c.items n valid.apart)
