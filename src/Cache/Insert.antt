-- ===== src/Cache/Insert.antt =====
-- A miss: the new node goes in front, and what no longer fits is dropped at the back.
use mathlib.Core.Logic.{if_pos, if_neg}
use pinpoint_cpp_agent.Common.{
  ℕ, zero, suc, ◌<◌, ◌≡◌, ◌≢◌, refl, sym, ap, false, none, some, List, [], ◌∷◌, map, arith, ltb,
  length, take, take_of_length-le, All, All_mono, inl, inr, Bool-cases, ltb→lt,
}
use pinpoint_cpp_agent.Cache.{Node, Lru, node_at, pop_back, map_set, evict, insert_or_promote}
use pinpoint_cpp_agent.Cache.Nodes.{Apart, key_at, All-pop_back, Apart-pop_back}
use pinpoint_cpp_agent.Cache.Keys.{back_cons, length-pop_back, key_at-pop_back}
use pinpoint_cpp_agent.Cache.Spec.{addr_of, entry_of, entries, IsValid}

module _ {ℓ} {K V : Type ℓ} where
  take-pop_back :
      (n : ℕ) (l : List (Node K V))
      → length l ≡ suc n
      → map entry_of (pop_back l) ≡ take n (map entry_of l)
  unfolding pop_back
  take-pop_back n [] h = absurd (omega arith)
  take-pop_back zero (m ∷ []) h = refl
  take-pop_back (suc n) (m ∷ []) h = absurd (omega arith)
  take-pop_back zero (m ∷ i ∷ l) h = absurd (omega arith)
  take-pop_back (suc n) (m ∷ i ∷ l) h =
      ap (◌∷◌ (entry_of m)) (take-pop_back n (i ∷ l) (omega arith))

  -- The front node is still found when the last of at least two nodes goes.
  front_stays :
      (n : Node K V) (l : List (Node K V))
      → 0 < length l
      → node_at n.addr (pop_back (n ∷ l)) ≡ some n
  unfolding pop_back node_at
  front_stays n [] h = absurd (omega arith)
  front_stays n (m ∷ l) h = ground arith

  pub length-map : (l : List (Node K V)) → length (map entry_of l) ≡ length l
  length-map [] = refl
  length-map (n ∷ l) = ap suc (length-map l)

module _ {ℓ} {K V : Type ℓ} (dec : Discrete K) where
  -- A key that is not found differs from the key of every node.
  absent_keys : (k : K) (l : List (Node K V)) → key_at dec k l ≡ none → All (λ m. m.key ≢ k) l
  unfolding key_at
  absent_keys k [] h = tt
  absent_keys k (n ∷ l) h = ground (arith, absent_keys k l)

  both :
      (k : K) (a : ℕ) (l : List (Node K V))
      → All (λ m. m.key ≢ k) l
      → All (λ m. m.addr < a) l
      → All (λ m. (m.key ≢ k) × (m.addr ≢ a)) l
  both k a [] h g = tt
  both k a (n ∷ l) h g = ((h.0, omega arith), both k a l h.1 g.1)

  module _ (c : Lru K V) (valid : IsValid dec c) (k : K) (v : V)
      (absent : key_at dec k c.items ≡ none) where
    abbrev pub fresh_node : Node K V
    fresh_node = record { addr = c.next; key = k; value = v }

    -- The cache with the new node, before the size is looked at.
    abbrev pub grown : Lru K V
    grown = record c {
      items = fresh_node ∷ c.items;
      find = map_set dec c.find k (some c.next);
      size = suc c.size;
      next = suc c.next;
    }

    grown-Apart : Apart grown.items
    grown-Apart = (both k c.next c.items (absent_keys k c.items absent) valid.fresh, valid.apart)

    grown_fresh : All (λ n. n.addr < suc c.next) grown.items
    grown_fresh = (omega arith, All_mono c.items (λ i h. omega arith) valid.fresh)

    grown_keyed : (j : K) → grown.find j ≡ addr_of (key_at dec j grown.items)
    unfolding key_at
    grown_keyed j = elim (dec j k) [
      | yes p ↦ rw (if_pos _ p, if_pos (dec k j) (sym p))
      | no p ↦ rw (if_neg _ p, if_neg (dec k j) (λ e. p (sym e))) (valid.keyed j)
    ]

    insert_grown : insert_or_promote dec c k v ≡ evict dec grown fresh_node
    unfolding insert_or_promote
    insert_grown = ground (arith, valid.keyed k)

    -- Below the capacity nothing is dropped.
    insert_below :
        c.size < c.max_size
        → (insert_or_promote dec c k v ≡ some (grown, record { value = v; found = false }))
          × IsValid dec grown
          × (entries grown ≡ take c.max_size ((k, v) ∷ entries c))
    unfolding evict
    insert_below room = (
      rw insert_grown (ground arith),
      record {
        positive = valid.positive;
        keyed = grown_keyed;
        sized = omega (arith, valid.sized);
        bounded = omega arith;
        apart = grown-Apart;
        fresh = grown_fresh;
      },
      sym (take_of_length-le _ _ (omega (arith, length-map c.items, valid.sized))),
    )

    -- At the capacity the last node goes, and the rest is as it was.
    insert_full :
        c.size ≡ c.max_size
        → (c' : Lru K V) × (insert_or_promote dec c k v
            ≡ some (c', record { value = v; found = false }))
          × IsValid dec c'
          × (entries c' ≡ take c.max_size ((k, v) ∷ entries c))
          × (c'.max_size ≡ c.max_size)
    unfolding evict node_at
    insert_full full =
        let (b, last) = back_cons fresh_node c.items in
        let l = pop_back grown.items in
        let front : node_at c.next l ≡ some fresh_node =
          front_stays fresh_node c.items (omega (arith, valid.sized, valid.positive)) in
        (
          record grown { items = l; find = map_set dec grown.find b.key none; size = c.size },
          rw insert_grown (ground (arith, last, front)),
          record {
            positive = valid.positive;
            keyed = λ j. elim (dec j b.key) [
              | yes p ↦
                  rw (if_pos _ p, key_at-pop_back dec j grown.items b grown-Apart last, if_pos _ p)
              | no p ↦
                  rw (if_neg _ p, key_at-pop_back dec j grown.items b grown-Apart last, if_neg _ p)
                    (grown_keyed j)
            ];
            sized = omega (arith, valid.sized, length-pop_back grown.items b last);
            bounded = omega arith;
            apart = Apart-pop_back grown.items grown-Apart;
            fresh = All-pop_back (λ (i : Node K V). i.addr < suc c.next) grown.items grown_fresh;
          },
          take-pop_back c.max_size grown.items (omega (arith, valid.sized)),
          refl,
        )

    -- On a miss the insertion never reads a dangling iterator, and drops what no longer fits.
    pub insert_miss :
        (c' : Lru K V) × (insert_or_promote dec c k v
          ≡ some (c', record { value = v; found = false }))
        × IsValid dec c'
        × (entries c' ≡ take c.max_size ((k, v) ∷ entries c))
        × (c'.max_size ≡ c.max_size)
    insert_miss = elim (Bool-cases (ltb c.size c.max_size)) [
      | inl room ↦
          let (run, keeps, same) = insert_below (ltb→lt _ _ room) in (grown, run, keeps, same, refl)
      | inr none_left ↦ insert_full (ground (arith, valid.bounded))
    ]
