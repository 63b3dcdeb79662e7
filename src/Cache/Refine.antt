-- ===== src/Cache/Refine.antt =====
-- The cache of nodes and iterators implements the list of entries.
use mathlib.Core.Logic.{if_pos, if_neg}
use mathlib.Core.Path.{subst}
use pinpoint_cpp_agent.Common.{
  ℕ, suc, ◌-◌, ◌<◌, ◌≡◌, ◌⊎◌, refl, sym, ◌∙◌, map, true, false, none, some, List, [], ◌∷◌, arith,
  ltb, if◌then◌else◌, length, take, All_mono, none≢some, Option-cases, Bool-cases, inl, inr, Bool,
  ap, some_inj,
}
use pinpoint_cpp_agent.Cache.{
  Node, Lru, init, hit, miss, hit_while_full, get_fast, promote, insert_or_promote, remove,
  get_miss, get, map_set, erase_at, erase_entry, reads_freed, node_at,
}
use pinpoint_cpp_agent.Cache.Nodes.{
  key_at, node_at-key_at, length-erase_at, All-erase_at, Apart-erase_at, node_at-erase_at,
}
use pinpoint_cpp_agent.Cache.Keys.{key_at-erase_at}
use pinpoint_cpp_agent.Cache.Spec.{
  entry_of, entries, IsValid, find_entry, remove_entry, get_spec, addr_of,
}
use pinpoint_cpp_agent.Cache.Promote.{
  find_entry-key_at, find_entry-none, remove_entry-erase_at, promoted, promote_hit, insert_hit,
  promoted-IsValid, entries-promoted,
}
use pinpoint_cpp_agent.Cache.Insert.{insert_miss, length-map}

remove_entry_absent {ℓ} :
    {K V : Type ℓ} (dec : Discrete K) (k : K) (l : List (Node K V))
    → key_at dec k l ≡ none
    → remove_entry dec k (map entry_of l) ≡ map entry_of l
unfolding key_at remove_entry
remove_entry_absent dec k [] h = refl
remove_entry_absent dec k (n ∷ l) h = ground (arith, remove_entry_absent dec k l)

module _ {ℓ} {K V : Type ℓ} (dec : Discrete K) (c : Lru K V) (valid : IsValid dec c) (k : K) where
  -- How the promotion of a key ends: the key is gone, or its entry moves to the front.
  abbrev pub Promotes : Type ℓ
  Promotes =
      ((find_entry dec k (entries c) ≡ none) × (promote dec c k ≡ some (c, none)))
      ⊎ ((v : V) × (c' : Lru K V) × (find_entry dec k (entries c) ≡ some v)
          × (promote dec c k ≡ some (c', some v))
          × IsValid dec c'
          × (entries c' ≡ (k, v) ∷ remove_entry dec k (entries c))
          × (c'.max_size ≡ c.max_size))

  pub promote-Promotes : Promotes
  unfolding promote
  promote-Promotes = elim (Option-cases (key_at dec k c.items)) [
    | inl absent ↦ inl (find_entry-none dec k c.items absent, ground (arith, valid.keyed k))
    | inr (n, here) ↦ inr (
      n.value,
      promoted dec c n,
      find_entry-key_at dec k c.items n here,
      promote_hit dec c valid k n here,
      promoted-IsValid dec c valid k n here,
      entries-promoted dec c valid k n here,
      refl,
    )
  ]

  -- How the insertion of a key ends: the entry that was there, or the new one, is in front.
  abbrev pub Inserts : V → Type ℓ
  Inserts v =
      ((c' : Lru K V) × (find_entry dec k (entries c) ≡ none)
        × (insert_or_promote dec c k v ≡ some (c', record { value = v; found = false }))
        × IsValid dec c'
        × (entries c' ≡ take c.max_size ((k, v) ∷ entries c))
        × (c'.max_size ≡ c.max_size))
      ⊎ ((w : V) × (c' : Lru K V) × (find_entry dec k (entries c) ≡ some w)
          × (insert_or_promote dec c k v ≡ some (c', record { value = w; found = true }))
          × IsValid dec c'
          × (entries c' ≡ (k, w) ∷ remove_entry dec k (entries c))
          × (c'.max_size ≡ c.max_size))

  pub insert-Inserts : (v : V) → Inserts v
  insert-Inserts v = elim (Option-cases (key_at dec k c.items)) [
    | inl absent ↦
        let (c', run, keeps, same, size) = insert_miss dec c valid k v absent in
        inl (c', find_entry-none dec k c.items absent, run, keeps, same, size)
    | inr (n, here) ↦
        let keeps = promoted-IsValid dec c valid k n here in
        inr (
          n.value,
          record (promoted dec c n) { next = suc c.next },
          find_entry-key_at dec k c.items n here,
          insert_hit dec c valid k n here v,
          record {
            positive = keeps.positive;
            keyed = keeps.keyed;
            sized = keeps.sized;
            bounded = keeps.bounded;
            apart = keeps.apart;
            fresh = All_mono (promoted dec c n).items (λ i h. omega arith) keeps.fresh;
          },
          entries-promoted dec c valid k n here,
          refl,
        )
  ]

  -- The shared-lock section never reads a dangling iterator, and finds what the list holds.
  pub fast-find_entry : get_fast dec c k ≡ elim (find_entry dec k (entries c)) [
    | none ↦ miss
    | some v ↦ if ltb c.size c.max_size then hit v else hit_while_full
  ]
  unfolding get_fast
  fast-find_entry = elim (Option-cases (key_at dec k c.items)) [
    | inl absent ↦ rw (find_entry-none dec k c.items absent) (ground (arith, valid.keyed k))
    | inr (n, here) ↦
        rw (find_entry-key_at dec k c.items n here)
          (ground (arith, valid.keyed k, node_at-key_at dec k c.items n valid.apart))
  ]

  -- The erasures keep the invariant and take the entry of the key off the list, if there is one.
  erase_entry-remove_entry :
      IsValid dec (erase_entry dec c k)
      × (entries (erase_entry dec c k) ≡ remove_entry dec k (entries c))
  unfolding erase_entry
  erase_entry-remove_entry = elim (Option-cases (key_at dec k c.items)) [
    | inl absent ↦
        let same : erase_entry dec c k ≡ c = ground (arith, valid.keyed k) in
        rw same (valid, sym (remove_entry_absent dec k c.items absent))
    | inr (n, here) ↦
        let l = erase_at n.addr c.items in
        let gone : erase_entry dec c k
            ≡ record c { items = l; find = map_set dec c.find k none; size = c.size - 1 } =
          ground (arith, valid.keyed k) in
        rw gone (
          record {
            positive = valid.positive;
            keyed = λ j. elim (dec j k) [
              | yes p ↦
                  rw (if_pos _ p, key_at-erase_at dec k j c.items n valid.apart here, if_pos _ p)
              | no p ↦
                  rw (if_neg _ p, key_at-erase_at dec k j c.items n valid.apart here, if_neg _ p)
                    (valid.keyed j)
            ];
            sized = omega (
              arith,
              valid.sized,
              length-erase_at dec n.addr c.items n
                  (node_at-key_at dec k c.items n valid.apart here),
            );
            bounded = omega (arith, valid.bounded);
            apart = Apart-erase_at n.addr c.items valid.apart;
            fresh = All-erase_at (λ (i : Node K V). i.addr < c.next) n.addr c.items valid.fresh;
          },
          remove_entry-erase_at dec k c.items n valid.apart here,
        )
  ]

  pub remove-Removes :
      (rehashes : Bool) (c' : Lru K V)
      → remove dec rehashes c k ≡ some c'
      → IsValid dec c' × (entries c' ≡ remove_entry dec k (entries c))
  unfolding remove
  remove-Removes rehashes c' run = elim (Bool-cases (reads_freed dec rehashes c k)) [
    | inl freed ↦
        absurd
          (none≢some (ap (λ b. if b then none else some (erase_entry dec c k)) (sym freed) ∙ run))
    | inr safe ↦
        let same : erase_entry dec c k ≡ c' =
          some_inj (ap (λ b. if b then none else some (erase_entry dec c k)) (sym safe) ∙ run) in
        subst (λ (x : Lru K V). IsValid dec x × (entries x ≡ remove_entry dec k (entries c))) same
          erase_entry-remove_entry
  ]

  -- A removal from a map that does not hash the key again reads nothing that was freed.
  pub remove_stored : remove dec false c k ≡ some (erase_entry dec c k)
  unfolding remove reads_freed
  remove_stored = elim (Option-cases (c.find k)) [
    | inl e ↦ rw (reads_freed, e) refl
    | inr (a, e) ↦ elim (Option-cases (node_at a (erase_at a c.items))) [
      | inl f ↦ rw (reads_freed, e, f) refl
      | inr (n, f) ↦ rw (reads_freed, e, f) refl
    ]
  ]

  -- In a cache that is in order, removing a key that it holds reads freed memory, if the map
  -- hashes the key of the entry that it erases again: the node that owns the key is gone by then.
  pub remove_dangling : (v : V) → find_entry dec k (entries c) ≡ some v → remove dec true c k ≡ none
  unfolding remove reads_freed
  remove_dangling v held = elim (Option-cases (key_at dec k c.items)) [
    | inl absent ↦ absurd (none≢some (sym (find_entry-none dec k c.items absent) ∙ held))
    | inr (n, here) ↦
        let found : c.find k ≡ some n.addr = valid.keyed k ∙ ap addr_of here in
        let gone = node_at-erase_at n.addr c.items valid.apart in rw (reads_freed, found, gone) refl
  ]

module _ {ℓ κ} {K V : Type ℓ} {S : Type κ} (dec : Discrete K) (gen : S → V × S) (s : S)
    (max_size : ℕ) (l : List (K × V)) (k : K) where
  get_spec_miss :
      find_entry dec k l ≡ none
      → get_spec dec gen s max_size l k ≡ (
        (gen s).1,
        take max_size ((k, (gen s).0) ∷ l),
        record { value = (gen s).0; found = false },
      )
  unfolding get_spec
  get_spec_miss h = rw (h, get_spec)

  get_spec_hit :
      {v : V}
      → find_entry dec k l ≡ some v
      → get_spec dec gen s max_size l k ≡ (
        s,
        (if ltb (length l) max_size then l else (k, v) ∷ remove_entry dec k l),
        record { value = v; found = true },
      )
  unfolding get_spec
  get_spec_hit h = rw (h, get_spec)

-- `get` returns what the list of entries returns, leaves the same entries, and keeps the cache
-- valid; in particular it never reads through a dangling iterator.
pub get-get_spec {ℓ κ} :
    {K V : Type ℓ} {S : Type κ} (dec : Discrete K) (gen : S → V × S) (s : S) (c : Lru K V) (k : K)
    → IsValid dec c
    → (c' : Lru K V) × (get dec gen s c k
        ≡ some (
          (get_spec dec gen s c.max_size (entries c) k).0,
          c',
          (get_spec dec gen s c.max_size (entries c) k).2,
        ))
      × IsValid dec c'
      × (entries c' ≡ (get_spec dec gen s c.max_size (entries c) k).1)
      × (c'.max_size ≡ c.max_size)
unfolding get
get-get_spec dec gen s c k valid = elim (promote-Promotes dec c valid k) [
  | inl (absent, _) ↦ elim (insert-Inserts dec c valid k (gen s).0) [
    | inl (c', _, run, keeps, same, size) ↦
        let fast : get_fast dec c k ≡ miss = fast-find_entry dec c valid k ∙ rw absent in
        rw (get_spec_miss dec gen s c.max_size (entries c) k absent)
          (c', rw (fast, get) (rw (run, get_miss)), keeps, same, size)
    | inr (w, c', here, _, _, _, _) ↦ absurd (none≢some (sym absent ∙ here))
  ]
  | inr (v, c', here, run, keeps, same, size) ↦
      let sz : length (entries c) ≡ c.size = length-map c.items ∙ sym valid.sized in
      elim (Bool-cases (ltb c.size c.max_size)) [
        | inl room ↦
            let fast : get_fast dec c k ≡ hit v = fast-find_entry dec c valid k ∙ rw (here, room) in
            rw (get_spec_hit dec gen s c.max_size (entries c) k here)
              (c, rw (fast, get), valid, rw (sz, room), refl)
        | inr full ↦
            let fast : get_fast dec c k ≡ hit_while_full =
              fast-find_entry dec c valid k ∙ rw (here, full) in
            rw (get_spec_hit dec gen s c.max_size (entries c) k here)
              (c', rw (fast, get) (rw (run, get)), keeps, rw (sz, full) same, size)
      ]
]

-- A cache of size 0 drops the node that it just made, and then reads the result through it.
pub insert_dangling {ℓ} :
    {K V : Type ℓ} (dec : Discrete K) (k : K) (v : V) → insert_or_promote dec (init 0) k v ≡ none
unfolding insert_or_promote init
insert_dangling dec k v = ground arith
