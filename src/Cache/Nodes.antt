-- ===== src/Cache/Nodes.antt =====
-- Nodes of the cache's list: what a search by key finds, and what the list operations keep.
use mathlib.Core.Logic.{ite}
use mathlib.Core.Path.{subst}
use pinpoint_cpp_agent.Common.{
  ℕ, ◌+◌, ◌≡◌, ◌≢◌, Option, none, some, List, [], ◌∷◌, arith, length, All, refl, sym, ◌∙◌, ◌==◌,
  Bool-cases, inl, inr, All_mono,
}
use pinpoint_cpp_agent.Cache.{Node, node_at, erase_at, pop_back}

-- No two nodes share a key or an address.
abbrev pub Apart {ℓ} : {K V : Type ℓ} → List (Node K V) → Type ℓ
Apart [] = Unit
Apart (n ∷ l) = All (λ m. (m.key ≢ n.key) × (m.addr ≢ n.addr)) l × Apart l

module _ {ℓ κ} {K V : Type ℓ} (P : Node K V → Type κ) where
  pub All-erase_at : (a : ℕ) (l : List (Node K V)) → All P l → All P (erase_at a l)
  unfolding erase_at
  All-erase_at a [] h = tt
  All-erase_at a (n ∷ l) h = ground (arith, All-erase_at a l)

  pub All-pop_back : (l : List (Node K V)) → All P l → All P (pop_back l)
  unfolding pop_back
  All-pop_back [] h = tt
  All-pop_back (n ∷ []) h = tt
  All-pop_back (n ∷ m ∷ l) h = (h.0, All-pop_back (m ∷ l) h.1)

module _ {ℓ} {K V : Type ℓ} where
  pub Apart-erase_at : (a : ℕ) (l : List (Node K V)) → Apart l → Apart (erase_at a l)
  unfolding erase_at
  Apart-erase_at a [] h = tt
  Apart-erase_at a (n ∷ l) h = ground (
    arith,
    Apart-erase_at a l,
    All-erase_at (λ (m : Node K V). (m.key ≢ n.key) × (m.addr ≢ n.addr)) a l,
  )

  pub Apart-pop_back : (l : List (Node K V)) → Apart l → Apart (pop_back l)
  unfolding pop_back
  Apart-pop_back [] h = tt
  Apart-pop_back (n ∷ []) h = tt
  Apart-pop_back (n ∷ m ∷ l) h = (
    All-pop_back (λ (m : Node K V). (m.key ≢ n.key) × (m.addr ≢ n.addr)) (m ∷ l) h.0,
    Apart-pop_back (m ∷ l) h.1,
  )

  -- No node has the address of one that was erased.
  pub node_at-erase_at : (a : ℕ) (l : List (Node K V)) → Apart l → node_at a (erase_at a l) ≡ none
  unfolding node_at erase_at
  node_at-erase_at a [] h = refl
  node_at-erase_at a (n ∷ l) h = elim (Bool-cases (n.addr == a)) [
    | inl e ↦
        let same : n.addr ≡ a = ground arith in
        rw e (no_node a l (All_mono l (λ m k. λ f. k.1 (f ∙ sym same)) h.0))
    | inr e ↦ rw (e, node_at, e) (node_at-erase_at a l h.1)
  ]
    where
      no_node : (a : ℕ) (l : List (Node K V)) → All (λ m. m.addr ≢ a) l → node_at a l ≡ none
      no_node a [] h = refl
      no_node a (m ∷ l) h = ground (arith, no_node a l)

module _ {ℓ} {K V : Type ℓ} (dec : Discrete K) where
  -- the first node with the key
  unfoldable pub key_at : K → List (Node K V) → Option (Node K V)
  key_at k [] = none
  key_at k (n ∷ l) = ite (dec n.key k) (some n) (key_at k l)

  pub key-key_at : (k : K) (l : List (Node K V)) (n : Node K V) → key_at k l ≡ some n → n.key ≡ k
  unfolding key_at
  key-key_at k [] n h = cc
  key-key_at k (m ∷ l) n h = ground (arith, key-key_at k l n)

  pub All-key_at {κ} :
      (P : Node K V → Type κ) (k : K) (l : List (Node K V)) (n : Node K V)
      → All P l
      → key_at k l ≡ some n
      → P n
  unfolding key_at
  All-key_at P k [] n a h = absurd (ground arith)
  All-key_at P k (m ∷ l) n a h = elim (dec m.key k) [
    | yes p ↦ let e : m ≡ n = ground arith in subst P e a.0
    | no p ↦ All-key_at P k l n a.1 (ground arith)
  ]

  pub node_at-key_at :
      (k : K) (l : List (Node K V)) (n : Node K V)
      → Apart l
      → key_at k l ≡ some n
      → node_at n.addr l ≡ some n
  unfolding key_at node_at
  node_at-key_at k [] n a h = cc
  node_at-key_at k (m ∷ l) n a h = elim (dec m.key k) [
    | yes p ↦ ground arith
    | no p ↦
        let rest : key_at k l ≡ some n = ground arith in
        ground (
          arith,
          node_at-key_at k l n a.1 rest,
          All-key_at (λ (i : Node K V). (i.key ≢ m.key) × (i.addr ≢ m.addr)) k l n a.0 rest,
        )
  ]

  pub length-erase_at :
      (a : ℕ) (l : List (Node K V)) (n : Node K V)
      → node_at a l ≡ some n
      → length (erase_at a l) + 1 ≡ length l
  unfolding node_at erase_at
  length-erase_at a [] n h = cc
  length-erase_at a (m ∷ l) n h = ground (arith, length-erase_at a l n)
