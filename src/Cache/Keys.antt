-- ===== src/Cache/Keys.antt =====
-- What a search by key finds after each list operation of the cache.
use mathlib.Core.Logic.{ite}
use mathlib.Core.Path.{subst}
use pinpoint_cpp_agent.Common.{
  ◌+◌, ◌≡◌, ◌≢◌, refl, sym, none, some, List, [], ◌∷◌, arith, length, All, All_mono,
}
use pinpoint_cpp_agent.Cache.{Node, erase_at, back, pop_back}
use pinpoint_cpp_agent.Cache.Nodes.{Apart, key_at, All-key_at, Apart-erase_at}

module _ {ℓ} {K V : Type ℓ} where
  -- The last node of a list that is not empty is there.
  pub back_cons : (n : Node K V) (l : List (Node K V)) → (b : Node K V) × (back (n ∷ l) ≡ some b)
  unfolding back
  back_cons n [] = (n, refl)
  back_cons n (m ∷ l) = back_cons m l

  pub All-back {κ} :
      (P : Node K V → Type κ) (l : List (Node K V)) (b : Node K V) → All P l → back l ≡ some b → P b
  unfolding back
  All-back P [] b a h = absurd (ground arith)
  All-back P (n ∷ []) b a h = let e : n ≡ b = ground arith in subst P e a.0
  All-back P (n ∷ m ∷ l) b a h = All-back P (m ∷ l) b a.1 h

  pub length-pop_back :
      (l : List (Node K V)) (b : Node K V) → back l ≡ some b → length (pop_back l) + 1 ≡ length l
  unfolding back pop_back
  length-pop_back [] b h = cc
  length-pop_back (n ∷ []) b h = omega arith
  length-pop_back (n ∷ m ∷ l) b h = omega (arith, length-pop_back (m ∷ l) b h)

module _ {ℓ} {K V : Type ℓ} (dec : Discrete K) where
  -- A key that no node has is not found.
  pub key_at-absent : (k : K) (l : List (Node K V)) → All (λ m. m.key ≢ k) l → key_at dec k l ≡ none
  unfolding key_at
  key_at-absent k [] h = refl
  key_at-absent k (n ∷ l) h = ground (arith, key_at-absent k l)

  -- Erasing the node of a key hides that key and no other.
  pub key_at-erase_at :
      (k j : K) (l : List (Node K V)) (n : Node K V)
      → Apart l
      → key_at dec k l ≡ some n
      → key_at dec j (erase_at n.addr l) ≡ ite (dec j k) none (key_at dec j l)
  unfolding key_at erase_at
  key_at-erase_at k j [] n a h = cc
  key_at-erase_at k j (m ∷ l) n a h = elim (dec m.key k) [
    | yes p ↦
        let absent : key_at dec k l ≡ none =
          key_at-absent k l (rw (← p) (All_mono l (λ i h. h.0) a.0)) in
        ground (arith, absent)
    | no p ↦
        let rest : key_at dec k l ≡ some n = ground arith in
        ground (
          arith,
          key_at-erase_at k j l n a.1 rest,
          All-key_at dec (λ (i : Node K V). (i.key ≢ m.key) × (i.addr ≢ m.addr)) k l n a.0 rest,
        )
  ]

  -- The other nodes still share nothing with the erased one.
  Apart-others :
      (k : K) (l : List (Node K V)) (n : Node K V)
      → Apart l
      → key_at dec k l ≡ some n
      → All (λ m. (m.key ≢ n.key) × (m.addr ≢ n.addr)) (erase_at n.addr l)
  unfolding key_at erase_at
  Apart-others k [] n a h = absurd (ground arith)
  Apart-others k (m ∷ l) n a h = elim (dec m.key k) [
    | yes p ↦
        let e : m ≡ n = ground arith in
        let same : erase_at n.addr (m ∷ l) ≡ l = ground arith in
        rw same (subst (λ (i : Node K V). All (λ j. (j.key ≢ i.key) × (j.addr ≢ i.addr)) l) e a.0)
    | no p ↦
        let rest : key_at dec k l ≡ some n = ground arith in
        let apart =
          All-key_at dec (λ (i : Node K V). (i.key ≢ m.key) × (i.addr ≢ m.addr)) k l n a.0 rest in
        let keep : erase_at n.addr (m ∷ l) ≡ m ∷ erase_at n.addr l = ground arith in
        rw keep ((λ e. apart.0 (sym e), λ e. apart.1 (sym e)), Apart-others k l n a.1 rest)
  ]

  -- Moving the node of a key to the front keeps the nodes apart.
  pub Apart-promote :
      (k : K) (l : List (Node K V)) (n : Node K V)
      → Apart l
      → key_at dec k l ≡ some n
      → Apart (n ∷ erase_at n.addr l)
  Apart-promote k l n a h = (Apart-others k l n a h, Apart-erase_at n.addr l a)

  -- Dropping the last node hides its key and no other.
  pub key_at-pop_back :
      (j : K) (l : List (Node K V)) (b : Node K V)
      → Apart l
      → back l ≡ some b
      → key_at dec j (pop_back l) ≡ ite (dec j b.key) none (key_at dec j l)
  unfolding key_at back pop_back
  key_at-pop_back j [] b a h = cc
  key_at-pop_back j (n ∷ []) b a h = ground arith
  key_at-pop_back j (n ∷ m ∷ l) b a h = ground (
    arith,
    key_at-pop_back j (m ∷ l) b a.1 h,
    All-back (λ (i : Node K V). (i.key ≢ n.key) × (i.addr ≢ n.addr)) (m ∷ l) b a.0 h,
  )
