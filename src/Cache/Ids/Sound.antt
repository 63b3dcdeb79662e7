-- ===== src/Cache/Ids/Sound.antt =====
-- Every step keeps what is known of the ids, whatever the other threads do.
use mathlib.Core.Logic.{if_pos, if_neg}
use mathlib.Core.Path.{subst}
use native.Mathlib.Decide.{ℕ_discrete}
use pinpoint_cpp_agent.Common.{
  ℕ, zero, suc, ◌+◌, ◌<◌, ◌≡◌, refl, sym, ◌∙◌, true, false, Option, none, some, List, [], ◌∷◌,
  arith, if◌then◌else◌, take, All, All_mono, some_inj, inl, inr,
}
use pinpoint_cpp_agent.Cache.{Lru, CacheResult, init, promote, insert_or_promote}
use pinpoint_cpp_agent.Cache.Spec.{entries, IsValid, find_entry, remove_entry}
use pinpoint_cpp_agent.Cache.Promote.{init-IsValid}
use pinpoint_cpp_agent.Cache.Refine.{promote-Promotes, insert-Inserts, remove-Removes}
use pinpoint_cpp_agent.Cache.Ids.{
  next_id, update, IdCache, start, Step, generated, promoted, inserted, removed, Reach, here, next,
  IsSound,
}

module _ {K : Type 0} (dec : Discrete K) where
  All-remove_entry :
      (P : K × ℕ → Type 0) (k : K) (l : List (K × ℕ)) → All P l → All P (remove_entry dec k l)
  unfolding remove_entry
  All-remove_entry P k [] h = tt
  All-remove_entry P k ((j, v) ∷ l) h = elim (dec j k) [
    | yes p ↦ rw (if_pos _ p) h.1
    | no p ↦ rw (if_neg _ p) (h.0, All-remove_entry P k l h.1)
  ]

  All-take : (P : K × ℕ → Type 0) (n : ℕ) (l : List (K × ℕ)) → All P l → All P (take n l)
  All-take P zero l h = tt
  All-take P (suc n) [] h = tt
  All-take P (suc n) (e ∷ l) h = (h.0, All-take P n l h.1)

  All-find_entry :
      (P : K × ℕ → Type 0) (k : K) (v : ℕ) (l : List (K × ℕ))
      → All P l
      → find_entry dec k l ≡ some v
      → P (k, v)
  unfolding find_entry
  All-find_entry P k v [] h e = absurd (ground arith)
  All-find_entry P k v ((j, w) ∷ l) h e = elim (dec j k) [
    | yes p ↦ let same : w ≡ v = ground arith in rw (sym p, sym same) h.0
    | no p ↦ All-find_entry P k v l h.1 (ground arith)
  ]

  start-IsSound : (n : ℕ) → 0 < n → IsSound dec (start n)
  unfolding init
  start-IsSound n h = record {
    valid = init-IsValid dec n h;
    waiting = λ v h. cc;
    unused = λ v h. refl;
    cached = tt;
  }

  -- A new owner leaves the owners of the cached ids alone, since the id had none.
  keep_cached :
      (s : IdCache K) (k : K) (v : ℕ) (l : List (K × ℕ))
      → s.owner v ≡ none
      → All (λ e. s.owner e.1 ≡ some e.0) l
      → All (λ e. update s.owner v (some k) e.1 ≡ some e.0) l
  keep_cached s k v l h a = All_mono l (λ e g. ground arith) a

  promote-All :
      (P : K × ℕ → Type 0) (c : Lru K ℕ) (valid : IsValid dec c) (k : K) (c' : Lru K ℕ)
      (o : Option ℕ)
      → promote dec c k ≡ some (c', o)
      → All P (entries c)
      → IsValid dec c' × All P (entries c')
  promote-All P c valid k c' o run a = elim (promote-Promotes dec c valid k) [
    | inl (_, gone) ↦
        let e = some_inj (sym gone ∙ run) in
        subst (λ (x : Lru K ℕ × Option ℕ). IsValid dec x.0 × All P (entries x.0)) e (valid, a)
    | inr (v, d, found, moved, keeps, same, _) ↦
        let e = some_inj (sym moved ∙ run) in
        let rest = All-remove_entry P k (entries c) a in
        subst (λ (x : Lru K ℕ × Option ℕ). IsValid dec x.0 × All P (entries x.0)) e
          (keeps, rw same (All-find_entry P k v (entries c) a found, rest))
  ]

  -- the state after an insertion
  abbrev inserted_state : IdCache K → K → ℕ → Lru K ℕ × CacheResult ℕ → IdCache K
  inserted_state s k v x = record s {
    cache = x.0;
    pending = update s.pending v false;
    owner = if x.1.found then s.owner else update s.owner v (some k);
  }

  insert-IsSound :
      (s : IdCache K) (k : K) (v : ℕ) (c : Lru K ℕ) (r : CacheResult ℕ)
      → IsSound dec s
      → s.pending v ≡ true
      → insert_or_promote dec s.cache k v ≡ some (c, r)
      → IsSound dec (inserted_state s k v (c, r))
  insert-IsSound s k v c r h waits run = elim (insert-Inserts dec s.cache h.valid k v) [
    | inl (d, _, new, keeps, same, _) ↦
        subst (λ x. IsSound dec (inserted_state s k v x)) (some_inj (sym new ∙ run))
          (record {
            valid = keeps;
            waiting = λ w p. ground (arith, h.waiting w);
            unused = λ w p. ground (arith, h.unused w p, h.waiting v waits);
            cached = rw same (
                All-take (λ e. update s.owner v (some k) e.1 ≡ some e.0) _ _
                  (
                    if_pos (ℕ_discrete v v) refl _ _,
                    keep_cached s k v (entries s.cache) (h.waiting v waits).1 h.cached,
                  ));
          })
    | inr (w, d, found, moved, keeps, same, _) ↦
        subst (λ x. IsSound dec (inserted_state s k v x)) (some_inj (sym moved ∙ run))
          (record {
            valid = keeps;
            waiting = λ w p. ground (arith, h.waiting w);
            unused = h.unused;
            cached = rw same (
              All-find_entry (λ e. s.owner e.1 ≡ some e.0) k w (entries s.cache) h.cached found,
              All-remove_entry (λ e. s.owner e.1 ≡ some e.0) k (entries s.cache) h.cached,
            );
          })
  ]

  Step-IsSound : {s t : IdCache K} → Step dec s t → IsSound dec s → IsSound dec t
  unfolding next_id
  Step-IsSound {s} (generated small) h = record {
    valid = h.valid;
    waiting = λ v p. elim (ℕ_discrete v (s.seq + 1)) [
      | yes e ↦ (omega arith, h.unused v (omega arith))
      | no e ↦ let old = h.waiting v (ground arith) in (omega arith, old.1)
    ];
    unused = λ v p. h.unused v (omega arith);
    cached = h.cached;
  }
  Step-IsSound {s} (promoted k c v run) h =
      let (keeps, known) =
        promote-All (λ e. s.owner e.1 ≡ some e.0) s.cache h.valid k c v run h.cached in
      record { valid = keeps; waiting = h.waiting; unused = h.unused; cached = known }
  Step-IsSound {s} (inserted k v c r waits run) h = insert-IsSound s k v c r h waits run
  Step-IsSound {s} (removed rehashes k c run) h =
      let (keeps, same) = remove-Removes dec s.cache h.valid k rehashes c run in
      record {
        valid = keeps;
        waiting = h.waiting;
        unused = h.unused;
        cached =
            rw same (All-remove_entry (λ e. s.owner e.1 ≡ some e.0) k (entries s.cache) h.cached);
      }

  Reach-IsSound : {s t : IdCache K} → Reach dec s t → IsSound dec s → IsSound dec t
  Reach-IsSound here h = h
  Reach-IsSound (next r st) h = Step-IsSound st (Reach-IsSound r h)

  -- An owner is never replaced.
  Step-owner :
      {s t : IdCache K} (v : ℕ) (k : K)
      → Step dec s t
      → IsSound dec s
      → s.owner v ≡ some k
      → t.owner v ≡ some k
  Step-owner v k (generated small) h e = e
  Step-owner v k (promoted j c o run) h e = e
  Step-owner v k (inserted j w c r waits run) h e = ground (arith, h.waiting w waits)
  Step-owner v k (removed rehashes j c run) h e = e

  Reach-owner :
      {s t : IdCache K} (v : ℕ) (k : K)
      → Reach dec s t
      → IsSound dec s
      → s.owner v ≡ some k
      → t.owner v ≡ some k
  Reach-owner v k here h e = e
  Reach-owner v k (next r st) h e = Step-owner v k st (Reach-IsSound r h) (Reach-owner v k r h e)

  owner-cached :
      (s : IdCache K) (k : K) (v : ℕ)
      → IsSound dec s
      → find_entry dec k (entries s.cache) ≡ some v
      → s.owner v ≡ some k
  owner-cached s k v h e =
      All-find_entry (λ e. s.owner e.1 ≡ some e.0) k v (entries s.cache) h.cached e

  -- An id that is cached for one key is never, then or later, cached for another key, whatever
  -- other threads do and whatever is evicted or removed in between, as long as no removal reads a
  -- key that it freed and the sequence does not reach 2^31.
  pub id_of_one_key :
      (n : ℕ) {s t : IdCache K} (k j : K) (v : ℕ)
      → 0 < n
      → Reach dec (start n) s
      → Reach dec s t
      → find_entry dec k (entries s.cache) ≡ some v
      → find_entry dec j (entries t.cache) ≡ some v
      → k ≡ j
  id_of_one_key n {s} {t} k j v pos before after in_s in_t =
      let sound = Reach-IsSound before (start-IsSound n pos) in
      let first = Reach-owner v k after sound (owner-cached s k v sound in_s) in
      some_inj (sym first ∙ owner-cached t j v (Reach-IsSound after sound) in_t)
