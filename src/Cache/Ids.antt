-- ===== src/Cache/Ids.antt =====
-- src/cache.h: `IdCacheImpl`, used by any number of threads. A call of `get` makes up to three
-- atomic steps: the promotion or the generation of an id, and later the insertion, with steps of
-- other threads in between; `remove` is one step. `pending` holds the ids that were generated and
-- not yet inserted. `owner` is no state of the code: it records the key that an id was first
-- cached for. The sequence is followed up to its last value before `int32_t` overflows.
pub mod Sound
use mathlib.Core.Logic.{ite, if_pos, if_neg}
use mathlib.Core.Path.{subst}
use native.Mathlib.Decide.{ℕ_discrete}
use pinpoint_cpp_agent.Common.{
  ℕ, zero, suc, ◌+◌, ◌-◌, ◌^◌, ◌<◌, ◌≤◌, ◌≡◌, ◌≢◌, refl, sym, ◌∙◌, Bool, true, false, Option, none,
  some, List, [], ◌∷◌, arith, if◌then◌else◌, take, All, All_mono, some_inj, inl, inr, Bool-cases,
}
use pinpoint_cpp_agent.Cache.{
  Lru, CacheResult, Fast, hit, fault, init, get_fast, promote, insert_or_promote, remove,
}
use pinpoint_cpp_agent.Cache.Spec.{entries, IsValid, find_entry, remove_entry}
use pinpoint_cpp_agent.Cache.Promote.{init-IsValid}
use pinpoint_cpp_agent.Cache.Refine.{promote-Promotes, insert-Inserts, fast-find_entry}

-- `++id_sequence_`: the id, and the new value of the sequence.
unfoldable pub next_id : ℕ → ℕ × ℕ
next_id seq = (seq + 1, seq + 1)

-- `f` with the value `v` at `id`
abbrev pub update {ℓ} : {V : Type ℓ} → (ℕ → V) → ℕ → V → ℕ → V
update f id v = λ other. ite (ℕ_discrete other id) v (f other)

-- The keys are the strings or the API keys of the code.
pub record IdCache (K : Type 0) : Type 0 where
  pub cache : Lru K ℕ
  pub seq : ℕ
  pub pending : ℕ → Bool
  pub owner : ℕ → Option K

abbrev pub start : {K : Type 0} → ℕ → IdCache K
start n = record { cache = init n; seq = 0; pending = λ v. false; owner = λ v. none }

module _ {K : Type 0} (dec : Discrete K) where
  pub data Step (s : IdCache K) : IdCache K → Type 0 where
    generated :
        (next_id s.seq).1 < 2 ^ 31
        → Step s (record s {
          seq = (next_id s.seq).1;
          pending = update s.pending (next_id s.seq).0 true;
        })
    promoted :
        (k : K) (c : Lru K ℕ) (v : Option ℕ)
        → promote dec s.cache k ≡ some (c, v)
        → Step s (record s { cache = c })
    inserted :
        (k : K) (v : ℕ) (c : Lru K ℕ) (r : CacheResult ℕ)
        → s.pending v ≡ true
        → insert_or_promote dec s.cache k v ≡ some (c, r)
        → Step s (record s {
          cache = c;
          pending = update s.pending v false;
          owner = if r.found then s.owner else update s.owner v (some k);
        })
    removed :
        (rehashes : Bool) (k : K) (c : Lru K ℕ)
        → remove dec rehashes s.cache k ≡ some c
        → Step s (record s { cache = c })

  pub data Reach (s : IdCache K) : IdCache K → Type 0 where
    here : Reach s s
    next : {t u : IdCache K} → Reach s t → Step t u → Reach s u

  pub record IsSound (s : IdCache K) : Type 0 where
    pub valid : IsValid dec s.cache
    pub waiting : (v : ℕ) → s.pending v ≡ true → (v ≤ s.seq) × (s.owner v ≡ none)
    pub unused : (v : ℕ) → s.seq < v → s.owner v ≡ none
    pub cached : All (λ e. s.owner e.1 ≡ some e.0) (entries s.cache)
