-- ===== src/Grpc/Metadata/Retries.antt =====
-- How often metadata is tried, and that none is lost.
use mathlib.Core.Path.{subst}
use pinpoint_cpp_agent.Common.{
  ℕ, suc, ◌+◌, ◌≤◌, ◌<◌, ◌≡◌, refl, ap, List, [], ◌∷◌, ◌++◌, length, Option, none, some, ltb, leb,
  Bool-cases, inl, inr, arith, All, All-append, length-append, some_inj, none≢some, sym,
}
use pinpoint_cpp_agent.Grpc.Metadata.{
  metadata_retry_max_attempts, MetaData, release_failed_cache, PendingMeta, MetaSender, emplace,
  enqueue_meta, send_failed, Step, enqueue, tick, stop, exit, popped, popped_retry, ended, was_sent,
  failed, failed_exiting, Reach, begin, next,
}
use pinpoint_cpp_agent.Grpc.Metadata.Released.{removals_of, Released, removals_of-Released}

-- A send that may still be tried again.
abbrev pub Retriable : PendingMeta → Type 0
Retriable p = p.retry_count ≤ metadata_retry_max_attempts

abbrev pub in_hand : Option PendingMeta → ℕ
in_hand none = 0
in_hand (some p) = 1

abbrev pub RetriableInHand : Option PendingMeta → Type 0
RetriableInHand none = Unit
RetriableInHand (some p) = Retriable p

pub record IsCounted (max_queue_size : ℕ) (s : MetaSender) : Type 0 where
  pub counted :
      length s.enqueued
      ≡ length s.meta_queue
        + length s.retry_queue
        + in_hand s.sending
        + length s.sent
        + length s.overflowed
        + length s.released
        + length s.abandoned
  pub bounded : length s.meta_queue + length s.retry_queue + in_hand s.sending ≤ max_queue_size + 1
  pub fresh : All Retriable s.meta_queue
  pub waiting : All Retriable s.retry_queue
  pub hand : RetriableInHand s.sending
  pub sent_in_time : All Retriable s.sent
  pub given_up : All (λ p. p.retry_count ≡ metadata_retry_max_attempts + 1) s.released
  pub removed : s.removals ≡ removals_of s.released

length-emplace : (p : PendingMeta) (l : List PendingMeta) → length (emplace p l) ≡ suc (length l)
length-emplace p [] = refl
length-emplace p (q ∷ l) = elim (Bool-cases (ltb p.available_at q.available_at)) [
  | inl e ↦ rw e refl
  | inr e ↦ rw e (ap suc (length-emplace p l))
]

emplace-All :
    (p : PendingMeta) (l : List PendingMeta)
    → Retriable p
    → All Retriable l
    → All Retriable (emplace p l)
emplace-All p [] h a = (h, tt)
emplace-All p (q ∷ l) h (first, rest) = elim (Bool-cases (ltb p.available_at q.available_at)) [
  | inl e ↦ rw e (h, (first, rest))
  | inr e ↦ rw e (first, emplace-All p l h rest)
]

RetriableInHand-some :
    (o : Option PendingMeta) (p : PendingMeta) → o ≡ some p → RetriableInHand o → Retriable p
RetriableInHand-some none p e h = absurd (none≢some e)
RetriableInHand-some (some q) p e h =
    omega (arith, ap (λ (x : PendingMeta). x.retry_count) (some_inj e))

enqueue-IsCounted :
    (max_queue_size : ℕ) (meta : MetaData) (s : MetaSender)
    → IsCounted max_queue_size s
    → IsCounted max_queue_size (enqueue_meta max_queue_size meta s)
enqueue-IsCounted max_queue_size meta s x =
    elim (Bool-cases (ltb (length s.meta_queue + length s.retry_queue) max_queue_size)) [
      | inl room ↦
          let p : PendingMeta = record { meta = meta; retry_count = 0; available_at = 0 } in
          let longer = length-append s.meta_queue (p ∷ []) in
          let fits : length s.meta_queue + length s.retry_queue < max_queue_size = ground arith in
          let one : in_hand s.sending ≤ 1 = in_hand-le s.sending in
          rw room (record {
            counted = omega (arith, x.counted, longer);
            bounded = omega (arith, longer, fits, one);
            fresh = All-append Retriable s.meta_queue (p ∷ []) x.fresh (omega arith, tt);
            waiting = x.waiting;
            hand = x.hand;
            sent_in_time = x.sent_in_time;
            given_up = x.given_up;
            removed = x.removed;
          })
      | inr full ↦ rw full (record {
        counted = omega (arith, x.counted);
        bounded = x.bounded;
        fresh = x.fresh;
        waiting = x.waiting;
        hand = x.hand;
        sent_in_time = x.sent_in_time;
        given_up = x.given_up;
        removed = x.removed;
      })
    ]
  where
    in_hand-le : (o : Option PendingMeta) → in_hand o ≤ 1
    in_hand-le none = omega arith
    in_hand-le (some q) = omega arith

failed-IsCounted :
    (max_queue_size : ℕ) (p : PendingMeta) (s : MetaSender)
    → IsCounted max_queue_size s
    → s.sending ≡ some p
    → IsCounted max_queue_size (send_failed p s)
failed-IsCounted max_queue_size p s x e =
    let held = ap in_hand e in
    let retriable = RetriableInHand-some s.sending p e x.hand in
    elim (Bool-cases (leb (p.retry_count + 1) metadata_retry_max_attempts)) [
      | inl again ↦
          let p' = record p { retry_count = p.retry_count + 1; available_at = s.now + 1000 } in
          let longer = length-emplace p' s.retry_queue in
          rw again (record {
            counted = omega (arith, x.counted, longer, held);
            bounded = omega (arith, x.bounded, longer, held);
            fresh = x.fresh;
            waiting = emplace-All p' s.retry_queue (ground arith) x.waiting;
            hand = tt;
            sent_in_time = x.sent_in_time;
            given_up = x.given_up;
            removed = x.removed;
          })
      | inr no_more ↦ rw no_more (record {
        counted = omega (arith, x.counted, held);
        bounded = omega (arith, x.bounded, held);
        fresh = x.fresh;
        waiting = x.waiting;
        hand = tt;
        sent_in_time = x.sent_in_time;
        given_up = (ground arith, x.given_up);
        removed = ap (λ r. release_failed_cache p.meta ++ r) x.removed;
      })
    ]

-- The queue without its first entry.
head-tail :
    (l : List PendingMeta) (p : PendingMeta) (q : List PendingMeta)
    → l ≡ p ∷ q
    → All Retriable l
    → Retriable p × All Retriable q
head-tail l p q e h = subst (λ x. All Retriable x) e h

Step-IsCounted :
    {max_queue_size : ℕ} {s t : MetaSender}
    → IsCounted max_queue_size s
    → Step max_queue_size s t
    → IsCounted max_queue_size t
Step-IsCounted {max_queue_size} {s} x (enqueue meta) = enqueue-IsCounted max_queue_size meta s x
Step-IsCounted x tick = record {
  counted = x.counted;
  bounded = x.bounded;
  fresh = x.fresh;
  waiting = x.waiting;
  hand = x.hand;
  sent_in_time = x.sent_in_time;
  given_up = x.given_up;
  removed = x.removed;
}
Step-IsCounted x stop = record {
  counted = x.counted;
  bounded = x.bounded;
  fresh = x.fresh;
  waiting = x.waiting;
  hand = x.hand;
  sent_in_time = x.sent_in_time;
  given_up = x.given_up;
  removed = x.removed;
}
Step-IsCounted x exit = record {
  counted = x.counted;
  bounded = x.bounded;
  fresh = x.fresh;
  waiting = x.waiting;
  hand = x.hand;
  sent_in_time = x.sent_in_time;
  given_up = x.given_up;
  removed = x.removed;
}
Step-IsCounted {max_queue_size} {s} x (popped p q w n a b e) =
    let (first, rest) = head-tail s.meta_queue p q e x.fresh in
    record {
      counted = omega (arith, x.counted, ap length e, ap in_hand n);
      bounded = omega (arith, x.bounded, ap length e, ap in_hand n);
      fresh = rest;
      waiting = x.waiting;
      hand = first;
      sent_in_time = x.sent_in_time;
      given_up = x.given_up;
      removed = x.removed;
    }
Step-IsCounted {max_queue_size} {s} x (popped_retry p q w n a b c e l) =
    let (first, rest) = head-tail s.retry_queue p q e x.waiting in
    record {
      counted = omega (arith, x.counted, ap length e, ap in_hand n);
      bounded = omega (arith, x.bounded, ap length e, ap in_hand n);
      fresh = x.fresh;
      waiting = rest;
      hand = first;
      sent_in_time = x.sent_in_time;
      given_up = x.given_up;
      removed = x.removed;
    }
Step-IsCounted x (ended n r) = record {
  counted = x.counted;
  bounded = x.bounded;
  fresh = x.fresh;
  waiting = x.waiting;
  hand = x.hand;
  sent_in_time = x.sent_in_time;
  given_up = x.given_up;
  removed = x.removed;
}
Step-IsCounted {max_queue_size} {s} x (was_sent p e) = record {
  counted = omega (arith, x.counted, ap in_hand e);
  bounded = omega (arith, x.bounded, ap in_hand e);
  fresh = x.fresh;
  waiting = x.waiting;
  hand = tt;
  sent_in_time = (RetriableInHand-some s.sending p e x.hand, x.sent_in_time);
  given_up = x.given_up;
  removed = x.removed;
}
Step-IsCounted {max_queue_size} {s} x (failed p e n) = failed-IsCounted max_queue_size p s x e
Step-IsCounted {max_queue_size} {s} x (failed_exiting p e n) = record {
  counted = omega (arith, x.counted, ap in_hand e);
  bounded = omega (arith, x.bounded, ap in_hand e);
  fresh = x.fresh;
  waiting = x.waiting;
  hand = tt;
  sent_in_time = x.sent_in_time;
  given_up = x.given_up;
  removed = x.removed;
}

Reach-all :
    {max_queue_size : ℕ} {s : MetaSender} → Reach max_queue_size s → IsCounted max_queue_size s
Reach-all begin = record {
  counted = refl;
  bounded = omega arith;
  fresh = tt;
  waiting = tt;
  hand = tt;
  sent_in_time = tt;
  given_up = tt;
  removed = refl;
}
Reach-all (next r step) = Step-IsCounted (Reach-all r) step

-- In each state that is reached, the metadata that came in is as much as what is queued, waits for
-- a retry, is being sent, was sent, overflowed, was given up, or was held when the agent exited.
-- The two queues and what is being sent are at most one more than the configured size. What was
-- sent had failed three times at most, and what was given up has failed four times. Each of the
-- four caches was asked to remove the texts of the metadata of its kind that was given up, in
-- order, and no others.
pub Reach-IsCounted :
    {max_queue_size : ℕ} {s : MetaSender}
    → Reach max_queue_size s
    → (length s.enqueued
        ≡ length s.meta_queue
          + length s.retry_queue
          + in_hand s.sending
          + length s.sent
          + length s.overflowed
          + length s.released
          + length s.abandoned)
      × (length s.meta_queue + length s.retry_queue + in_hand s.sending ≤ max_queue_size + 1)
      × All (λ p. p.retry_count ≤ 3) s.sent
      × All (λ p. p.retry_count ≡ 4) s.released
      × Released s.removals s.released
Reach-IsCounted {max_queue_size} {s} r =
    let x = Reach-all r in
    let released =
      subst (λ k. Released k s.released) (sym x.removed) (removals_of-Released s.released) in
    (x.counted, x.bounded, x.sent_in_time, x.given_up, released)
