-- ===== src/Grpc/SpanQueue/Permits.antt =====
-- The permits bound the calls in flight, and come back.
use mathlib.Core.Path.{subst}
use pinpoint_cpp_agent.Common.{
  ℕ, suc, ◌+◌, ◌≤◌, ◌<◌, ◌≡◌, ◌≢◌, refl, sym, ap, ◌∙◌, false, List, [], ◌∷◌, length, ltb, leb, ◌==◌,
  inl, inr, Bool-cases, arith,
}
use pinpoint_cpp_agent.Grpc.SpanQueue.{
  Phase, collecting, collected, sending, holding, registered, SpanSender, SpanSettings, remove,
  Contains, Step, enqueue, exit, took, stopped_collecting, channel_ready, channel_not_ready,
  acquired, no_permit, register, launch, failed_unregistered, failed_registered, complete, flush,
  flush_not_ready, flush_next, flush_last, Reach, begin, next,
}

-- Numbers of calls below `n`, the newest first.
abbrev pub Descending : ℕ → List ℕ → Type 0
Descending n [] = Unit
Descending n (k ∷ l) = (k < n) × Descending k l

Descending-mono : (m n : ℕ) (l : List ℕ) → m ≤ n → Descending m l → Descending n l
Descending-mono m n [] h d = tt
Descending-mono m n (k ∷ l) h (lt, d) = (omega arith, d)

remove-absent : (n call : ℕ) (l : List ℕ) → n ≤ call → Descending n l → remove call l ≡ l
remove-absent n call [] h d = refl
remove-absent n call (k ∷ l) h (lt, d) =
    let other : (k == call) ≡ false = ground arith in
    rw other (ap (λ x. k ∷ x) (remove-absent k call l (omega arith) d))

length-remove :
    (n call : ℕ) (l : List ℕ)
    → Descending n l
    → Contains call l
    → length (remove call l) + 1 ≡ length l
length-remove n call [] d c = elim c [ ]
length-remove n call (k ∷ l) (lt, d) c = elim (Bool-cases (k == call)) [
  | inl e ↦
      let same : k ≤ call = ground arith in
      rw e (omega (arith, ap length (remove-absent k call l same d)))
  | inr e ↦ elim c [
    | inl same ↦ absurd (ground arith)
    | inr later ↦ rw e (omega (arith, length-remove k call l d later))
  ]
]

remove-Descending : (n call : ℕ) (l : List ℕ) → Descending n l → Descending n (remove call l)
remove-Descending n call [] d = tt
remove-Descending n call (k ∷ l) (lt, d) = elim (Bool-cases (k == call)) [
  | inl e ↦
      let rest = remove-Descending k call l d in
      rw e (Descending-mono k n (remove call l) (omega arith) rest)
  | inr e ↦ rw e (lt, remove-Descending k call l d)
]

remove-Contains :
    (call other : ℕ) (l : List ℕ) → Contains other l → other ≢ call → Contains other (remove call l)
remove-Contains call other [] c n = elim c [ ]
remove-Contains call other (k ∷ l) c n = elim (Bool-cases (k == call)) [
  | inl e ↦ elim c [
    | inl same ↦ absurd (let k_same : k ≡ call = ground arith in n (sym same ∙ k_same))
    | inr later ↦ rw e (remove-Contains call other l later n)
  ]
  | inr e ↦ elim c [
    | inl same ↦ rw e (inl same)
    | inr later ↦ rw e (inr (remove-Contains call other l later n))
  ]
]

-- 1 while the worker holds a permit for a call that is not registered
abbrev pub held : Phase → ℕ
held holding = 1
held _ = 0

-- The call that is about to be launched is in the registry.
abbrev pub InRegistry : Phase → List ℕ → Type 0
InRegistry (registered call) pending = Contains call pending
InRegistry _ pending = Unit

InRegistry-Contains :
    (p : Phase) (call : ℕ) (pending : List ℕ)
    → p ≡ registered call
    → InRegistry p pending
    → Contains call pending
InRegistry-Contains p call pending e h = subst (λ q. InRegistry q pending) e h

InRegistry-remove :
    (p : Phase) (call : ℕ) (pending : List ℕ)
    → p ≢ registered call
    → InRegistry p pending
    → InRegistry p (remove call pending)
InRegistry-remove collecting call pending n h = tt
InRegistry-remove collected call pending n h = tt
InRegistry-remove sending call pending n h = tt
InRegistry-remove holding call pending n h = tt
InRegistry-remove (registered k) call pending n h =
    remove-Contains call k pending h (λ e. n (ap registered e))

module _ {Chunk : Type 0} where
  pub record Permitted (settings : SpanSettings) (s : SpanSender Chunk) : Type 0 where
    pub count : s.permits + length s.pending + held s.phase ≡ settings.max_permits
    pub numbered : Descending s.next_call s.pending
    pub in_registry : InRegistry s.phase s.pending

  -- A step between phases that hold no permit, with the same calls.
  phase-Permitted :
      {settings : SpanSettings} {s : SpanSender Chunk} {p : Phase} (q : Phase)
      → Permitted settings s
      → s.phase ≡ p
      → held p ≡ held q
      → InRegistry q s.pending
      → Permitted settings (record s { phase = q })
  phase-Permitted {settings} {s} {p} q x e same k = record {
    count = omega (arith, x.count, ap held e, same);
    numbered = x.numbered;
    in_registry = k;
  }

  Step-Permitted :
      {settings : SpanSettings} {s t : SpanSender Chunk}
      → Permitted settings s
      → Step settings s t
      → Permitted settings t
  Step-Permitted {settings} {s} x (enqueue c) =
      elim (Bool-cases (ltb (length s.span_queue) settings.queue_size)) [
        | inl e ↦
            rw e (record { count = x.count; numbered = x.numbered; in_registry = x.in_registry })
        | inr e ↦
            rw e (record { count = x.count; numbered = x.numbered; in_registry = x.in_registry })
      ]
  Step-Permitted x exit = record {
    count = x.count;
    numbered = x.numbered;
    in_registry = x.in_registry;
  }
  Step-Permitted x (took c q e f e' r) = record {
    count = x.count;
    numbered = x.numbered;
    in_registry = x.in_registry;
  }
  Step-Permitted x (stopped_collecting e f n) =
      let y = phase-Permitted collected x e refl tt in
      record { count = y.count; numbered = y.numbered; in_registry = y.in_registry }
  Step-Permitted x (channel_ready e) =
      let y = phase-Permitted sending x e refl tt in
      record { count = y.count; numbered = y.numbered; in_registry = y.in_registry }
  Step-Permitted x (channel_not_ready e) =
      let y = phase-Permitted collecting x e refl tt in
      record { count = y.count; numbered = y.numbered; in_registry = y.in_registry }
  Step-Permitted x (acquired p e a) = record {
    count = omega (arith, x.count, a, ap held e);
    numbered = x.numbered;
    in_registry = tt;
  }
  Step-Permitted x (no_permit e z) =
      let y = phase-Permitted collecting x e refl tt in
      record { count = y.count; numbered = y.numbered; in_registry = y.in_registry }
  Step-Permitted {settings} {s} x (register e) = record {
    count = omega (arith, x.count, ap held e);
    numbered = (omega arith, x.numbered);
    in_registry = inl refl;
  }
  Step-Permitted x (launch call e) = record {
    count = omega (arith, x.count, ap held e);
    numbered = x.numbered;
    in_registry = tt;
  }
  Step-Permitted x (failed_unregistered e) = record {
    count = omega (arith, x.count, ap held e);
    numbered = x.numbered;
    in_registry = tt;
  }
  Step-Permitted {settings} {s} x (failed_registered call e) =
      let c = InRegistry-Contains s.phase call s.pending e x.in_registry in
      record {
        count =
            omega
              (arith, x.count, ap held e, length-remove s.next_call call s.pending x.numbered c);
        numbered = remove-Descending s.next_call call s.pending x.numbered;
        in_registry = tt;
      }
  Step-Permitted {settings} {s} x (complete call c n) = record {
    count = omega (arith, x.count, length-remove s.next_call call s.pending x.numbered c);
    numbered = remove-Descending s.next_call call s.pending x.numbered;
    in_registry = InRegistry-remove s.phase call s.pending n x.in_registry;
  }
  Step-Permitted x (flush e f b g) = record {
    count = x.count;
    numbered = x.numbered;
    in_registry = x.in_registry;
  }
  Step-Permitted x (flush_not_ready e f b g) = record {
    count = x.count;
    numbered = x.numbered;
    in_registry = x.in_registry;
  }
  Step-Permitted {settings} {s} x (flush_next c r e f g) =
      elim (Bool-cases (leb settings.batch_size (suc (length s.batch)))) [
        | inl full ↦
            let y = phase-Permitted sending x e refl tt in
            rw full (record { count = y.count; numbered = y.numbered; in_registry = tt })
        | inr n ↦
            let y = phase-Permitted collecting x e refl tt in
            rw n (record { count = y.count; numbered = y.numbered; in_registry = tt })
      ]
  Step-Permitted x (flush_last e f g n) =
      let y = phase-Permitted sending x e refl tt in
      record { count = y.count; numbered = y.numbered; in_registry = y.in_registry }

  -- In each state that the worker, the callbacks and the threads that enqueue reach, the permits
  -- that are free, the calls that are registered and the permit that the worker holds for a call
  -- that is not registered yet make up the configured number: no more calls are in flight, and
  -- each way that a call ends gives its permit back once.
  pub Reach-Permitted :
      {settings : SpanSettings} {s : SpanSender Chunk}
      → Reach settings s
      → s.permits + length s.pending + held s.phase ≡ settings.max_permits
  Reach-Permitted r = (all r).count
    where
      all :
          {settings : SpanSettings} {s : SpanSender Chunk} → Reach settings s → Permitted settings s
      all begin = record { count = omega arith; numbered = tt; in_registry = tt }
      all (next r step) = Step-Permitted (all r) step
