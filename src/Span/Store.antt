-- ===== src/Span/Store.antt =====
-- `storeFinishedEvent` keeps the finished events in the order of their sequences.
use pinpoint_cpp_agent.Common.{
  suc, ◌≤◌, ◌<◌, ◌≡◌, ◌≢◌, refl, sym, ap, List, [], ◌∷◌, ◌++◌, arith, ltb, length, length-append,
  append-nil, All, All_mono, All-append, Bool-cases, inl, inr,
}
use pinpoint_cpp_agent.Span.{SpanEvent, insert_sorted, back_sequence, store_finished_event}

abbrev pub Sorted : List SpanEvent → Type 0
Sorted [] = Unit
Sorted (e ∷ es) = All (λ f. e.sequence < f.sequence) es × Sorted es

module _ {κ} (P : SpanEvent → Type κ) where
  All-insert_sorted :
      (se : SpanEvent) (es : List SpanEvent) → P se → All P es → All P (insert_sorted se es)
  All-insert_sorted se [] p h = (p, tt)
  All-insert_sorted se (e ∷ es) p h = elim (Bool-cases (ltb e.sequence se.sequence)) [
    | inl y ↦ rw y (h.0, All-insert_sorted se es p h.1)
    | inr n ↦ rw n (p, h)
  ]

  pub All-store_finished_event :
      (se : SpanEvent) (es : List SpanEvent) → P se → All P es → All P (store_finished_event se es)
  unfolding store_finished_event
  All-store_finished_event se [] p h = (p, tt)
  All-store_finished_event se (e ∷ es) p h =
      elim (Bool-cases (ltb (back_sequence e es) se.sequence)) [
        | inl y ↦ rw y (All-append P (e ∷ es) (se ∷ []) h (p, tt))
        | inr n ↦ elim (Bool-cases (ltb se.sequence e.sequence)) [
          | inl y ↦ rw (n, y) (p, h)
          | inr m ↦ rw (n, m) (All-insert_sorted se (e ∷ es) p h)
        ]
      ]

length-insert_sorted :
    (se : SpanEvent) (es : List SpanEvent) → length (insert_sorted se es) ≡ suc (length es)
length-insert_sorted se [] = refl
length-insert_sorted se (e ∷ es) = ground (arith, length-insert_sorted se es)

pub length-store_finished_event :
    (se : SpanEvent) (es : List SpanEvent) → length (store_finished_event se es) ≡ suc (length es)
unfolding store_finished_event
length-store_finished_event se [] = refl
length-store_finished_event se (e ∷ es) = elim (Bool-cases (ltb (back_sequence e es) se.sequence)) [
  | inl y ↦ rw y (omega (arith, length-append es (se ∷ [])))
  | inr n ↦ elim (Bool-cases (ltb se.sequence e.sequence)) [
    | inl y ↦ rw (n, y) refl
    | inr m ↦ rw (n, m) (length-insert_sorted se (e ∷ es))
  ]
]

-- Every event of a sorted list comes before its last one, or is it.
below_back :
    (e : SpanEvent) (es : List SpanEvent)
    → Sorted (e ∷ es)
    → All (λ f. f.sequence ≤ back_sequence e es) (e ∷ es)
below_back e [] h = (omega arith, tt)
below_back e (f ∷ es) h = let rest = below_back f es h.1 in (omega (arith, h.0.0, rest.0), rest)

Sorted-append :
    (se : SpanEvent) (es : List SpanEvent)
    → Sorted es
    → All (λ f. f.sequence < se.sequence) es
    → Sorted (es ++ se ∷ [])
Sorted-append se [] h below = (tt, tt)
Sorted-append se (e ∷ es) h below = (
  All-append (λ f. e.sequence < f.sequence) es (se ∷ []) h.0 (below.0, tt),
  Sorted-append se es h.1 below.1,
)

Sorted-insert_sorted :
    (se : SpanEvent) (es : List SpanEvent)
    → Sorted es
    → All (λ f. f.sequence ≢ se.sequence) es
    → Sorted (insert_sorted se es)
Sorted-insert_sorted se [] h fresh = (tt, tt)
Sorted-insert_sorted se (e ∷ es) h fresh = elim (Bool-cases (ltb e.sequence se.sequence)) [
  | inl y ↦
      let less : e.sequence < se.sequence = ground arith in
      rw y (
        All-insert_sorted (λ f. e.sequence < f.sequence) se es less h.0,
        Sorted-insert_sorted se es h.1 fresh.1,
      )
  | inr n ↦
      let less : se.sequence < e.sequence = ground arith in
      rw n ((less, All_mono es (λ f k. omega (arith, k, less)) h.0), h)
]

pub Sorted-store_finished_event :
    (se : SpanEvent) (es : List SpanEvent)
    → Sorted es
    → All (λ f. f.sequence ≢ se.sequence) es
    → Sorted (store_finished_event se es)
unfolding store_finished_event
Sorted-store_finished_event se [] h fresh = (tt, tt)
Sorted-store_finished_event se (e ∷ es) h fresh =
    elim (Bool-cases (ltb (back_sequence e es) se.sequence)) [
      | inl y ↦
          let less : back_sequence e es < se.sequence = ground arith in
          rw y (
            Sorted-append se (e ∷ es) h
              (All_mono (e ∷ es) (λ f k. omega (arith, k, less)) (below_back e es h)))
      | inr n ↦ elim (Bool-cases (ltb se.sequence e.sequence)) [
        | inl y ↦
            let less : se.sequence < e.sequence = ground arith in
            rw (n, y) ((less, All_mono es (λ f k. omega (arith, k, less)) h.0), h)
        | inr m ↦ rw (n, m) (Sorted-insert_sorted se (e ∷ es) h fresh)
      ]
    ]

-- `r` is `es` with `se` put in somewhere.
abbrev pub PutIn : SpanEvent → List SpanEvent → List SpanEvent → Type 0
PutIn se es r =
    (before : List SpanEvent) × (after : List SpanEvent) × (es ≡ before ++ after)
    × (r ≡ before ++ se ∷ after)

insert_sorted-PutIn : (se : SpanEvent) (es : List SpanEvent) → PutIn se es (insert_sorted se es)
insert_sorted-PutIn se [] = ([], [], refl, refl)
insert_sorted-PutIn se (e ∷ es) = elim (Bool-cases (ltb e.sequence se.sequence)) [
  | inl y ↦
      let (before, after, old, new) = insert_sorted-PutIn se es in
      (e ∷ before, after, ap (λ l. e ∷ l) old, rw y (ap (λ l. e ∷ l) new))
  | inr n ↦ ([], e ∷ es, refl, rw n refl)
]

store_finished_event-PutIn :
    (se : SpanEvent) (es : List SpanEvent) → PutIn se es (store_finished_event se es)
unfolding store_finished_event
store_finished_event-PutIn se [] = ([], [], refl, refl)
store_finished_event-PutIn se (e ∷ es) = elim (Bool-cases (ltb (back_sequence e es) se.sequence)) [
  | inl y ↦ (e ∷ es, [], sym (append-nil (e ∷ es)), rw y refl)
  | inr n ↦ elim (Bool-cases (ltb se.sequence e.sequence)) [
    | inl y ↦ ([], e ∷ es, refl, rw (n, y) refl)
    | inr m ↦
        let (before, after, old, new) = insert_sorted-PutIn se (e ∷ es) in
        (before, after, old, rw (n, m) new)
  ]
]

-- A finished event whose sequence is new to a list in the order of the sequences is put into the
-- list, the other events stay as they are, and the list stays in that order.
pub store_finished_event_lem :
    (se : SpanEvent) (es : List SpanEvent)
    → Sorted es
    → All (λ f. f.sequence ≢ se.sequence) es
    → PutIn se es (store_finished_event se es) × Sorted (store_finished_event se es)
store_finished_event_lem se es h fresh =
    (store_finished_event-PutIn se es, Sorted-store_finished_event se es h fresh)
