-- ===== src/Stat/ActiveSpans/Sharded.antt =====
-- The sharded table against one table of all spans under way.
use pinpoint_cpp_agent.Common.{
  ℕ, ◌≡◌, ◌≢◌, refl, sym, ap, ◌∙◌, true, false, List, [], ◌∷◌, ◌==◌, if◌then◌else◌, any, put_self,
  put_other, arith, Bool-cases, inl, inr,
}
use pinpoint_cpp_agent.Stat.ActiveSpans.{
  ActiveSpan, insert, erase, shard_index, add_active_span, drop_active_span, SpanCall, add,
  drop_span, run_calls,
}

-- One table, with the operations of the map.
unfoldable pub run_table : List ActiveSpan → List SpanCall → List ActiveSpan
run_table table [] = table
run_table table (add a ∷ l) = run_table (insert a table) l
run_table table (drop_span span_id ∷ l) = run_table (erase span_id table) l

-- The spans of the table that belong to a shard.
unfoldable pub shard_of_table : (ℕ → ℕ) → ℕ → List ActiveSpan → List ActiveSpan
shard_of_table hash j [] = []
shard_of_table hash j (a ∷ l) =
    let rest = shard_of_table hash j l in if shard_index hash a.span_id == j then a ∷ rest else rest

-- Whether an id is there is known from its shard.
any-shard :
    (hash : ℕ → ℕ) (span_id : ℕ) (l : List ActiveSpan)
    → any (λ b. b.span_id == span_id) (shard_of_table hash (shard_index hash span_id) l)
      ≡ any (λ b. b.span_id == span_id) l
unfolding shard_of_table
any-shard hash span_id [] = refl
any-shard hash span_id (a ∷ l) = elim (Bool-cases (a.span_id == span_id)) [
  | inl e ↦
      let same : a.span_id ≡ span_id = ground arith in
      let k = shard_index hash span_id in
      let here : (shard_index hash a.span_id == k) ≡ true =
        rw (ap (shard_index hash) same) (let t : (k == k) ≡ true = ground arith in t) in
      rw (here, e) refl
  | inr n ↦ elim (Bool-cases (shard_index hash a.span_id == shard_index hash span_id)) [
    | inl h ↦ rw (h, n) (any-shard hash span_id l)
    | inr h ↦ rw (h, n) (any-shard hash span_id l)
  ]
]

shard-insert :
    (hash : ℕ → ℕ) (a : ActiveSpan) (l : List ActiveSpan)
    → shard_of_table hash (shard_index hash a.span_id) (insert a l)
      ≡ insert a (shard_of_table hash (shard_index hash a.span_id) l)
unfolding shard_of_table
shard-insert hash a l =
    let k = shard_index hash a.span_id in
    let here : (k == k) ≡ true = ground arith in
    elim (Bool-cases (any (λ b. b.span_id == a.span_id) l)) [
      | inl e ↦ let e' = any-shard hash a.span_id l ∙ e in rw (e, e') refl
      | inr e ↦ let e' = any-shard hash a.span_id l ∙ e in rw (e, e', here) refl
    ]

other-insert :
    (hash : ℕ → ℕ) (a : ActiveSpan) (l : List ActiveSpan) (j : ℕ)
    → (shard_index hash a.span_id == j) ≡ false
    → shard_of_table hash j (insert a l) ≡ shard_of_table hash j l
unfolding shard_of_table
other-insert hash a l j h = elim (Bool-cases (any (λ b. b.span_id == a.span_id) l)) [
  | inl e ↦ rw e refl
  | inr e ↦ rw (e, h) refl
]

shard-erase :
    (hash : ℕ → ℕ) (span_id : ℕ) (l : List ActiveSpan) (j : ℕ)
    → shard_of_table hash j (erase span_id l) ≡ erase span_id (shard_of_table hash j l)
unfolding shard_of_table
shard-erase hash span_id [] j = refl
shard-erase hash span_id (a ∷ l) j = elim (Bool-cases (a.span_id == span_id)) [
  | inl e ↦ elim (Bool-cases (shard_index hash a.span_id == j)) [
    | inl h ↦ rw (e, h, e) (shard-erase hash span_id l j)
    | inr h ↦ rw (e, h) (shard-erase hash span_id l j)
  ]
  | inr e ↦ elim (Bool-cases (shard_index hash a.span_id == j)) [
    | inl h ↦ rw (e, h, e) (ap (λ x. a ∷ x) (shard-erase hash span_id l j))
    | inr h ↦ rw (e, h) (shard-erase hash span_id l j)
  ]
]

other-erase :
    (hash : ℕ → ℕ) (span_id : ℕ) (l : List ActiveSpan) (j : ℕ)
    → (shard_index hash span_id == j) ≡ false
    → erase span_id (shard_of_table hash j l) ≡ shard_of_table hash j l
unfolding shard_of_table
other-erase hash span_id [] j n = refl
other-erase hash span_id (a ∷ l) j n = elim (Bool-cases (shard_index hash a.span_id == j)) [
  | inl h ↦
      let differs : (a.span_id == span_id) ≡ false = elim (Bool-cases (a.span_id == span_id)) [
        | inl e ↦
            let same : a.span_id ≡ span_id = ground arith in
            absurd (let k = ap (shard_index hash) same in ground arith)
        | inr e ↦ e
      ] in
      rw (h, differs) (ap (λ x. a ∷ x) (other-erase hash span_id l j n))
  | inr h ↦ rw h (other-erase hash span_id l j n)
]

-- Each shard holds its part of the table.
unfoldable pub Shards : (ℕ → ℕ) → (ℕ → List ActiveSpan) → List ActiveSpan → Type 0
Shards hash shards table = (j : ℕ) → shards j ≡ shard_of_table hash j table

add-Shards :
    (hash : ℕ → ℕ) (shards : ℕ → List ActiveSpan) (table : List ActiveSpan) (a : ActiveSpan)
    → Shards hash shards table
    → Shards hash (add_active_span hash shards a) (insert a table)
unfolding Shards
add-Shards hash shards table a h j = elim (Bool-cases (j == shard_index hash a.span_id)) [
  | inl e ↦
      let same : j ≡ shard_index hash a.span_id = ground arith in
      let k = shard_index hash a.span_id in
      rw (same, put_self shards k (insert a (shards k)), h k) (sym (shard-insert hash a table))
  | inr n ↦
      let other : j ≢ shard_index hash a.span_id = ground arith in
      let k = shard_index hash a.span_id in
      rw (put_other shards k j (insert a (shards k)) other)
        (h j ∙ sym (other-insert hash a table j (ground arith)))
]

drop-Shards :
    (hash : ℕ → ℕ) (shards : ℕ → List ActiveSpan) (table : List ActiveSpan) (span_id : ℕ)
    → Shards hash shards table
    → Shards hash (drop_active_span hash shards span_id) (erase span_id table)
unfolding Shards
drop-Shards hash shards table span_id h j = elim (Bool-cases (j == shard_index hash span_id)) [
  | inl e ↦
      let same : j ≡ shard_index hash span_id = ground arith in
      let k = shard_index hash span_id in
      rw (same, put_self shards k (erase span_id (shards k)), h k)
        (sym (shard-erase hash span_id table k))
  | inr n ↦
      let other : j ≢ shard_index hash span_id = ground arith in
      let k = shard_index hash span_id in
      rw (put_other shards k j (erase span_id (shards k)) other) (
        h j
        ∙ sym (shard-erase hash span_id table j ∙ other-erase hash span_id table j (ground arith)))
]

pub run_calls-Shards :
    (hash : ℕ → ℕ) (shards : ℕ → List ActiveSpan) (table : List ActiveSpan) (l : List SpanCall)
    → Shards hash shards table
    → Shards hash (run_calls hash shards l) (run_table table l)
unfolding run_calls run_table
run_calls-Shards hash shards table [] h = h
run_calls-Shards hash shards table (add a ∷ l) h =
    run_calls-Shards hash (add_active_span hash shards a) (insert a table) l
      (add-Shards hash shards table a h)
run_calls-Shards hash shards table (drop_span span_id ∷ l) h =
    run_calls-Shards hash (drop_active_span hash shards span_id) (erase span_id table) l
      (drop-Shards hash shards table span_id h)

pub empty-Shards : (hash : ℕ → ℕ) → Shards hash (λ j. []) []
unfolding Shards shard_of_table
empty-Shards hash j = refl
