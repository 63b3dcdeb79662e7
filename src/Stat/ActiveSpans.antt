-- ===== src/Stat/ActiveSpans.antt =====
-- src/stat.cpp, src/stat.h: the spans that are under way, in shards by the hash of their id, and
-- their number by age. Times are in milliseconds; a difference is compared by its two sides.
pub mod Sharded
pub mod Ages
use pinpoint_cpp_agent.Common.{
  ℕ, suc, ◌+◌, ◌%◌, ◌≡◌, Bool, true, false, List, [], ◌∷◌, ltb, ◌==◌, if◌then◌else◌, any, put,
}

abbrev pub active_span_shard_count : ℕ
active_span_shard_count = 64

pub record ActiveSpan : Type 0 where
  pub span_id : ℕ
  pub start_time : ℕ

-- `unordered_map::insert`, which keeps the value of a key that is there
abbrev pub insert : ActiveSpan → List ActiveSpan → List ActiveSpan
insert a l = if any (λ b. b.span_id == a.span_id) l then l else a ∷ l

abbrev pub erase : ℕ → List ActiveSpan → List ActiveSpan
erase span_id [] = []
erase span_id (a ∷ l) = if a.span_id == span_id then erase span_id l else a ∷ erase span_id l

-- `active_requests`
pub record ActiveRequests : Type 0 where
  pub fast : ℕ
  pub normal : ℕ
  pub slow : ℕ
  pub very_slow : ℕ

abbrev pub no_requests : ActiveRequests
no_requests = record { fast = 0; normal = 0; slow = 0; very_slow = 0 }

-- The counter that a span of the loop raises.
abbrev pub count_request : ℕ → ActiveRequests → ActiveSpan → ActiveRequests
count_request sample_time r a =
    if ltb sample_time (a.start_time + 1000)
    then record r { fast = r.fast + 1 }
    else if ltb sample_time (a.start_time + 3000)
    then record r { normal = r.normal + 1 }
    else if ltb sample_time (a.start_time + 5000)
    then record r { slow = r.slow + 1 }
    else record r { very_slow = r.very_slow + 1 }

abbrev pub count_requests : ℕ → ActiveRequests → List ActiveSpan → ActiveRequests
count_requests sample_time r [] = r
count_requests sample_time r (a ∷ l) = count_requests sample_time (count_request sample_time r a) l

-- The loop over the shards: the first `n` ones.
unfoldable pub count_shards : ℕ → (ℕ → List ActiveSpan) → ℕ → ActiveRequests
count_shards sample_time shards ℕ.zero = no_requests
count_shards sample_time shards (suc n) =
    count_requests sample_time (count_shards sample_time shards n) (shards n)

abbrev pub collect_active_requests : (ℕ → List ActiveSpan) → ℕ → ActiveRequests
collect_active_requests shards sample_time = count_shards sample_time shards active_span_shard_count

-- `hash` is `std::hash<int64_t>`.
module _ (hash : ℕ → ℕ) where
  abbrev pub shard_index : ℕ → ℕ
  shard_index span_id = hash span_id % active_span_shard_count

  abbrev pub add_active_span : (ℕ → List ActiveSpan) → ActiveSpan → ℕ → List ActiveSpan
  add_active_span shards a =
      put shards (shard_index a.span_id) (insert a (shards (shard_index a.span_id)))

  abbrev pub drop_active_span : (ℕ → List ActiveSpan) → ℕ → ℕ → List ActiveSpan
  drop_active_span shards span_id =
      put shards (shard_index span_id) (erase span_id (shards (shard_index span_id)))

-- A call on the spans under way.
pub data SpanCall : Type 0 where
  add : ActiveSpan → SpanCall
  drop_span : ℕ → SpanCall

unfoldable pub run_calls : (ℕ → ℕ) → (ℕ → List ActiveSpan) → List SpanCall → ℕ → List ActiveSpan
run_calls hash shards [] = shards
run_calls hash shards (add a ∷ l) = run_calls hash (add_active_span hash shards a) l
run_calls hash shards (drop_span span_id ∷ l) =
    run_calls hash (drop_active_span hash shards span_id) l
