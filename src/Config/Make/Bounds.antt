-- ===== src/Config/Make/Bounds.antt =====
-- Every setting that `make_config` gives is within its limits, and settings within them are kept.
use pinpoint_cpp_agent.Common.{◌≤◌, ◌≡◌, refl, Bool, false, ◌⊎◌, inl, inr, Bool-cases, arith}
use pinpoint_cpp_agent.Common.Int.{ℤ, pos, negsuc, ◌≤ℤ◌}
use pinpoint_cpp_agent.Config.{
  Doubles, SpanConfig, BatchConfig, CollectorConfig, StatConfig, SamplingConfig, GrpcChannelOptions,
  AgentInfoConfig, Config,
}
use pinpoint_cpp_agent.Config.Yaml.{Yaml}
use pinpoint_cpp_agent.Config.Make.{
  eqb_unlimited, below_or, range_or, clamp_port, max_span_event, limit_or, clamp_percent, validate,
  Host, Source, make_config, settings_of, read_source, resolve_identity,
}

abbrev pub Within : ℤ → ℤ → ℤ → Type 0
Within low high v = (low ≤ℤ v) × (v ≤ℤ high)

abbrev pub CollectorInBounds : CollectorConfig → Type 0
CollectorInBounds c =
    Within (pos 1) (pos 65535) c.agent_port
    × Within (pos 1) (pos 65535) c.span_port
    × Within (pos 1) (pos 65535) c.stat_port

abbrev pub StatInBounds : StatConfig → Type 0
StatInBounds c =
    Within (pos 1) (pos 100) c.batch_count × Within (pos 1000) (pos 60000) c.collect_interval

abbrev pub BatchInBounds : BatchConfig → Type 0
BatchInBounds c =
    (pos 1 ≤ℤ c.size)
    × (pos 1 ≤ℤ c.flush_interval_ms)
    × (pos 0 ≤ℤ c.collect_deadline_ms)
    × (pos 1 ≤ℤ c.max_concurrent_requests)

abbrev pub SpanInBounds : SpanConfig → Type 0
SpanInBounds c =
    (1 ≤ c.queue_size)
    × (c.queue_size ≤ 65536)
    × (pos 2 ≤ℤ c.max_event_depth)
    × (pos 4 ≤ℤ c.max_event_sequence)
    × (1 ≤ c.event_chunk_size)
    × BatchInBounds c.batch

abbrev pub AgentInfoInBounds : AgentInfoConfig → Type 0
AgentInfoInBounds c =
    (pos 1 ≤ℤ c.refresh_interval_ms)
    × (pos 1 ≤ℤ c.send_retry_interval_ms)
    × (pos 1 ≤ℤ c.max_try_per_attempt)

abbrev pub ChannelInBounds : GrpcChannelOptions → Type 0
ChannelInBounds c =
    (pos 0 ≤ℤ c.keepalive_time_ms)
    × (pos 0 ≤ℤ c.keepalive_timeout_ms)
    × (negsuc 0 ≤ℤ c.max_send_message_size)
    × (negsuc 0 ≤ℤ c.max_receive_message_size)
    × Within (pos 1) (pos 65536) c.sender_queue_size
    × Within (pos 1) (pos 65536) c.channel_executor_queue_size

-- A number that is not above the highest rate, and not below the lowest but for none.
abbrev pub PercentInBounds : (d : Doubles) → d.Double → Type 0
PercentInBounds d v =
    (d.less d.max_sampling_percent_rate v ≡ false)
    × ((d.less v d.min_sampling_percent_rate ≡ false) ⊎ (v ≡ d.none_sampling_percent_rate))

abbrev pub SamplingInBounds : (d : Doubles) → SamplingConfig d.Double → Type 0
SamplingInBounds d c =
    (pos 0 ≤ℤ c.counter_rate)
    × (pos 0 ≤ℤ c.new_throughput)
    × (pos 0 ≤ℤ c.cont_throughput)
    × PercentInBounds d c.percent_rate

abbrev pub InBounds : (d : Doubles) → Config d.Double → Type 0
InBounds d c =
    CollectorInBounds c.collector
    × StatInBounds c.stat
    × SamplingInBounds d c.sampling
    × SpanInBounds c.span
    × AgentInfoInBounds c.agent_info
    × (pos 0 ≤ℤ c.http.url_stat.limit)
    × ChannelInBounds c.grpc.channel

-- The constants are in the order of their names.
pub record IsOrdered (d : Doubles) : Type 0 where
  pub max_none : d.less d.max_sampling_percent_rate d.none_sampling_percent_rate ≡ false
  pub max_min : d.less d.max_sampling_percent_rate d.min_sampling_percent_rate ≡ false
  pub max_max : d.less d.max_sampling_percent_rate d.max_sampling_percent_rate ≡ false
  pub min_min : d.less d.min_sampling_percent_rate d.min_sampling_percent_rate ≡ false

below_or-le : (low default_value v : ℤ) → low ≤ℤ default_value → low ≤ℤ below_or low default_value v
below_or-le low default_value v h = ground arith

range_or-Within :
    (low high default_value v : ℤ)
    → Within low high default_value
    → Within low high (range_or low high default_value v)
range_or-Within low high default_value v h = ground arith

clamp_port-Within :
    (port default_port : ℤ)
    → Within (pos 1) (pos 65535) default_port
    → Within (pos 1) (pos 65535) (clamp_port port default_port)
clamp_port-Within port default_port h = ground arith

limit_or-le : (low v : ℤ) → low ≤ℤ max_span_event → low ≤ℤ limit_or low v
limit_or-le low v h = elim (Bool-cases (eqb_unlimited v)) [
  | inl e ↦ rw e h
  | inr n ↦ rw n (ground arith)
]

clamp_percent-PercentInBounds :
    (d : Doubles) (v : d.Double) → IsOrdered d → PercentInBounds d (clamp_percent d v)
clamp_percent-PercentInBounds d v o = elim (Bool-cases (d.less v d.none_sampling_percent_rate)) [
  | inl below ↦ rw below (o.max_none, inr refl)
  | inr n ↦ elim (Bool-cases (d.less v d.min_sampling_percent_rate)) [
    | inl low ↦ rw (n, low) (o.max_min, inl o.min_min)
    | inr m ↦ elim (Bool-cases (d.less d.max_sampling_percent_rate v)) [
      | inl above ↦ rw (n, m, above) (o.max_max, inl o.max_min)
      | inr k ↦ rw (n, m, k) (k, inl m)
    ]
  ]
]

validate-InBounds : (d : Doubles) (c : Config d.Double) → IsOrdered d → InBounds d (validate d c)
validate-InBounds d c o = (
  (
    clamp_port-Within c.collector.agent_port _ (omega arith, omega arith),
    clamp_port-Within c.collector.span_port _ (omega arith, omega arith),
    clamp_port-Within c.collector.stat_port _ (omega arith, omega arith),
  ),
  (
    range_or-Within (pos 1) (pos 100) _ c.stat.batch_count (omega arith, omega arith),
    range_or-Within (pos 1000) (pos 60000) _ c.stat.collect_interval (omega arith, omega arith),
  ),
  (
    below_or-le (pos 0) _ c.sampling.counter_rate (omega arith),
    below_or-le (pos 0) _ c.sampling.new_throughput (omega arith),
    below_or-le (pos 0) _ c.sampling.cont_throughput (omega arith),
    clamp_percent-PercentInBounds d c.sampling.percent_rate o,
  ),
  (
    ground arith,
    ground arith,
    limit_or-le (pos 2) c.span.max_event_depth (omega arith),
    limit_or-le (pos 4) c.span.max_event_sequence (omega arith),
    ground arith,
    (
      below_or-le (pos 1) _ c.span.batch.size (omega arith),
      below_or-le (pos 1) _ c.span.batch.flush_interval_ms (omega arith),
      below_or-le (pos 0) _ c.span.batch.collect_deadline_ms (omega arith),
      below_or-le (pos 1) _ c.span.batch.max_concurrent_requests (omega arith),
    ),
  ),
  (
    below_or-le (pos 1) _ c.agent_info.refresh_interval_ms (omega arith),
    below_or-le (pos 1) _ c.agent_info.send_retry_interval_ms (omega arith),
    below_or-le (pos 1) _ c.agent_info.max_try_per_attempt (omega arith),
  ),
  below_or-le (pos 0) _ c.http.url_stat.limit (omega arith),
  (
    below_or-le (pos 0) _ c.grpc.channel.keepalive_time_ms (omega arith),
    below_or-le (pos 0) _ c.grpc.channel.keepalive_timeout_ms (omega arith),
    below_or-le (negsuc 0) _ c.grpc.channel.max_send_message_size (omega arith),
    below_or-le (negsuc 0) _ c.grpc.channel.max_receive_message_size (omega arith),
    range_or-Within (pos 1) (pos 65536) _ c.grpc.channel.sender_queue_size
        (omega arith, omega arith),
    range_or-Within (pos 1) (pos 65536) _ c.grpc.channel.channel_executor_queue_size
        (omega arith, omega arith),
  ),
)

-- Whatever the file, its parse and the environment give, each of these settings of the
-- configuration that is made is within its limits: the ports, the batch and interval of the
-- statistics, the counter rate and throughputs of the samplers, the queue, depth, sequence, chunk
-- and batch sizes of the spans, the intervals and tries of the agent's registration, the limit of
-- the URL statistics, and the options of the transport. The percent rate is not above the highest
-- one, and not below the lowest one unless it is the rate of no sampling; these comparisons also
-- hold for a rate that is not a number. The order of the three constants for the percent rate is
-- assumed.
pub make_config-InBounds :
    (d : Doubles) (y : Yaml d.Double) (h : Host d y) (agent_exists : Bool) (source : Source)
    → IsOrdered d
    → InBounds d (make_config d y h agent_exists source).0
make_config-InBounds d y h agent_exists source o =
    let s = settings_of d y h agent_exists (read_source d y h source).config_str in
    validate-InBounds d (resolve_identity d y h s.config) o
