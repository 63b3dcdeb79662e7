-- ===== src/Config/Make.antt =====
-- src/config.cpp: the limits of the settings, and `make_config`. The files, the process and new
-- uuids are arguments.
pub mod Bounds
pub mod Negative
use pinpoint_cpp_agent.Common.{
  ℕ, Bool, true, false, not, ◌&&◌, ◌||◌, List, [], ◌∷◌, Option, none, some, is_empty, ltb,
  if◌then◌else◌, Bytes, codes,
}
use pinpoint_cpp_agent.Common.Int.{ℤ, pos, negsuc, ltb_ℤ}
use pinpoint_cpp_agent.ObjectName.{
  NameVersion, k_v1, k_v3, k_v4, parse_name_version, version_v1, version_v4, Fresh,
  generate_uuid_v7, base64_encode_uuid, ObjectNameInput, ObjectName, resolve_object_name,
}
use pinpoint_cpp_agent.Config.{
  Doubles, SpanConfig, BatchConfig, CollectorConfig, StatConfig, SamplingConfig, GrpcChannelOptions,
  AgentInfoConfig, UrlStatConfig, Config, default_collector, default_stat, default_span,
  default_batch, default_channel, default_agent_info, default_url_stat, default_config,
}
use pinpoint_cpp_agent.Config.Yaml.{Yaml, Loading, loading}
use pinpoint_cpp_agent.Config.Yaml.Load.{load_yaml_config}
use pinpoint_cpp_agent.Config.Env.{Environment, load_env_config, get_env}

abbrev pub eqb_unlimited : ℤ → Bool
eqb_unlimited (negsuc ℕ.zero) = true
eqb_unlimited _ = false

abbrev pub out_of_range : ℤ → ℤ → ℤ → Bool
out_of_range low high v = ltb_ℤ v low || ltb_ℤ high v

-- A value below `low`, or outside of a range, is replaced.
abbrev pub below_or : ℤ → ℤ → ℤ → ℤ
below_or low default_value v = if ltb_ℤ v low then default_value else v

abbrev pub range_or : ℤ → ℤ → ℤ → ℤ → ℤ
range_or low high default_value v = if out_of_range low high v then default_value else v

abbrev pub clamp_port : ℤ → ℤ → ℤ
clamp_port port default_port =
    if ltb_ℤ port (pos 1) || ltb_ℤ (pos 65535) port then default_port else port

abbrev pub max_span_event : ℤ
max_span_event = pos 2147483647

-- -1 is no limit; another value below `low` is raised to it.
abbrev pub limit_or : ℤ → ℤ → ℤ
limit_or low v = if eqb_unlimited v then max_span_event else if ltb_ℤ v low then low else v

abbrev pub validate_collector : CollectorConfig → CollectorConfig
validate_collector c = record c {
  agent_port = clamp_port c.agent_port default_collector.agent_port;
  span_port = clamp_port c.span_port default_collector.span_port;
  stat_port = clamp_port c.stat_port default_collector.stat_port;
}

abbrev pub validate_stat : StatConfig → StatConfig
validate_stat c = record c {
  batch_count = range_or (pos 1) (pos 100) default_stat.batch_count c.batch_count;
  collect_interval =
      range_or (pos 1000) (pos 60000) default_stat.collect_interval c.collect_interval;
}

abbrev pub clamp_percent : (d : Doubles) → d.Double → d.Double
clamp_percent d v =
    if d.less v d.none_sampling_percent_rate
    then d.none_sampling_percent_rate
    else if d.less v d.min_sampling_percent_rate
    then d.min_sampling_percent_rate
    else if d.less d.max_sampling_percent_rate v
    then d.max_sampling_percent_rate
    else v

abbrev pub validate_sampling : (d : Doubles) → SamplingConfig d.Double → SamplingConfig d.Double
validate_sampling d c = record c {
  counter_rate = below_or (pos 0) (pos 0) c.counter_rate;
  percent_rate = clamp_percent d c.percent_rate;
  new_throughput = below_or (pos 0) (pos 0) c.new_throughput;
  cont_throughput = below_or (pos 0) (pos 0) c.cont_throughput;
}

abbrev pub validate_batch : BatchConfig → BatchConfig
validate_batch c = record {
  size = below_or (pos 1) default_batch.size c.size;
  flush_interval_ms = below_or (pos 1) default_batch.flush_interval_ms c.flush_interval_ms;
  collect_deadline_ms = below_or (pos 0) default_batch.collect_deadline_ms c.collect_deadline_ms;
  max_concurrent_requests =
      below_or (pos 1) default_batch.max_concurrent_requests c.max_concurrent_requests;
}

abbrev pub validate_span : SpanConfig → SpanConfig
validate_span c = record {
  queue_size =
      if ltb c.queue_size 1 || ltb 65536 c.queue_size
      then default_span.queue_size
      else c.queue_size;
  max_event_depth = limit_or (pos 2) c.max_event_depth;
  max_event_sequence = limit_or (pos 4) c.max_event_sequence;
  event_chunk_size =
      if ltb c.event_chunk_size 1 then default_span.event_chunk_size else c.event_chunk_size;
  batch = validate_batch c.batch;
}

abbrev pub validate_agent_info : AgentInfoConfig → AgentInfoConfig
validate_agent_info c = record {
  refresh_interval_ms =
      below_or (pos 1) default_agent_info.refresh_interval_ms c.refresh_interval_ms;
  send_retry_interval_ms =
      below_or (pos 1) default_agent_info.send_retry_interval_ms c.send_retry_interval_ms;
  max_try_per_attempt =
      below_or (pos 1) default_agent_info.max_try_per_attempt c.max_try_per_attempt;
}

abbrev pub validate_url_stat : UrlStatConfig → UrlStatConfig
validate_url_stat c = record c { limit = below_or (pos 0) default_url_stat.limit c.limit }

abbrev pub validate_grpc_channel : GrpcChannelOptions → GrpcChannelOptions
validate_grpc_channel c = record c {
  keepalive_time_ms = below_or (pos 0) default_channel.keepalive_time_ms c.keepalive_time_ms;
  keepalive_timeout_ms =
      below_or (pos 0) default_channel.keepalive_timeout_ms c.keepalive_timeout_ms;
  max_send_message_size =
      below_or (negsuc 0) default_channel.max_send_message_size c.max_send_message_size;
  max_receive_message_size =
      below_or (negsuc 0) default_channel.max_receive_message_size c.max_receive_message_size;
  sender_queue_size =
      range_or (pos 1) (pos 65536) default_channel.sender_queue_size c.sender_queue_size;
  channel_executor_queue_size =
      range_or (pos 1) (pos 65536) default_channel.channel_executor_queue_size
        c.channel_executor_queue_size;
}

abbrev pub validate : (d : Doubles) → Config d.Double → Config d.Double
validate d c = record c {
  collector = validate_collector c.collector;
  stat = validate_stat c.stat;
  sampling = validate_sampling d c.sampling;
  span = validate_span c.span;
  agent_info = validate_agent_info c.agent_info;
  http = record c.http { url_stat = validate_url_stat c.http.url_stat };
  grpc = record c.grpc { channel = validate_grpc_channel c.grpc.channel };
}

abbrev pub object_name_version_of : NameVersion → ℕ
object_name_version_of k_v4 = version_v4
object_name_version_of _ = version_v1

-- What `make_config` finds outside: the process, the files, and the uuids it would generate.
pub record Host (d : Doubles) (y : Yaml d.Double) : Type 0 where
  pub environment : Environment d.Double
  pub prefix : Bytes
  pub read_file : Bytes → Option Bytes
  pub parse : Bytes → Option y.Node
  pub dockerenv : Bool
  pub web_safe_base64 : Bytes → Bytes
  pub fresh : Fresh
  pub spare : Fresh

abbrev pub identity_input : {D : Type 0} → Config D → ObjectNameInput
identity_input c = record {
  agent_id = c.agent_id;
  agent_name = c.agent_name;
  application_name = c.app_name;
  service_name = c.service_name;
  api_key = c.api_key;
}

-- The two globals that keep the source of the settings.
pub record Source : Type 0 where
  pub file_path : Bytes
  pub config_str : Bytes

module _ (d : Doubles) (y : Yaml d.Double) (h : Host d y) where
  abbrev pub is_container_env : Bool
  is_container_env =
      if h.dockerenv then true else elim (h.environment.getenv (codes "KUBERNETES_SERVICE_HOST")) [
        | none ↦ false
        | some v ↦ not (is_empty v)
      ]

  abbrev pub resolve_identity : Config d.Double → Config d.Double
  resolve_identity c =
      let version = parse_name_version c.uid_version in
      let c1 = record c { object_name_version = object_name_version_of version } in
      elim (resolve_object_name h.web_safe_base64 (generate_uuid_v7 h.fresh) version
        (identity_input c)) [
          | some o ↦ record c1 {
            agent_id = o.agent_id;
            agent_name = o.agent_name;
            app_name = o.application_name;
            service_name = o.service_name;
            api_key = o.api_key;
            identity_resolved = true;
          }
          | none ↦ record c1 {
            agent_id =
                if is_empty c.agent_id
                then base64_encode_uuid h.web_safe_base64 (generate_uuid_v7 h.spare)
                else c.agent_id;
            identity_resolved = false;
          }
        ]

  -- The path of the file, and its text unless it cannot be opened.
  abbrev pub read_source : Source → Source
  read_source s =
      let file_path : Bytes = elim (get_env d h.environment h.prefix (codes "CONFIG_FILE")) [
        | none ↦ s.file_path
        | some path ↦ path
      ] in
      record {
        file_path = file_path;
        config_str =
            if is_empty file_path
            then s.config_str
            else elim (h.read_file file_path) [ none ↦ s.config_str | some text ↦ text ];
      }

  -- The settings of the file; an empty node is not loaded.
  abbrev pub load_source : Bytes → Loading d.Double
  load_source user_config =
      let s : Loading d.Double = record { config = default_config d; is_container_set = false } in
      if is_empty user_config then s else elim (h.parse user_config) [
        | none ↦ s
        | some yaml ↦ loading (load_yaml_config d y yaml s)
      ]

  -- The environment is read only while there is no agent.
  abbrev pub settings_of : Bool → Bytes → Loading d.Double
  settings_of agent_exists user_config =
      let loaded = load_source user_config in
      if agent_exists then loaded else load_env_config d h.environment h.prefix loaded

  abbrev pub make_config : Bool → Source → Config d.Double × Source
  make_config agent_exists source =
      let source' = read_source source in
      let s = settings_of agent_exists source'.config_str in
      let c = validate d (resolve_identity s.config) in
      (
        record c { is_container = if s.is_container_set then c.is_container else is_container_env },
        source',
      )
