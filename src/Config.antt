-- ===== src/Config.antt =====
-- src/config.h, src/config.cpp: the settings of the agent. A floating point number is a value of a
-- parameter, which has the comparison and the constants that the code uses.
pub mod Yaml
pub mod Env
pub mod Make
pub mod Reload
mod Tests
use pinpoint_cpp_agent.Common.{ℕ, ◌-◌, ◌^◌, Bool, true, false, List, [], ◌∷◌, Bytes, codes}
use pinpoint_cpp_agent.Common.Int.{ℤ, pos, negsuc}

pub record Doubles : Type 1 where
  pub Double : Type 0
  pub less : Double → Double → Bool
  pub none_sampling_percent_rate : Double
  pub min_sampling_percent_rate : Double
  pub max_sampling_percent_rate : Double

pub record LogConfig : Type 0 where
  pub level : Bytes
  pub file_path : Bytes
  pub max_file_size : ℤ

pub record CollectorConfig : Type 0 where
  pub host : Bytes
  pub agent_port : ℤ
  pub span_port : ℤ
  pub stat_port : ℤ

pub record StatConfig : Type 0 where
  pub enable : Bool
  pub batch_count : ℤ
  pub collect_interval : ℤ

pub record SamplingConfig (Double : Type 0) : Type 0 where
  pub kind : Bytes  -- `type`
  pub counter_rate : ℤ
  pub percent_rate : Double
  pub new_throughput : ℤ
  pub cont_throughput : ℤ

pub record BatchConfig : Type 0 where
  pub size : ℤ
  pub flush_interval_ms : ℤ
  pub collect_deadline_ms : ℤ
  pub max_concurrent_requests : ℤ

-- Two fields have the type `size_t`.
pub record SpanConfig : Type 0 where
  pub queue_size : ℕ
  pub max_event_depth : ℤ
  pub max_event_sequence : ℤ
  pub event_chunk_size : ℕ
  pub batch : BatchConfig

pub record GrpcSslOptions : Type 0 where
  pub trust_cert_file_path : Bytes
  pub root_cert_file_path : Bytes

pub record GrpcChannelOptions : Type 0 where
  pub ssl_enable : Bool
  pub keepalive_time_ms : ℤ
  pub keepalive_timeout_ms : ℤ
  pub keepalive_permit_without_calls : Bool
  pub max_send_message_size : ℤ
  pub max_receive_message_size : ℤ
  pub sender_queue_size : ℤ
  pub channel_executor_queue_size : ℤ

pub record GrpcConfig : Type 0 where
  pub ssl : GrpcSslOptions
  pub channel : GrpcChannelOptions

pub record AgentInfoConfig : Type 0 where
  pub refresh_interval_ms : ℤ
  pub send_retry_interval_ms : ℤ
  pub max_try_per_attempt : ℤ

pub record UrlStatConfig : Type 0 where
  pub enable : Bool
  pub limit : ℤ
  pub enable_trim_path : Bool
  pub trim_path_depth : ℤ
  pub method_prefix : Bool

pub record ServerConfig : Type 0 where
  pub status_errors : List Bytes
  pub exclude_url : List Bytes
  pub exclude_method : List Bytes
  pub rec_request_header : List Bytes
  pub rec_request_cookie : List Bytes
  pub rec_response_header : List Bytes

pub record ClientConfig : Type 0 where
  pub rec_request_header : List Bytes
  pub rec_request_cookie : List Bytes
  pub rec_response_header : List Bytes

pub record HttpConfig : Type 0 where
  pub url_stat : UrlStatConfig
  pub server : ServerConfig
  pub client : ClientConfig

pub record SqlConfig : Type 0 where
  pub max_bind_args_size : ℤ
  pub enable_sql_stats : Bool

pub record Config (Double : Type 0) : Type 0 where
  pub app_name : Bytes
  pub app_type : ℤ
  pub agent_id : Bytes
  pub agent_name : Bytes
  pub uid_version : Bytes
  pub service_name : Bytes
  pub api_key : Bytes
  pub object_name_version : ℕ
  pub identity_resolved : Bool
  pub enable : Bool
  pub is_container : Bool
  pub enable_callstack_trace : Bool
  pub log : LogConfig
  pub collector : CollectorConfig
  pub stat : StatConfig
  pub sampling : SamplingConfig Double
  pub span : SpanConfig
  pub grpc : GrpcConfig
  pub agent_info : AgentInfoConfig
  pub http : HttpConfig
  pub sql : SqlConfig

-- The defaults.
abbrev pub default_log : LogConfig
default_log = record { level = codes "info"; file_path = []; max_file_size = pos 10 }

abbrev pub default_collector : CollectorConfig
default_collector = record {
  host = [];
  agent_port = pos 9991;
  span_port = pos 9993;
  stat_port = pos 9992;
}

abbrev pub default_stat : StatConfig
default_stat = record { enable = true; batch_count = pos 6; collect_interval = pos 5000 }

abbrev pub default_batch : BatchConfig
default_batch = record {
  size = pos 20;
  flush_interval_ms = pos 1000;
  collect_deadline_ms = pos 500;
  max_concurrent_requests = pos 10;
}

abbrev pub default_span : SpanConfig
default_span = record {
  queue_size = 1024;
  max_event_depth = pos 64;
  max_event_sequence = pos 5000;
  event_chunk_size = 20;
  batch = default_batch;
}

abbrev pub default_channel : GrpcChannelOptions
default_channel = record {
  ssl_enable = false;
  keepalive_time_ms = pos 30000;
  keepalive_timeout_ms = pos 60000;
  keepalive_permit_without_calls = false;
  max_send_message_size = pos 4194304;
  max_receive_message_size = pos 4194304;
  sender_queue_size = pos 1000;
  channel_executor_queue_size = pos 1000;
}

abbrev pub default_agent_info : AgentInfoConfig
default_agent_info = record {
  refresh_interval_ms = pos 86400000;
  send_retry_interval_ms = pos 3000;
  max_try_per_attempt = pos 3;
}

abbrev pub default_url_stat : UrlStatConfig
default_url_stat = record {
  enable = false;
  limit = pos 1024;
  enable_trim_path = true;
  trim_path_depth = pos 1;
  method_prefix = false;
}

abbrev pub default_server : ServerConfig
default_server = record {
  status_errors = codes "5xx" ∷ [];
  exclude_url = [];
  exclude_method = [];
  rec_request_header = [];
  rec_request_cookie = [];
  rec_response_header = [];
}

abbrev pub default_client : ClientConfig
default_client = record {
  rec_request_header = [];
  rec_request_cookie = [];
  rec_response_header = [];
}

abbrev pub app_type_cpp : ℤ
app_type_cpp = pos 1300

abbrev pub counter_sampling : Bytes
counter_sampling = codes "COUNTER"

abbrev pub default_sql : SqlConfig
default_sql = record { max_bind_args_size = pos 1024; enable_sql_stats = false }

abbrev pub default_config : (d : Doubles) → Config d.Double
default_config d = record {
  app_name = [];
  app_type = app_type_cpp;
  agent_id = [];
  agent_name = [];
  uid_version = [];
  service_name = [];
  api_key = [];
  object_name_version = 1;
  identity_resolved = true;
  enable = true;
  is_container = false;
  enable_callstack_trace = false;
  log = default_log;
  collector = default_collector;
  stat = default_stat;
  sampling = record {
    kind = counter_sampling;
    counter_rate = pos 1;
    percent_rate = d.max_sampling_percent_rate;
    new_throughput = pos 0;
    cont_throughput = pos 0;
  };
  span = default_span;
  grpc = record {
    ssl = record { trust_cert_file_path = []; root_cert_file_path = [] };
    channel = default_channel;
  };
  agent_info = default_agent_info;
  http = record { url_stat = default_url_stat; server = default_server; client = default_client };
  sql = default_sql;
}

-- An `int` that is assigned to a `size_t`.
abbrev pub to_size_t : ℤ → ℕ
to_size_t (pos n) = n
to_size_t (negsuc n) = 2 ^ 64 - 1 - n
