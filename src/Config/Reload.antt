-- ===== src/Config/Reload.antt =====
-- src/config.cpp: `Config::check`, `isReloadable` and `retainNonReloadableFrom`. A null pointer
-- to the old configuration is none.
pub mod Retain
use pinpoint_cpp_agent.Common.{
  ℕ, Bool, true, false, not, ◌&&◌, List, [], ◌∷◌, Option, none, some, is_empty, ◌==◌, if◌then◌else◌,
  Bytes, bytes_eq,
}
use pinpoint_cpp_agent.Common.Int.{ℤ, pos, negsuc}
use pinpoint_cpp_agent.Config.{
  Config, CollectorConfig, GrpcChannelOptions, GrpcSslOptions, GrpcConfig,
}

abbrev pub eqb_int : ℤ → ℤ → Bool
eqb_int (pos m) (pos n) = m == n
eqb_int (pos m) (negsuc n) = false
eqb_int (negsuc m) (pos n) = false
eqb_int (negsuc m) (negsuc n) = m == n

abbrev pub eqb_bool : Bool → Bool → Bool
eqb_bool true b = b
eqb_bool false b = not b

-- `operator==` on tuples, by the comparisons of their parts.
abbrev pub all_true : List Bool → Bool
all_true [] = true
all_true (b ∷ l) = b && all_true l

abbrev pub channel_tests : GrpcChannelOptions → GrpcChannelOptions → List Bool
channel_tests lhs rhs =
    eqb_bool lhs.ssl_enable rhs.ssl_enable
    ∷ eqb_int lhs.keepalive_time_ms rhs.keepalive_time_ms
    ∷ eqb_int lhs.keepalive_timeout_ms rhs.keepalive_timeout_ms
    ∷ eqb_bool lhs.keepalive_permit_without_calls rhs.keepalive_permit_without_calls
    ∷ eqb_int lhs.max_send_message_size rhs.max_send_message_size
    ∷ eqb_int lhs.max_receive_message_size rhs.max_receive_message_size
    ∷ eqb_int lhs.sender_queue_size rhs.sender_queue_size
    ∷ eqb_int lhs.channel_executor_queue_size rhs.channel_executor_queue_size
    ∷ []

abbrev pub same_grpc_channel : GrpcChannelOptions → GrpcChannelOptions → Bool
same_grpc_channel lhs rhs = all_true (channel_tests lhs rhs)

abbrev pub ssl_tests : GrpcSslOptions → GrpcSslOptions → List Bool
ssl_tests lhs rhs =
    bytes_eq lhs.trust_cert_file_path rhs.trust_cert_file_path
    ∷ bytes_eq lhs.root_cert_file_path rhs.root_cert_file_path
    ∷ []

abbrev pub same_grpc_config : GrpcConfig → GrpcConfig → Bool
same_grpc_config lhs rhs =
    all_true (ssl_tests lhs.ssl rhs.ssl) && same_grpc_channel lhs.channel rhs.channel

module _ {Double : Type 0} where
  abbrev pub check : Config Double → Bool
  check c =
      if is_empty c.collector.host
      then false
      else if is_empty c.app_name
      then false
      else if not c.identity_resolved
      then false
      else true

  abbrev pub reload_tests : Config Double → Config Double → List Bool
  reload_tests c old =
      bytes_eq c.app_name old.app_name
      ∷ eqb_int c.app_type old.app_type
      ∷ bytes_eq c.agent_id old.agent_id
      ∷ bytes_eq c.agent_name old.agent_name
      ∷ bytes_eq c.uid_version old.uid_version
      ∷ bytes_eq c.service_name old.service_name
      ∷ bytes_eq c.api_key old.api_key
      ∷ (c.object_name_version == old.object_name_version)
      ∷ bytes_eq c.collector.host old.collector.host
      ∷ eqb_int c.collector.agent_port old.collector.agent_port
      ∷ eqb_int c.collector.span_port old.collector.span_port
      ∷ eqb_int c.collector.stat_port old.collector.stat_port
      ∷ []

  abbrev pub is_reloadable : Config Double → Option (Config Double) → Bool
  is_reloadable c none = true
  is_reloadable c (some old) = all_true (reload_tests c old) && same_grpc_config c.grpc old.grpc

  abbrev pub retain_non_reloadable_from : Config Double → Option (Config Double) → Config Double
  retain_non_reloadable_from c none = c
  retain_non_reloadable_from c (some old) = record c {
    app_name = old.app_name;
    app_type = old.app_type;
    agent_id = old.agent_id;
    agent_name = old.agent_name;
    uid_version = old.uid_version;
    service_name = old.service_name;
    api_key = old.api_key;
    object_name_version = old.object_name_version;
    identity_resolved = old.identity_resolved;
    collector = old.collector;
    grpc = old.grpc;
  }
