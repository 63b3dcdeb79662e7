-- ===== src/Config/Yaml.antt =====
-- src/config.cpp: the settings of a YAML file. The nodes of the YAML library are a parameter; a
-- conversion or a subscript that throws is a value.
pub mod Load
use pinpoint_cpp_agent.Common.{
  ℕ, Bool, true, false, List, [], ◌∷◌, Option, none, some, ltb, if◌then◌else◌, Bytes, codes,
}
use pinpoint_cpp_agent.Common.Int.{ℤ, pos}
use pinpoint_cpp_agent.Config.{
  Config, BatchConfig, SpanConfig, LogConfig, GrpcChannelOptions, GrpcSslOptions, HttpConfig,
  app_type_cpp, counter_sampling, default_log, default_collector, default_stat, default_span,
  default_batch, default_agent_info, default_url_stat, default_sql, to_size_t,
}

-- `operator[]`
pub data Lookup (Node : Type 0) : Type 0 where
  bad_subscript : Lookup Node
  undefined : Lookup Node
  found : Node → Lookup Node

pub record Yaml (Double : Type 0) : Type 1 where
  pub Node : Type 0
  pub node_size : Node → ℕ
  pub lookup : Node → Bytes → Lookup Node
  pub as_bool : Node → Option Bool
  pub as_string : Node → Option Bytes
  pub as_strings : Node → Option (List Bytes)
  pub as_int : Node → Option ℤ
  pub as_double : Node → Option Double

-- The loader's state, and whether an exception has stopped it.
pub record Loading (Double : Type 0) : Type 0 where
  pub config : Config Double
  pub is_container_set : Bool

pub data Loaded (Double : Type 0) : Type 0 where
  went : Loading Double → Loaded Double
  stopped : Loading Double → Loaded Double

abbrev pub loading : {Double : Type 0} → Loaded Double → Loading Double
loading (went s) = s
loading (stopped s) = s

abbrev pub then_load :
    {Double : Type 0} → Loaded Double → (Loading Double → Loaded Double) → Loaded Double
then_load (went s) f = f s
then_load (stopped s) f = stopped s

abbrev pub value_or {ℓ} : {A : Type ℓ} → Option A → A → A
value_or none default_value = default_value
value_or (some a) default_value = a

module _ {Double : Type 0} (y : Yaml Double) where
  -- A getter: the default when the subscript or the conversion throws, or nothing is there.
  abbrev pub get_value {ℓ} : {A : Type ℓ} → (y.Node → Option A) → y.Node → Bytes → A → A
  get_value convert yaml cname default_value = elim (y.lookup yaml cname) [
    | bad_subscript ↦ default_value
    | undefined ↦ default_value
    | found node ↦ value_or (convert node) default_value
  ]

  abbrev pub get_boolean : y.Node → Bytes → Bool → Bool
  get_boolean = get_value y.as_bool

  abbrev pub get_string : y.Node → Bytes → Bytes → Bytes
  get_string = get_value y.as_string

  abbrev pub get_string_vector : y.Node → Bytes → List Bytes → List Bytes
  get_string_vector = get_value y.as_strings

  abbrev pub get_int : y.Node → Bytes → ℤ → ℤ
  get_int = get_value y.as_int

  abbrev pub get_double : y.Node → Bytes → Double → Double
  get_double = get_value y.as_double

  -- `if (auto& section = yaml[name])`: a subscript that throws stops the loader.
  abbrev pub section :
      y.Node → Bytes → (y.Node → Loading Double → Loaded Double) → Loading Double → Loaded Double
  section yaml name body s = elim (y.lookup yaml name) [
    | bad_subscript ↦ stopped s
    | undefined ↦ went s
    | found node ↦ body node s
  ]

  -- A section whose getters cannot throw.
  abbrev pub settings :
      (y.Node → Config Double → Config Double) → y.Node → Loading Double → Loaded Double
  settings read node s = went (record s { config = read node s.config })

  abbrev pub load_top : y.Node → Config Double → Config Double
  load_top yaml c = record c {
    log = record c.log { level = get_string yaml (codes "LogLevel") default_log.level };
    enable = get_boolean yaml (codes "Enable") true;
    app_name = get_string yaml (codes "ApplicationName") [];
    app_type = get_int yaml (codes "ApplicationType") app_type_cpp;
    agent_id = get_string yaml (codes "AgentId") [];
    agent_name = get_string yaml (codes "AgentName") [];
    uid_version = get_string yaml (codes "UidVersion") [];
    service_name = get_string yaml (codes "ServiceName") [];
    api_key = get_string yaml (codes "ApiKey") [];
  }

  abbrev pub load_log : y.Node → Config Double → Config Double
  load_log log c = record c {
    log = record {
      level = get_string log (codes "Level") default_log.level;
      file_path = get_string log (codes "FilePath") [];
      max_file_size = get_int log (codes "MaxFileSize") default_log.max_file_size;
    };
  }

  abbrev pub load_collector : y.Node → Config Double → Config Double
  load_collector collector c = record c {
    collector = record {
      host = get_string collector (codes "GrpcHost") [];
      agent_port = get_int collector (codes "GrpcAgentPort") default_collector.agent_port;
      span_port = get_int collector (codes "GrpcSpanPort") default_collector.span_port;
      stat_port = get_int collector (codes "GrpcStatPort") default_collector.stat_port;
    };
  }

  abbrev pub load_stat : y.Node → Config Double → Config Double
  load_stat stat c = record c {
    stat = record {
      enable = get_boolean stat (codes "Enable") true;
      batch_count = get_int stat (codes "BatchCount") default_stat.batch_count;
      collect_interval = get_int stat (codes "BatchInterval") default_stat.collect_interval;
    };
  }

  abbrev pub load_url_stat : y.Node → Config Double → Config Double
  load_url_stat http c = record c {
    http = record c.http {
      url_stat = record {
        enable = get_boolean http (codes "CollectUrlStat") false;
        limit = get_int http (codes "UrlStatLimit") default_url_stat.limit;
        enable_trim_path = get_boolean http (codes "UrlStatEnableTrimPath") true;
        trim_path_depth = get_int http (codes "UrlStatTrimPathDepth") (pos 1);
        method_prefix = get_boolean http (codes "UrlStatMethodPrefix") false;
      };
    };
  }

  abbrev pub load_server : y.Node → Config Double → Config Double
  load_server srv c = record c {
    http = record c.http {
      server = record {
        status_errors = get_string_vector srv (codes "StatusCodeErrors") (codes "5xx" ∷ []);
        exclude_url = get_string_vector srv (codes "ExcludeUrl") [];
        exclude_method = get_string_vector srv (codes "ExcludeMethod") [];
        rec_request_header = get_string_vector srv (codes "RecordRequestHeader") [];
        rec_request_cookie = get_string_vector srv (codes "RecordRequestCookie") [];
        rec_response_header = get_string_vector srv (codes "RecordResponseHeader") [];
      };
    };
  }

  abbrev pub load_client : y.Node → Config Double → Config Double
  load_client cli c = record c {
    http = record c.http {
      client = record {
        rec_request_header = get_string_vector cli (codes "RecordRequestHeader") [];
        rec_request_cookie = get_string_vector cli (codes "RecordRequestCookie") [];
        rec_response_header = get_string_vector cli (codes "RecordResponseHeader") [];
      };
    };
  }

  abbrev pub load_http : y.Node → Loading Double → Loaded Double
  load_http http s =
      then_load
        (then_load (settings load_url_stat http s)
          (section http (codes "Server") (settings load_server)))
        (section http (codes "Client") (settings load_client))
