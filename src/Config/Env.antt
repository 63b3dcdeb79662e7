-- ===== src/Config/Env.antt =====
-- src/config.cpp: the settings of the environment. `getenv`, the parsers of absl and `StrSplit`
-- are a parameter.
use pinpoint_cpp_agent.Common.{Bool, true, false, List, ◌++◌, Option, none, some, Bytes, codes}
use pinpoint_cpp_agent.Common.Int.{ℤ, pos}
use pinpoint_cpp_agent.Config.{
  Doubles, Config, app_type_cpp, default_log, default_collector, default_stat, default_span,
  default_batch, default_agent_info, default_url_stat, default_sql, to_size_t,
}
use pinpoint_cpp_agent.Config.Yaml.{value_or, Loading}

pub record Environment (Double : Type 0) : Type 0 where
  pub getenv : Bytes → Option Bytes
  pub stob : Bytes → Option Bool
  pub stoi : Bytes → Option ℤ
  pub stod : Bytes → Option Double
  pub split_commas : Bytes → List Bytes

module _ (d : Doubles) (e : Environment d.Double) (prefix : Bytes) where
  abbrev pub get_env : Bytes → Option Bytes
  get_env suffix = e.getenv (prefix ++ codes "_" ++ suffix)

  -- A variable that is not set leaves the setting.
  abbrev pub override {ℓ} : {A : Type ℓ} → Bytes → (Bytes → A) → A → A
  override suffix read current = elim (get_env suffix) [ none ↦ current | some v ↦ read v ]

  -- A value that cannot be parsed gives the default.
  abbrev pub safe_env_stob : Bool → Bytes → Bool
  safe_env_stob default_value v = value_or (e.stob v) default_value

  abbrev pub safe_env_stoi : ℤ → Bytes → ℤ
  safe_env_stoi default_value v = value_or (e.stoi v) default_value

  abbrev pub safe_env_stod : d.Double → Bytes → d.Double
  safe_env_stod default_value v = value_or (e.stod v) default_value

  abbrev pub load_env_top : Config d.Double → Config d.Double
  load_env_top c = record c {
    enable = override (codes "ENABLE") (safe_env_stob true) c.enable;
    app_name = override (codes "APPLICATION_NAME") (λ v. v) c.app_name;
    app_type = override (codes "APPLICATION_TYPE") (safe_env_stoi app_type_cpp) c.app_type;
    agent_id = override (codes "AGENT_ID") (λ v. v) c.agent_id;
    agent_name = override (codes "AGENT_NAME") (λ v. v) c.agent_name;
    uid_version = override (codes "UID_VERSION") (λ v. v) c.uid_version;
    service_name = override (codes "SERVICE_NAME") (λ v. v) c.service_name;
    api_key = override (codes "API_KEY") (λ v. v) c.api_key;
  }

  abbrev pub load_env_log : Config d.Double → Config d.Double
  load_env_log c = record c {
    log = record c.log {
      level = override (codes "LOG_LEVEL") (λ v. v) c.log.level;
      file_path = override (codes "LOG_FILE_PATH") (λ v. v) c.log.file_path;
      max_file_size =
          override (codes "LOG_MAX_FILE_SIZE") (safe_env_stoi default_log.max_file_size)
            c.log.max_file_size;
    };
  }

  abbrev pub load_env_collector : Config d.Double → Config d.Double
  load_env_collector c = record c {
    collector = record c.collector {
      host = override (codes "GRPC_HOST") (λ v. v) c.collector.host;
      agent_port =
          override (codes "GRPC_AGENT_PORT") (safe_env_stoi default_collector.agent_port)
            c.collector.agent_port;
      span_port =
          override (codes "GRPC_SPAN_PORT") (safe_env_stoi default_collector.span_port)
            c.collector.span_port;
      stat_port =
          override (codes "GRPC_STAT_PORT") (safe_env_stoi default_collector.stat_port)
            c.collector.stat_port;
    };
  }

  abbrev pub load_env_stat : Config d.Double → Config d.Double
  load_env_stat c = record c {
    stat = record c.stat {
      enable = override (codes "STAT_ENABLE") (safe_env_stob true) c.stat.enable;
      batch_count =
          override (codes "STAT_BATCH_COUNT") (safe_env_stoi default_stat.batch_count)
            c.stat.batch_count;
      collect_interval =
          override (codes "STAT_BATCH_INTERVAL") (safe_env_stoi default_stat.collect_interval)
            c.stat.collect_interval;
    };
  }

  abbrev pub load_env_sampling : Config d.Double → Config d.Double
  load_env_sampling c = record c {
    sampling = record c.sampling {
      kind = override (codes "SAMPLING_TYPE") (λ v. v) c.sampling.kind;
      counter_rate =
          override (codes "SAMPLING_COUNTER_RATE") (safe_env_stoi (pos 1)) c.sampling.counter_rate;
      percent_rate =
          override (codes "SAMPLING_PERCENT_RATE") (safe_env_stod d.max_sampling_percent_rate)
            c.sampling.percent_rate;
      new_throughput =
          override (codes "SAMPLING_NEW_THROUGHPUT") (safe_env_stoi (pos 0))
            c.sampling.new_throughput;
      cont_throughput =
          override (codes "SAMPLING_CONTINUE_THROUGHPUT") (safe_env_stoi (pos 0))
            c.sampling.cont_throughput;
    };
  }

  abbrev pub load_env_span : Config d.Double → Config d.Double
  load_env_span c = record c {
    span = record c.span {
      queue_size =
          override (codes "SPAN_QUEUE_SIZE")
            (λ v. to_size_t (safe_env_stoi (pos default_span.queue_size) v)) c.span.queue_size;
      max_event_depth =
          override (codes "SPAN_MAX_EVENT_DEPTH") (safe_env_stoi default_span.max_event_depth)
            c.span.max_event_depth;
      max_event_sequence =
          override (codes "SPAN_MAX_EVENT_SEQUENCE") (safe_env_stoi default_span.max_event_sequence)
            c.span.max_event_sequence;
      event_chunk_size =
          override (codes "SPAN_EVENT_CHUNK_SIZE")
            (λ v. to_size_t (safe_env_stoi (pos default_span.event_chunk_size) v))
            c.span.event_chunk_size;
    };
  }

  abbrev pub load_env_batch : Config d.Double → Config d.Double
  load_env_batch c = record c {
    span = record c.span {
      batch = record c.span.batch {
        size =
            override (codes "SPAN_BATCH_SIZE") (safe_env_stoi default_batch.size) c.span.batch.size;
        flush_interval_ms =
            override (codes "SPAN_BATCH_FLUSH_INTERVAL_MS")
              (safe_env_stoi default_batch.flush_interval_ms) c.span.batch.flush_interval_ms;
        collect_deadline_ms =
            override (codes "SPAN_BATCH_COLLECT_DEADLINE_MS")
              (safe_env_stoi default_batch.collect_deadline_ms) c.span.batch.collect_deadline_ms;
        max_concurrent_requests =
            override (codes "SPAN_BATCH_MAX_CONCURRENT_REQUESTS")
              (safe_env_stoi default_batch.max_concurrent_requests)
              c.span.batch.max_concurrent_requests;
      };
    };
  }

  abbrev pub load_env_agent_info : Config d.Double → Config d.Double
  load_env_agent_info c = record c {
    agent_info = record c.agent_info {
      refresh_interval_ms =
          override (codes "AGENT_INFO_REFRESH_INTERVAL_MS")
            (safe_env_stoi default_agent_info.refresh_interval_ms) c.agent_info.refresh_interval_ms;
      send_retry_interval_ms =
          override (codes "AGENT_INFO_SEND_RETRY_INTERVAL_MS")
            (safe_env_stoi default_agent_info.send_retry_interval_ms)
            c.agent_info.send_retry_interval_ms;
      max_try_per_attempt =
          override (codes "AGENT_INFO_MAX_TRY_PER_ATTEMPT")
            (safe_env_stoi default_agent_info.max_try_per_attempt) c.agent_info.max_try_per_attempt;
    };
  }

  abbrev pub load_env_ssl : Config d.Double → Config d.Double
  load_env_ssl c = record c {
    grpc = record c.grpc {
      ssl = record c.grpc.ssl {
        trust_cert_file_path =
            override (codes "GRPC_SSL_TRUST_CERT_FILE_PATH") (λ v. v)
              c.grpc.ssl.trust_cert_file_path;
        root_cert_file_path =
            override (codes "GRPC_SSL_ROOT_CERT_FILE_PATH") (λ v. v) c.grpc.ssl.root_cert_file_path;
      };
    };
  }

  abbrev pub load_env_grpc_channel : Config d.Double → Config d.Double
  load_env_grpc_channel c = record c {
    grpc = record c.grpc {
      channel = record c.grpc.channel {
        ssl_enable =
            override (codes "GRPC_SSL_ENABLE") (safe_env_stob c.grpc.channel.ssl_enable)
              c.grpc.channel.ssl_enable;
        keepalive_time_ms =
            override (codes "GRPC_KEEPALIVE_TIME_MS")
              (safe_env_stoi c.grpc.channel.keepalive_time_ms) c.grpc.channel.keepalive_time_ms;
        keepalive_timeout_ms =
            override (codes "GRPC_KEEPALIVE_TIMEOUT_MS")
              (safe_env_stoi c.grpc.channel.keepalive_timeout_ms)
              c.grpc.channel.keepalive_timeout_ms;
        keepalive_permit_without_calls =
            override (codes "GRPC_KEEPALIVE_PERMIT_WITHOUT_CALLS")
              (safe_env_stob c.grpc.channel.keepalive_permit_without_calls)
              c.grpc.channel.keepalive_permit_without_calls;
        max_send_message_size =
            override (codes "GRPC_MAX_SEND_MESSAGE_SIZE")
              (safe_env_stoi c.grpc.channel.max_send_message_size)
              c.grpc.channel.max_send_message_size;
        max_receive_message_size =
            override (codes "GRPC_MAX_RECEIVE_MESSAGE_SIZE")
              (safe_env_stoi c.grpc.channel.max_receive_message_size)
              c.grpc.channel.max_receive_message_size;
        sender_queue_size =
            override (codes "GRPC_SENDER_QUEUE_SIZE")
              (safe_env_stoi c.grpc.channel.sender_queue_size) c.grpc.channel.sender_queue_size;
        channel_executor_queue_size =
            override (codes "GRPC_CHANNEL_EXECUTOR_QUEUE_SIZE")
              (safe_env_stoi c.grpc.channel.channel_executor_queue_size)
              c.grpc.channel.channel_executor_queue_size;
      };
    };
  }

  abbrev pub load_env_is_container : Config d.Double → Config d.Double
  load_env_is_container c = record c {
    is_container = override (codes "IS_CONTAINER") (safe_env_stob false) c.is_container;
  }

  abbrev pub load_env_url_stat : Config d.Double → Config d.Double
  load_env_url_stat c = record c {
    http = record c.http {
      url_stat = record c.http.url_stat {
        enable =
            override (codes "HTTP_COLLECT_URL_STAT") (safe_env_stob false) c.http.url_stat.enable;
        limit =
            override (codes "HTTP_URL_STAT_LIMIT") (safe_env_stoi default_url_stat.limit)
              c.http.url_stat.limit;
        enable_trim_path =
            override (codes "HTTP_URL_STAT_ENABLE_TRIM_PATH") (safe_env_stob true)
              c.http.url_stat.enable_trim_path;
        trim_path_depth =
            override (codes "HTTP_URL_STAT_TRIM_PATH_DEPTH") (safe_env_stoi (pos 1))
              c.http.url_stat.trim_path_depth;
        method_prefix =
            override (codes "HTTP_URL_STAT_METHOD_PREFIX") (safe_env_stob false)
              c.http.url_stat.method_prefix;
      };
    };
  }

  abbrev pub load_env_server : Config d.Double → Config d.Double
  load_env_server c = record c {
    http = record c.http {
      server = record c.http.server {
        status_errors =
            override (codes "HTTP_SERVER_STATUS_CODE_ERRORS") e.split_commas
              c.http.server.status_errors;
        exclude_url =
            override (codes "HTTP_SERVER_EXCLUDE_URL") e.split_commas c.http.server.exclude_url;
        exclude_method =
            override (codes "HTTP_SERVER_EXCLUDE_METHOD") e.split_commas
              c.http.server.exclude_method;
        rec_request_header =
            override (codes "HTTP_SERVER_RECORD_REQUEST_HEADER") e.split_commas
              c.http.server.rec_request_header;
        rec_request_cookie =
            override (codes "HTTP_SERVER_RECORD_REQUEST_COOKIE") e.split_commas
              c.http.server.rec_request_cookie;
        rec_response_header =
            override (codes "HTTP_SERVER_RECORD_RESPONSE_HEADER") e.split_commas
              c.http.server.rec_response_header;
      };
    };
  }

  abbrev pub load_env_client : Config d.Double → Config d.Double
  load_env_client c = record c {
    http = record c.http {
      client = record c.http.client {
        rec_request_header =
            override (codes "HTTP_CLIENT_RECORD_REQUEST_HEADER") e.split_commas
              c.http.client.rec_request_header;
        rec_request_cookie =
            override (codes "HTTP_CLIENT_RECORD_REQUEST_COOKIE") e.split_commas
              c.http.client.rec_request_cookie;
        rec_response_header =
            override (codes "HTTP_CLIENT_RECORD_RESPONSE_HEADER") e.split_commas
              c.http.client.rec_response_header;
      };
    };
  }

  abbrev pub load_env_sql : Config d.Double → Config d.Double
  load_env_sql c = record c {
    sql = record c.sql {
      max_bind_args_size =
          override (codes "SQL_MAX_BIND_ARGS_SIZE") (safe_env_stoi default_sql.max_bind_args_size)
            c.sql.max_bind_args_size;
      enable_sql_stats =
          override (codes "SQL_ENABLE_SQL_STATS") (safe_env_stob false) c.sql.enable_sql_stats;
    };
  }

  abbrev pub load_env_callstack : Config d.Double → Config d.Double
  load_env_callstack c = record c {
    enable_callstack_trace =
        override (codes "ENABLE_CALLSTACK_TRACE") (safe_env_stob false) c.enable_callstack_trace;
  }

  -- `is_container_set` is set when the variable is.
  unfoldable pub load_env_config : Loading d.Double → Loading d.Double
  load_env_config s = record {
    config = load_env_callstack (
        load_env_sql (
          load_env_client (
            load_env_server (
              load_env_url_stat (
                load_env_is_container (
                  load_env_grpc_channel (
                    load_env_ssl (
                      load_env_agent_info (
                        load_env_batch (
                          load_env_span (
                            load_env_sampling (
                              load_env_stat (
                                load_env_collector
                                  (load_env_log (load_env_top s.config)))))))))))))));
    is_container_set = override (codes "IS_CONTAINER") (λ v. true) s.is_container_set;
  }
