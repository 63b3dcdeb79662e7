-- ===== src/Config/Yaml/Load.antt =====
-- src/config.cpp: the sections from `Sampling` on, and `load_yaml_config`.
use pinpoint_cpp_agent.Common.{true, false, codes, ltb, if◌then◌else◌}
use pinpoint_cpp_agent.Common.Int.{pos}
use pinpoint_cpp_agent.Config.{
  Doubles, Config, counter_sampling, default_span, default_batch, default_agent_info, default_sql,
  to_size_t,
}
use pinpoint_cpp_agent.Config.Yaml.{
  Yaml, Loading, Loaded, went, then_load, get_boolean, get_string, get_int, get_double, section,
  settings, load_top, load_log, load_collector, load_stat, load_http,
}

module _ (d : Doubles) (y : Yaml d.Double) where
  abbrev pub load_sampling : y.Node → Config d.Double → Config d.Double
  load_sampling sampling c = record c {
    sampling = record {
      kind = get_string y sampling (codes "Type") counter_sampling;
      counter_rate = get_int y sampling (codes "CounterRate") (pos 1);
      percent_rate = get_double y sampling (codes "PercentRate") d.max_sampling_percent_rate;
      new_throughput = get_int y sampling (codes "NewThroughput") (pos 0);
      cont_throughput = get_int y sampling (codes "ContinueThroughput") (pos 0);
    };
  }

  abbrev pub load_span_limits : y.Node → Config d.Double → Config d.Double
  load_span_limits span c = record c {
    span = record c.span {
      queue_size = to_size_t (get_int y span (codes "QueueSize") (pos default_span.queue_size));
      max_event_depth = get_int y span (codes "MaxEventDepth") default_span.max_event_depth;
      max_event_sequence =
          get_int y span (codes "MaxEventSequence") default_span.max_event_sequence;
      event_chunk_size =
          to_size_t (get_int y span (codes "EventChunkSize") (pos default_span.event_chunk_size));
    };
  }

  abbrev pub load_batch : y.Node → Config d.Double → Config d.Double
  load_batch batch c = record c {
    span = record c.span {
      batch = record {
        size = get_int y batch (codes "Size") default_batch.size;
        flush_interval_ms =
            get_int y batch (codes "FlushIntervalMs") default_batch.flush_interval_ms;
        collect_deadline_ms =
            get_int y batch (codes "CollectDeadlineMs") default_batch.collect_deadline_ms;
        max_concurrent_requests =
            get_int y batch (codes "MaxConcurrentRequests") default_batch.max_concurrent_requests;
      };
    };
  }

  abbrev pub load_span : y.Node → Loading d.Double → Loaded d.Double
  load_span span s =
      then_load (settings y load_span_limits span s)
        (section y span (codes "Batch") (settings y load_batch))

  abbrev pub load_agent_info : y.Node → Config d.Double → Config d.Double
  load_agent_info agent_info c = record c {
    agent_info = record {
      refresh_interval_ms =
          get_int y agent_info (codes "RefreshIntervalMs") default_agent_info.refresh_interval_ms;
      send_retry_interval_ms =
          get_int y agent_info (codes "SendRetryIntervalMs")
            default_agent_info.send_retry_interval_ms;
      max_try_per_attempt =
          get_int y agent_info (codes "MaxTryPerAttempt") default_agent_info.max_try_per_attempt;
    };
  }

  -- The settings of the transport fall back to the values that are there.
  abbrev pub load_ssl : y.Node → Config d.Double → Config d.Double
  load_ssl ssl c = record c {
    grpc = record c.grpc {
      ssl = record {
        trust_cert_file_path =
            get_string y ssl (codes "TrustCertFilePath") c.grpc.ssl.trust_cert_file_path;
        root_cert_file_path =
            get_string y ssl (codes "RootCertFilePath") c.grpc.ssl.root_cert_file_path;
      };
    };
  }

  abbrev pub load_grpc_channel_yaml : y.Node → Config d.Double → Config d.Double
  load_grpc_channel_yaml grpc c =
      let o = c.grpc.channel in
      record c {
        grpc = record c.grpc {
          channel = record {
            ssl_enable = get_boolean y grpc (codes "SslEnable") o.ssl_enable;
            keepalive_time_ms = get_int y grpc (codes "KeepAliveTimeMs") o.keepalive_time_ms;
            keepalive_timeout_ms =
                get_int y grpc (codes "KeepAliveTimeoutMs") o.keepalive_timeout_ms;
            keepalive_permit_without_calls =
                get_boolean y grpc (codes "KeepAlivePermitWithoutCalls")
                  o.keepalive_permit_without_calls;
            max_send_message_size =
                get_int y grpc (codes "MaxSendMessageSize") o.max_send_message_size;
            max_receive_message_size =
                get_int y grpc (codes "MaxReceiveMessageSize") o.max_receive_message_size;
            sender_queue_size = get_int y grpc (codes "SenderQueueSize") o.sender_queue_size;
            channel_executor_queue_size =
                get_int y grpc (codes "ChannelExecutorQueueSize") o.channel_executor_queue_size;
          };
        };
      }

  abbrev pub load_grpc : y.Node → Loading d.Double → Loaded d.Double
  load_grpc grpc s =
      then_load (section y grpc (codes "Ssl") (settings y load_ssl) s)
        (settings y load_grpc_channel_yaml grpc)

  -- `if (yaml["IsContainer"])`
  abbrev pub load_is_container : y.Node → y.Node → Loading d.Double → Loaded d.Double
  load_is_container yaml node s = went (record {
    config = record s.config { is_container = get_boolean y yaml (codes "IsContainer") false };
    is_container_set = true;
  })

  abbrev pub load_sql : y.Node → Config d.Double → Config d.Double
  load_sql sql c = record c {
    sql = record {
      max_bind_args_size = get_int y sql (codes "MaxBindArgsSize") default_sql.max_bind_args_size;
      enable_sql_stats = get_boolean y sql (codes "EnableSqlStats") false;
    };
  }

  abbrev pub load_callstack : y.Node → Config d.Double → Config d.Double
  load_callstack yaml c = record c {
    enable_callstack_trace = get_boolean y yaml (codes "EnableCallstackTrace") false;
  }

  unfoldable pub load_yaml_config : y.Node → Loading d.Double → Loaded d.Double
  load_yaml_config yaml s =
      if ltb (y.node_size yaml) 1
      then went s
      else let s1 = settings y (load_top y) yaml s in
        let s2 = then_load s1 (section y yaml (codes "Log") (settings y (load_log y))) in
        let s3 =
          then_load s2 (section y yaml (codes "Collector") (settings y (load_collector y))) in
        let s4 = then_load s3 (section y yaml (codes "Stat") (settings y (load_stat y))) in
        let s5 = then_load s4 (section y yaml (codes "Http") (load_http y)) in
        let s6 = then_load s5 (section y yaml (codes "Sampling") (settings y load_sampling)) in
        let s7 = then_load s6 (section y yaml (codes "Span") load_span) in
        let s8 = then_load s7 (section y yaml (codes "AgentInfo") (settings y load_agent_info)) in
        let s9 = then_load s8 (section y yaml (codes "Grpc") load_grpc) in
        let s10 = then_load s9 (section y yaml (codes "IsContainer") (load_is_container yaml)) in
        let s11 = then_load s10 (section y yaml (codes "Sql") (settings y load_sql)) in
        then_load s11 (settings y load_callstack yaml)
