-- ===== src/Lib.antt =====
-- Verification of the core of the agent.
--
-- Parts, each with its file of definitions and its proofs in the modules below it:
--   Cache      src/cache.h, src/cache.cpp: LruCacheImpl (get, insert_or_promote, remove) over list
--              nodes with addresses and a hash map of iterators; IdCacheImpl in Cache.Ids.
--   Limiter    src/limiter.h, src/limiter.cpp: RateLimiter::allow, step by step on its atomics for any
--              number of threads, and as one function for a thread alone in Limiter.Alone.
--   Sampling   src/sampling.h, src/sampling.cpp: the samplers, and the trace samplers with the
--              counters of AgentStats (src/stat.h) that they raise; they use the limiter.
--   Sql        src/sql.h, src/sql.cpp: SqlNormalizer; Sql.Normalize, Sql.Combine and Sql.Bind hold its
--              three public functions.
--   Http       src/http.h, src/http.cpp, src/utility.cpp: Http.Filter HttpUrlFilter, Http.Address
--              getRemoteAddr, Http.Proxy setProxyHeader, Http.Status the status classes, the method
--              filter and the header recorder.
--   UrlStat    src/url_stat.h, src/url_stat.cpp: keys, ticks, histograms and snapshots of URL
--              statistics; UrlStat.Workers the queue and the workers.
--   TraceId    include/pinpoint/tracer.h, src/span.cpp: TraceId::ToString and parseTraceId.
--   Span       src/span.h, src/span.cpp, src/span_event.cpp: the events of a span, from NewSpanEvent
--              to the chunks that are sent.
--   Stat       src/stat.h, src/stat.cpp: Stat.ResponseTime collectResponseTime and
--              collectAndResetResponseTime on their atomics, Stat.ActiveSpans the spans under way,
--              Stat.Worker the counters, the snapshots and agentStatsWorker.
--   ObjectName src/object_name.h, src/object_name.cpp: validate_id, generate_uuid_v7 and
--              resolve_object_name.
--   Config     src/config.h, src/config.cpp: the settings; Config.Yaml and Config.Env read them,
--              Config.Make holds the limits and make_config, Config.Reload the reload.
--   Grpc       src/grpc.cpp, src/grpc.h: Grpc.SpanQueue GrpcSpan, Grpc.Metadata GrpcMetadata.
--   Agent      src/agent.h, src/agent.cpp: the runtime that serves requests, its construction from a
--              configuration and its reload.
--   Common     names, list functions, bytes and signed integers that the parts share.
--
-- How the parts interact: Sampling asks Limiter; Sql.Normalize gives the texts that the id caches of
-- Cache number; a Span hands its chunks to the agent and, at its end, an entry to UrlStat; Http
-- decides on status codes, URLs and headers for them. The settings that a part reads are a record of
-- its own.
--
-- State is a record, an operation returns the new record with its result, and shared state under
-- threads is a step relation whose steps are the critical sections or the atomic operations.
-- Text is a list of bytes; an index into a text is the text from there on. Integers of the code are
-- natural numbers with their wrap-around written out, or signed integers where they may be negative.
--
-- Bounds: the epoch of the limiter holds seconds below 2^63; ids stay below 2^31; times are
-- milliseconds after 1970, response times are not negative; bucket counts stay below 2^31.
-- Fuel: decimal printing takes n + 1 rounds for n, which is more than it has digits; the loop over a
-- proxy header takes as many rounds as the header has bytes, of which each round removes one at
-- least.
--
-- Not modelled: the streams and the contexts of src/grpc.cpp and the messages of
-- src/grpc_builders.cpp, whose library is not in the repository; the rest of the agent's lifecycle, context propagation and the C interface, which later modules will hold; logging. Parameters stand for
-- what the application implements (header readers) for the number parsers, the base64
-- encoder and the splitter of absl, for the nodes of the YAML library, for getenv, and for the
-- floating point numbers of the percent rate.
pub mod Common
pub mod Cache
pub mod Limiter
pub mod Sampling
pub mod Sql
pub mod Http
pub mod UrlStat
pub mod TraceId
pub mod Span
pub mod Stat
pub mod ObjectName
pub mod Config
pub mod Grpc
pub mod Agent
