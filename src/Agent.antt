-- ===== src/Agent.antt =====
-- src/agent.h, src/agent.cpp: the settings that a running agent serves requests with, and how a
-- new configuration replaces them. An object behind a `shared_ptr` is the number of the build that
-- made it and the arguments of its constructor: a build makes at most one object of a part, so the
-- number tells the objects of a part apart. What an object counts while it lives is in the module
-- of its class. The Doubles of the configuration are a parameter, with `!=` and with
-- `static_cast<int>(std::lround(rate * 100))`, which the percent sampler keeps.
mod Slices
mod Reload
mod Tests
use pinpoint_cpp_agent.Common.{
  ℕ, ◌+◌, Bool, true, false, not, ◌||◌, List, [], ◌∷◌, Option, none, some, is_empty, if◌then◌else◌,
  Bytes, bytes_eq, codes,
}
use pinpoint_cpp_agent.Common.Int.{ℤ, pos, ltb_ℤ}
use pinpoint_cpp_agent.Sampling.{Sampler, counter, percent}
use pinpoint_cpp_agent.Http.Status.{compare_string}
use pinpoint_cpp_agent.Config.{Config, SamplingConfig, HttpConfig}
use pinpoint_cpp_agent.Config.Reload.{eqb_int}

pub record Shared (A : Type 0) : Type 0 where
  pub made_in : ℕ
  pub made_of : A

-- A sampler of traces, with the two rates when it limits the throughput.
pub record SamplerArgs : Type 0 where
  pub sampler : Sampler
  pub throughput : Option (ℤ × ℤ)

pub record RecorderArgs : Type 0 where
  pub anno_key : ℕ
  pub cfg : List Bytes

abbrev pub recorder_args : ℕ → List Bytes → RecorderArgs
recorder_args key value = record { anno_key = key; cfg = value }

-- An array of three pointers, which `HeaderType` indexes.
pub record Recorders : Type 0 where
  pub request : Option (Shared RecorderArgs)
  pub response : Option (Shared RecorderArgs)
  pub cookie : Option (Shared RecorderArgs)

pub record AgentRuntime (Double : Type 0) : Type 0 where
  pub config : Config Double
  pub sampler : Option (Shared SamplerArgs)
  pub http_url_filter : Option (Shared (List Bytes))
  pub http_method_filter : Option (Shared (List Bytes))
  pub http_status_errors : Option (Shared (List Bytes))
  pub http_srv_header_recorder : Recorders
  pub http_cli_header_recorder : Recorders

-- What `apply_config` changes: `runtime_`, the number of builds, and how often the agent client
-- was told to send the agent's data again.
pub record Applied (Double : Type 0) : Type 0 where
  pub runtime : AgentRuntime Double
  pub builds : ℕ
  pub refreshes : ℕ

-- `std::make_shared` under the test that the setting is not empty
abbrev pub unless_empty : {A : Type 0} → ℕ → List Bytes → A → Option (Shared A)
unless_empty build value args =
    if is_empty value then none else some (record { made_in = build; made_of = args })

abbrev pub texts_eq : List Bytes → List Bytes → Bool
texts_eq [] [] = true
texts_eq [] (s ∷ l) = false
texts_eq (r ∷ k) [] = false
texts_eq (r ∷ k) (s ∷ l) = let rest = texts_eq k l in if bytes_eq r s then rest else false

abbrev pub header_recorder_config_changed : HttpConfig → HttpConfig → Bool
header_recorder_config_changed a b =
    not (texts_eq a.server.rec_request_header b.server.rec_request_header)
    || (not (texts_eq a.server.rec_response_header b.server.rec_response_header)
        || (not (texts_eq a.server.rec_request_cookie b.server.rec_request_cookie)
            || (not (texts_eq a.client.rec_request_header b.client.rec_request_header)
                || (not (texts_eq a.client.rec_response_header b.client.rec_response_header)
                    || not (texts_eq a.client.rec_request_cookie b.client.rec_request_cookie)))))

-- The loop over the three settings of one side, into an array of null pointers.
abbrev pub build_recorders : ℕ → List Bytes → List Bytes → List Bytes → Recorders
build_recorders build request_header response_header request_cookie = record {
  request = unless_empty build request_header (recorder_args 47 request_header);
  response = unless_empty build response_header (recorder_args 55 response_header);
  cookie = unless_empty build request_cookie (recorder_args 45 request_cookie);
}

abbrev pub srv_recorders : ℕ → HttpConfig → Recorders
srv_recorders build h =
    build_recorders build h.server.rec_request_header h.server.rec_response_header
      h.server.rec_request_cookie

abbrev pub cli_recorders : ℕ → HttpConfig → Recorders
cli_recorders build h =
    build_recorders build h.client.rec_request_header h.client.rec_response_header
      h.client.rec_request_cookie

module _ {Double : Type 0} (ne : Double → Double → Bool) (hundredths : Double → ℤ) where
  abbrev pub sampling_config_changed : SamplingConfig Double → SamplingConfig Double → Bool
  sampling_config_changed a b =
      not (bytes_eq a.kind b.kind)
      || (not (eqb_int a.counter_rate b.counter_rate)
          || (ne a.percent_rate b.percent_rate
              || (not (eqb_int a.new_throughput b.new_throughput)
                  || not (eqb_int a.cont_throughput b.cont_throughput))))

  abbrev pub sampler_args : SamplingConfig Double → SamplerArgs
  sampler_args c = record {
    sampler =
        if compare_string c.kind (codes "PERCENT")
        then percent (hundredths c.percent_rate)
        else counter c.counter_rate;
    throughput =
        if ltb_ℤ (pos 0) c.new_throughput || ltb_ℤ (pos 0) c.cont_throughput
        then some (c.new_throughput, c.cont_throughput)
        else none;
  }

  -- `!old_cfg || changed(*old_cfg, c)`
  abbrev pub needs_build : Option (AgentRuntime Double) → (Config Double → Bool) → Bool
  needs_build none changed = true
  needs_build (some rt) changed = changed rt.config

  -- A part of the old runtime; a fresh runtime has null pointers.
  abbrev pub kept_part :
      {A : Type 0}
      → Option (AgentRuntime Double)
      → (AgentRuntime Double → Option (Shared A))
      → Option (Shared A)
  kept_part none part = none
  kept_part (some rt) part = part rt

  abbrev pub kept_recorders :
      Option (AgentRuntime Double) → (AgentRuntime Double → Recorders) → Recorders
  kept_recorders none part = record { request = none; response = none; cookie = none }
  kept_recorders (some rt) part = part rt

  unfoldable pub build_runtime :
      ℕ → Option (AgentRuntime Double) → Config Double → AgentRuntime Double
  build_runtime build old_rt c = record {
    config = c;
    sampler =
        if needs_build old_rt (λ old. sampling_config_changed old.sampling c.sampling)
        then some (record { made_in = build; made_of = sampler_args c.sampling })
        else kept_part old_rt (λ rt. rt.sampler);
    http_url_filter =
        if needs_build old_rt
          (λ old. not (texts_eq old.http.server.exclude_url c.http.server.exclude_url))
        then unless_empty build c.http.server.exclude_url c.http.server.exclude_url
        else kept_part old_rt (λ rt. rt.http_url_filter);
    http_method_filter =
        if needs_build old_rt
          (λ old. not (texts_eq old.http.server.exclude_method c.http.server.exclude_method))
        then unless_empty build c.http.server.exclude_method c.http.server.exclude_method
        else kept_part old_rt (λ rt. rt.http_method_filter);
    http_status_errors =
        if needs_build old_rt
          (λ old. not (texts_eq old.http.server.status_errors c.http.server.status_errors))
        then unless_empty build c.http.server.status_errors c.http.server.status_errors
        else kept_part old_rt (λ rt. rt.http_status_errors);
    http_srv_header_recorder =
        if needs_build old_rt (λ old. header_recorder_config_changed old.http c.http)
        then srv_recorders build c.http
        else kept_recorders old_rt (λ rt. rt.http_srv_header_recorder);
    http_cli_header_recorder =
        if needs_build old_rt (λ old. header_recorder_config_changed old.http c.http)
        then cli_recorders build c.http
        else kept_recorders old_rt (λ rt. rt.http_cli_header_recorder);
  }

  -- The constructor's call of `apply_config`; `grpc_agent` says whether there is an agent client.
  abbrev pub start : Bool → Config Double → Applied Double
  start grpc_agent cfg = record {
    runtime = build_runtime 0 none cfg;
    builds = 1;
    refreshes = if grpc_agent then 1 else 0;
  }

  unfoldable pub reload_config : Bool → Applied Double → Config Double → Applied Double
  reload_config grpc_agent st cfg = record {
    runtime = build_runtime st.builds (some st.runtime) cfg;
    builds = st.builds + 1;
    refreshes = if grpc_agent then st.refreshes + 1 else st.refreshes;
  }
