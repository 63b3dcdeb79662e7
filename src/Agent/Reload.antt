-- ===== src/Agent/Reload.antt =====
-- What a sequence of reloads leaves in the runtime of the agent.
use pinpoint_cpp_agent.Common.{
  ℕ, ◌+◌, ◌≡◌, refl, ap, ◌∙◌, Bool, true, false, not, List, [], ◌∷◌, Option, none, some,
  if◌then◌else◌, length, arith, Bytes, bytes_eq, bytes_eq_iff,
}
use pinpoint_cpp_agent.Common.Int.{ℤ}
use pinpoint_cpp_agent.Config.{Config, SamplingConfig, HttpConfig}
use pinpoint_cpp_agent.Agent.{
  Shared, Recorders, unless_empty, AgentRuntime, Applied, texts_eq, header_recorder_config_changed,
  srv_recorders, cli_recorders, sampling_config_changed, sampler_args, build_runtime, start,
  reload_config,
}
use pinpoint_cpp_agent.Agent.Slices.{
  nameless, nameless_recorders, construction, or_false, negation_false, int_eq, texts_same,
  texts_refl, int_refl, header_slices, nameless-unless_empty, nameless_recorders-build,
}

-- A part that is built again, or kept when what it is built from is the same.
part_of :
    {A : Type 0} (changed : Bool) (fresh kept want : Option (Shared A))
    → nameless fresh ≡ want
    → (changed ≡ false → nameless kept ≡ want)
    → nameless (if changed then fresh else kept) ≡ want
part_of true fresh kept want f k = f
part_of false fresh kept want f k = k refl

recorders_of :
    (changed : Bool) (fresh kept want : Recorders)
    → nameless_recorders fresh ≡ want
    → (changed ≡ false → nameless_recorders kept ≡ want)
    → nameless_recorders (if changed then fresh else kept) ≡ want
recorders_of true fresh kept want f k = f
recorders_of false fresh kept want f k = k refl

filter_part :
    (n : ℕ) (k l : List Bytes) (kept : Option (Shared (List Bytes)))
    → nameless kept ≡ nameless (unless_empty 0 k k)
    → nameless (if not (texts_eq k l) then unless_empty n l l else kept)
      ≡ nameless (unless_empty 0 l l)
filter_part n k l kept h =
    part_of (not (texts_eq k l)) (unless_empty n l l) kept (nameless (unless_empty 0 l l))
      (nameless-unless_empty n l l)
      (λ u. h ∙ ap (λ v. nameless (unless_empty 0 v v)) (texts_same k l u))

module _ {Double : Type 0} (ne : Double → Double → Bool) (hundredths : Double → ℤ)
    (equal_rates : (x y : Double) → ne x y ≡ false → hundredths x ≡ hundredths y) where
  sampling_slice :
      (a b : SamplingConfig Double)
      → sampling_config_changed ne hundredths a b ≡ false
      → sampler_args ne hundredths a ≡ sampler_args ne hundredths b
  sampling_slice a b h =
      let (e1, t1) = or_false (not (bytes_eq a.kind b.kind)) _ h in
      let (e2, t2) = or_false _ _ t1 in
      let (e3, t3) = or_false _ _ t2 in
      let (e4, e5) = or_false _ _ t3 in
      let f1 = (bytes_eq_iff a.kind b.kind).0 (negation_false _ e1) in
      let f2 = int_eq a.counter_rate b.counter_rate e2 in
      let f3 = equal_rates a.percent_rate b.percent_rate e3 in
      let f4 = int_eq a.new_throughput b.new_throughput e4 in
      let f5 = int_eq a.cont_throughput b.cont_throughput e5 in rw (f1, f2, f3, f4, f5) refl

  IsCurrent : AgentRuntime Double → Type 0
  IsCurrent rt = construction rt ≡ construction (build_runtime ne hundredths 0 none rt.config)

  build_runtime-IsCurrent :
      (n : ℕ) (rt : AgentRuntime Double) (c : Config Double)
      → IsCurrent rt
      → IsCurrent (build_runtime ne hundredths n (some rt) c)
  unfolding build_runtime IsCurrent
  build_runtime-IsCurrent n rt c h =
      let old = rt.config in
      let sampler =
        part_of (sampling_config_changed ne hundredths old.sampling c.sampling)
          (some (record { made_in = n; made_of = sampler_args ne hundredths c.sampling }))
          rt.sampler
          (some (record { made_in = 0; made_of = sampler_args ne hundredths c.sampling })) refl
          (λ same.
            ap (λ r. r.sampler) h
            ∙ ap (λ a. some (record { made_in = 0; made_of = a }))
                (sampling_slice old.sampling c.sampling same)) in
      let url =
        filter_part n old.http.server.exclude_url c.http.server.exclude_url rt.http_url_filter
          (ap (λ r. r.http_url_filter) h) in
      let methods =
        filter_part n old.http.server.exclude_method c.http.server.exclude_method
          rt.http_method_filter (ap (λ r. r.http_method_filter) h) in
      let errors =
        filter_part n old.http.server.status_errors c.http.server.status_errors
          rt.http_status_errors (ap (λ r. r.http_status_errors) h) in
      let changed = header_recorder_config_changed old.http c.http in
      let slices = header_slices old.http c.http in
      let server =
        recorders_of changed (srv_recorders n c.http) rt.http_srv_header_recorder
          (nameless_recorders (srv_recorders 0 c.http)) (nameless_recorders-build n _ _ _)
          (λ u. ap (λ r. r.http_srv_header_recorder) h ∙ ap nameless_recorders (slices u 0).0) in
      let client =
        recorders_of changed (cli_recorders n c.http) rt.http_cli_header_recorder
          (nameless_recorders (cli_recorders 0 c.http)) (nameless_recorders-build n _ _ _)
          (λ u. ap (λ r. r.http_cli_header_recorder) h ∙ ap nameless_recorders (slices u 0).1) in
      rw (sampler, url, methods, errors, server, client) refl

  -- Reloads one after another, as `reload_mutex_` orders them.
  unfoldable pub reload_all : Bool → Applied Double → List (Config Double) → Applied Double
  reload_all grpc_agent st [] = st
  reload_all grpc_agent st (c ∷ l) =
      reload_all grpc_agent (reload_config ne hundredths grpc_agent st c) l

  header_same : (a : HttpConfig) → header_recorder_config_changed a a ≡ false
  header_same a =
      rw
        (
          texts_refl a.server.rec_request_header,
          texts_refl a.server.rec_response_header,
          texts_refl a.server.rec_request_cookie,
          texts_refl a.client.rec_request_header,
          texts_refl a.client.rec_response_header,
          texts_refl a.client.rec_request_cookie,
        )
        refl

  sampling_same :
      (a : SamplingConfig Double)
      → sampling_config_changed ne hundredths a a ≡ ne a.percent_rate a.percent_rate
  sampling_same a =
      let e = (bytes_eq_iff a.kind a.kind).1 refl in
      let f1 = int_refl a.counter_rate in
      let f2 = int_refl a.new_throughput in
      let f3 = int_refl a.cont_throughput in rw (e, f1, f2, f3) (ground arith)

  same_config :
      (n : ℕ) (rt : AgentRuntime Double) (c : Config Double)
      → rt.config ≡ c
      → build_runtime ne hundredths n (some rt) c ≡ record rt {
        sampler =
            if ne c.sampling.percent_rate c.sampling.percent_rate
            then some (record { made_in = n; made_of = sampler_args ne hundredths c.sampling })
            else rt.sampler;
      }
  unfolding build_runtime
  same_config n rt c e =
      rw
        (
          ← e,
          sampling_same rt.config.sampling,
          texts_refl rt.config.http.server.exclude_url,
          texts_refl rt.config.http.server.exclude_method,
          texts_refl rt.config.http.server.status_errors,
          header_same rt.config.http,
        )
        refl

  abbrev pub last_config : Config Double → List (Config Double) → Config Double
  last_config c [] = c
  last_config c (d ∷ l) = last_config d l

  HasSettled : Bool → Applied Double → Applied Double → ℕ → Config Double → Type 0
  HasSettled grpc_agent st st' n c =
      IsCurrent st'.runtime
      × (st'.runtime.config ≡ c)
      × (st'.builds ≡ st.builds + n)
      × (st'.refreshes ≡ st.refreshes + (if grpc_agent then n else 0))

  reload_all-HasSettled :
      (grpc_agent : Bool) (st : Applied Double) (l : List (Config Double))
      → IsCurrent st.runtime
      → HasSettled grpc_agent st
          (reload_all grpc_agent st l)
          (length l)
          (last_config st.runtime.config l)
  unfolding reload_all reload_config build_runtime HasSettled
  reload_all-HasSettled grpc_agent st [] h = (h, refl, omega arith, ground arith)
  reload_all-HasSettled grpc_agent st (c ∷ l) h =
      let st' = reload_config ne hundredths grpc_agent st c in
      let (current, config, builds, refreshes) =
        reload_all-HasSettled grpc_agent st' l (build_runtime-IsCurrent st.builds st.runtime c h) in
      (current, config, omega arith, ground arith)

  -- When equal rates (by `!=`) give percent samplers of equal rates: after any sequence of
  -- reloads, each part of the runtime was made with the arguments that an agent which starts with
  -- the last configuration gives it, or is missing where it is there, although parts from earlier
  -- configurations are kept. There were as many builds and, with an agent client, as many notices
  -- to it as configurations. One more reload of the same configuration keeps every object; only a
  -- percent rate that differs from itself (no number) makes a new sampler.
  pub reload_all_lem :
      (grpc_agent : Bool) (first : Config Double) (l : List (Config Double))
      → let st = reload_all grpc_agent (start ne hundredths grpc_agent first) l in
        let c = last_config first l in
        (construction st.runtime ≡ construction (start ne hundredths grpc_agent c).runtime)
        × (st.builds ≡ 1 + length l)
        × (st.refreshes ≡ (if grpc_agent then 1 + length l else 0))
        × ((reload_config ne hundredths grpc_agent st c).runtime ≡ record st.runtime {
          sampler =
              if ne c.sampling.percent_rate c.sampling.percent_rate
              then some
                  (record { made_in = st.builds; made_of = sampler_args ne hundredths c.sampling })
              else st.runtime.sampler;
        })
  unfolding HasSettled IsCurrent reload_config build_runtime
  reload_all_lem grpc_agent first l =
      let st = reload_all grpc_agent (start ne hundredths grpc_agent first) l in
      let (current, config, builds, refreshes) =
        reload_all-HasSettled grpc_agent (start ne hundredths grpc_agent first) l refl in
      let kept = same_config st.builds st.runtime (last_config first l) config in
      let same = ap (λ c. construction (build_runtime ne hundredths 0 none c)) config in
      (current ∙ same, omega arith, ground arith, kept)
