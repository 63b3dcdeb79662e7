-- ===== src/Agent/Tests.antt =====
-- Reloads of the runtime on concrete configurations, with numbers of hundredths for rates.
use pinpoint_cpp_agent.Common.{
  ℕ, ◌≡◌, refl, ap, Bool, true, false, not, [], ◌∷◌, some, ltb, ◌==◌, if◌then◌else◌, arith, codes,
}
use pinpoint_cpp_agent.Common.Int.{pos}
use pinpoint_cpp_agent.Config.{Doubles, Config, default_config}
use pinpoint_cpp_agent.Agent.{build_runtime, start, reload_config, sampler_args}
use pinpoint_cpp_agent.Agent.Slices.{construction}
use pinpoint_cpp_agent.Agent.Reload.{reload_all, last_config, reload_all_lem}

abbrev whole_rates : Doubles
whole_rates = record {
  Double = ℕ;
  less = ltb;
  none_sampling_percent_rate = 0;
  min_sampling_percent_rate = 1;
  max_sampling_percent_rate = 10000;
}

abbrev differ : ℕ → ℕ → Bool
differ x y = not (x == y)

differ-equal_rates : (x y : ℕ) → differ x y ≡ false → pos x ≡ pos y
differ-equal_rates x y h = let e : x ≡ y = ground arith in ap pos e

abbrev first_config : Config ℕ
first_config = default_config whole_rates

abbrev filtering : Config ℕ
filtering = record first_config {
  http = record first_config.http {
    server = record first_config.http.server { exclude_url = codes "/health" ∷ [] };
  };
}

-- the url filter is new, the sampler is the one of the start
filter_rebuilt :
    let rt =
      (reload_config differ pos true (start differ pos true first_config) filtering).runtime in
    (rt.http_url_filter ≡ some (record { made_in = 1; made_of = codes "/health" ∷ [] }))
    × (rt.sampler
        ≡ some (record { made_in = 0; made_of = sampler_args differ pos first_config.sampling }))
unfolding reload_config build_runtime
filter_rebuilt = (refl, refl)

reload_all_lem_example :
    let st =
      reload_all differ pos differ-equal_rates true
        (start differ pos true first_config)
        (filtering ∷ first_config ∷ []) in
    let c =
      last_config differ pos differ-equal_rates first_config (filtering ∷ first_config ∷ []) in
    (construction st.runtime ≡ construction (start differ pos true c).runtime)
    × (st.builds ≡ 3)
    × (st.refreshes ≡ 3)
    × ((reload_config differ pos true st c).runtime ≡ record st.runtime {
      sampler =
          if differ c.sampling.percent_rate c.sampling.percent_rate
          then some (record { made_in = st.builds; made_of = sampler_args differ pos c.sampling })
          else st.runtime.sampler;
    })
reload_all_lem_example =
    reload_all_lem differ pos differ-equal_rates true first_config (filtering ∷ first_config ∷ [])
