-- ===== src/Config/Tests.antt =====
-- The configuration at concrete inputs, with numbers of hundredths for floating point numbers and
-- a file of two settings.
use pinpoint_cpp_agent.Common.{
  ℕ, ◌≡◌, ◌↔◌, refl, true, false, [], ◌∷◌, Option, none, some, ltb, if◌then◌else◌, Bytes, bytes_eq,
  codes,
}
use pinpoint_cpp_agent.Common.Int.{ℤ, pos, negsuc}
use pinpoint_cpp_agent.Config.{Doubles, Config, default_config}
use pinpoint_cpp_agent.Config.Yaml.{Yaml, Lookup, bad_subscript, undefined, found, Loading, loading}
use pinpoint_cpp_agent.Config.Yaml.Load.{load_yaml_config}
use pinpoint_cpp_agent.Config.Env.{Environment, load_env_config}
use pinpoint_cpp_agent.Config.Make.{Host, Source, make_config}
use pinpoint_cpp_agent.Config.Make.Bounds.{IsOrdered, InBounds, make_config-InBounds}
use pinpoint_cpp_agent.Config.Reload.{check, is_reloadable, retain_non_reloadable_from}
use pinpoint_cpp_agent.Config.Reload.Retain.{retain_non_reloadable_from_lem}

abbrev hundredths : Doubles
hundredths = record {
  Double = ℕ;
  less = ltb;
  none_sampling_percent_rate = 0;
  min_sampling_percent_rate = 1;
  max_sampling_percent_rate = 10000;
}

hundredths-IsOrdered : IsOrdered hundredths
hundredths-IsOrdered = record { max_none = refl; max_min = refl; max_max = refl; min_min = refl }

-- A node: the root, a section, a number or a text.
data Tree : Type 0 where
  root : Tree
  span_section : Tree
  int_leaf : ℤ → Tree
  text_leaf : Bytes → Tree

abbrev tree_lookup : Tree → Bytes → Lookup Tree
tree_lookup root name =
    if bytes_eq name (codes "Span")
    then found span_section
    else if bytes_eq name (codes "ApplicationName")
    then found (text_leaf (codes "shop"))
    else if bytes_eq name (codes "Http")
    then found (text_leaf (codes "scalar"))
    else undefined
tree_lookup span_section name =
    if bytes_eq name (codes "QueueSize")
    then found (int_leaf (negsuc 4))
    else if bytes_eq name (codes "EventChunkSize")
    then found (int_leaf (negsuc 0))
    else undefined
tree_lookup (int_leaf n) name = bad_subscript
tree_lookup (text_leaf s) name = bad_subscript

abbrev tree_int : Tree → Option ℤ
tree_int (int_leaf n) = some n
tree_int _ = none

abbrev tree_text : Tree → Option Bytes
tree_text (text_leaf s) = some s
tree_text _ = none

abbrev trees : Yaml ℕ
trees = record {
  Node = Tree;
  node_size = λ t. 1;
  lookup = tree_lookup;
  as_bool = λ t. none;
  as_string = tree_text;
  as_strings = λ t. none;
  as_int = tree_int;
  as_double = λ t. none;
}

abbrev some_environment : Environment ℕ
some_environment = record {
  getenv = λ name.
      if bytes_eq name (codes "PINPOINT_CPP_STAT_BATCH_COUNT") then some (codes "x") else none;
  stob = λ s. none;
  stoi = λ s. some (pos 101);
  stod = λ s. none;
  split_commas = λ s. s ∷ [];
}

abbrev some_host : Host hundredths trees
some_host = record {
  environment = some_environment;
  prefix = codes "PINPOINT_CPP";
  read_file = λ path. none;
  parse = λ text. some root;
  dockerenv = false;
  web_safe_base64 = λ s. codes "id==";
  fresh = record { now_ms = 1; random_a = 2; random_b = 3 };
  spare = record { now_ms = 1; random_a = 2; random_b = 4 };
}

abbrev some_source : Source
some_source = record { file_path = []; config_str = codes "text" }

make_config-InBounds_example :
    InBounds hundredths (make_config hundredths trees some_host false some_source).0
make_config-InBounds_example =
    make_config-InBounds hundredths trees some_host false some_source hundredths-IsOrdered

-- `Http` is no map: the loader stops there, after the name and before the section `Span`.
abbrev start_loading : Loading ℕ
start_loading = record { config = default_config hundredths; is_container_set = false }

stopped_at_http :
    let c = (loading (load_yaml_config hundredths trees root start_loading)).config in
    (c.app_name ≡ codes "shop") × (c.span.queue_size ≡ 1024)
unfolding load_yaml_config
stopped_at_http = (refl, refl)

batch_count_from_environment :
    (load_env_config hundredths some_environment
      (codes "PINPOINT_CPP")
      start_loading).config.stat.batch_count
    ≡ pos 101
unfolding load_env_config
batch_count_from_environment = refl

abbrev running : Config ℕ
running = record (default_config hundredths) {
  app_name = codes "shop";
  collector = record (default_config hundredths).collector { host = codes "collector" };
}

abbrev changed : Config ℕ
changed = record (default_config hundredths) { app_name = codes "other"; enable = false }

retain_non_reloadable_from_lem_example :
    (is_reloadable (retain_non_reloadable_from changed (some running)) (some running) ≡ true)
    × (check (retain_non_reloadable_from changed (some running)) ≡ check running)
    × ((is_reloadable changed (some running) ≡ true) ↔ (
        retain_non_reloadable_from changed (some running)
        ≡ record changed { identity_resolved = true }))
retain_non_reloadable_from_lem_example = retain_non_reloadable_from_lem changed running
