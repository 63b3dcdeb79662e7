-- ===== src/Config/Make/Negative.antt =====
-- The two settings of a span that are kept as `size_t`, from a file.
use pinpoint_cpp_agent.Config.{Config}
use pinpoint_cpp_agent.Config.Yaml.{Yaml}
