-- ===== src/Stat.antt =====
-- src/stat.cpp, src/stat.h: the statistics of the agent.
pub mod ResponseTime
pub mod ActiveSpans
pub mod Worker
mod Tests
