-- ===== src/Grpc.antt =====
-- src/grpc.cpp: the queues between the agent and the collector, and their workers.
pub mod SpanQueue
pub mod Metadata
mod Tests
