-- ===== src/Http.antt =====
-- src/http.cpp, src/http.h: what the agent decides about an HTTP request.
pub mod Filter
pub mod Address
pub mod Proxy
pub mod Status
pub mod Tests
