-- ===== src/Observability.antt =====
-- app/observability: log records and spans.
pub mod Logging
pub mod Tracing
