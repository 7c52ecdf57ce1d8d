-- ===== src/Observability.antt =====
-- src/observability.c: metrics, traces and the logger.
pub mod Destroy
pub mod Metrics
pub mod Tracing
pub mod Logger
mod Tests
