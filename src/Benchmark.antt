-- ===== src/Benchmark.antt =====
-- internal/httpapi/benchmark_jobs.go, with the benchmark settings of internal/config/config.go.
pub mod Settings
pub mod Job
pub mod Jobs
pub mod Reconcile
pub mod Handlers
pub mod Complete
pub mod Limit
pub mod Attempts
pub mod Life
pub mod Stored
pub mod Tests
pub mod Background
