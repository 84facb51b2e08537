-- ===== src/Benchmark/Settings.antt =====
-- internal/config/config.go: the settings of the benchmark scheduler and of the runner, and the bounds
-- that `NormalizeBenchmarkSchedulerConfig` and `NormalizeBenchmarkRunnerConfig` keep them in.
use llama_wrangler.Common.{
  ℕ, zero, suc, ◌≤◌, ◌≡◌, ap, Bool, false, ◌||◌, String, ltb, if◌then◌else◌, arith,
}
use llama_wrangler.Common.Int.{ℤ, pos, positive_or}
use llama_wrangler.Common.Text.{str_eq, eq_refl}

pub record BenchmarkSchedulerConfig : Type 0 where
  pub policy : String
  pub max_attempts : ℤ
  pub lease_timeout_seconds : ℤ
  pub retry_delay_seconds : ℤ
  pub background_enabled : Bool
  pub tick_interval_seconds : ℤ

pub record BenchmarkRunnerConfig : Type 0 where
  pub enabled : Bool
  pub mode : String
  pub poll_interval_seconds : ℤ
  pub max_jobs_per_tick : ℤ
  pub result_body_policy : String

abbrev pub bounded_retry_timeout : String
bounded_retry_timeout = "bounded_retry_timeout_v1"

unfoldable pub default_benchmark_scheduler_config : BenchmarkSchedulerConfig
default_benchmark_scheduler_config = record {
  policy = bounded_retry_timeout;
  max_attempts = pos 3;
  lease_timeout_seconds = pos 600;
  retry_delay_seconds = pos 60;
  background_enabled = false;
  tick_interval_seconds = pos 60;
}

unfoldable pub default_benchmark_runner_config : BenchmarkRunnerConfig
default_benchmark_runner_config = record {
  enabled = false;
  mode = "dry_run_v1";
  poll_interval_seconds = pos 60;
  max_jobs_per_tick = pos 1;
  result_body_policy = "metrics_only";
}

-- The fallback is positive.
unfoldable pub bounded_int : ℤ → ℕ → ℕ → ℕ → ℕ
bounded_int value fallback least most =
    let n = positive_or value fallback in
    if ltb n least then least else if ltb most n then most else n

unfoldable pub normalize_benchmark_scheduler_config :
    BenchmarkSchedulerConfig → BenchmarkSchedulerConfig
unfolding bounded_int
normalize_benchmark_scheduler_config p = record p {
  policy = if str_eq p.policy bounded_retry_timeout then p.policy else bounded_retry_timeout;
  max_attempts = pos (bounded_int p.max_attempts 3 1 10);
  lease_timeout_seconds = pos (bounded_int p.lease_timeout_seconds 600 30 3600);
  retry_delay_seconds = pos (bounded_int p.retry_delay_seconds 60 5 1800);
  tick_interval_seconds = pos (bounded_int p.tick_interval_seconds 60 10 3600);
}

unfoldable pub normalize_benchmark_runner_config : BenchmarkRunnerConfig → BenchmarkRunnerConfig
unfolding bounded_int
normalize_benchmark_runner_config r = record r {
  mode =
      if str_eq r.mode "dry_run_v1" || str_eq r.mode "synthetic_builtin_v1"
      then r.mode
      else "dry_run_v1";
  poll_interval_seconds = pos (bounded_int r.poll_interval_seconds 60 5 3600);
  max_jobs_per_tick = pos (bounded_int r.max_jobs_per_tick 1 1 5);
  result_body_policy =
      if str_eq r.result_body_policy "metrics_only" then r.result_body_policy else "metrics_only";
}

-- A bounded integer is within its bounds.
pub bounded_int_bounds :
    (value : ℤ) (fallback least most : ℕ)
    → least ≤ most
    → (least ≤ bounded_int value fallback least most)
      × (bounded_int value fallback least most ≤ most)
unfolding bounded_int
bounded_int_bounds value fallback least most h = (ground (arith, h), ground (arith, h))

-- A positive integer within the bounds is kept.
pub bounded_int_keeps :
    (n fallback least most : ℕ)
    → 1 ≤ n
    → least ≤ n
    → n ≤ most
    → bounded_int (pos n) fallback least most ≡ n
unfolding bounded_int
bounded_int_keeps zero fallback least most p l m = let no : ⊥ = omega (arith, p) in elim no [ ]
bounded_int_keeps (suc n) fallback least most p l m = ground (arith, l, m)

bounded_twice :
    (value : ℤ) (fallback least most : ℕ)
    → 1 ≤ least
    → least ≤ most
    → bounded_int (pos (bounded_int value fallback least most)) fallback least most
      ≡ bounded_int value fallback least most
bounded_twice value fallback least most p h =
    let b = bounded_int_bounds value fallback least most h in
    bounded_int_keeps (bounded_int value fallback least most) fallback least most
      (omega (arith, b.0, p)) b.0 b.1

policy_kept :
    (p q : String)
    → let known = if str_eq p q then p else q in (if str_eq known q then known else q) ≡ known
policy_kept p q = ground (arith, eq_refl q)

-- Settings that are normalized stay as they are when they are normalized again.
pub normalize_benchmark_scheduler_config_idempotent :
    (p : BenchmarkSchedulerConfig)
    → normalize_benchmark_scheduler_config (normalize_benchmark_scheduler_config p)
      ≡ normalize_benchmark_scheduler_config p
unfolding normalize_benchmark_scheduler_config
normalize_benchmark_scheduler_config_idempotent p =
    rw
      (
        bounded_twice p.max_attempts 3 1 10 (omega arith) (omega arith),
        bounded_twice p.lease_timeout_seconds 600 30 3600 (omega arith) (omega arith),
        bounded_twice p.retry_delay_seconds 60 5 1800 (omega arith) (omega arith),
        bounded_twice p.tick_interval_seconds 60 10 3600 (omega arith) (omega arith),
      )
      (ap (λ t. record (normalize_benchmark_scheduler_config p) { policy = t })
        (policy_kept p.policy bounded_retry_timeout))
