-- ===== src/Benchmark/Tests.antt =====
-- internal/httpapi/benchmark_jobs.go: a job that is tried, and the theorems at it.
use llama_wrangler.Common.{ℕ, ◌+◌, ◌*◌, ◌≤◌, ◌≡◌, refl, true, false, [], ◌∷◌, none, List, arith}
use llama_wrangler.Common.Int.{pos}
use llama_wrangler.Appstate.Node.{nil, int, Fields}
use llama_wrangler.Routing.Policy.{value_of}
use llama_wrangler.Benchmark.Settings.{BenchmarkSchedulerConfig}
use llama_wrangler.Benchmark.Job.{Readers, second}
use llama_wrangler.Benchmark.Jobs.{upsert_benchmark_job}
use llama_wrangler.Benchmark.Reconcile.{reconcile_job, no_run}
use llama_wrangler.Benchmark.Handlers.{created_job, claimed_job, reported_job}
use llama_wrangler.Benchmark.Limit.{IsLimited}
use llama_wrangler.Benchmark.Life.{created, claimed, reconciled, Life-IsLimited}
use llama_wrangler.Benchmark.Background.{
  due, reset_plan, append_audit, background_tick, new_benchmark_scheduler_background,
}
use llama_wrangler.Benchmark.Background.Spacing.{Act, ticks, replans, background_tick_spaced}
use llama_wrangler.Benchmark.Stored.{IsStored, upsert_benchmark_job_stores}

abbrev whole : Readers ℕ
whole = record { to_int = pos; number_int = λ s. none; parse_time = λ s. none }

-- A single attempt, of thirty seconds.
abbrev once : BenchmarkSchedulerConfig
once = record {
  policy = "";
  max_attempts = pos 1;
  lease_timeout_seconds = pos 30;
  retry_delay_seconds = pos 5;
  background_enabled = false;
  tick_interval_seconds = pos 10;
}

abbrev fresh : Fields ℕ
fresh = created_job "bench_1" "a" nil nil nil 0 once

abbrev taken : Fields ℕ
taken = claimed_job whole fresh 1 once

Life-IsLimited_example : IsLimited whole (reconcile_job whole taken 99_000_000_000 "tick" once).0
unfolding created_job value_of
Life-IsLimited_example =
    Life-IsLimited whole (reconcile_job whole taken 99_000_000_000 "tick" once).0 (
      reconciled taken 99_000_000_000 "tick" once
        (claimed fresh 1 once (created "bench_1" "a" nil nil nil 0 once) refl))

-- A job that its subscriber reports as queued is handed out again, beyond its limit.
beyond_test :
    value_of "attempt" (claimed_job whole (reported_job whole taken "queued" "" "" 2 once) 3 once)
    ≡ int (pos 2)
unfolding claimed_job reported_job created_job
beyond_test = refl

upsert_benchmark_job_stores_example :
    IsStored (fresh ∷ []) taken (upsert_benchmark_job (fresh ∷ []) taken)
upsert_benchmark_job_stores_example = upsert_benchmark_job_stores (fresh ∷ []) taken

-- Settings with the shortest interval, and a tick that is forced at the start.
abbrev eager : BenchmarkSchedulerConfig
eager = record once { background_enabled = true }

-- A tick too early, and a plan that is made anew.
abbrev early_tick : List Act
early_tick = ticks 9_000_000_000 false eager no_run ∷ replans 20_000_000_000 eager ∷ []

background_tick_spaced_example : 5 + 10 * second ≤ 199_000_000_000
unfolding background_tick due append_audit reset_plan
background_tick_spaced_example =
    background_tick_spaced 5 199_000_000_000 true eager eager no_run no_run
      new_benchmark_scheduler_background early_tick (omega arith, (omega arith, tt)) refl refl
