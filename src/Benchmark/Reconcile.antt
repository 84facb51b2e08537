-- ===== src/Benchmark/Reconcile.antt =====
-- internal/httpapi/benchmark_jobs.go: `reconcileBenchmarkJobsForNode`.
use llama_wrangler.Common.{
  ℕ, ◌+◌, Bool, true, false, ◌&&◌, ◌||◌, String, List, [], ◌∷◌, Option, none, some, leb,
  if◌then◌else◌,
}
use llama_wrangler.Common.Text.{str_eq}
use llama_wrangler.Appstate.Node.{text, int, time, results, Fields, Node}
use llama_wrangler.Routing.Policy.{value_of}
use llama_wrangler.Benchmark.Settings.{
  BenchmarkSchedulerConfig, normalize_benchmark_scheduler_config,
}
use llama_wrangler.Benchmark.Job.{
  Readers, put, text_of, benchmark_job_int, benchmark_job_time, benchmark_job_due,
  benchmark_job_lease_timeout, ensure_benchmark_job_scheduler_defaults,
}
use llama_wrangler.Benchmark.Jobs.{as_maps, benchmark_jobs, status_of, schedule_benchmark_job_retry}

-- `benchmarkSchedulerRun`
pub record Run : Type 0 where
  pub changed : Bool
  pub timed_out : ℕ
  pub retried : ℕ
  pub exhausted : ℕ

abbrev pub no_run : Run
no_run = record { changed = false; timed_out = 0; retried = 0; exhausted = 0 }

abbrev pub add_run : Run → Run → Run
add_run a b = record {
  changed = a.changed || b.changed;
  timed_out = a.timed_out + b.timed_out;
  retried = a.retried + b.retried;
  exhausted = a.exhausted + b.exhausted;
}

module _ {F : Type 0} where
  abbrev pub timed_out_job : Fields F → ℕ → Fields F
  timed_out_job job now =
      put "error_code" (text "benchmark_timeout") (put "timed_out_at" (time now) job)

  abbrev pub requeued : Fields F → ℕ → String → Fields F
  requeued job now reason = put "last_reconciled_reason" (text reason) (
      put "scheduler_reason" (text "retry_ready") (
        put "scheduler_state" (text "queued")
          (put "updated_at" (time now) (put "status" (text "queued") job))))

  abbrev pub stored : Fields F → List (Fields F) → ℕ → Fields F
  stored observed [] now = observed
  stored observed (job ∷ jobs) now = put "benchmark_id" (value_of "benchmark_id" job) (
      put "benchmark_status" (value_of "status" job) (
        put "benchmark_updated_at" (time now)
          (put "benchmark_jobs" (results (as_maps (job ∷ jobs))) observed)))

module _ {F : Type 0} (readers : Readers F) where
  abbrev pub claimed_until : Fields F → ℕ → BenchmarkSchedulerConfig → Option ℕ → ℕ
  claimed_until job now policy none = now
  claimed_until job now policy (some claimed_at) =
      claimed_at + benchmark_job_lease_timeout readers job policy

  -- A running job, with the end of its lease.
  abbrev pub leased : Fields F → ℕ → BenchmarkSchedulerConfig → Option ℕ → (Fields F × ℕ) × Bool
  leased job now policy (some timeout_at) = ((job, timeout_at), false)
  leased job now policy none =
      let timeout_at =
        claimed_until job now policy (benchmark_job_time readers (value_of "claimed_at" job)) in
      let timed = put "timeout_at" (time timeout_at) job in
      (
        (
          put "lease_timeout_seconds"
              (int (
                benchmark_job_int readers (value_of "lease_timeout_seconds" timed)
                  policy.lease_timeout_seconds))
              timed,
          timeout_at,
        ),
        true,
      )

  unfoldable pub reconcile_running : Fields F → ℕ → BenchmarkSchedulerConfig → Fields F × Run
  unfolding value_of put benchmark_job_time benchmark_job_int benchmark_job_lease_timeout
      schedule_benchmark_job_retry
  reconcile_running job now policy =
      let ((held, timeout_at), fixed) =
        leased job now policy (benchmark_job_time readers (value_of "timeout_at" job)) in
      let (tried, again) =
        schedule_benchmark_job_retry readers (timed_out_job held now) now "retry_after_timeout"
          policy in
      if leb timeout_at now
      then (
        tried,
        record {
          changed = true;
          timed_out = 1;
          retried = if again then 1 else 0;
          exhausted = if again then 0 else 1;
        },
      )
      else (held, record no_run { changed = fixed })

  unfoldable pub reconcile_failed : Fields F → ℕ → String → Fields F × Run
  unfolding value_of put benchmark_job_due
  reconcile_failed job now reason =
      if str_eq (text_of (value_of "scheduler_state" job)) "retry_wait"
        && benchmark_job_due readers job now
      then (requeued job now reason, record no_run { changed = true; retried = 1 })
      else (job, no_run)

  -- One round of the loop.
  unfoldable pub reconcile_job : Fields F → ℕ → String → BenchmarkSchedulerConfig → Fields F × Run
  unfolding value_of reconcile_running reconcile_failed ensure_benchmark_job_scheduler_defaults
  reconcile_job job now reason policy =
      let status = status_of job in
      if str_eq status "running"
      then reconcile_running job now policy
      else if str_eq status "failed"
      then reconcile_failed job now reason
      else if str_eq status "queued"
      then (ensure_benchmark_job_scheduler_defaults readers job now policy, no_run)
      else (job, no_run)

  unfoldable pub reconcile_jobs :
      List (Fields F) → ℕ → String → BenchmarkSchedulerConfig → List (Fields F) × Run
  unfolding reconcile_job
  reconcile_jobs [] now reason policy = ([], no_run)
  reconcile_jobs (job ∷ jobs) now reason policy =
      let (done, run) = reconcile_job job now reason policy in
      let (rest, runs) = reconcile_jobs jobs now reason policy in (done ∷ rest, add_run run runs)

  unfoldable pub reconcile_benchmark_jobs_for_node :
      Node F → ℕ → String → BenchmarkSchedulerConfig → Node F × Run
  unfolding value_of put normalize_benchmark_scheduler_config benchmark_jobs reconcile_jobs
  reconcile_benchmark_jobs_for_node node now reason policy =
      let (jobs, run) =
        reconcile_jobs (benchmark_jobs node.observed) now reason
          (normalize_benchmark_scheduler_config policy) in
      if run.changed
      then (record node { observed = stored node.observed jobs now }, run)
      else (node, run)
