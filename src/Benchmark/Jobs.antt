-- ===== src/Benchmark/Jobs.antt =====
-- internal/httpapi/benchmark_jobs.go: the list of a node's jobs, and what becomes of a job that fails
-- or whose time is over.
use llama_wrangler.Common.{
  ℕ, ◌+◌, Bool, true, false, not, ◌&&◌, ◌||◌, String, List, [], ◌∷◌, Option, none, some, ltb,
  if◌then◌else◌, length, take,
}
use llama_wrangler.Common.Int.{pos, ltb_ℤ}
use llama_wrangler.Common.Text.{str_eq}
use llama_wrangler.Appstate.Node.{text, int, time, Fields, Maps, no_maps, more_maps}
use llama_wrangler.Routing.Policy.{value_of}
use llama_wrangler.Routing.Placement.{listed_results}
use llama_wrangler.Benchmark.Settings.{BenchmarkSchedulerConfig, bounded_retry_timeout}
use llama_wrangler.Benchmark.Job.{
  Readers, put, drop_key, text_of, benchmark_job_int, benchmark_job_due, benchmark_job_retry_delay,
  ensure_benchmark_job_scheduler_defaults,
}

abbrev pub max_benchmark_jobs : ℕ
max_benchmark_jobs = 8

unfoldable pub benchmark_job_status_allowed : String → Bool
benchmark_job_status_allowed status =
    str_eq status "queued"
    || str_eq status "running"
    || str_eq status "completed"
    || str_eq status "failed"
    || str_eq status "cancelled"

module _ {F : Type 0} where
  abbrev pub as_maps : List (Fields F) → Maps F
  as_maps [] = no_maps
  as_maps (job ∷ jobs) = more_maps job (as_maps jobs)

  unfoldable pub benchmark_jobs : Fields F → List (Fields F)
  unfolding value_of
  benchmark_jobs observed = listed_results (value_of "benchmark_jobs" observed)

  -- The status and the name of a job.
  abbrev pub status_of : Fields F → String
  status_of job = text_of (value_of "status" job)

  abbrev pub id_of : Fields F → String
  id_of job = text_of (value_of "benchmark_id" job)

  unfoldable pub others : String → List (Fields F) → List (Fields F)
  unfolding value_of
  others id [] = []
  others id (job ∷ jobs) =
      let rest = others id jobs in
      if not (str_eq id "") && str_eq (id_of job) id then rest else job ∷ rest

  unfoldable pub upsert_benchmark_job : List (Fields F) → Fields F → List (Fields F)
  unfolding others
  upsert_benchmark_job jobs job =
      let out = job ∷ others (id_of job) jobs in
      if ltb max_benchmark_jobs (length out) then take max_benchmark_jobs out else out

  unfoldable pub find_benchmark_job : String → List (Fields F) → Option (Fields F)
  unfolding value_of
  find_benchmark_job id [] = none
  find_benchmark_job id (job ∷ jobs) =
      if str_eq (id_of job) id then some job else find_benchmark_job id jobs

  abbrev pub failed_job : Fields F → ℕ → Fields F
  failed_job job now =
      put "status" (text "failed")
        (put "scheduler_policy" (text bounded_retry_timeout) (put "updated_at" (time now) job))

  -- A failed job that is not tried again.
  abbrev pub exhausted_job : Fields F → ℕ → Fields F
  exhausted_job failed now = drop_key "next_attempt_at" (
      put "completed_at" (time now) (
        put "scheduler_reason" (text "max_attempts_exhausted")
          (put "scheduler_state" (text "exhausted") failed)))

  module _ (readers : Readers F) where
    unfoldable pub next_queued_benchmark_job : List (Fields F) → ℕ → Option (Fields F)
    unfolding value_of benchmark_job_due
    next_queued_benchmark_job [] now = none
    next_queued_benchmark_job (job ∷ jobs) now =
        if str_eq (status_of job) "queued" && benchmark_job_due readers job now
        then some job
        else next_queued_benchmark_job jobs now

    -- A failed job that is tried again.
    abbrev pub waiting_job : Fields F → ℕ → String → BenchmarkSchedulerConfig → Fields F
    waiting_job failed now reason policy =
        let waiting =
          put "next_attempt_at" (time (now + benchmark_job_retry_delay readers failed policy)) (
            put "scheduler_reason" (text reason)
              (put "scheduler_state" (text "retry_wait") failed)) in
        put "retry_delay_seconds"
          (int (
            benchmark_job_int readers (value_of "retry_delay_seconds" waiting)
              policy.retry_delay_seconds))
          waiting

    -- The job, and whether it is tried again.
    unfoldable pub schedule_benchmark_job_retry :
        Fields F → ℕ → String → BenchmarkSchedulerConfig → Fields F × Bool
    unfolding ensure_benchmark_job_scheduler_defaults benchmark_job_int value_of put drop_key
        benchmark_job_retry_delay
    schedule_benchmark_job_retry job now reason policy =
        let ready = ensure_benchmark_job_scheduler_defaults readers job now policy in
        let failed = failed_job ready now in
        if ltb_ℤ (benchmark_job_int readers (value_of "attempt" ready) (pos 0))
          (benchmark_job_int readers (value_of "max_attempts" ready) policy.max_attempts)
        then (waiting_job failed now reason policy, true)
        else (exhausted_job failed now, false)
