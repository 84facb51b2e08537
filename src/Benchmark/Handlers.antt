-- ===== src/Benchmark/Handlers.antt =====
-- internal/httpapi/benchmark_jobs.go: a job that is created, claimed, reported on and completed. The
-- HTTP input and output, the credential of the subscriber and telemetry are left out.
use llama_wrangler.Common.{ℕ, ◌+◌, not, ◌||◌, String, Option, none, some, if◌then◌else◌}
use llama_wrangler.Common.Int.{pos, ◌+ℤ◌}
use llama_wrangler.Common.Text.{str_eq}
use llama_wrangler.Appstate.Node.{Value, text, int, time, results, Fields, end, field, Node}
use llama_wrangler.Routing.Policy.{value_of}
use llama_wrangler.Benchmark.Settings.{
  BenchmarkSchedulerConfig, bounded_retry_timeout, normalize_benchmark_scheduler_config,
}
use llama_wrangler.Benchmark.Job.{
  Readers, put, put_when, drop_key, benchmark_job_int, benchmark_job_time,
  benchmark_job_lease_timeout, is_set,
}
use llama_wrangler.Benchmark.Jobs.{
  as_maps, benchmark_jobs, upsert_benchmark_job, find_benchmark_job, next_queued_benchmark_job,
  schedule_benchmark_job_retry,
}
use llama_wrangler.Benchmark.Reconcile.{reconcile_benchmark_jobs_for_node}

module _ {F : Type 0} where
  -- What a node says of its job: the fields that all handlers set.
  abbrev pub observe : Node F → Value F → Value F → ℕ → Fields F → Node F
  unfolding benchmark_jobs upsert_benchmark_job put
  observe node status id now job = record node {
    observed =
        put "benchmark_jobs"
          (results (as_maps (upsert_benchmark_job (benchmark_jobs node.observed) job)))
          (put "benchmark_updated_at" (time now)
            (put "benchmark_id" id (put "benchmark_status" status node.observed)));
  }

  -- The job of `createManagedBenchmarkJob`, with its name and what the policy says of it.
  unfoldable pub created_job :
      String → String → Value F → Value F → Value F → ℕ → BenchmarkSchedulerConfig → Fields F
  unfolding normalize_benchmark_scheduler_config
  created_job id node_id mode candidates workload_suite now policy =
      let p = normalize_benchmark_scheduler_config policy in
      field "benchmark_id" (text id) (
        field "node_id" (text node_id) (
          field "type" (text "managed_node_metadata_benchmark") (
            field "source" (text "subscriber_reported") (
              field "mode" mode (
                field "status" (text "queued") (
                  field "requested_at" (time now) (
                    field "updated_at" (time now) (
                      field "next_attempt_at" (time now) (
                        field "attempt" (int (pos 0)) (
                          field "max_attempts" (int p.max_attempts) (
                            field "lease_timeout_seconds" (int p.lease_timeout_seconds) (
                              field "retry_delay_seconds" (int p.retry_delay_seconds) (
                                field "scheduler_policy" (text p.policy) (
                                  field "scheduler_state" (text "queued") (
                                    field "scheduler_reason" (text "created") (
                                      field "model_candidates" candidates (
                                        field "workload_suite" workload_suite (
                                          field "result_endpoint" (text "/subscriber/benchmarks") (
                                            field "status_endpoint"
                                              (text "/subscriber/benchmarks/status")
                                              end)))))))))))))))))))

  unfoldable pub create_managed_benchmark_job :
      Node F
      → String
      → Value F
      → Value F
      → Value F
      → ℕ
      → BenchmarkSchedulerConfig
      → Node F × Fields F
  unfolding put benchmark_jobs upsert_benchmark_job created_job
  create_managed_benchmark_job node id mode candidates workload_suite now policy =
      let job = created_job id node.node_id mode candidates workload_suite now policy in
      (
        record node {
          benchmark_source = "subscriber_reported";
          observed =
              put "benchmark_jobs"
                (results (as_maps (upsert_benchmark_job (benchmark_jobs node.observed) job)))
                (put "benchmark_updated_at" (time now) (
                  put "benchmark_workload_suite" workload_suite (
                    put "benchmark_policy" (text "managed_subscriber_reported") (
                      put "benchmark_mode" mode (
                        put "benchmark_id" (text id)
                          (put "benchmark_status" (text "queued") node.observed))))));
        },
        job,
      )

  abbrev pub put_error : String → String → Fields F → Fields F
  put_error raw safe job = put_when (not (str_eq raw "")) "error_code" (text safe) job

  abbrev pub ended : String → ℕ → Fields F → Fields F
  ended status now job =
      put "completed_at" (time now)
        (put "scheduler_reason" (text status) (put "scheduler_state" (text "terminal") job))

  module _ (readers : Readers F) where
    -- What `subscriberBenchmarkJobClaim` does to the job it hands out.
    unfoldable pub claimed_job : Fields F → ℕ → BenchmarkSchedulerConfig → Fields F
    unfolding value_of put drop_key benchmark_job_int benchmark_job_lease_timeout ◌+ℤ◌
    claimed_job job now policy =
        let counted =
          put "attempt" (int (benchmark_job_int readers (value_of "attempt" job) (pos 0) +ℤ pos 1))
            (put "status" (text "running") job) in
        let timed =
          put "timeout_at" (time (now + benchmark_job_lease_timeout readers counted policy))
            (put "updated_at" (time now) (put "claimed_at" (time now) counted)) in
        let noted = put "scheduler_reason" (text "claimed") (
          put "scheduler_state" (text "running")
            (put "scheduler_policy" (text bounded_retry_timeout) timed)) in
        let leased =
          put "lease_timeout_seconds"
            (int (
              benchmark_job_int readers (value_of "lease_timeout_seconds" noted)
                policy.lease_timeout_seconds))
            noted in
        let delayed =
          put "retry_delay_seconds"
            (int (
              benchmark_job_int readers (value_of "retry_delay_seconds" leased)
                policy.retry_delay_seconds))
            leased in
        let limited =
          put "max_attempts"
            (int (benchmark_job_int readers (value_of "max_attempts" delayed) policy.max_attempts))
            delayed in
        drop_key "next_attempt_at"
          (drop_key "timed_out_at" (drop_key "failed_at" (drop_key "completed_at" limited)))

    abbrev pub hand_out :
        Node F → ℕ → BenchmarkSchedulerConfig → Option (Fields F) → Node F × Option (Fields F)
    hand_out node now policy none = (node, none)
    hand_out node now policy (some job) =
        let claimed = claimed_job job now policy in
        (observe node (text "running") (value_of "benchmark_id" claimed) now claimed, some claimed)

    -- `subscriberBenchmarkJobClaim` after its checks: the node, and the job that is handed out.
    unfoldable pub claim_benchmark_job :
        Node F → ℕ → BenchmarkSchedulerConfig → Node F × Option (Fields F)
    unfolding claimed_job value_of put benchmark_jobs upsert_benchmark_job next_queued_benchmark_job
        reconcile_benchmark_jobs_for_node
    claim_benchmark_job node now policy =
        let (ready, run) =
          reconcile_benchmark_jobs_for_node readers node now "subscriber_claim" policy in
        hand_out ready now policy
          (next_queued_benchmark_job readers (benchmark_jobs ready.observed) now)

    abbrev pub resumed : Fields F → ℕ → BenchmarkSchedulerConfig → Fields F
    resumed job now policy =
        let noted =
          put "scheduler_reason" (text "subscriber_status")
            (put "scheduler_state" (text "running") job) in
        put_when (not (is_set (benchmark_job_time readers (value_of "timeout_at" noted))))
          "timeout_at" (time (now + benchmark_job_lease_timeout readers noted policy)) noted

    -- What `subscriberBenchmarkJobStatus` does to the job. The error code of the request stands beside
    -- the one that is stored.
    unfoldable pub reported_job :
        Fields F → String → String → String → ℕ → BenchmarkSchedulerConfig → Fields F
    unfolding value_of put benchmark_job_time benchmark_job_lease_timeout
        schedule_benchmark_job_retry
    reported_job job status raw safe now policy =
        let noted =
          put_error raw safe (put "updated_at" (time now) (put "status" (text status) job)) in
        let named =
          put_when (str_eq raw "") "error_code" (text "subscriber_reported_failed") noted in
        if str_eq status "running"
        then resumed noted now policy
        else if str_eq status "failed"
        then (schedule_benchmark_job_retry readers (put "failed_at" (time now) named) now
            "retry_after_failure" policy).0
        else if str_eq status "cancelled" || str_eq status "completed"
        then ended status now noted
        else noted

    abbrev pub reported_on :
        Node F
        → String
        → String
        → String
        → String
        → ℕ
        → BenchmarkSchedulerConfig
        → Option (Fields F)
        → Option (Node F × Fields F)
    reported_on node id status raw safe now policy none = none
    reported_on node id status raw safe now policy (some job) =
        let reported = reported_job job status raw safe now policy in
        some (observe node (text status) (text id) now reported, reported)

    -- `subscriberBenchmarkJobStatus` after its checks of the request, none where there is no such job.
    unfoldable pub report_benchmark_job :
        Node F
        → String
        → String
        → String
        → String
        → ℕ
        → BenchmarkSchedulerConfig
        → Option (Node F × Fields F)
    unfolding reported_job put benchmark_jobs upsert_benchmark_job find_benchmark_job
    report_benchmark_job node id status raw safe now policy =
        reported_on node id status raw safe now policy
          (find_benchmark_job id (benchmark_jobs node.observed))
