-- ===== src/Benchmark/Complete.antt =====
-- internal/httpapi/benchmark_jobs.go: `completeBenchmarkJobWithResult`, and the loop of
-- `reconcileBenchmarkJobs` over the nodes. An error of the store is left out.
use llama_wrangler.Common.{
  ℕ, Bool, false, not, ◌&&◌, ◌||◌, String, List, [], ◌∷◌, Option, none, some, if◌then◌else◌,
}
use llama_wrangler.Common.Text.{str_eq}
use llama_wrangler.Appstate.Node.{text, time, results, Fields, end, field, Node}
use llama_wrangler.Routing.Policy.{value_of}
use llama_wrangler.Benchmark.Settings.{BenchmarkSchedulerConfig}
use llama_wrangler.Benchmark.Job.{Readers, put, put_when, text_of}
use llama_wrangler.Benchmark.Jobs.{
  as_maps, benchmark_jobs, upsert_benchmark_job, find_benchmark_job,
}
use llama_wrangler.Benchmark.Reconcile.{Run, no_run, add_run, reconcile_benchmark_jobs_for_node}

abbrev pub result_keys : List String
result_keys =
    "model" ∷ "duration_ms" ∷ "input_tokens" ∷ "generated_tokens" ∷ "tokens_per_second"
    ∷ "error_code" ∷ "suite_id" ∷ "task_count" ∷ "fixture_manifest_id" ∷ "runner_mode" ∷ []

abbrev pub final_status : String → String
final_status status = if str_eq status "" || str_eq status "reported" then "completed" else status

module _ {F : Type 0} where
  unfoldable pub has_key : String → Fields F → Bool
  has_key key end = false
  has_key key (field here value rest) = str_eq here key || has_key key rest

  -- The fields that are copied from the result, where it has them.
  abbrev pub copied : Fields F → List String → Fields F → Fields F
  copied result [] job = job
  copied result (key ∷ keys) job =
      copied result keys (put_when (has_key key result) key (value_of key result) job)

  unfoldable pub completed_job : Fields F → Fields F → ℕ → Fields F
  unfolding value_of put has_key
  completed_job result job now =
      let status = final_status (text_of (value_of "status" result)) in
      copied result result_keys (
        put "scheduler_reason" (text "result_ingested") (
          put "scheduler_state" (text "terminal") (
            put "result_status" (text status) (
              put "completed_at" (value_of "completed_at" result)
                (put "updated_at" (time now) (put "status" (text status) job))))))

  abbrev pub completed_node : Fields F → Node F → ℕ → Option (Fields F) → Node F
  completed_node result node now none = node
  completed_node result node now (some job) = record node {
    observed =
        put "benchmark_jobs"
          (results (
            as_maps
              (upsert_benchmark_job (benchmark_jobs node.observed) (completed_job result job now))))
          node.observed;
  }

  unfoldable pub complete_benchmark_job_with_result : Fields F → ℕ → Node F → Node F
  unfolding completed_job find_benchmark_job benchmark_jobs upsert_benchmark_job value_of put
  complete_benchmark_job_with_result result now node =
      let id = text_of (value_of "benchmark_id" result) in
      if str_eq id ""
      then node
      else completed_node result node now (find_benchmark_job id (benchmark_jobs node.observed))

  -- The managed nodes in the order in which the map gives them, and what was done.
  unfoldable pub reconcile_benchmark_jobs :
      Readers F → List (Node F) → ℕ → String → BenchmarkSchedulerConfig → List (Node F) × Run
  unfolding reconcile_benchmark_jobs_for_node
  reconcile_benchmark_jobs readers [] now reason policy = ([], no_run)
  reconcile_benchmark_jobs readers (node ∷ nodes) now reason policy =
      let (rest, runs) = reconcile_benchmark_jobs readers nodes now reason policy in
      let (done, run) = reconcile_benchmark_jobs_for_node readers node now reason policy in
      if not (str_eq node.control_level "") && not (str_eq node.control_level "managed")
      then (node ∷ rest, runs)
      else if run.changed
      then (done ∷ rest, add_run run runs)
      else (node ∷ rest, runs)
