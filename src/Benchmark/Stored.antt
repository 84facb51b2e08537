-- ===== src/Benchmark/Stored.antt =====
-- internal/httpapi/benchmark_jobs.go, `upsertBenchmarkJob` and `findBenchmarkJob`.
use llama_wrangler.Common.{
  ◌≤◌, ◌<◌, ◌≡◌, refl, ◌∙◌, false, String, List, [], ◌∷◌, some, ltb, length, take, length-take,
  arith, by_test, ltb-false,
}
use llama_wrangler.Common.Text.{str_eq, eq_iff, eq_refl}
use llama_wrangler.Appstate.Node.{Fields}
use llama_wrangler.Benchmark.Jobs.{
  max_benchmark_jobs, id_of, others, upsert_benchmark_job, find_benchmark_job,
}

module _ {F : Type 0} where
  length-others : (id : String) (jobs : List (Fields F)) → length (others id jobs) ≤ length jobs
  unfolding others
  length-others id [] = omega arith
  length-others id (job ∷ jobs) = ground (arith, length-others id jobs)

  find-others :
      (id asked : String) (jobs : List (Fields F))
      → str_eq id asked ≡ false
      → find_benchmark_job asked (others id jobs) ≡ find_benchmark_job asked jobs
  unfolding others find_benchmark_job
  find-others id asked [] e = refl
  find-others id asked (job ∷ jobs) e = ground (
    arith,
    e,
    find-others id asked jobs e,
    eq_iff (id_of job) id,
    eq_iff (id_of job) asked,
    eq_iff id asked,
  )

  -- What a list of jobs is to a job that is stored in it.
  pub record IsStored (jobs : List (Fields F)) (job : Fields F) (out : List (Fields F))
      : Type 0 where
    pub short : length out ≤ max_benchmark_jobs
    pub found : find_benchmark_job (id_of job) out ≡ some job
    pub others_kept :
        length jobs < max_benchmark_jobs
        → (asked : String) → str_eq (id_of job) asked ≡ false
        → find_benchmark_job asked out ≡ find_benchmark_job asked jobs

  found_first :
      (job : Fields F) (rest : List (Fields F))
      → find_benchmark_job (id_of job) (job ∷ rest) ≡ some job
  unfolding find_benchmark_job
  found_first job rest = ground (arith, eq_refl (id_of job))

  find_past :
      (job : Fields F) (rest : List (Fields F)) (asked : String)
      → str_eq (id_of job) asked ≡ false
      → find_benchmark_job asked (job ∷ rest) ≡ find_benchmark_job asked rest
  unfolding find_benchmark_job
  find_past job rest asked e = ground (arith, e)

  -- The list has at most eight jobs, and a job that is stored is found under its name;
  -- while there is room, the jobs with other names are found as before.
  pub upsert_benchmark_job_stores :
      (jobs : List (Fields F)) (job : Fields F) → IsStored jobs job (upsert_benchmark_job jobs job)
  unfolding upsert_benchmark_job
  upsert_benchmark_job_stores jobs job =
      let rest = others (id_of job) jobs in
      let shorter = length-others (id_of job) jobs in
      by_test (IsStored jobs job) (ltb 8 (length (job ∷ rest))) (take 8 (job ∷ rest)) (job ∷ rest)
        (λ t. record {
          short = omega (arith, length-take 8 (job ∷ rest));
          found = found_first job (take 7 rest);
          others_kept =
              λ room asked e. let no : ⊥ = ground (arith, t, room, shorter) in elim no [ ];
        })
        (λ t. record {
          short = ltb-false 8 (length (job ∷ rest)) t;
          found = found_first job rest;
          others_kept =
              λ room asked e. find_past job rest asked e ∙ find-others (id_of job) asked jobs e;
        })
