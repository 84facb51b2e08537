-- ===== src/Benchmark/Life.antt =====
-- internal/httpapi/benchmark_jobs.go: the steps of a job's life, and its attempts at any time.
use llama_wrangler.Common.{
  ℕ, ◌≡◌, refl, sym, subst, ◌∙◌, true, false, ◌||◌, String, if◌then◌else◌, arith, by_test,
}
use llama_wrangler.Common.Int.{ℤ}
use llama_wrangler.Common.Text.{str_eq, eq_iff}
use llama_wrangler.Appstate.Node.{Value, text, time, Fields}
use llama_wrangler.Routing.Policy.{value_of}
use llama_wrangler.Benchmark.Settings.{
  BenchmarkSchedulerConfig, normalize_benchmark_scheduler_config, bounded_int, bounded_int_bounds,
}
use llama_wrangler.Benchmark.Job.{
  Readers, text_of, put, put_when, value_of-put, value_of-put_when, benchmark_job_int,
  ensure_benchmark_job_scheduler_defaults,
}
use llama_wrangler.Benchmark.Jobs.{status_of, schedule_benchmark_job_retry}
use llama_wrangler.Benchmark.Reconcile.{
  Run, no_run, reconcile_running, reconcile_failed, reconcile_job,
}
use llama_wrangler.Benchmark.Complete.{completed_job}
use llama_wrangler.Benchmark.Handlers.{
  claimed_job, put_error, ended, resumed, reported_job, created_job,
}
use llama_wrangler.Benchmark.Limit.{
  Reads, is_open, IsLimited, changed-IsLimited, ensured_attempt, ensured_limit, retry-IsLimited,
}
use llama_wrangler.Benchmark.Attempts.{
  claimed-IsLimited, running-IsLimited, failed-IsLimited, completed-IsLimited,
}

module _ {F : Type 0} (readers : Readers F) where
  reconciled-IsLimited :
      (job : Fields F) (now : ℕ) (reason : String) (p : BenchmarkSchedulerConfig)
      → IsLimited readers job
      → IsLimited readers (reconcile_job readers job now reason p).0
  unfolding reconcile_job
  reconciled-IsLimited job now reason p h =
      let limited = λ (r : Fields F × Run). IsLimited readers r.0 in
      let s = status_of job in
      let ready = ensure_benchmark_job_scheduler_defaults readers job now p in
      let last : Fields F × Run = if str_eq s "queued" then (ready, no_run) else (job, no_run) in
      let failed = reconcile_failed readers job now reason in
      by_test limited (str_eq s "running") (reconcile_running readers job now p)
        (if str_eq s "failed" then failed else last) (λ t. running-IsLimited readers job now p h)
        (λ t.
          by_test limited (str_eq s "failed") failed last
            (λ u. failed-IsLimited readers job now reason u h)
            (λ u.
              by_test limited (str_eq s "queued") (ready, no_run) (job, no_run)
                (λ q.
                  changed-IsLimited readers job ready h (ensured_attempt readers job now p)
                    (ensured_limit readers job now p h.limit h.limit_read h.some_limit
                      h.small_limit)
                    (λ o. h.again (ground (arith, q))))
                (λ q. h)))

  -- A status that is neither "queued" nor "failed" closes the job.
  closed_by :
      (job : Fields F) (status : String)
      → value_of "status" job ≡ text status
      → str_eq status "queued" ≡ false
      → str_eq status "failed" ≡ false
      → is_open job ≡ false
  closed_by job status e q f = rw (e) (ground (arith, q, f))

  closed-IsLimited :
      (job closed : Fields F) (status : String)
      → value_of "attempt" closed ≡ value_of "attempt" job
      → value_of "max_attempts" closed ≡ value_of "max_attempts" job
      → value_of "status" closed ≡ text status
      → str_eq status "queued" ≡ false
      → str_eq status "failed" ≡ false
      → IsLimited readers job
      → IsLimited readers closed
  closed-IsLimited job closed status a m s q f h =
      changed-IsLimited readers job closed h a
        (subst (λ v. Reads readers v h.limit) (sym m) h.limit_read)
        (λ o. let no : ⊥ = ground (arith, o, closed_by closed status s q f) in elim no [ ])

  reported-IsLimited :
      (job : Fields F) (status raw safe : String) (now : ℕ) (p : BenchmarkSchedulerConfig)
      → str_eq status "queued" ≡ false
      → IsLimited readers job
      → IsLimited readers (reported_job readers job status raw safe now p)
  unfolding reported_job
  reported-IsLimited job status raw safe now p q h =
      let noted =
        put_error raw safe (put "updated_at" (time now) (put "status" (text status) job)) in
      let named = put_when (str_eq raw "") "error_code" (text "subscriber_reported_failed") noted in
      let broken = put "failed_at" (time now) named in
      let over = str_eq status "cancelled" || str_eq status "completed" in
      let retry = (schedule_benchmark_job_retry readers broken now "retry_after_failure" p).0 in
      let rest = if over then ended status now noted else noted in
      let limited = IsLimited readers in
      by_test limited (str_eq status "running") (resumed readers noted now p)
        (if str_eq status "failed" then retry else rest)
        (λ t.
          closed-IsLimited job (resumed readers noted now p) status
            (simp (value_of-put, value_of-put_when)) (simp (value_of-put, value_of-put_when))
            (simp (value_of-put, value_of-put_when)) q
            (subst (λ s. str_eq s "failed" ≡ false) (sym ((eq_iff status "running").0 t)) refl) h)
        (λ t.
          by_test limited (str_eq status "failed") retry rest
            (λ u.
              retry-IsLimited readers job broken now "retry_after_failure" p
                (simp (value_of-put, value_of-put_when)) (simp (value_of-put, value_of-put_when)) h)
            (λ u.
              by_test limited over (ended status now noted) noted
                (λ o.
                  closed-IsLimited job (ended status now noted) status
                    (simp (value_of-put, value_of-put_when))
                    (simp (value_of-put, value_of-put_when))
                    (simp (value_of-put, value_of-put_when)) q u h)
                (λ o.
                  closed-IsLimited job noted status (simp (value_of-put, value_of-put_when))
                    (simp (value_of-put, value_of-put_when))
                    (simp (value_of-put, value_of-put_when)) q u h)))

  created-IsLimited :
      (id node_id : String) (mode candidates workload_suite : Value F) (now : ℕ)
      (p : BenchmarkSchedulerConfig)
      → IsLimited readers (created_job id node_id mode candidates workload_suite now p)
  unfolding created_job normalize_benchmark_scheduler_config value_of benchmark_job_int
  created-IsLimited id node_id mode candidates workload_suite now p =
      let b = bounded_int_bounds p.max_attempts 3 1 10 (omega arith) in
      record {
        attempt = 0;
        limit = bounded_int p.max_attempts 3 1 10;
        attempt_read = λ d. refl;
        limit_read = λ d. refl;
        some_limit = b.0;
        small_limit = b.1;
        within = omega arith;
        again = λ o. omega (arith, b.0);
      }

  -- What a job is after the state was written and read: its texts are the same, and its numbers, which
  -- may be of another type, read the same.
  pub record IsReread (job again : Fields F) : Type 0 where
    pub attempts :
        (d : ℤ)
        → benchmark_job_int readers (value_of "attempt" again) d
          ≡ benchmark_job_int readers (value_of "attempt" job) d
    pub limits :
        (d : ℤ)
        → benchmark_job_int readers (value_of "max_attempts" again) d
          ≡ benchmark_job_int readers (value_of "max_attempts" job) d
    pub status : value_of "status" again ≡ value_of "status" job
    pub state : value_of "scheduler_state" again ≡ value_of "scheduler_state" job

  reread-IsLimited :
      (job again : Fields F) → IsReread job again → IsLimited readers job → IsLimited readers again
  reread-IsLimited job again k h =
      let same : is_open again ≡ is_open job = rw (k.status, k.state) refl in
      record {
        attempt = h.attempt;
        limit = h.limit;
        attempt_read = λ d. k.attempts d ∙ h.attempt_read d;
        limit_read = λ d. k.limits d ∙ h.limit_read d;
        some_limit = h.some_limit;
        small_limit = h.small_limit;
        within = h.within;
        again = λ o. h.again (sym same ∙ o);
      }

  -- What becomes of a job: it is created, claimed while it is queued, reconciled, reported on and
  -- completed with any status but "queued", and it is stored in between.
  pub data Life : Fields F → Type 0 where
    created :
        (id node_id : String) (mode candidates workload_suite : Value F) (now : ℕ)
        (p : BenchmarkSchedulerConfig)
        → Life (created_job id node_id mode candidates workload_suite now p)
    claimed :
        (job : Fields F) (now : ℕ) (p : BenchmarkSchedulerConfig)
        → Life job
        → str_eq (status_of job) "queued" ≡ true
        → Life (claimed_job readers job now p)
    reconciled :
        (job : Fields F) (now : ℕ) (reason : String) (p : BenchmarkSchedulerConfig)
        → Life job
        → Life (reconcile_job readers job now reason p).0
    reported :
        (job : Fields F) (status raw safe : String) (now : ℕ) (p : BenchmarkSchedulerConfig)
        → Life job
        → str_eq status "queued" ≡ false
        → Life (reported_job readers job status raw safe now p)
    completed :
        (result job : Fields F) (now : ℕ)
        → Life job
        → str_eq (text_of (value_of "status" result)) "queued" ≡ false
        → Life (completed_job result job now)
    reread : (job again : Fields F) → Life job → IsReread job again → Life again

  -- At any time of the life of a job that no report or result sets to "queued", it has been tried
  -- at most as often as its limit, which is from 1 to 10; a job that is queued or waits to be
  -- tried again has a try left.
  pub Life-IsLimited : (job : Fields F) → Life job → IsLimited readers job
  Life-IsLimited job (created id node_id mode candidates suite now p) =
      created-IsLimited id node_id mode candidates suite now p
  Life-IsLimited job (claimed before now p l q) =
      claimed-IsLimited readers before now p q (Life-IsLimited before l)
  Life-IsLimited job (reconciled before now reason p l) =
      reconciled-IsLimited before now reason p (Life-IsLimited before l)
  Life-IsLimited job (reported before status raw safe now p l q) =
      reported-IsLimited before status raw safe now p q (Life-IsLimited before l)
  Life-IsLimited job (completed result before now l q) =
      completed-IsLimited readers result before now q (Life-IsLimited before l)
  Life-IsLimited job (reread before again l k) =
      reread-IsLimited before again k (Life-IsLimited before l)
