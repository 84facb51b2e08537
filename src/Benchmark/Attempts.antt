-- ===== src/Benchmark/Attempts.antt =====
-- internal/httpapi/benchmark_jobs.go: the life of a job, and how often it is tried.
use llama_wrangler.Common.{
  ℕ, suc, ◌<◌, ◌≡◌, refl, sym, ap, subst, ◌∙◌, true, false, ◌&&◌, ◌||◌, String, Option, none, some,
  if◌then◌else◌, leb, arith, by_test,
}
use llama_wrangler.Common.Int.{pos, ◌+ℤ◌}
use llama_wrangler.Common.Text.{str_eq}
use llama_wrangler.Appstate.Node.{text, int, Fields}
use llama_wrangler.Routing.Policy.{value_of}
use llama_wrangler.Benchmark.Settings.{BenchmarkSchedulerConfig}
use llama_wrangler.Benchmark.Job.{
  value_of-put_when, Readers, value_of-put, value_of-drop_key, text_of, benchmark_job_int,
  benchmark_job_time, benchmark_job_due,
}
use llama_wrangler.Benchmark.Jobs.{status_of, schedule_benchmark_job_retry}
use llama_wrangler.Benchmark.Reconcile.{
  Run, no_run, leased, timed_out_job, reconcile_running, requeued, reconcile_failed,
}
use llama_wrangler.Benchmark.Complete.{completed_job, final_status}
use llama_wrangler.Benchmark.Handlers.{claimed_job}
use llama_wrangler.Benchmark.Limit.{Reads, is_open, IsLimited, changed-IsLimited, retry-IsLimited}

add_one : (a : ℕ) → pos a +ℤ pos 1 ≡ pos (suc a)
unfolding ◌+ℤ◌
add_one a = ground arith

module _ {F : Type 0} (readers : Readers F) where
  claimed_status :
      (job : Fields F) (now : ℕ) (p : BenchmarkSchedulerConfig)
      → value_of "status" (claimed_job readers job now p) ≡ text "running"
  unfolding claimed_job
  claimed_status job now p = simp (value_of-put, value_of-drop_key)

  claimed_attempt :
      (job : Fields F) (now : ℕ) (p : BenchmarkSchedulerConfig)
      → value_of "attempt" (claimed_job readers job now p)
        ≡ int (benchmark_job_int readers (value_of "attempt" job) (pos 0) +ℤ pos 1)
  unfolding claimed_job
  claimed_attempt job now p = simp (value_of-put, value_of-drop_key)

  claimed_limit :
      (job : Fields F) (now : ℕ) (p : BenchmarkSchedulerConfig)
      → value_of "max_attempts" (claimed_job readers job now p)
        ≡ int (benchmark_job_int readers (value_of "max_attempts" job) p.max_attempts)
  unfolding claimed_job
  claimed_limit job now p = simp (value_of-put, value_of-drop_key)

  -- A job whose attempts, limit, status and state are the same.
  pub kept-IsLimited :
      (job kept : Fields F)
      → value_of "attempt" kept ≡ value_of "attempt" job
      → value_of "max_attempts" kept ≡ value_of "max_attempts" job
      → is_open kept ≡ is_open job
      → IsLimited readers job
      → IsLimited readers kept
  kept-IsLimited job kept a m o h =
      changed-IsLimited readers job kept h a
        (subst (λ v. Reads readers v h.limit) (sym m) h.limit_read) (λ t. h.again (sym o ∙ t))

  claimed-Reads :
      (job : Fields F) (now : ℕ) (p : BenchmarkSchedulerConfig) (h : IsLimited readers job)
      → Reads readers (value_of "attempt" (claimed_job readers job now p)) (suc h.attempt)
  unfolding benchmark_job_int
  claimed-Reads job now p h d =
      ap (λ v. benchmark_job_int readers v d) (claimed_attempt job now p)
      ∙ (ap (λ n. n +ℤ pos 1) (h.attempt_read (pos 0)) ∙ add_one h.attempt)

  claimed_most :
      (job : Fields F) (now : ℕ) (p : BenchmarkSchedulerConfig) (h : IsLimited readers job)
      → Reads readers (value_of "max_attempts" (claimed_job readers job now p)) h.limit
  unfolding benchmark_job_int
  claimed_most job now p h d =
      ap (λ v. benchmark_job_int readers v d) (claimed_limit job now p)
      ∙ h.limit_read p.max_attempts

  claimed_closed :
      (job : Fields F) (now : ℕ) (p : BenchmarkSchedulerConfig)
      → is_open (claimed_job readers job now p) ≡ false
  claimed_closed job now p = rw (claimed_status job now p) refl

  -- A job that is handed out has been tried once more, and not more often than its limit.
  pub claimed-IsLimited :
      (job : Fields F) (now : ℕ) (p : BenchmarkSchedulerConfig)
      → str_eq (status_of job) "queued" ≡ true
      → IsLimited readers job
      → IsLimited readers (claimed_job readers job now p)
  claimed-IsLimited job now p q h =
      let more : h.attempt < h.limit = h.again (ground (arith, q)) in
      record {
        attempt = suc h.attempt;
        limit = h.limit;
        attempt_read = claimed-Reads job now p h;
        limit_read = claimed_most job now p h;
        some_limit = h.some_limit;
        small_limit = h.small_limit;
        within = omega (arith, more);
        again = λ t. let no : ⊥ = ground (arith, t, claimed_closed job now p) in elim no [ ];
      }

  leased-IsLimited :
      (job : Fields F) (now : ℕ) (p : BenchmarkSchedulerConfig) (o : Option ℕ)
      → IsLimited readers job
      → IsLimited readers (leased readers job now p o).0.0
  leased-IsLimited job now p (some t) h = h
  leased-IsLimited job now p none h =
      kept-IsLimited job (leased readers job now p none).0.0 (simp value_of-put) (simp value_of-put)
        (simp value_of-put) h

  pub running-IsLimited :
      (job : Fields F) (now : ℕ) (p : BenchmarkSchedulerConfig)
      → IsLimited readers job
      → IsLimited readers (reconcile_running readers job now p).0
  unfolding reconcile_running
  running-IsLimited job now p h =
      let l = leased readers job now p (benchmark_job_time readers (value_of "timeout_at" job)) in
      let late = timed_out_job l.0.0 now in
      let held =
        leased-IsLimited job now p (benchmark_job_time readers (value_of "timeout_at" job)) h in
      let tried = schedule_benchmark_job_retry readers late now "retry_after_timeout" p in
      let ended_run : Run = record {
        changed = true;
        timed_out = 1;
        retried = if tried.1 then 1 else 0;
        exhausted = if tried.1 then 0 else 1;
      } in
      by_test (λ (r : Fields F × Run). IsLimited readers r.0) (leb l.0.1 now) (tried.0, ended_run)
        (l.0.0, record no_run { changed = l.1 })
        (λ t.
          retry-IsLimited readers l.0.0 late now "retry_after_timeout" p (simp value_of-put)
            (simp value_of-put) held)
        (λ t. held)

  requeued_limit :
      (job : Fields F) (now : ℕ) (reason : String)
      → value_of "max_attempts" (requeued job now reason) ≡ value_of "max_attempts" job
  requeued_limit job now reason = simp value_of-put

  pub failed-IsLimited :
      (job : Fields F) (now : ℕ) (reason : String)
      → str_eq (status_of job) "failed" ≡ true
      → IsLimited readers job
      → IsLimited readers (reconcile_failed readers job now reason).0
  unfolding reconcile_failed
  failed-IsLimited job now reason q h =
      let waits = str_eq (text_of (value_of "scheduler_state" job)) "retry_wait" in
      let again = requeued job now reason in
      by_test (λ (r : Fields F × Run). IsLimited readers r.0)
        (waits && benchmark_job_due readers job now)
        (again, record no_run { changed = true; retried = 1 }) (job, no_run)
        (λ t.
          changed-IsLimited readers job again h (simp value_of-put)
            (subst (λ v. Reads readers v h.limit) (sym (requeued_limit job now reason))
              h.limit_read)
            (λ o. h.again (ground (arith, q, t))))
        (λ t. h)

  completed_attempt :
      (result job : Fields F) (now : ℕ)
      → value_of "attempt" (completed_job result job now) ≡ value_of "attempt" job
  unfolding completed_job
  completed_attempt result job now = simp (value_of-put, value_of-put_when)

  completed_limit :
      (result job : Fields F) (now : ℕ)
      → value_of "max_attempts" (completed_job result job now) ≡ value_of "max_attempts" job
  unfolding completed_job
  completed_limit result job now = simp (value_of-put, value_of-put_when)

  completed_status :
      (result job : Fields F) (now : ℕ)
      → value_of "status" (completed_job result job now)
        ≡ text (final_status (text_of (value_of "status" result)))
  unfolding completed_job
  completed_status result job now = simp (value_of-put, value_of-put_when)

  completed_state :
      (result job : Fields F) (now : ℕ)
      → value_of "scheduler_state" (completed_job result job now) ≡ text "terminal"
  unfolding completed_job
  completed_state result job now = simp (value_of-put, value_of-put_when)

  final_closed :
      (status : String)
      → str_eq status "queued" ≡ false
      → str_eq (final_status status) "queued" ≡ false
  final_closed status q =
      by_test (λ s. str_eq s "queued" ≡ false) (str_eq status "" || str_eq status "reported")
        "completed" status (λ t. refl) (λ t. q)

  pub completed-IsLimited :
      (result job : Fields F) (now : ℕ)
      → str_eq (text_of (value_of "status" result)) "queued" ≡ false
      → IsLimited readers job
      → IsLimited readers (completed_job result job now)
  completed-IsLimited result job now q h =
      let closed : is_open (completed_job result job now) ≡ false =
        rw (completed_status result job now, completed_state result job now)
          (ground (arith, final_closed (text_of (value_of "status" result)) q)) in
      changed-IsLimited readers job (completed_job result job now) h
        (completed_attempt result job now)
        (subst (λ v. Reads readers v h.limit) (sym (completed_limit result job now)) h.limit_read)
        (λ o. let no : ⊥ = ground (arith, o, closed) in elim no [ ])
