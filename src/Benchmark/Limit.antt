-- ===== src/Benchmark/Limit.antt =====
-- internal/httpapi/benchmark_jobs.go: no job is tried more often than its limit.
use llama_wrangler.Common.{
  ℕ, ◌≤◌, ◌<◌, ◌≡◌, sym, ap, subst, ◌∙◌, Bool, true, false, ◌&&◌, ◌||◌, String, arith, by_test,
}
use llama_wrangler.Common.Int.{ℤ, pos, ltb_ℤ}
use llama_wrangler.Common.Text.{str_eq}
use llama_wrangler.Appstate.Node.{Value, Fields}
use llama_wrangler.Routing.Policy.{value_of}
use llama_wrangler.Benchmark.Settings.{
  BenchmarkSchedulerConfig, normalize_benchmark_scheduler_config, bounded_int_keeps,
}
use llama_wrangler.Benchmark.Job.{
  Readers, value_of-put, value_of-put_when, value_of-drop_key, text_of, benchmark_job_int,
  ensure_benchmark_job_scheduler_defaults,
}
use llama_wrangler.Benchmark.Jobs.{
  status_of, failed_job, waiting_job, exhausted_job, schedule_benchmark_job_retry,
}

below : (a m : ℕ) (x y : ℤ) → x ≡ pos a → y ≡ pos m → ltb_ℤ x y ≡ true → a < m
below a m x y e f t =
    let s : ltb_ℤ (pos a) (pos m) ≡ true =
      subst (λ z. ltb_ℤ z (pos m) ≡ true) e (subst (λ z. ltb_ℤ x z ≡ true) f t) in
    ground (arith, s)

module _ {F : Type 0} where
  -- The job is to be tried again.
  abbrev pub is_open : Fields F → Bool
  is_open job =
      str_eq (status_of job) "queued"
      || (str_eq (status_of job) "failed"
          && str_eq (text_of (value_of "scheduler_state" job)) "retry_wait")

module _ {F : Type 0} (readers : Readers F) where
  -- What a value says as an integer, whatever the fallback.
  abbrev pub Reads : Value F → ℕ → Type 0
  Reads v n = (d : ℤ) → benchmark_job_int readers v d ≡ pos n

  pub record IsLimited (job : Fields F) : Type 0 where
    pub attempt : ℕ
    pub limit : ℕ
    pub attempt_read : Reads (value_of "attempt" job) attempt
    pub limit_read : Reads (value_of "max_attempts" job) limit
    pub some_limit : 1 ≤ limit
    pub small_limit : limit ≤ 10
    pub within : attempt ≤ limit
    pub again : is_open job ≡ true → attempt < limit

  -- A job with the same attempts and limit, which may be tried again if that one may.
  pub changed-IsLimited :
      (job changed : Fields F) (h : IsLimited job)
      → value_of "attempt" changed ≡ value_of "attempt" job
      → Reads (value_of "max_attempts" changed) h.limit
      → (is_open changed ≡ true → h.attempt < h.limit)
      → IsLimited changed
  changed-IsLimited job changed h a m o = record {
    attempt = h.attempt;
    limit = h.limit;
    attempt_read = subst (λ v. Reads v h.attempt) (sym a) h.attempt_read;
    limit_read = m;
    some_limit = h.some_limit;
    small_limit = h.small_limit;
    within = h.within;
    again = o;
  }

  pub ensured_attempt :
      (job : Fields F) (now : ℕ) (p : BenchmarkSchedulerConfig)
      → value_of "attempt" (ensure_benchmark_job_scheduler_defaults readers job now p)
        ≡ value_of "attempt" job
  unfolding ensure_benchmark_job_scheduler_defaults
  ensured_attempt job now p = simp (value_of-put, value_of-put_when)

  pub ensured_limit :
      (job : Fields F) (now : ℕ) (p : BenchmarkSchedulerConfig) (n : ℕ)
      → Reads (value_of "max_attempts" job) n
      → 1 ≤ n
      → n ≤ 10
      → Reads
          (value_of "max_attempts" (ensure_benchmark_job_scheduler_defaults readers job now p))
          n
  unfolding ensure_benchmark_job_scheduler_defaults normalize_benchmark_scheduler_config
      benchmark_job_int
  ensured_limit job now p n h one ten d =
      simp (value_of-put, value_of-put_when, h, bounded_int_keeps n 3 1 10 one one ten)

  waiting_attempt :
      (job : Fields F) (now : ℕ) (reason : String) (p : BenchmarkSchedulerConfig)
      → value_of "attempt" (waiting_job readers (failed_job job now) now reason p)
        ≡ value_of "attempt" job
  waiting_attempt job now reason p = simp value_of-put

  waiting_limit :
      (job : Fields F) (now : ℕ) (reason : String) (p : BenchmarkSchedulerConfig)
      → value_of "max_attempts" (waiting_job readers (failed_job job now) now reason p)
        ≡ value_of "max_attempts" job
  waiting_limit job now reason p = simp value_of-put

  exhausted_attempt :
      (job : Fields F) (now : ℕ)
      → value_of "attempt" (exhausted_job (failed_job job now) now) ≡ value_of "attempt" job
  exhausted_attempt job now = simp (value_of-put, value_of-drop_key)

  exhausted_limit :
      (job : Fields F) (now : ℕ)
      → value_of "max_attempts" (exhausted_job (failed_job job now) now)
        ≡ value_of "max_attempts" job
  exhausted_limit job now = simp (value_of-put, value_of-drop_key)

  exhausted_closed :
      (job : Fields F) (now : ℕ) → is_open (exhausted_job (failed_job job now) now) ≡ false
  exhausted_closed job now = simp (value_of-put, value_of-drop_key)

  -- A job that has failed is tried again at most up to its limit, whatever it was before.
  pub retry-IsLimited :
      (before job : Fields F) (now : ℕ) (reason : String) (p : BenchmarkSchedulerConfig)
      → value_of "attempt" job ≡ value_of "attempt" before
      → value_of "max_attempts" job ≡ value_of "max_attempts" before
      → IsLimited before
      → IsLimited (schedule_benchmark_job_retry readers job now reason p).0
  unfolding schedule_benchmark_job_retry
  retry-IsLimited before job now reason p a m h =
      let ready = ensure_benchmark_job_scheduler_defaults readers job now p in
      let attempt = benchmark_job_int readers (value_of "attempt" ready) (pos 0) in
      let limit = benchmark_job_int readers (value_of "max_attempts" ready) p.max_attempts in
      let again = waiting_job readers (failed_job ready now) now reason p in
      let never = exhausted_job (failed_job ready now) now in
      let limited = λ (r : Fields F × Bool). IsLimited r.0 in
      let same = ensured_attempt job now p ∙ a in
      let most =
        ensured_limit job now p h.limit (subst (λ v. Reads v h.limit) (sym m) h.limit_read)
          h.some_limit h.small_limit in
      let tried : attempt ≡ pos h.attempt =
        ap (λ v. benchmark_job_int readers v (pos 0)) same ∙ h.attempt_read (pos 0) in
      by_test limited (ltb_ℤ attempt limit) (again, true) (never, false)
        (λ t.
          changed-IsLimited before again h (waiting_attempt ready now reason p ∙ same)
            (subst (λ v. Reads v h.limit) (sym (waiting_limit ready now reason p)) most)
            (λ o. below h.attempt h.limit attempt limit tried (most p.max_attempts) t))
        (λ t.
          changed-IsLimited before never h (exhausted_attempt ready now ∙ same)
            (subst (λ v. Reads v h.limit) (sym (exhausted_limit ready now)) most)
            (λ o. let no : ⊥ = ground (arith, o, exhausted_closed ready now) in elim no [ ]))
