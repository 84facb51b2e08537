-- ===== src/Benchmark/Job.antt =====
-- internal/httpapi/benchmark_jobs.go: a job as a Go map, what is read of it, and its list. A job that
-- is cloned is the same value here.
use llama_wrangler.Common.{
  ℕ, ◌*◌, ◌≡◌, refl, Bool, true, false, not, ◌&&◌, String, Option, none, some, leb, if◌then◌else◌,
  arith,
}
use llama_wrangler.Common.Int.{ℤ, pos, pos_part}
use llama_wrangler.Common.Text.{str_eq, trim_space, eq_iff}
use llama_wrangler.Appstate.Node.{
  Value, nil, text, float64, float32, int, int64, number, time, Fields, end, field,
}
use llama_wrangler.Routing.Policy.{value_of}
use llama_wrangler.Benchmark.Settings.{
  BenchmarkSchedulerConfig, bounded_retry_timeout, normalize_benchmark_scheduler_config,
}

module _ {F : Type 0} where
  -- `job[key] = value`
  unfoldable pub put : String → Value F → Fields F → Fields F
  put key value end = field key value end
  put key value (field here old rest) =
      if str_eq here key then field here value rest else field here old (put key value rest)

  -- `delete(job, key)`
  unfoldable pub drop_key : String → Fields F → Fields F
  drop_key key end = end
  drop_key key (field here old rest) =
      let dropped = drop_key key rest in if str_eq here key then dropped else field here old dropped

  pub value_of-put :
      (key asked : String) (value : Value F) (job : Fields F)
      → value_of asked (put key value job)
        ≡ (if str_eq key asked then value else value_of asked job)
  unfolding put value_of
  value_of-put key asked value end = refl
  value_of-put key asked value (field here old rest) = ground (
    arith,
    value_of-put key asked value rest,
    eq_iff here key,
    eq_iff here asked,
    eq_iff key asked,
  )

  pub value_of-drop_key :
      (key asked : String) (job : Fields F)
      → value_of asked (drop_key key job) ≡ (if str_eq key asked then nil else value_of asked job)
  unfolding drop_key value_of
  value_of-drop_key key asked end = ground arith
  value_of-drop_key key asked (field here old rest) = ground (
    arith,
    value_of-drop_key key asked rest,
    eq_iff here key,
    eq_iff here asked,
    eq_iff key asked,
  )

-- `int` of a floating point number, `json.Number.Int64`, and `time.Parse`.
pub record Readers (F : Type 0) : Type 0 where
  pub to_int : F → ℤ
  pub number_int : String → Option ℤ
  pub parse_time : String → Option ℕ

abbrev pub int_or : ℤ → Option ℤ → ℤ
int_or fallback none = fallback
int_or fallback (some n) = n

abbrev pub due_at : ℕ → Option ℕ → Bool
due_at now none = true
due_at now (some t) = leb t now

abbrev pub is_set : Option ℕ → Bool
is_set none = false
is_set (some t) = true

-- A second in nanoseconds.
abbrev pub second : ℕ
second = 1_000_000_000

module _ {F : Type 0} where
  -- `job[key].(string)`, empty for another type.
  abbrev pub text_of : Value F → String
  text_of (text s) = s
  text_of _ = ""

  unfoldable pub benchmark_job_string : Value F → String
  unfolding trim_space
  benchmark_job_string v = trim_space (text_of v)

  abbrev pub put_when : Bool → String → Value F → Fields F → Fields F
  put_when true key value job = put key value job
  put_when false key value job = job

  pub value_of-put_when :
      (b : Bool) (key asked : String) (value : Value F) (job : Fields F)
      → value_of asked (put_when b key value job)
        ≡ (if str_eq key asked then if b then value else value_of asked job else value_of asked job)
  value_of-put_when true key asked value job = value_of-put key asked value job
  value_of-put_when false key asked value job = ground arith

  module _ (readers : Readers F) where
    open readers use {to_int, number_int, parse_time}

    unfoldable pub benchmark_job_int : Value F → ℤ → ℤ
    benchmark_job_int (int n) fallback = n
    benchmark_job_int (int64 n) fallback = n
    benchmark_job_int (float64 x) fallback = to_int x
    benchmark_job_int (float32 x) fallback = to_int x
    benchmark_job_int (number s) fallback = int_or fallback (number_int s)
    benchmark_job_int _ fallback = fallback

    unfoldable pub benchmark_job_time : Value F → Option ℕ
    benchmark_job_time (time t) = some t
    benchmark_job_time (text s) = parse_time s
    benchmark_job_time _ = none

    unfoldable pub benchmark_job_due : Fields F → ℕ → Bool
    unfolding value_of benchmark_job_time
    benchmark_job_due job now = due_at now (benchmark_job_time (value_of "next_attempt_at" job))

    -- In nanoseconds, as is the delay.
    unfoldable pub benchmark_job_lease_timeout : Fields F → BenchmarkSchedulerConfig → ℕ
    unfolding value_of benchmark_job_int normalize_benchmark_scheduler_config
    benchmark_job_lease_timeout job p =
        let policy = normalize_benchmark_scheduler_config (record p {
          policy = bounded_retry_timeout;
          lease_timeout_seconds =
              benchmark_job_int (value_of "lease_timeout_seconds" job) p.lease_timeout_seconds;
        }) in
        pos_part policy.lease_timeout_seconds * second

    unfoldable pub benchmark_job_retry_delay : Fields F → BenchmarkSchedulerConfig → ℕ
    unfolding value_of benchmark_job_int normalize_benchmark_scheduler_config
    benchmark_job_retry_delay job p =
        let policy = normalize_benchmark_scheduler_config (record p {
          policy = bounded_retry_timeout;
          retry_delay_seconds =
              benchmark_job_int (value_of "retry_delay_seconds" job) p.retry_delay_seconds;
        }) in
        pos_part policy.retry_delay_seconds * second

    -- The settings of a job, where it has them, within their bounds.
    abbrev pub policy_of_job : Fields F → BenchmarkSchedulerConfig → BenchmarkSchedulerConfig
    policy_of_job job p = normalize_benchmark_scheduler_config (record {
      policy = benchmark_job_string (value_of "scheduler_policy" job);
      max_attempts = benchmark_job_int (value_of "max_attempts" job) p.max_attempts;
      lease_timeout_seconds =
          benchmark_job_int (value_of "lease_timeout_seconds" job) p.lease_timeout_seconds;
      retry_delay_seconds =
          benchmark_job_int (value_of "retry_delay_seconds" job) p.retry_delay_seconds;
      background_enabled = false;
      tick_interval_seconds = pos 0;
    })

    unfoldable pub ensure_benchmark_job_scheduler_defaults :
        Fields F → ℕ → BenchmarkSchedulerConfig → Fields F
    unfolding value_of put benchmark_job_string benchmark_job_int benchmark_job_time
        normalize_benchmark_scheduler_config
    ensure_benchmark_job_scheduler_defaults job now policy =
        let p = normalize_benchmark_scheduler_config policy in
        let named =
          put_when (str_eq (benchmark_job_string (value_of "scheduler_policy" job)) "")
            "scheduler_policy" (text p.policy) job in
        let own = policy_of_job named p in
        let settled = put "retry_delay_seconds" (int own.retry_delay_seconds) (
          put "lease_timeout_seconds" (int own.lease_timeout_seconds) (
            put "max_attempts" (int own.max_attempts)
              (put "scheduler_policy" (text own.policy) named))) in
        let status = benchmark_job_string (value_of "status" settled) in
        let stated =
          put_when (str_eq (benchmark_job_string (value_of "scheduler_state" settled)) "")
            "scheduler_state" (text status) settled in
        put_when
          (not (is_set (benchmark_job_time (value_of "next_attempt_at" stated)))
            && str_eq status "queued")
          "next_attempt_at" (time now) stated
