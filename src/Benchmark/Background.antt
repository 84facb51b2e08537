-- ===== src/Benchmark/Background.antt =====
-- internal/httpapi/benchmark_scheduler_background.go: when the benchmark jobs are reconciled in the
-- background, and the audit of it. A method under the lock is a function on the state; the time 0 is
-- the zero time. The text of an entry's time is left out for the time.
pub mod Spacing
use llama_wrangler.Common.{
  ℕ, ◌+◌, ◌*◌, ◌≤◌, ◌≡◌, Bool, true, false, not, ◌||◌, String, List, [], ◌∷◌, ltb, leb, ◌==◌,
  if◌then◌else◌, length, take, length-take, arith, by_test, ltb-false,
}
use llama_wrangler.Common.Int.{ℤ, pos_part}
use llama_wrangler.Common.Text.{str_eq}
use llama_wrangler.Benchmark.Settings.{
  BenchmarkSchedulerConfig, normalize_benchmark_scheduler_config, bounded_int_bounds,
}
use llama_wrangler.Benchmark.Job.{second}
use llama_wrangler.Benchmark.Reconcile.{Run, no_run}

pub record AuditEntry : Type 0 where
  pub recorded_at : ℕ
  pub trigger : String
  pub reason : String
  pub policy : String
  pub background_enabled : Bool
  pub tick_interval_seconds : ℤ
  pub run : Run

pub record Background : Type 0 where
  pub last_tick_at : ℕ
  pub next_tick_at : ℕ
  pub last_reason : String
  pub last_run : Run
  pub history : List AuditEntry

unfoldable pub new_benchmark_scheduler_background : Background
new_benchmark_scheduler_background = record {
  last_tick_at = 0;
  next_tick_at = 0;
  last_reason = "";
  last_run = no_run;
  history = [];
}

-- The interval in nanoseconds.
abbrev pub tick_of : BenchmarkSchedulerConfig → ℕ
tick_of p = pos_part (normalize_benchmark_scheduler_config p).tick_interval_seconds * second

unfoldable pub reset_plan : ℕ → BenchmarkSchedulerConfig → Background → Background
unfolding normalize_benchmark_scheduler_config
reset_plan now p b =
    if not p.background_enabled
    then record b { next_tick_at = 0 }
    else record b { next_tick_at = now + tick_of p }

-- The state with the answer.
unfoldable pub due : ℕ → BenchmarkSchedulerConfig → Background → Background × Bool
unfolding normalize_benchmark_scheduler_config
due now p b =
    if not p.background_enabled
    then (record b { next_tick_at = 0 }, false)
    else if b.next_tick_at == 0
    then (record b { next_tick_at = now + tick_of p }, false)
    else (b, leb b.next_tick_at now)

unfoldable pub safe_audit_trigger : String → String
safe_audit_trigger trigger =
    if str_eq trigger "background" || str_eq trigger "operator" then trigger else "internal"

unfoldable pub safe_audit_reason : String → String
safe_audit_reason reason =
    if str_eq reason "background_tick" || str_eq reason "operator_reconcile"
    then reason
    else "internal_reconcile"

unfoldable pub append_audit :
    ℕ → String → String → BenchmarkSchedulerConfig → Run → Background → Background
unfolding safe_audit_trigger safe_audit_reason
append_audit now trigger reason p run b =
    let entry : AuditEntry = record {
      recorded_at = now;
      trigger = safe_audit_trigger trigger;
      reason = safe_audit_reason reason;
      policy = p.policy;
      background_enabled = p.background_enabled;
      tick_interval_seconds = p.tick_interval_seconds;
      run = run;
    } in
    let all = entry ∷ b.history in
    record b { history = if ltb 24 (length all) then take 24 all else all }

unfoldable pub record_audit :
    ℕ → String → String → BenchmarkSchedulerConfig → Run → Background → Background
unfolding append_audit normalize_benchmark_scheduler_config
record_audit now trigger reason p run b =
    append_audit now trigger reason (normalize_benchmark_scheduler_config p) run b

unfoldable pub record_tick : ℕ → BenchmarkSchedulerConfig → String → Run → Background → Background
unfolding append_audit normalize_benchmark_scheduler_config
record_tick now p reason run b =
    append_audit now "background" reason (normalize_benchmark_scheduler_config p) run (record b {
      last_tick_at = now;
      next_tick_at = now + tick_of p;
      last_reason = reason;
      last_run = run;
    })

-- `runBenchmarkSchedulerBackgroundTick`, with what reconciling all nodes counts.
unfoldable pub background_tick :
    ℕ → Bool → BenchmarkSchedulerConfig → Run → Background → Background × Bool
unfolding reset_plan due record_tick
background_tick now force p run b =
    let (asked, is_due) = due now p b in
    if not p.background_enabled
    then (reset_plan now p b, false)
    else if force
    then (record_tick now p "background_tick" run b, true)
    else if not is_due
    then (asked, false)
    else (record_tick now p "background_tick" run asked, true)

-- The audit has at most 24 entries.
pub append_audit_bounded :
    (now : ℕ) (trigger reason : String) (p : BenchmarkSchedulerConfig) (run : Run) (b : Background)
    → length (append_audit now trigger reason p run b).history ≤ 24
unfolding append_audit
append_audit_bounded now trigger reason p run b =
    let entry : AuditEntry = record {
      recorded_at = now;
      trigger = safe_audit_trigger trigger;
      reason = safe_audit_reason reason;
      policy = p.policy;
      background_enabled = p.background_enabled;
      tick_interval_seconds = p.tick_interval_seconds;
      run = run;
    } in
    let all = entry ∷ b.history in
    by_test (λ h. length h ≤ 24) (ltb 24 (length all)) (take 24 all) all
      (λ t. omega (arith, length-take 24 all)) (λ t. ltb-false 24 (length all) t)
