-- ===== src/Benchmark/Background/Spacing.antt =====
-- internal/httpapi/benchmark_scheduler_background.go: the ticks of the background over its whole life,
-- with every call that changes it.
use llama_wrangler.Common.{
  ℕ, ◌+◌, ◌*◌, ◌≤◌, ◌≡◌, refl, ◌⊎◌, inl, inr, Bool, true, false, not, String, List, [], ◌∷◌, ◌==◌,
  leb, if◌then◌else◌, arith, by_test, All,
}
use llama_wrangler.Benchmark.Settings.{
  BenchmarkSchedulerConfig, normalize_benchmark_scheduler_config, bounded_int_bounds,
}
use llama_wrangler.Benchmark.Job.{second}
use llama_wrangler.Benchmark.Reconcile.{Run}
use llama_wrangler.Benchmark.Background.{
  Background, tick_of, reset_plan, due, append_audit, record_audit, record_tick, background_tick,
}

-- A call at a time: a tick, a plan that is made anew, or an entry of the audit.
pub data Act : Type 0 where
  ticks : ℕ → Bool → BenchmarkSchedulerConfig → Run → Act
  replans : ℕ → BenchmarkSchedulerConfig → Act
  audits : ℕ → String → String → BenchmarkSchedulerConfig → Run → Act

abbrev pub act : Background → Act → Background
act b (ticks now force p run) = (background_tick now force p run b).0
act b (replans now p) = reset_plan now p b
act b (audits now trigger reason p run) = record_audit now trigger reason p run b

abbrev pub act_all : Background → List Act → Background
act_all b [] = b
act_all b (a ∷ rest) = act_all (act b a) rest

-- The call comes at the time or after it.
abbrev pub IsFrom : ℕ → Act → Type 0
IsFrom start (ticks now force p run) = start ≤ now
IsFrom start (replans now p) = start ≤ now
IsFrom start (audits now trigger reason p run) = start ≤ now

-- An interval is at least ten seconds.
tick_positive : (p : BenchmarkSchedulerConfig) → 10 * second ≤ tick_of p
unfolding normalize_benchmark_scheduler_config
tick_positive p =
    omega (arith, (bounded_int_bounds p.tick_interval_seconds 60 10 3600 (omega arith)).0)

-- No tick is planned, or one at ten seconds or more from the time.
abbrev IsPlanned : ℕ → Background → Type 0
IsPlanned start b = (b.next_tick_at ≡ 0) ⊎ (start + 10 * second ≤ b.next_tick_at)

recorded-IsPlanned :
    (start now : ℕ) (p : BenchmarkSchedulerConfig) (reason : String) (run : Run) (b : Background)
    → start ≤ now
    → IsPlanned start (record_tick now p reason run b)
unfolding record_tick append_audit
recorded-IsPlanned start now p reason run b h = inr (omega (arith, tick_positive p, h))

IsPlanned-IsPlanned :
    (start now : ℕ) (p : BenchmarkSchedulerConfig) (b : Background)
    → start ≤ now
    → IsPlanned start (reset_plan now p b)
unfolding reset_plan
IsPlanned-IsPlanned start now p b h =
    by_test (IsPlanned start) (not p.background_enabled) (record b { next_tick_at = 0 })
      (record b { next_tick_at = now + tick_of p }) (λ q. inl refl)
      (λ q. inr (omega (arith, tick_positive p, h)))

due-IsPlanned :
    (start now : ℕ) (p : BenchmarkSchedulerConfig) (b : Background)
    → start ≤ now
    → IsPlanned start b
    → IsPlanned start (due now p b).0
unfolding due
due-IsPlanned start now p b h planned =
    let good = λ (r : Background × Bool). IsPlanned start r.0 in
    let off : Background × Bool = (record b { next_tick_at = 0 }, false) in
    let first : Background × Bool = (record b { next_tick_at = now + tick_of p }, false) in
    let asked : Background × Bool = (b, leb b.next_tick_at now) in
    by_test good (not p.background_enabled) off (if b.next_tick_at == 0 then first else asked)
      (λ q. inl refl)
      (λ q.
        by_test good (b.next_tick_at == 0) first asked
          (λ t. inr (omega (arith, tick_positive p, h))) (λ t. planned))

ticked-IsPlanned :
    (start now : ℕ) (force : Bool) (p : BenchmarkSchedulerConfig) (run : Run) (b : Background)
    → start ≤ now
    → IsPlanned start b
    → IsPlanned start (background_tick now force p run b).0
unfolding background_tick
ticked-IsPlanned start now force p run b h planned =
    let asked = due now p b in
    let good = λ (r : Background × Bool). IsPlanned start r.0 in
    let forced : Background × Bool = (record_tick now p "background_tick" run b, true) in
    let done : Background × Bool = (record_tick now p "background_tick" run asked.0, true) in
    let held : Background × Bool = (asked.0, false) in
    by_test good (not p.background_enabled) (reset_plan now p b, false)
      (if force then forced else if not asked.1 then held else done)
      (λ t. IsPlanned-IsPlanned start now p b h)
      (λ t.
        by_test good force forced (if not asked.1 then held else done)
          (λ u. recorded-IsPlanned start now p "background_tick" run b h)
          (λ u.
            by_test good (not asked.1) held done (λ v. due-IsPlanned start now p b h planned)
              (λ v. recorded-IsPlanned start now p "background_tick" run asked.0 h)))

act-IsPlanned :
    (start : ℕ) (a : Act) (b : Background)
    → IsFrom start a
    → IsPlanned start b
    → IsPlanned start (act b a)
unfolding record_audit append_audit
act-IsPlanned start (ticks now force p run) b h planned =
    ticked-IsPlanned start now force p run b h planned
act-IsPlanned start (replans now p) b h planned = IsPlanned-IsPlanned start now p b h
act-IsPlanned start (audits now trigger reason p run) b h planned = planned

act_all-IsPlanned :
    (start : ℕ) (between : List Act) (b : Background)
    → All (IsFrom start) between
    → IsPlanned start b
    → IsPlanned start (act_all b between)
act_all-IsPlanned start [] b h planned = planned
act_all-IsPlanned start (a ∷ rest) b h planned =
    act_all-IsPlanned start rest (act b a) h.1 (act-IsPlanned start a b h.0 planned)

-- A tick that is done has planned the next one.
done-IsPlanned :
    (now : ℕ) (force : Bool) (p : BenchmarkSchedulerConfig) (run : Run) (b : Background)
    → (background_tick now force p run b).1 ≡ true
    → IsPlanned now (background_tick now force p run b).0
unfolding background_tick
done-IsPlanned now force p run b =
    let asked = due now p b in
    let good = λ (r : Background × Bool). r.1 ≡ true → IsPlanned now r.0 in
    let forced : Background × Bool = (record_tick now p "background_tick" run b, true) in
    let done : Background × Bool = (record_tick now p "background_tick" run asked.0, true) in
    let held : Background × Bool = (asked.0, false) in
    by_test good (not p.background_enabled) (reset_plan now p b, false)
      (if force then forced else if not asked.1 then held else done)
      (λ t e. let no : ⊥ = ground (arith, e) in elim no [ ])
      (λ t.
        by_test good force forced (if not asked.1 then held else done)
          (λ u e. recorded-IsPlanned now now p "background_tick" run b (omega arith))
          (λ u.
            by_test good (not asked.1) held done
              (λ v e. let no : ⊥ = ground (arith, e) in elim no [ ])
              (λ v e. recorded-IsPlanned now now p "background_tick" run asked.0 (omega arith))))

due_planned :
    (start later : ℕ) (p : BenchmarkSchedulerConfig) (b : Background)
    → IsPlanned start b
    → (due later p b).1 ≡ true
    → start + 10 * second ≤ later
unfolding due
due_planned start later p b (inl h) e = ground (arith, h, e)
due_planned start later p b (inr h) e = ground (arith, h, e)

unforced_due :
    (later : ℕ) (q : BenchmarkSchedulerConfig) (run : Run) (b : Background)
    → (background_tick later false q run b).1 ≡ true
    → (due later q b).1 ≡ true
unfolding background_tick
unforced_due later q run b =
    let asked = due later q b in
    let good = λ (r : Background × Bool). r.1 ≡ true → asked.1 ≡ true in
    let done : Background × Bool = (record_tick later q "background_tick" run asked.0, true) in
    let held : Background × Bool = (asked.0, false) in
    by_test good (not q.background_enabled) (reset_plan later q b, false)
      (if not asked.1 then held else done) (λ t e. let no : ⊥ = ground (arith, e) in elim no [ ])
      (λ t.
        by_test good (not asked.1) held done (λ v e. let no : ⊥ = ground (arith, e) in elim no [ ])
          (λ v e. ground (arith, v)))

-- A tick that is done and not forced comes at least ten seconds after any tick done before it, whatever
-- calls of the background come in between, at the time of the earlier tick or after it, and whatever the
-- settings at each of them.
pub background_tick_spaced :
    (now later : ℕ) (force : Bool) (p q : BenchmarkSchedulerConfig) (run next_run : Run)
    (b : Background) (between : List Act)
    → All (IsFrom now) between
    → let (first, ticked) = background_tick now force p run b in
      ticked ≡ true
      → (background_tick later false q next_run (act_all first between)).1 ≡ true
      → now + 10 * second ≤ later
background_tick_spaced now later force p q run next_run b between h ticked again =
    let first = (background_tick now force p run b).0 in
    due_planned now later q (act_all first between)
      (act_all-IsPlanned now between first h (done-IsPlanned now force p run b ticked))
      (unforced_due later q next_run (act_all first between) again)
