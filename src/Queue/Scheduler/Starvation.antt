-- ===== src/Queue/Scheduler/Starvation.antt =====
-- internal/httpapi/queue.go: every waiter of the weighted policy is served after a bounded number
-- of releases, whoever else arrives or gives up meanwhile.
use llama_wrangler.Common.{
  ℕ, zero, suc, ◌+◌, ◌-◌, ◌*◌, ◌≤◌, ◌<◌, ◌≡◌, inl, inr, true, List, [], ◌∷◌, arith, if◌then◌else◌,
  ltb, length, Bool-cases, All,
}
use llama_wrangler.Queue.Priority.{Priority}
use llama_wrangler.Queue.Scheduler.{
  Scheduler, dispatch_one, dispatch_loop, dispatch_locked, can_dispatch, enter, abandon, release,
  has_ticket, Event, enters, abandons, releases, reconfigures, reconfigured, configure, step, run,
}
use llama_wrangler.Queue.Scheduler.Dispatch.{dispatch_one_lem, can_dispatch-true}
use llama_wrangler.Queue.Scheduler.Distance.{distance-lt, found_in_turn}
use llama_wrangler.Queue.Scheduler.Rank.{ahead}
use llama_wrangler.Queue.Scheduler.Fairness.{rank}
use llama_wrangler.Queue.Scheduler.Progress.{
  Waits, has_ticket_mono, IsOther, release_count, step-Progress,
}

dispatch_loop-ready :
    (t n : ℕ) (s : Scheduler)
    → has_ticket t s.ready ≡ true
    → has_ticket t (dispatch_loop n s).ready ≡ true
unfolding dispatch_loop
dispatch_loop-ready t zero s h = h
dispatch_loop-ready t (suc n) s h = elim (Bool-cases (can_dispatch s)) [
  | inl e ↦
      let (w, got, d) = dispatch_one_lem s (can_dispatch-true s e).1 in
      rw (e, dispatch_loop)
        (dispatch_loop-ready t n (dispatch_one s) (rw d (has_ticket_mono t w.ticket s.ready h)))
  | inr e ↦ rw (e, dispatch_loop) h
]

-- A channel once closed stays closed.
pub step-ready :
    (t : ℕ) (s : Scheduler) (e : Event)
    → has_ticket t s.ready ≡ true
    → has_ticket t (step s e).ready ≡ true
unfolding step enter abandon release configure reconfigured dispatch_locked
step-ready t s (enters request_id priority) h = ground arith
step-ready t s (abandons u) h = ground arith
step-ready t s releases h =
    let freed = record s { active = if ltb 0 s.active then s.active - 1 else s.active } in
    dispatch_loop-ready t (length s.waiting) freed h
step-ready t s (reconfigures capacity routing) h =
    dispatch_loop-ready t (length s.waiting) (reconfigured capacity routing s) h

run-ready :
    (t : ℕ) (s : Scheduler) (es : List Event)
    → has_ticket t s.ready ≡ true
    → has_ticket t (run s es).ready ≡ true
unfolding run
run-ready t s [] h = h
run-ready t s (e ∷ es) h = run-ready t (step s e) es (step-ready t s e h)

served_by_rank :
    (t : ℕ) (p : Priority) (s : Scheduler) (es : List Event)
    → Waits t p s
    → All (IsOther t) es
    → rank t p s < release_count es
    → has_ticket t (run s es).ready ≡ true
unfolding run
served_by_rank t p s [] w o h = elim h [ ]
served_by_rank t p s (e ∷ es) w o h = elim (step-Progress t p s e w o.0) [
  | inl served ↦ run-ready t (step s e) es served
  | inr (w', less) ↦ served_by_rank t p (step s e) es w' o.1 (omega (arith, less))
]

rank-lt :
    (t : ℕ) (p : Priority) (s : Scheduler)
    → Waits t p s
    → rank t p s < (ahead t p s.waiting + 1) * length s.schedule
rank-lt t p s w =
    let turning = w.sound.turning in
    omega (
      arith,
      distance-lt (length s.schedule) p s.schedule s.cursor
          (found_in_turn p s.schedule s.cursor turning.inside (turning.slot p)),
    )

-- No starvation. Let a ticket of priority `p` wait in a sound scheduler that works by weights and
-- is within its capacity. Whatever the other requests do (arrive, give up, release), as long as the
-- settings stay and the ticket does not give up, its channel is closed after at most one turn of the
-- schedule for itself and one for each waiter of its priority before it, counted in releases.
pub waiter_served :
    (t : ℕ) (p : Priority) (s : Scheduler) (es : List Event)
    → Waits t p s
    → All (IsOther t) es
    → (ahead t p s.waiting + 1) * length s.schedule ≤ release_count es
    → has_ticket t (run s es).ready ≡ true
waiter_served t p s es w o h = served_by_rank t p s es w o (omega (arith, rank-lt t p s w))
