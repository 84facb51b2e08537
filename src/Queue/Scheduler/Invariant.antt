-- ===== src/Queue/Scheduler/Invariant.antt =====
-- internal/httpapi/queue.go: what holds of the scheduler between two calls.
use llama_wrangler.Common.{
  ℕ, zero, suc, ◌-◌, ◌≤◌, ◌<◌, ◌≡◌, ◌⊎◌, inl, inr, true, false, String, List, [], ◌∷◌, arith,
  length, ltb, is_empty, ◌&&◌, Bool-cases,
}
use Prim.Native.Nat.{max}
use llama_wrangler.Common.Int.{ℤ, pos, negsuc, positive_or}
use llama_wrangler.Config.{RoutingConfig}
use llama_wrangler.Queue.Scheduler.{
  Waiter, Scheduler, dispatch_locked, reconfigured, configure, zero_scheduler, new_queue_scheduler,
  enter, abandon, release, remove_waiter, has_ticket, Event, enters, abandons, releases,
  reconfigures, step, run,
}
use llama_wrangler.Queue.Scheduler.Dispatch.{dispatch_locked-Filled}
use llama_wrangler.Queue.Scheduler.Cycle.{
  IsTurning, dispatch_locked-IsTurning, reconfigured-IsTurning,
}

-- There is a slot, nobody waits while one is free, and the cursor turns round a full schedule.
pub record IsSound (s : Scheduler) : Type 0 where
  pub room : 0 < s.capacity
  pub busy : (length s.waiting ≡ 0) ⊎ (s.capacity ≤ s.active)
  pub turning : IsTurning s

dispatch_locked-IsSound :
    (s : Scheduler) → 0 < s.capacity → IsTurning s → IsSound (dispatch_locked s)
dispatch_locked-IsSound s h t =
    let f = dispatch_locked-Filled s in
    record { room = omega arith; busy = omega arith; turning = dispatch_locked-IsTurning s t }

positive_or_pos : (n : ℤ) → 0 < positive_or n 1
positive_or_pos (pos zero) = omega arith
positive_or_pos (pos (suc n)) = omega arith
positive_or_pos (negsuc n) = omega arith

pub configure-IsSound :
    (capacity : ℤ) (routing : RoutingConfig) (s : Scheduler)
    → IsSound (configure capacity routing s)
unfolding configure reconfigured
configure-IsSound capacity routing s =
    dispatch_locked-IsSound (reconfigured capacity routing s) (positive_or_pos capacity)
      (reconfigured-IsTurning capacity routing s)

length-remove_waiter-le : (t : ℕ) (ws : List Waiter) → length (remove_waiter t ws) ≤ length ws
unfolding remove_waiter
length-remove_waiter-le t [] = omega arith
length-remove_waiter-le t (w ∷ ws) = ground (arith, length-remove_waiter-le t ws)

free_is_empty :
    (s : Scheduler) → (ltb s.active s.capacity && is_empty s.waiting) ≡ true → length s.waiting ≡ 0
free_is_empty s e = grind arith

parked_is_full :
    (s : Scheduler)
    → (length s.waiting ≡ 0) ⊎ (s.capacity ≤ s.active)
    → (ltb s.active s.capacity && is_empty s.waiting) ≡ false
    → s.capacity ≤ s.active
parked_is_full s h e = grind arith

enter-IsSound :
    (request_id priority : String) (s : Scheduler)
    → IsSound s
    → IsSound (enter request_id priority s).0
unfolding enter
enter-IsSound request_id priority s h =
    elim (Bool-cases (ltb s.active s.capacity && is_empty s.waiting)) [
      | inl e ↦
          rw (e, enter)
            (record {
              room = h.room;
              busy = inl (free_is_empty s e);
              turning = record { inside = h.turning.inside; slot = h.turning.slot };
            })
      | inr e ↦
          rw (e, enter)
            (record {
              room = h.room;
              busy = inr (parked_is_full s h.busy e);
              turning = record { inside = h.turning.inside; slot = h.turning.slot };
            })
    ]

abandon-IsSound : (t : ℕ) (s : Scheduler) → IsSound s → IsSound (abandon t s).0
unfolding abandon
abandon-IsSound t s h = elim (Bool-cases (has_ticket t s.ready)) [
  | inl e ↦ rw (e, abandon) h
  | inr e ↦
      rw (e, abandon)
        (record {
          room = h.room;
          busy = omega (arith, length-remove_waiter-le t s.waiting);
          turning = record { inside = h.turning.inside; slot = h.turning.slot };
        })
]

release-IsSound : (s : Scheduler) → IsSound s → IsSound (release s)
unfolding release
release-IsSound s h =
    dispatch_locked-IsSound _ h.room (record { inside = h.turning.inside; slot = h.turning.slot })

-- Every call keeps the scheduler sound.
pub step-IsSound : (s : Scheduler) (e : Event) → IsSound s → IsSound (step s e)
unfolding step
step-IsSound s (enters request_id priority) h = enter-IsSound request_id priority s h
step-IsSound s (abandons t) h = abandon-IsSound t s h
step-IsSound s releases h = release-IsSound s h
step-IsSound s (reconfigures capacity routing) h = configure-IsSound capacity routing s

run_from-IsSound : (s : Scheduler) (es : List Event) → IsSound s → IsSound (run s es)
unfolding run
run_from-IsSound s [] h = h
run_from-IsSound s (e ∷ es) h = run_from-IsSound (step s e) es (step-IsSound s e h)

-- From any settings, after any calls in any order: the capacity is positive, nobody waits while a
-- slot is free, the cursor is inside the schedule, and the schedule has a slot for every priority.
pub run-IsSound :
    (capacity : ℤ) (routing : RoutingConfig) (es : List Event)
    → IsSound (run (new_queue_scheduler capacity routing) es)
unfolding new_queue_scheduler
run-IsSound capacity routing es =
    run_from-IsSound _ es (configure-IsSound capacity routing zero_scheduler)

-- No call hands out a slot beyond the capacity that holds after it: the active requests grow
-- up to the capacity at most. (A lowered capacity takes no slot back.)
pub step_within_capacity :
    (s : Scheduler) (e : Event) → (step s e).active ≤ max s.active (step s e).capacity
unfolding step enter abandon release configure reconfigured
step_within_capacity s (enters request_id priority) = ground arith
step_within_capacity s (abandons t) = ground arith
step_within_capacity s releases =
    ground
      (arith, dispatch_locked-Filled (record s { active = s.active - 1 }), dispatch_locked-Filled s)
step_within_capacity s (reconfigures capacity routing) =
    let f = dispatch_locked-Filled (reconfigured capacity routing s) in omega arith
