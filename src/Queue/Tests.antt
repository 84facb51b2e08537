-- ===== src/Queue/Tests.antt =====
-- internal/httpapi/queue.go: runs of the scheduler on small inputs, and the theorems at such inputs.
use llama_wrangler.Common.{◌≤◌, ◌<◌, ◌≡◌, refl, ◌⊎◌, true, false, List, [], ◌∷◌, arith, map}
use Prim.Native.Nat.{max}
use llama_wrangler.Common.Int.{pos, negsuc}
use llama_wrangler.Config.{RoutingConfig}
use llama_wrangler.Queue.Priority.{
  high, normal, low, normalize_queue_priority, normalize_queue_scheduling_policy,
  build_queue_priority_schedule,
}
use llama_wrangler.Queue.Scheduler.{
  Waiter, Scheduler, new_queue_scheduler, configure, dispatch_locked, dispatch_loop, dispatch_one,
  next_waiter_index, scan, find_priority, enter, abandon, release, has_ticket, Event, enters,
  releases, reconfigures, step, run, reconfigured, schedule_or_default,
}
use llama_wrangler.Queue.Scheduler.Dispatch.{Filled, dispatch_locked-Filled}
use llama_wrangler.Queue.Scheduler.Invariant.{IsSound, run-IsSound, step_within_capacity}
use llama_wrangler.Queue.Scheduler.Tickets.{
  IsTicketed, run-IsTicketed, dispatch_one_closes_once, abandon_lem, uses, count_waiting, IsWithout,
}
use llama_wrangler.Queue.Scheduler.Progress.{Waits}
use llama_wrangler.Queue.Scheduler.Starvation.{waiter_served}

-- Two high slots, one normal and one low.
abbrev routing : RoutingConfig
routing = record {
  default_model_alias = "local-fast";
  default_execution_mode = "single";
  allow_fallback = true;
  request_timeout_sec = pos 300;
  queue_max_depth = pos 1;
  queue_scheduling_policy = " Weighted_Priority ";
  queue_priority_weights = record { high = pos 2; normal = negsuc 4; low = pos 1 };
}

folded : normalize_queue_priority " HIGH\n" ≡ high
unfolding normalize_queue_priority
folded = refl

schedule_test :
    build_queue_priority_schedule routing.queue_priority_weights
    ≡ high ∷ high ∷ normal ∷ normal ∷ low ∷ []
unfolding build_queue_priority_schedule
schedule_test = refl

-- One request is active; a low one and two high ones wait, under tickets 0 to 2.
arrivals : List Event
arrivals = enters "a" "normal" ∷ enters "b" "low" ∷ enters "c" "high" ∷ enters "d" "high" ∷ []

crowded : Scheduler
unfolding normalize_queue_scheduling_policy run step enter new_queue_scheduler configure
    reconfigured dispatch_locked dispatch_loop arrivals schedule_or_default
    build_queue_priority_schedule normalize_queue_priority
crowded = run (new_queue_scheduler (pos 1) routing) arrivals

crowded_test : (crowded.active ≡ 1) × (map (λ w. w.ticket) crowded.waiting ≡ 0 ∷ 1 ∷ 2 ∷ [])
unfolding crowded
crowded_test = (refl, refl)

-- The high requests go first, as the cursor stands at their slots.
served_test : (run crowded (releases ∷ releases ∷ [])).ready ≡ 2 ∷ 1 ∷ []
unfolding crowded release dispatch_one next_waiter_index scan find_priority
    normalize_queue_scheduling_policy
served_test = refl

dispatch_locked-Filled_example : Filled crowded (dispatch_locked crowded)
dispatch_locked-Filled_example = dispatch_locked-Filled crowded

run-IsSound_example : IsSound (run (new_queue_scheduler (negsuc 0) routing) arrivals)
run-IsSound_example = run-IsSound (negsuc 0) routing arrivals

step_within_capacity_example :
    (step crowded (reconfigures (pos 3) routing)).active
    ≤ max crowded.active (step crowded (reconfigures (pos 3) routing)).capacity
step_within_capacity_example = step_within_capacity crowded (reconfigures (pos 3) routing)

run-IsTicketed_example : IsTicketed (run (new_queue_scheduler (pos 1) routing) arrivals)
run-IsTicketed_example = run-IsTicketed (pos 1) routing arrivals

crowded-IsSound : IsSound crowded
unfolding crowded
crowded-IsSound = run-IsSound (pos 1) routing arrivals

crowded-IsTicketed : IsTicketed crowded
unfolding crowded
crowded-IsTicketed = run-IsTicketed (pos 1) routing arrivals

dispatch_one_closes_once_example :
    (w : Waiter) × (0 < count_waiting w.ticket crowded.waiting)
    × ((dispatch_one crowded).ready ≡ w.ticket ∷ crowded.ready)
    × (has_ticket w.ticket crowded.ready ≡ false)
    × (count_waiting w.ticket (dispatch_one crowded).waiting ≡ 0)
unfolding crowded
dispatch_one_closes_once_example = dispatch_one_closes_once crowded crowded-IsTicketed (omega arith)

abandon_lem_example :
    ((has_ticket 1 crowded.ready ≡ true) × (abandon 1 crowded ≡ (crowded, true)))
    ⊎ ((has_ticket 1 crowded.ready ≡ false)
        × ((abandon 1 crowded).1 ≡ false)
        × (record (abandon 1 crowded).0 { waiting = crowded.waiting } ≡ crowded)
        × IsWithout 1 crowded.waiting (abandon 1 crowded).0.waiting
        × (uses 1 (abandon 1 crowded).0 ≡ 0))
abandon_lem_example = abandon_lem 1 crowded crowded-IsTicketed

crowded-Waits : Waits 0 low crowded
unfolding crowded normalize_queue_scheduling_policy
crowded-Waits = record {
  sound = crowded-IsSound;
  weighted = refl;
  within = omega arith;
  here = refl;
}

abbrev five_releases : List Event
five_releases = releases ∷ releases ∷ enters "e" "high" ∷ releases ∷ releases ∷ releases ∷ []

waiter_served_example : has_ticket 0 (run crowded five_releases).ready ≡ true
unfolding crowded
waiter_served_example =
    waiter_served 0 low crowded five_releases crowded-Waits (omega arith) (omega arith)
