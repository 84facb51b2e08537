-- ===== src/Queue/Scheduler/Cycle.antt =====
-- internal/httpapi/queue.go: the weighted schedule and its cursor. Every priority has a slot, and
-- the cursor stays inside the schedule.
use llama_wrangler.Common.{
  ℕ, zero, suc, ◌+◌, ◌%◌, ◌<◌, ◌≡◌, refl, ◌∙◌, inl, inr, List, [], ◌∷◌, ◌++◌, arith, length, get_or,
  replicate, length-append, Bool-cases, Option-cases,
}
use llama_wrangler.Common.Int.{ℤ, pos, negsuc, pos_part}
use llama_wrangler.Config.{RoutingConfig, QueuePriorityWeights}
use llama_wrangler.Queue.Priority.{
  Priority, high, normal, low, build_queue_priority_schedule, weight_or,
}
use llama_wrangler.Queue.Scheduler.{
  Waiter, Scheduler, find_priority, scan, next_waiter_index, dispatch_one, dispatch_loop,
  dispatch_locked, can_dispatch, schedule_or_default, reconfigured,
}
use llama_wrangler.Queue.Scheduler.Dispatch.{dispatch_one_lem, can_dispatch-true}

abbrev pub HasSlot : Priority → List Priority → Type 0
HasSlot p schedule = (j : ℕ) × (j < length schedule) × (get_or schedule j normal ≡ p)

HasSlot-append_right : (p : Priority) (xs ys : List Priority) → HasSlot p ys → HasSlot p (xs ++ ys)
HasSlot-append_right p [] ys h = h
HasSlot-append_right p (x ∷ xs) ys h =
    let (j, lt, e) = HasSlot-append_right p xs ys h in (suc j, omega arith, e)

get_or-append_left :
    (xs ys : List Priority) (j : ℕ)
    → j < length xs
    → get_or (xs ++ ys) j normal ≡ get_or xs j normal
get_or-append_left [] ys j h = elim h [ ]
get_or-append_left (x ∷ xs) ys zero h = refl
get_or-append_left (x ∷ xs) ys (suc j) h = get_or-append_left xs ys j (omega arith)

HasSlot-append_left : (p : Priority) (xs ys : List Priority) → HasSlot p xs → HasSlot p (xs ++ ys)
HasSlot-append_left p xs ys (j, lt, e) =
    (j, omega (arith, length-append xs ys), get_or-append_left xs ys j lt ∙ e)

HasSlot-replicate : (p : Priority) (n : ℕ) → 0 < n → HasSlot p (replicate n p)
HasSlot-replicate p zero h = elim h [ ]
HasSlot-replicate p (suc n) h = (0, omega arith, refl)

weight_or_pos : (w : ℤ) (n : ℕ) → 0 < n → 0 < pos_part (weight_or w (pos n))
weight_or_pos (pos w) n h = ground arith
weight_or_pos (negsuc w) n h = ground arith

HasSlot-blocks :
    (p : Priority) (a b c : ℕ)
    → 0 < a
    → 0 < b
    → 0 < c
    → HasSlot p (replicate a high ++ (replicate b normal ++ replicate c low))
HasSlot-blocks high a b c ha hb hc =
    HasSlot-append_left high (replicate a high) _ (HasSlot-replicate high a ha)
HasSlot-blocks normal a b c ha hb hc =
    HasSlot-append_right normal (replicate a high) _
      (HasSlot-append_left normal (replicate b normal) _ (HasSlot-replicate normal b hb))
HasSlot-blocks low a b c ha hb hc =
    HasSlot-append_right low (replicate a high) _
      (HasSlot-append_right low (replicate b normal) _ (HasSlot-replicate low c hc))

-- However the weights are configured, every priority has a slot in the schedule that is built.
pub HasSlot-build_queue_priority_schedule :
    (p : Priority) (w : QueuePriorityWeights) → HasSlot p (build_queue_priority_schedule w)
unfolding build_queue_priority_schedule
HasSlot-build_queue_priority_schedule p w =
    HasSlot-blocks p (pos_part (weight_or w.high (pos 3))) (pos_part (weight_or w.normal (pos 2)))
      (pos_part (weight_or w.low (pos 1))) (weight_or_pos w.high 3 (omega arith))
      (weight_or_pos w.normal 2 (omega arith)) (weight_or_pos w.low 1 (omega arith))

schedule_or_default-HasSlot :
    (p : Priority) (ps : List Priority) → HasSlot p ps → HasSlot p (schedule_or_default ps)
unfolding schedule_or_default
schedule_or_default-HasSlot p [] (j, lt, e) = elim lt [ ]
schedule_or_default-HasSlot p (q ∷ ps) h = h

scan-cursor-lt :
    (tries : ℕ) (schedule : List Priority) (waiting : List Waiter) (cursor : ℕ)
    → cursor < length schedule
    → (scan tries schedule waiting cursor).1 < length schedule
unfolding scan
scan-cursor-lt zero schedule waiting cursor h = h
scan-cursor-lt (suc tries) schedule waiting cursor h =
    let inside : (cursor + 1) % length schedule < length schedule = omega arith in
    elim (Option-cases
      (find_priority (get_or schedule (cursor % length schedule) normal) waiting)) [
        | inl miss ↦ rw (miss, scan) (scan-cursor-lt tries schedule waiting _ inside)
        | inr (i, hit) ↦ rw (hit, scan) inside
      ]

-- A scheduler that turns round a schedule with a slot for every priority.
pub record IsTurning (s : Scheduler) : Type 0 where
  pub inside : s.cursor < length s.schedule
  pub slot : (p : Priority) → HasSlot p s.schedule

next_waiter_index-inside :
    (s : Scheduler) → s.cursor < length s.schedule → (next_waiter_index s).1 < length s.schedule
unfolding next_waiter_index
next_waiter_index-inside s h =
    ground (arith, scan-cursor-lt (length s.schedule) s.schedule s.waiting s.cursor)

pub dispatch_one-IsTurning :
    (s : Scheduler) → 0 < length s.waiting → IsTurning s → IsTurning (dispatch_one s)
dispatch_one-IsTurning s h t =
    let (w, e, d) = dispatch_one_lem s h in
    rw d (record { inside = next_waiter_index-inside s t.inside; slot = t.slot })

dispatch_loop-IsTurning :
    (fuel : ℕ) (s : Scheduler) → IsTurning s → IsTurning (dispatch_loop fuel s)
unfolding dispatch_loop
dispatch_loop-IsTurning zero s t = t
dispatch_loop-IsTurning (suc fuel) s t = elim (Bool-cases (can_dispatch s)) [
  | inl e ↦
      rw (e, dispatch_loop)
        (dispatch_loop-IsTurning fuel (dispatch_one s)
          (dispatch_one-IsTurning s (can_dispatch-true s e).1 t))
  | inr e ↦ rw (e, dispatch_loop) t
]

pub dispatch_locked-IsTurning : (s : Scheduler) → IsTurning s → IsTurning (dispatch_locked s)
unfolding dispatch_locked
dispatch_locked-IsTurning s = dispatch_loop-IsTurning (length s.waiting) s

-- `configure` brings any scheduler to such a state, whatever the settings.
pub reconfigured-IsTurning :
    (capacity : ℤ) (routing : RoutingConfig) (s : Scheduler)
    → IsTurning (reconfigured capacity routing s)
unfolding reconfigured
reconfigured-IsTurning capacity routing s =
    let slots : (p : Priority) → HasSlot p (reconfigured capacity routing s).schedule =
      λ p. schedule_or_default-HasSlot p _ (HasSlot-build_queue_priority_schedule p _) in
    let (j, lt, e) = slots high in record { inside = ground arith; slot = slots }
