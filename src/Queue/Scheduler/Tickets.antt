-- ===== src/Queue/Scheduler/Tickets.antt =====
-- internal/httpapi/queue.go: each waiter is in one place. It waits, or its channel is closed, never
-- both and never twice, so that no channel is closed a second time (which panics in Go).
use llama_wrangler.Common.{
  ℕ, zero, suc, ◌+◌, ◌-◌, String, ◌≤◌, ◌<◌, ◌≡◌, refl, ap, ◌⊎◌, inl, inr, true, false, ◌&&◌, List,
  [], ◌∷◌, ◌++◌, some, arith, if◌then◌else◌, ◌==◌, ltb, is_empty, length, remove_at, Bool-cases,
  by_test,
}
use llama_wrangler.Common.Int.{ℤ}
use llama_wrangler.Config.{RoutingConfig}
use llama_wrangler.Queue.Priority.{normalize_queue_priority}
use llama_wrangler.Queue.Scheduler.{
  Waiter, Scheduler, next_waiter_index, get_elem?, dispatch_one, dispatch_loop, dispatch_locked,
  can_dispatch, reconfigured, configure, zero_scheduler, new_queue_scheduler, enter, abandon,
  release, remove_waiter, has_ticket, Event, enters, abandons, releases, reconfigures, step, run,
}
use llama_wrangler.Queue.Scheduler.Dispatch.{dispatch_one_lem, can_dispatch-true}

abbrev pub count_waiting : ℕ → List Waiter → ℕ
count_waiting t [] = 0
count_waiting t (w ∷ ws) = (if w.ticket == t then 1 else 0) + count_waiting t ws

abbrev count_ready : ℕ → List ℕ → ℕ
count_ready t [] = 0
count_ready t (u ∷ us) = (if u == t then 1 else 0) + count_ready t us

-- The places where a ticket stands.
abbrev pub uses : ℕ → Scheduler → ℕ
uses t s = count_ready t s.ready + count_waiting t s.waiting

-- No ticket stands in two places, and one that is not given out yet in none.
abbrev pub IsTicketed : Scheduler → Type 0
IsTicketed s = (t : ℕ) → (uses t s ≤ 1) × (s.next_ticket ≤ t → uses t s ≡ 0)

count-remove_at :
    (t i : ℕ) (ws : List Waiter) (w : Waiter)
    → get_elem? ws i ≡ some w
    → count_waiting t ws ≡ (if w.ticket == t then 1 else 0) + count_waiting t (remove_at i ws)
count-remove_at t i [] w g = cc
count-remove_at t zero (v ∷ ws) w g = ground arith
count-remove_at t (suc i) (v ∷ ws) w g = ground (arith, count-remove_at t i ws w)

count-snoc :
    (t : ℕ) (ws : List Waiter) (w : Waiter)
    → count_waiting t (ws ++ w ∷ []) ≡ count_waiting t ws + (if w.ticket == t then 1 else 0)
count-snoc t [] w = omega arith
count-snoc t (v ∷ ws) w = omega (arith, count-snoc t ws w)

count-remove_waiter :
    (t u : ℕ) (ws : List Waiter)
    → count_waiting t (remove_waiter u ws)
      ≡ (if u == t then count_waiting t ws - 1 else count_waiting t ws)
unfolding remove_waiter
count-remove_waiter t u [] = ground arith
count-remove_waiter t u (w ∷ ws) = ground (arith, count-remove_waiter t u ws)

has_ticket-count : (t : ℕ) (us : List ℕ) → has_ticket t us ≡ false → count_ready t us ≡ 0
has_ticket-count t [] h = refl
has_ticket-count t (u ∷ us) h = ground (arith, has_ticket-count t us)

count-has_ticket : (t : ℕ) (us : List ℕ) → count_ready t us ≡ 0 → has_ticket t us ≡ false
count-has_ticket t [] h = refl
count-has_ticket t (u ∷ us) h = ground (arith, count-has_ticket t us)

dispatch_one-uses :
    (s : Scheduler) → 0 < length s.waiting → (t : ℕ) → (uses t (dispatch_one s) ≡ uses t s)
dispatch_one-uses s h t =
    let (w, got, d) = dispatch_one_lem s h in
    rw d (omega (arith, count-remove_at t (next_waiter_index s).0 s.waiting w got))

dispatch_one-next :
    (s : Scheduler) → 0 < length s.waiting → (dispatch_one s).next_ticket ≡ s.next_ticket
dispatch_one-next s h = let (w, got, d) = dispatch_one_lem s h in rw d refl

dispatch_loop-IsTicketed : (n : ℕ) (s : Scheduler) → IsTicketed s → IsTicketed (dispatch_loop n s)
unfolding dispatch_loop
dispatch_loop-IsTicketed zero s h = h
dispatch_loop-IsTicketed (suc n) s h = elim (Bool-cases (can_dispatch s)) [
  | inl e ↦
      let some' = (can_dispatch-true s e).1 in
      rw (e, dispatch_loop)
        (dispatch_loop-IsTicketed n (dispatch_one s)
          (λ t. rw (dispatch_one-uses s some' t, dispatch_one-next s some') (h t)))
  | inr e ↦ rw (e, dispatch_loop) h
]

newcomer : String → String → Scheduler → Waiter
newcomer request_id priority s = record {
  ticket = s.next_ticket;
  request_id = request_id;
  priority = normalize_queue_priority priority;
}

enter-IsTicketed :
    (request_id priority : String) (s : Scheduler)
    → IsTicketed s
    → IsTicketed (enter request_id priority s).0
unfolding enter newcomer
enter-IsTicketed request_id priority s h t =
    elim (Bool-cases (ltb s.active s.capacity && is_empty s.waiting)) [
      | inl e ↦ rw (e, enter) (h t)
      | inr e ↦
          rw (e, enter)
            (ground (arith, h t, count-snoc t s.waiting (newcomer request_id priority s)))
    ]

abandon-IsTicketed : (u : ℕ) (s : Scheduler) → IsTicketed s → IsTicketed (abandon u s).0
unfolding abandon
abandon-IsTicketed u s h t = elim (Bool-cases (has_ticket u s.ready)) [
  | inl e ↦ rw (e, abandon) (h t)
  | inr e ↦ rw (e, abandon) (ground (arith, h t, count-remove_waiter t u s.waiting))
]

-- Every call keeps each ticket in one place at most.
pub step-IsTicketed : (s : Scheduler) (e : Event) → IsTicketed s → IsTicketed (step s e)
unfolding step release configure reconfigured dispatch_locked
step-IsTicketed s (enters request_id priority) h = enter-IsTicketed request_id priority s h
step-IsTicketed s (abandons u) h = abandon-IsTicketed u s h
step-IsTicketed s releases h =
    dispatch_loop-IsTicketed (length s.waiting)
      (record s { active = if ltb 0 s.active then s.active - 1 else s.active }) h
step-IsTicketed s (reconfigures capacity routing) h =
    dispatch_loop-IsTicketed (length s.waiting) (reconfigured capacity routing s) h

run_from-IsTicketed : (s : Scheduler) (es : List Event) → IsTicketed s → IsTicketed (run s es)
unfolding run
run_from-IsTicketed s [] h = h
run_from-IsTicketed s (e ∷ es) h = run_from-IsTicketed (step s e) es (step-IsTicketed s e h)

-- After any calls in any order, no ticket waits twice, is dispatched twice, or waits after it was
-- dispatched; a ticket that was not given out is nowhere.
pub run-IsTicketed :
    (capacity : ℤ) (routing : RoutingConfig) (es : List Event)
    → IsTicketed (run (new_queue_scheduler capacity routing) es)
unfolding new_queue_scheduler zero_scheduler configure reconfigured dispatch_locked
run-IsTicketed capacity routing es = run_from-IsTicketed (new_queue_scheduler capacity routing) es (
    dispatch_loop-IsTicketed 0 (reconfigured capacity routing zero_scheduler)
      (λ t. (omega arith, λ _. refl)))

count-of_get :
    (i : ℕ) (ws : List Waiter) (w : Waiter)
    → get_elem? ws i ≡ some w
    → 0 < count_waiting w.ticket ws
count-of_get i [] w g = cc
count-of_get zero (v ∷ ws) w g = ground arith
count-of_get (suc i) (v ∷ ws) w g = ground (arith, count-of_get i ws w)

-- A round closes one channel, that of one waiter; the channel was open, so that its `close` does not
-- panic, and the waiter does not wait any more.
pub dispatch_one_closes_once :
    (s : Scheduler)
    → IsTicketed s
    → 0 < length s.waiting
    → (w : Waiter) × (0 < count_waiting w.ticket s.waiting)
      × ((dispatch_one s).ready ≡ w.ticket ∷ s.ready)
      × (has_ticket w.ticket s.ready ≡ false)
      × (count_waiting w.ticket (dispatch_one s).waiting ≡ 0)
dispatch_one_closes_once s h n =
    let (w, got, d) = dispatch_one_lem s n in
    let i = (next_waiter_index s).0 in
    let here = count-of_get i s.waiting w got in
    let removed = count-remove_at w.ticket i s.waiting w got in
    (
      w,
      here,
      rw d refl,
      count-has_ticket w.ticket s.ready (omega (arith, (h w.ticket).0, here)),
      rw d (ground (arith, (h w.ticket).0, removed)),
    )

-- The waiters without the one of the ticket, which stood at one place or at none.
abbrev pub IsWithout : ℕ → List Waiter → List Waiter → Type 0
IsWithout t before after =
    ((count_waiting t before ≡ 0) × (after ≡ before))
    ⊎ ((w : Waiter) × (xs : List Waiter) × (ys : List Waiter) × (w.ticket ≡ t)
        × (before ≡ xs ++ w ∷ ys)
        × (after ≡ xs ++ ys))

IsWithout-cons :
    (t : ℕ) (v : Waiter) (before after : List Waiter)
    → (v.ticket == t) ≡ false
    → IsWithout t before after
    → IsWithout t (v ∷ before) (v ∷ after)
IsWithout-cons t v before after e (inl (none', same)) =
    inl (ground (arith, e, none'), ap (◌∷◌ v) same)
IsWithout-cons t v before after e (inr (w, xs, ys, named, split, rest)) =
    inr (w, v ∷ xs, ys, named, ap (◌∷◌ v) split, ap (◌∷◌ v) rest)

remove_waiter-IsWithout : (t : ℕ) (ws : List Waiter) → IsWithout t ws (remove_waiter t ws)
unfolding remove_waiter
remove_waiter-IsWithout t [] = inl (refl, refl)
remove_waiter-IsWithout t (w ∷ ws) =
    by_test (IsWithout t (w ∷ ws)) (w.ticket == t) ws (w ∷ remove_waiter t ws)
      (λ q. inr (w, [], ws, ground (arith, q), refl, refl))
      (λ q. IsWithout-cons t w ws (remove_waiter t ws) q (remove_waiter-IsWithout t ws))

-- Giving up. If the ticket was dispatched, `acquire` still answers true and nothing changes, so the
-- slot is the caller's to release. Else it answers false, takes no slot and closes no channel: the
-- queue alone changes, from which the ticket's waiter is taken, if it stands there, while the others
-- keep their order. The ticket is then gone from the scheduler.
pub abandon_lem :
    (t : ℕ) (s : Scheduler)
    → IsTicketed s
    → ((has_ticket t s.ready ≡ true) × (abandon t s ≡ (s, true)))
      ⊎ ((has_ticket t s.ready ≡ false)
          × ((abandon t s).1 ≡ false)
          × (record (abandon t s).0 { waiting = s.waiting } ≡ s)
          × IsWithout t s.waiting (abandon t s).0.waiting
          × (uses t (abandon t s).0 ≡ 0))
unfolding abandon
abandon_lem t s h = elim (Bool-cases (has_ticket t s.ready)) [
  | inl e ↦ inl (e, rw (e, abandon))
  | inr e ↦ inr (
    e,
    rw (e, abandon),
    rw (e, abandon),
    rw (e, abandon) (remove_waiter-IsWithout t s.waiting),
    rw (e, abandon)
        (ground (arith, (h t).0, has_ticket-count t s.ready e, count-remove_waiter t t s.waiting)),
  )
]
