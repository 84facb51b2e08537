-- ===== src/Queue/Scheduler/Dispatch.antt =====
-- internal/httpapi/queue.go: what `dispatchLocked` does to the slots and the waiters.
use llama_wrangler.Common.{
  ℕ, zero, suc, ◌+◌, ◌%◌, ◌≤◌, ◌<◌, ◌≡◌, refl, ◌⊎◌, inl, inr, true, false, List, [], ◌∷◌, some,
  arith, length, get_or, remove_at, length-remove_at, Bool-cases, Option-cases,
}
use Prim.Native.Nat.{min, max}
use llama_wrangler.Queue.Priority.{Priority, normal}
use llama_wrangler.Queue.Scheduler.{
  Waiter, Scheduler, find_priority, scan, next_waiter_index, get_elem?, dispatch_one, dispatch_loop,
  dispatch_locked, can_dispatch,
}

pub find_priority-lt :
    (p : Priority) (ws : List Waiter) (i : ℕ) → find_priority p ws ≡ some i → i < length ws
unfolding find_priority
find_priority-lt p [] i e = cc
find_priority-lt p (w ∷ ws) i e = elim (Option-cases (find_priority p ws)) [
  | inl miss ↦ ground arith
  | inr (j, hit) ↦ ground (arith, find_priority-lt p ws j hit)
]

scan-lt :
    (tries : ℕ) (schedule : List Priority) (waiting : List Waiter) (cursor : ℕ)
    → 0 < length waiting
    → (scan tries schedule waiting cursor).0 < length waiting
unfolding scan
scan-lt zero schedule waiting cursor h = h
scan-lt (suc tries) schedule waiting cursor h =
    elim (Option-cases
      (find_priority (get_or schedule (cursor % length schedule) normal) waiting)) [
        | inl miss ↦
            rw (miss, scan) (scan-lt tries schedule waiting ((cursor + 1) % length schedule) h)
        | inr (i, hit) ↦ rw (hit, scan) (find_priority-lt _ waiting i hit)
      ]

-- The index that the dispatcher takes is in range.
pub next_waiter_index-lt :
    (s : Scheduler) → 0 < length s.waiting → (next_waiter_index s).0 < length s.waiting
unfolding next_waiter_index
next_waiter_index-lt s h = ground (arith, scan-lt (length s.schedule) s.schedule s.waiting s.cursor)

pub get_elem?-of_lt :
    (ws : List Waiter) (i : ℕ) → i < length ws → (w : Waiter) × (get_elem? ws i ≡ some w)
get_elem?-of_lt [] i h = elim h [ ]
get_elem?-of_lt (w ∷ ws) zero h = (w, refl)
get_elem?-of_lt (w ∷ ws) (suc i) h = get_elem?-of_lt ws i (omega arith)

-- The waiter that a round dispatches, and what the round leaves.
pub dispatch_one_lem :
    (s : Scheduler)
    → 0 < length s.waiting
    → (w : Waiter) × (get_elem? s.waiting (next_waiter_index s).0 ≡ some w)
      × (dispatch_one s ≡ record s {
        waiting = remove_at (next_waiter_index s).0 s.waiting;
        ready = w.ticket ∷ s.ready;
        active = s.active + 1;
        cursor = (next_waiter_index s).1;
      })
unfolding dispatch_one
dispatch_one_lem s h =
    let (w, e) = get_elem?-of_lt s.waiting (next_waiter_index s).0 (next_waiter_index-lt s h) in
    (w, e, rw (e, dispatch_one))

record Round (s t : Scheduler) : Type 0 where
  pub one_more : t.active ≡ s.active + 1
  pub one_less : suc (length t.waiting) ≡ length s.waiting
  pub one_ready : length t.ready ≡ suc (length s.ready)
  pub same_capacity : t.capacity ≡ s.capacity

dispatch_one-Round : (s : Scheduler) → 0 < length s.waiting → Round s (dispatch_one s)
dispatch_one-Round s h =
    let (w, e, d) = dispatch_one_lem s h in
    rw d (record {
      one_more = refl;
      one_less = length-remove_at _ s.waiting (next_waiter_index-lt s h);
      one_ready = refl;
      same_capacity = refl;
    })

pub can_dispatch-true :
    (s : Scheduler) → can_dispatch s ≡ true → (s.active < s.capacity) × (0 < length s.waiting)
can_dispatch-true s h = grind arith

can_dispatch-false :
    (s : Scheduler) → can_dispatch s ≡ false → (s.capacity ≤ s.active) ⊎ (length s.waiting ≡ 0)
can_dispatch-false s h = grind arith

-- What a run of rounds leaves: as many waiters as slots allow are active.
pub record Filled (s t : Scheduler) : Type 0 where
  pub slots : t.active ≡ max s.active (min s.capacity (s.active + length s.waiting))
  pub kept : t.active + length t.waiting ≡ s.active + length s.waiting
  pub announced : length t.ready + length t.waiting ≡ length s.ready + length s.waiting
  pub same_capacity : t.capacity ≡ s.capacity

dispatch_loop-Filled :
    (fuel : ℕ) (s : Scheduler) → length s.waiting ≤ fuel → Filled s (dispatch_loop fuel s)
unfolding dispatch_loop
dispatch_loop-Filled zero s h = record {
  slots = omega arith;
  kept = refl;
  announced = refl;
  same_capacity = refl;
}
dispatch_loop-Filled (suc fuel) s h = elim (Bool-cases (can_dispatch s)) [
  | inl e ↦
      let c = can_dispatch-true s e in
      let r = dispatch_one-Round s c.1 in
      let ih = dispatch_loop-Filled fuel (dispatch_one s) (omega arith) in
      rw (e, dispatch_loop)
        (record {
          slots = omega arith;
          kept = omega arith;
          announced = omega arith;
          same_capacity = omega arith;
        })
  | inr e ↦
      let c = can_dispatch-false s e in
      rw (e, dispatch_loop)
        (record { slots = omega arith; kept = refl; announced = refl; same_capacity = refl })
]

-- `dispatchLocked` fills the free slots, exactly: the active requests become the most that the
-- capacity and the waiters allow, and never fewer than before; a waiter leaves the queue for each
-- slot taken, and its channel is closed.
pub dispatch_locked-Filled : (s : Scheduler) → Filled s (dispatch_locked s)
unfolding dispatch_locked
dispatch_locked-Filled s = dispatch_loop-Filled (length s.waiting) s (omega arith)
