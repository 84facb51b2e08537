-- ===== src/Queue/Scheduler.antt =====
-- internal/httpapi/queue.go, `queueScheduler`: slots, waiters and the weighted dispatch.
-- A method under the lock is a function on the state. The pointer of a waiter, by which `acquire`
-- finds its entry again, is a ticket; `ready` lists the tickets whose channel is closed, which are
-- those whose `dispatched` flag is set. `acquire` is two steps: `enter`, and `abandon` when the
-- context ends first; a waiter whose channel closes returns true and changes nothing.
pub mod Dispatch
pub mod Cycle
pub mod Invariant
pub mod Distance
pub mod Rank
pub mod Fairness
pub mod Tickets
pub mod Progress
pub mod Starvation
use llama_wrangler.Common.{
  ℕ, zero, suc, ◌+◌, ◌-◌, ◌%◌, Bool, true, false, not, ◌&&◌, ◌||◌, String, List, [], ◌∷◌, ◌++◌,
  Option, none, some, ltb, leb, ◌==◌, if◌then◌else◌, length, is_empty, get_or, remove_at,
}
use mathlib.Core.Option
use llama_wrangler.Common.Int.{ℤ, pos, positive_or}
use llama_wrangler.Config.{RoutingConfig, QueuePriorityWeights}
use llama_wrangler.Queue.Priority.{
  Priority, high, normal, low, same_priority, Policy, weighted_priority, fifo,
  normalize_queue_priority, normalize_queue_scheduling_policy, normalize_queue_priority_weights,
  build_queue_priority_schedule,
}

pub record Waiter : Type 0 where
  pub ticket : ℕ
  pub request_id : String
  pub priority : Priority

pub record Scheduler : Type 0 where
  pub capacity : ℕ
  pub active : ℕ
  pub policy : Policy
  pub weights : QueuePriorityWeights
  pub schedule : List Priority
  pub cursor : ℕ
  pub waiting : List Waiter
  pub ready : List ℕ
  pub next_ticket : ℕ

-- The first waiter of a priority.
unfoldable pub find_priority : Priority → List Waiter → Option ℕ
find_priority p [] = none
find_priority p (w ∷ ws) =
    if same_priority w.priority p then some 0 else Option.map suc (find_priority p ws)

-- The loop of `nextWaiterIndexLocked`: an index and the new cursor.
unfoldable pub scan : ℕ → List Priority → List Waiter → ℕ → ℕ × ℕ
scan zero schedule waiting cursor = (0, cursor)
scan (suc tries) schedule waiting cursor =
    let next = (cursor + 1) % length schedule in
    elim (find_priority (get_or schedule (cursor % length schedule) normal) waiting) [
      | some i ↦ (i, next)
      | none ↦ scan tries schedule waiting next
    ]

abbrev pub is_fifo : Policy → Bool
is_fifo fifo = true
is_fifo weighted_priority = false

unfoldable pub next_waiter_index : Scheduler → ℕ × ℕ
next_waiter_index s =
    if is_fifo s.policy || is_empty s.schedule
    then (0, s.cursor)
    else scan (length s.schedule) s.schedule s.waiting s.cursor

abbrev pub get_elem? : List Waiter → ℕ → Option Waiter
get_elem? [] i = none
get_elem? (w ∷ ws) zero = some w
get_elem? (w ∷ ws) (suc i) = get_elem? ws i

-- One round of the loop of `dispatchLocked`. Go would panic on an index out of range.
unfoldable pub dispatch_one : Scheduler → Scheduler
dispatch_one s =
    let (index, cursor) = next_waiter_index s in
    elim (get_elem? s.waiting index) [
      | none ↦ s
      | some waiter ↦ record s {
        waiting = remove_at index s.waiting;
        ready = waiter.ticket ∷ s.ready;
        active = s.active + 1;
        cursor = cursor;
      }
    ]

abbrev pub can_dispatch : Scheduler → Bool
can_dispatch s = ltb s.active s.capacity && not (is_empty s.waiting)

-- Each round takes a waiter out, so the number of waiters is fuel enough.
unfoldable pub dispatch_loop : ℕ → Scheduler → Scheduler
dispatch_loop zero s = s
dispatch_loop (suc fuel) s = elim (can_dispatch s) [
  | true ↦ dispatch_loop fuel (dispatch_one s)
  | false ↦ s
]

unfoldable pub dispatch_locked : Scheduler → Scheduler
dispatch_locked s = dispatch_loop (length s.waiting) s

-- The schedule of `configure`, with the branch for an empty one.
unfoldable pub schedule_or_default : List Priority → List Priority
schedule_or_default [] = high ∷ normal ∷ low ∷ []
schedule_or_default (p ∷ ps) = p ∷ ps

-- `configure` up to its call of `dispatchLocked`.
unfoldable pub reconfigured : ℤ → RoutingConfig → Scheduler → Scheduler
reconfigured capacity routing s =
    let weights = normalize_queue_priority_weights routing.queue_priority_weights in
    let schedule = schedule_or_default (build_queue_priority_schedule weights) in
    record s {
      capacity = positive_or capacity 1;
      policy = normalize_queue_scheduling_policy routing.queue_scheduling_policy;
      weights = weights;
      schedule = schedule;
      cursor = if leb (length schedule) s.cursor then 0 else s.cursor;
    }

unfoldable pub configure : ℤ → RoutingConfig → Scheduler → Scheduler
configure capacity routing s = dispatch_locked (reconfigured capacity routing s)

-- `&queueScheduler{}`: no waiter. Every field that a zero value would show is set by `configure`.
unfoldable pub zero_scheduler : Scheduler
zero_scheduler = record {
  capacity = 0;
  active = 0;
  policy = weighted_priority;
  weights = record { high = pos 0; normal = pos 0; low = pos 0 };
  schedule = [];
  cursor = 0;
  waiting = [];
  ready = [];
  next_ticket = 0;
}

unfoldable pub new_queue_scheduler : ℤ → RoutingConfig → Scheduler
unfolding zero_scheduler
new_queue_scheduler capacity routing = configure capacity routing zero_scheduler

pub data Admission : Type 0 where
  granted : Admission
  parked : ℕ → Admission

-- `acquire` up to its `select`.
unfoldable pub enter : String → String → Scheduler → Scheduler × Admission
enter request_id priority s =
    if ltb s.active s.capacity && is_empty s.waiting
    then (record s { active = s.active + 1 }, granted)
    else (
      record s {
        waiting =
            s.waiting
            ++ (record {
              ticket = s.next_ticket;
              request_id = request_id;
              priority = normalize_queue_priority priority;
            })
              ∷ [];
        next_ticket = suc s.next_ticket;
      },
      parked s.next_ticket,
    )

abbrev pub has_ticket : ℕ → List ℕ → Bool
has_ticket t [] = false
has_ticket t (u ∷ us) = u == t || has_ticket t us

unfoldable pub remove_waiter : ℕ → List Waiter → List Waiter
remove_waiter t [] = []
remove_waiter t (w ∷ ws) = if w.ticket == t then ws else w ∷ remove_waiter t ws

-- The `ctx.Done()` branch of `acquire`, with its answer.
unfoldable pub abandon : ℕ → Scheduler → Scheduler × Bool
abandon t s =
    if has_ticket t s.ready
    then (s, true)
    else (record s { waiting = remove_waiter t s.waiting }, false)

unfoldable pub release : Scheduler → Scheduler
release s =
    dispatch_locked (record s { active = if ltb 0 s.active then s.active - 1 else s.active })

unfoldable pub active_depth : Scheduler → ℕ
active_depth s = s.active

pub record QueueSchedulingStatus : Type 0 where
  pub policy : Policy
  pub weights : QueuePriorityWeights

unfoldable pub status : Scheduler → QueueSchedulingStatus
status s = record { policy = s.policy; weights = s.weights }

-- What the handlers of concurrent requests do to the scheduler, in the order of the lock.
pub data Event : Type 0 where
  enters : String → String → Event
  abandons : ℕ → Event
  releases : Event
  reconfigures : ℤ → RoutingConfig → Event

unfoldable pub step : Scheduler → Event → Scheduler
step s (enters request_id priority) = (enter request_id priority s).0
step s (abandons t) = (abandon t s).0
step s releases = release s
step s (reconfigures capacity routing) = configure capacity routing s

unfoldable pub run : Scheduler → List Event → Scheduler
run s [] = s
run s (e ∷ es) = run (step s e) es
