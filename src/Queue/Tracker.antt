-- ===== src/Queue/Tracker.antt =====
-- internal/httpapi/queue.go, `queueTracker`: the metadata of current and recent requests.
-- A method under the lock is a function on the state; `time.Now()` is the argument `now`, in
-- nanoseconds, where 0 is the zero time. `range` over the map goes through it in list order.
pub mod Invariant
pub mod Lifecycle
use llama_wrangler.Common.{
  ℕ, zero, suc, ◌+◌, ◌-◌, Bool, true, false, String, List, [], ◌∷◌, Option, none, some, ltb, leb,
  if◌then◌else◌, length, take,
}
use llama_wrangler.Common.Int.{ℤ, positive_or}
use llama_wrangler.Common.Text.{str_eq}
use llama_wrangler.Common.Dict.{Dict, lookup, insert, erase, map_values}
use llama_wrangler.Queue.Priority.{high, normal, low, priority_text, normalize_queue_priority}
use llama_wrangler.Queue.Scheduler.{QueueSchedulingStatus}

pub record QueueEntry : Type 0 where
  pub request_id : String
  pub priority : String
  pub status : String
  pub surface : String
  pub model : String
  pub session_id : String
  pub stream : Bool
  pub enqueued_at : ℕ
  pub started_at : ℕ
  pub completed_at : ℕ
  pub queue_depth : ℕ
  pub queue_cap : ℕ
  pub retry_allowed : Bool

-- Go's zero value, which a read of a missing key gives.
abbrev pub zero_entry : QueueEntry
zero_entry = record {
  request_id = "";
  priority = "";
  status = "";
  surface = "";
  model = "";
  session_id = "";
  stream = false;
  enqueued_at = 0;
  started_at = 0;
  completed_at = 0;
  queue_depth = 0;
  queue_cap = 0;
  retry_allowed = false;
}

pub record Tracker : Type 0 where
  pub capacity : ℕ
  pub current : Dict QueueEntry
  pub recent : List QueueEntry

abbrev pub entry_or_zero : Option QueueEntry → QueueEntry
entry_or_zero none = zero_entry
entry_or_zero (some e) = e

-- `q.current[requestID]`
unfoldable pub entry_of : String → Tracker → QueueEntry
entry_of request_id q = entry_or_zero (lookup request_id q.current)

unfoldable pub new_queue_tracker : ℤ → Tracker
new_queue_tracker capacity = record { capacity = positive_or capacity 1; current = []; recent = [] }

unfoldable pub configure : ℤ → Tracker → Tracker
configure capacity q =
    let cap' = positive_or capacity 1 in
    record q {
      capacity = cap';
      current = map_values (λ e. record e { queue_cap = cap' }) q.current;
    }

abbrev pub entry_enqueued : ℕ → Tracker → QueueEntry → QueueEntry
entry_enqueued now q entry = record entry {
  priority = priority_text (normalize_queue_priority entry.priority);
  status = "waiting";
  enqueued_at = now;
  queue_cap = q.capacity;
}

unfoldable pub enqueue : ℕ → QueueEntry → Tracker → Tracker × QueueEntry
enqueue now entry q =
    let e = entry_enqueued now q entry in
    (record q { current = insert e.request_id e q.current }, e)

abbrev pub entry_started : ℕ → ℕ → Tracker → QueueEntry → QueueEntry
entry_started now depth q entry = record entry {
  status = "active";
  started_at = now;
  queue_depth = depth;
  queue_cap = q.capacity;
  retry_allowed = true;
}

unfoldable pub start : ℕ → String → ℕ → Tracker → Tracker × QueueEntry
start now request_id depth q =
    let e = entry_started now depth q (entry_of request_id q) in
    (record q { current = insert request_id e q.current }, e)

-- `if s != "" { field = s }`
abbrev pub keep_or : String → String → String
keep_or old new = if str_eq new "" then old else new

abbrev pub entry_updated : QueueEntry → QueueEntry → QueueEntry
entry_updated fields entry = record entry {
  priority =
      if str_eq fields.priority ""
      then entry.priority
      else priority_text (normalize_queue_priority fields.priority);
  surface = keep_or entry.surface fields.surface;
  model = keep_or entry.model fields.model;
  session_id = keep_or entry.session_id fields.session_id;
  stream = fields.stream;
}

unfoldable pub update : String → QueueEntry → Tracker → Tracker × QueueEntry
update request_id fields q =
    let e = entry_updated fields (entry_of request_id q) in
    (record q { current = insert request_id e q.current }, e)

-- The branch of `finish` for a request that is not tracked.
abbrev pub entry_known : ℕ → Tracker → String → QueueEntry → QueueEntry
entry_known now q request_id entry =
    if str_eq entry.request_id ""
    then record entry {
      request_id = request_id;
      priority = priority_text normal;
      enqueued_at = now;
      queue_cap = q.capacity;
    }
    else entry

abbrev pub entry_finished : ℕ → String → ℕ → Tracker → QueueEntry → QueueEntry
entry_finished now status depth q entry = record entry {
  status = status;
  completed_at = now;
  queue_depth = depth;
  queue_cap = q.capacity;
}

-- `if len(q.recent) > 50 { q.recent = q.recent[:50] }`
abbrev pub truncate_recent : List QueueEntry → List QueueEntry
truncate_recent recent = if ltb 50 (length recent) then take 50 recent else recent

unfoldable pub finish : ℕ → String → String → ℕ → Tracker → Tracker × QueueEntry
finish now request_id status depth q =
    let e =
      entry_finished now status depth q (entry_known now q request_id (entry_of request_id q)) in
    (record q { current = erase request_id q.current; recent = truncate_recent (e ∷ q.recent) }, e)

pub record QueueSnapshot : Type 0 where
  pub max_depth : ℕ
  pub active : ℕ
  pub waiting : ℕ
  pub available : ℕ
  pub current : List QueueEntry
  pub recent : List QueueEntry
  pub priorities : List String
  pub scheduling : QueueSchedulingStatus

unfoldable pub entries : Dict QueueEntry → List QueueEntry
entries [] = []
entries ((k, e) ∷ m) = e ∷ entries m

unfoldable pub count_waiting : Dict QueueEntry → ℕ
count_waiting [] = 0
count_waiting ((k, e) ∷ m) = (if str_eq e.status "waiting" then 1 else 0) + count_waiting m

-- `-` stops at 0, which is the source's own branch for a negative `available`.
unfoldable pub snapshot : ℕ → QueueSchedulingStatus → Tracker → QueueSnapshot
snapshot active_depth scheduling q = record {
  max_depth = q.capacity;
  active = active_depth;
  waiting = count_waiting q.current;
  available = q.capacity - active_depth;
  current = entries q.current;
  recent = q.recent;
  priorities = priority_text high ∷ priority_text normal ∷ priority_text low ∷ [];
  scheduling = scheduling;
}

pub data Event : Type 0 where
  configures : ℤ → Event
  enqueues : ℕ → QueueEntry → Event
  starts : ℕ → String → ℕ → Event
  updates : String → QueueEntry → Event
  finishes : ℕ → String → String → ℕ → Event

unfoldable pub step : Tracker → Event → Tracker
step q (configures capacity) = configure capacity q
step q (enqueues now entry) = (enqueue now entry q).0
step q (starts now request_id depth) = (start now request_id depth q).0
step q (updates request_id fields) = (update request_id fields q).0
step q (finishes now request_id status depth) = (finish now request_id status depth q).0

unfoldable pub run : Tracker → List Event → Tracker
run q [] = q
run q (e ∷ es) = run (step q e) es
