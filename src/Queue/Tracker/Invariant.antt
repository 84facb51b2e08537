-- ===== src/Queue/Tracker/Invariant.antt =====
-- internal/httpapi/queue.go: what holds of the tracker between two calls.
use llama_wrangler.Common.{
  ℕ, zero, suc, ◌≤◌, ◌<◌, ◌≡◌, refl, String, List, [], ◌∷◌, some, arith, length, length-take,
}
use llama_wrangler.Common.Int.{ℤ, pos, negsuc, positive_or}
use llama_wrangler.Common.Dict.{
  Dict, lookup, map_values, AllEntries, insert-AllEntries, erase-AllEntries, lookup-AllEntries,
}
use llama_wrangler.Queue.Tracker.{
  QueueEntry, Tracker, entry_of, entry_or_zero, new_queue_tracker, configure, enqueue, start,
  update, finish, entry_enqueued, entry_started, entry_updated, truncate_recent, Event, configures,
  enqueues, starts, updates, finishes, step, run,
}

-- An entry stands under its own identifier and shows the capacity in force.
pub record IsCurrent (capacity : ℕ) (key : String) (e : QueueEntry) : Type 0 where
  pub own_key : e.request_id ≡ key
  pub own_cap : e.queue_cap ≡ capacity

pub record IsConsistent (q : Tracker) : Type 0 where
  pub room : 0 < q.capacity
  pub bounded : length q.recent ≤ 50
  pub keyed : AllEntries (IsCurrent q.capacity) q.current

-- A call about a request that is tracked.
abbrev pub IsTracked : Tracker → String → Type 0
IsTracked q request_id = (e : QueueEntry) × (lookup request_id q.current ≡ some e)

-- `start` and `update` are called for a request that `enqueue` has entered and `finish` has not
-- taken out.
abbrev pub Proper : Tracker → Event → Type 0
Proper q (starts now request_id depth) = IsTracked q request_id
Proper q (updates request_id fields) = IsTracked q request_id
Proper q _ = Unit {0}

abbrev pub AllProper : Tracker → List Event → Type 0
AllProper q [] = Unit {0}
AllProper q (e ∷ es) = Proper q e × AllProper (step q e) es

length-truncate_recent : (es : List QueueEntry) → length (truncate_recent es) ≤ 50
length-truncate_recent es = ground (arith, length-take 50 es)

recapped :
    (c c' : ℕ) (m : Dict QueueEntry)
    → AllEntries (IsCurrent c) m
    → AllEntries (IsCurrent c') (map_values (λ e. record e { queue_cap = c' }) m)
unfolding map_values
recapped c c' [] a = tt
recapped c c' ((k, e) ∷ m) a =
    (record { own_key = a.0.own_key; own_cap = refl }, recapped c c' m a.1)

positive_or_pos : (n : ℤ) → 0 < positive_or n 1
positive_or_pos (pos zero) = omega arith
positive_or_pos (pos (suc n)) = omega arith
positive_or_pos (negsuc n) = omega arith

tracked-IsCurrent :
    (q : Tracker) (request_id : String)
    → IsConsistent q
    → IsTracked q request_id
    → IsCurrent q.capacity request_id (entry_of request_id q)
unfolding entry_of
tracked-IsCurrent q request_id h (e, found) =
    rw (found, entry_or_zero)
      (lookup-AllEntries (IsCurrent q.capacity) request_id q.current e h.keyed found)

-- Every proper call keeps the tracker consistent.
pub step-IsConsistent :
    (q : Tracker) (e : Event) → Proper q e → IsConsistent q → IsConsistent (step q e)
unfolding step configure enqueue start update finish
step-IsConsistent q (configures capacity) _ h = record {
  room = positive_or_pos capacity;
  bounded = h.bounded;
  keyed = recapped q.capacity (positive_or capacity 1) q.current h.keyed;
}
step-IsConsistent q (enqueues now entry) _ h = record {
  room = h.room;
  bounded = h.bounded;
  keyed =
      insert-AllEntries (IsCurrent q.capacity) entry.request_id (entry_enqueued now q entry)
        q.current (record { own_key = refl; own_cap = refl }) h.keyed;
}
step-IsConsistent q (starts now request_id depth) t h =
    let c = tracked-IsCurrent q request_id h t in
    record {
      room = h.room;
      bounded = h.bounded;
      keyed =
          insert-AllEntries (IsCurrent q.capacity) request_id
            (entry_started now depth q (entry_of request_id q)) q.current
            (record { own_key = c.own_key; own_cap = refl }) h.keyed;
    }
step-IsConsistent q (updates request_id fields) t h =
    let c = tracked-IsCurrent q request_id h t in
    record {
      room = h.room;
      bounded = h.bounded;
      keyed =
          insert-AllEntries (IsCurrent q.capacity) request_id
            (entry_updated fields (entry_of request_id q)) q.current
            (record { own_key = c.own_key; own_cap = c.own_cap }) h.keyed;
    }
step-IsConsistent q (finishes now request_id status depth) _ h = record {
  room = h.room;
  bounded = length-truncate_recent (finished ∷ q.recent);
  keyed = erase-AllEntries (IsCurrent q.capacity) request_id q.current h.keyed;
}
  where
    finished : QueueEntry
    finished = (finish now request_id status depth q).1

run_from-IsConsistent :
    (q : Tracker) (es : List Event) → AllProper q es → IsConsistent q → IsConsistent (run q es)
unfolding run
run_from-IsConsistent q [] p h = h
run_from-IsConsistent q (e ∷ es) p h =
    run_from-IsConsistent (step q e) es p.1 (step-IsConsistent q e p.0 h)

-- From a new tracker, after any calls in which `start` and `update` are about tracked requests: the
-- capacity is positive, at most 50 finished requests are kept, and each current entry stands under
-- its own identifier and shows the capacity in force.
pub run-IsConsistent :
    (capacity : ℤ) (es : List Event)
    → AllProper (new_queue_tracker capacity) es
    → IsConsistent (run (new_queue_tracker capacity) es)
unfolding new_queue_tracker
run-IsConsistent capacity es p =
    run_from-IsConsistent (new_queue_tracker capacity) es p
      (record { room = positive_or_pos capacity; bounded = omega arith; keyed = tt })
