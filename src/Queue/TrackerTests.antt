-- ===== src/Queue/TrackerTests.antt =====
-- internal/httpapi/queue.go: the theorems on the tracker at small inputs.
use llama_wrangler.Common.{◌≡◌, ◌≢◌, refl, true, String, List, [], ◌∷◌, none, arith, take}
use llama_wrangler.Common.Int.{pos}
use llama_wrangler.Common.Text.{eq_iff}
use llama_wrangler.Common.Dict.{lookup, insert, erase, map_values}
use llama_wrangler.Queue.Priority.{normalize_queue_priority}
use llama_wrangler.Queue.Tracker.{
  QueueEntry, zero_entry, Tracker, new_queue_tracker, configure, enqueue, start, update, finish,
  entry_of, Event, configures, enqueues, starts, updates, finishes, step, run,
}
use llama_wrangler.Queue.Tracker.Invariant.{IsConsistent, AllProper, run-IsConsistent}
use llama_wrangler.Queue.Tracker.Lifecycle.{finish_lem, proxied, proxied_entry}

abbrev queued : QueueEntry
queued = record zero_entry { request_id = "req_1"; priority = " High"; surface = "ollama_chat" }

abbrev from_body : QueueEntry
from_body = record zero_entry { model = "local-fast"; stream = true }

abbrev calls : List Event
calls =
    enqueues 10 queued
    ∷ starts 20 "req_1" 1
    ∷ configures (pos 8)
    ∷ updates "req_1" from_body
    ∷ finishes 30 "req_1" "completed" 1
    ∷ []

calls-AllProper : AllProper (new_queue_tracker (pos 4)) calls
unfolding step new_queue_tracker configure enqueue start update finish lookup insert erase
    map_values entry_of normalize_queue_priority
calls-AllProper = (tt, ((_, refl), (tt, ((_, refl), (tt, tt)))))

run-IsConsistent_example : IsConsistent (run (new_queue_tracker (pos 4)) calls)
run-IsConsistent_example = run-IsConsistent (pos 4) calls calls-AllProper

abbrev after_queueing : Tracker
after_queueing = (enqueue 10 queued (new_queue_tracker (pos 4))).0

finish_lem_example :
    let (r, e) = finish 30 "req_1" "failed" 1 after_queueing in
    (lookup "req_1" r.current ≡ none)
    × ((other : String)
        → other ≢ "req_1"
        → lookup other r.current ≡ lookup other after_queueing.current)
    × (r.recent ≡ take 50 (e ∷ after_queueing.recent))
finish_lem_example = finish_lem 30 1 "req_1" "failed" after_queueing

proxied_entry_example :
    (proxied 10 20 30 queued 1 from_body "completed" 0 (new_queue_tracker (pos 4))).1 ≡ record {
      request_id = "req_1";
      priority = "high";
      status = "completed";
      surface = "ollama_chat";
      model = "local-fast";
      session_id = "";
      stream = true;
      enqueued_at = 10;
      started_at = 20;
      completed_at = 30;
      queue_depth = 0;
      queue_cap = 4;
      retry_allowed = true;
    }
unfolding new_queue_tracker normalize_queue_priority
proxied_entry_example =
    proxied_entry 10 20 30 1 0 queued from_body "completed" (new_queue_tracker (pos 4))
      (ground (arith, eq_iff "req_1" ""))
