-- ===== src/Queue/Tracker/Lifecycle.antt =====
-- internal/httpapi/queue.go: the life of one request in the tracker.
use llama_wrangler.Common.{
  ℕ, ◌≡◌, ◌≢◌, sym, ap, ◌∙◌, inl, inr, true, false, String, List, ◌∷◌, none, arith, if◌then◌else◌,
  ltb, length, take, take_all, ltb-false, Bool-cases,
}
use llama_wrangler.Common.Text.{str_eq, eq_iff, eq_refl}
use llama_wrangler.Common.Dict.{lookup, insert, lookup-insert, lookup-erase}
use llama_wrangler.Queue.Priority.{priority_text, normalize_queue_priority}
use llama_wrangler.Queue.Tracker.{
  QueueEntry, Tracker, truncate_recent, entry_enqueued, entry_started, entry_updated,
  entry_finished, entry_known, entry_of, enqueue, start, update, finish, keep_or,
}

str_eq-of_ne : (s t : String) → s ≢ t → str_eq s t ≡ false
str_eq-of_ne s t d = ground (arith, eq_iff s t)

truncate_recent-take : (es : List QueueEntry) → truncate_recent es ≡ take 50 es
truncate_recent-take es = elim (Bool-cases (ltb 50 (length es))) [
  | inl e ↦ rw e
  | inr e ↦ rw e (sym (take_all 50 es (ltb-false 50 (length es) e)))
]

-- `finish` takes the request out of the current ones, leaves the others, and puts the finished
-- entry first among at most 50 recent ones.
pub finish_lem :
    (now depth : ℕ) (request_id status : String) (q : Tracker)
    → let (r, e) = finish now request_id status depth q in
      (lookup request_id r.current ≡ none)
      × ((other : String) → other ≢ request_id → lookup other r.current ≡ lookup other q.current)
      × (r.recent ≡ take 50 (e ∷ q.recent))
unfolding finish
finish_lem now depth request_id status q = (
  rw (lookup-erase request_id request_id) (rw (eq_refl request_id)),
  λ other d.
      rw (lookup-erase request_id other) (rw (str_eq-of_ne request_id other (λ e. d (sym e)))),
  truncate_recent-take ((finish now request_id status depth q).1 ∷ q.recent),
)

entry_of-insert :
    (k : String) (e : QueueEntry) (q : Tracker)
    → entry_of k (record q { current = insert k e q.current }) ≡ e
unfolding entry_of
entry_of-insert k e q = rw (lookup-insert k k e) (rw (eq_refl k))

module _ (q : Tracker) where
  entry_of-enqueue :
      (now : ℕ) (entry : QueueEntry)
      → entry_of entry.request_id (enqueue now entry q).0 ≡ entry_enqueued now q entry
  unfolding enqueue
  entry_of-enqueue now entry = entry_of-insert entry.request_id (entry_enqueued now q entry) q

  entry_of-start :
      (now : ℕ) (k : String) (depth : ℕ)
      → entry_of k (start now k depth q).0 ≡ entry_started now depth q (entry_of k q)
  unfolding start
  entry_of-start now k depth = entry_of-insert k (entry_started now depth q (entry_of k q)) q

  entry_of-update :
      (k : String) (fields : QueueEntry)
      → entry_of k (update k fields q).0 ≡ entry_updated fields (entry_of k q)
  unfolding update
  entry_of-update k fields = entry_of-insert k (entry_updated fields (entry_of k q)) q

-- The calls of `marshalProxy` for one request: `enqueue`, `start`, `update` with what the body says,
-- and `finish`.
abbrev pub proxied :
    ℕ → ℕ → ℕ → QueueEntry → ℕ → QueueEntry → String → ℕ → Tracker → Tracker × QueueEntry
proxied queued started done entry depth fields status left q =
    let k = entry.request_id in
    let q₁ = (enqueue queued entry q).0 in
    let q₂ = (start started k depth q₁).0 in
    let q₃ = (update k fields q₂).0 in finish done k status left q₃

-- The finished entry of a proxied request has its identifier, the three times in their fields, the
-- final status, the capacity, and the flag that `start` sets. A text that the body does not give
-- stays as it was queued, and a priority that it gives is normalized.
pub proxied_entry :
    (queued started done depth left : ℕ) (entry fields : QueueEntry) (status : String) (q : Tracker)
    → entry.request_id ≢ ""
    → (proxied queued started done entry depth fields status left q).1 ≡ record {
      request_id = entry.request_id;
      priority =
          if str_eq fields.priority ""
          then priority_text (normalize_queue_priority entry.priority)
          else priority_text (normalize_queue_priority fields.priority);
      status = status;
      surface = keep_or entry.surface fields.surface;
      model = keep_or entry.model fields.model;
      session_id = keep_or entry.session_id fields.session_id;
      stream = fields.stream;
      enqueued_at = queued;
      started_at = started;
      completed_at = done;
      queue_depth = left;
      queue_cap = q.capacity;
      retry_allowed = true;
    }
unfolding enqueue start update finish
proxied_entry queued started done depth left entry fields status q d =
    ap (λ e. entry_finished done status left q (entry_known done q k e)) entry_at_finish
    ∙ rw (str_eq-of_ne k "" d)
  where
    k : String
    k = entry.request_id

    q₁ : Tracker
    q₁ = (enqueue queued entry q).0

    q₂ : Tracker
    q₂ = (start started k depth q₁).0

    entry_at_finish :
        entry_of k (update k fields q₂).0
        ≡ entry_updated fields (entry_started started depth q (entry_enqueued queued q entry))
    entry_at_finish =
        entry_of-update q₂ k fields
        ∙ ap (entry_updated fields) (
            entry_of-start q₁ started k depth
            ∙ ap (entry_started started depth q) (entry_of-enqueue q queued entry))
