-- ===== src/Queue/Scheduler/Rank.antt =====
-- internal/httpapi/queue.go: how many rounds of the dispatcher a waiter can be passed over.
use llama_wrangler.Common.{
  ℕ, zero, suc, ◌+◌, ◌%◌, ◌≤◌, ◌<◌, ◌≡◌, ◌⊎◌, inl, inr, Bool, true, false, List, [], ◌∷◌, some,
  arith, if◌then◌else◌, ◌==◌, length, remove_at, Bool-cases, Option-cases,
}
use llama_wrangler.Queue.Priority.{Priority, same_priority}
use llama_wrangler.Queue.Scheduler.{Waiter, find_priority, scan, get_elem?}
use llama_wrangler.Queue.Scheduler.Distance.{
  same_priority-eq, slot_at, distance, found, distance_more,
}

-- The waiter of the ticket stands in the queue, with the priority.
abbrev pub holds : ℕ → Priority → List Waiter → Bool
holds t p [] = false
holds t p (w ∷ ws) = if w.ticket == t then same_priority w.priority p else holds t p ws

-- The waiters of the same priority that stand before the ticket.
abbrev pub ahead : ℕ → Priority → List Waiter → ℕ
ahead t p [] = 0
ahead t p (w ∷ ws) =
    if w.ticket == t
    then 0
    else if same_priority w.priority p
    then suc (ahead t p ws)
    else ahead t p ws

pub find_priority-of_holds :
    (t : ℕ) (p : Priority) (ws : List Waiter)
    → holds t p ws ≡ true
    → (i : ℕ) × (find_priority p ws ≡ some i)
unfolding find_priority
find_priority-of_holds t p [] h = cc
find_priority-of_holds t p (w ∷ ws) h = elim (Bool-cases (same_priority w.priority p)) [
  | inl e ↦ (0, rw (e, find_priority))
  | inr e ↦
      let later : holds t p ws ≡ true = ground arith in
      let (i, f) = find_priority-of_holds t p ws later in (suc i, rw (e, find_priority) (rw f))
]

pub find_priority-priority :
    (p : Priority) (ws : List Waiter) (i : ℕ) (w : Waiter)
    → find_priority p ws ≡ some i
    → get_elem? ws i ≡ some w
    → w.priority ≡ p
unfolding find_priority
find_priority-priority p [] i w f g = cc
find_priority-priority p (v ∷ ws) zero w f g =
    ground (arith, same_priority-eq v.priority p, Option-cases (find_priority p ws))
find_priority-priority p (v ∷ ws) (suc i) w f g =
    ground (arith, find_priority-priority p ws i w, Option-cases (find_priority p ws))

-- Taking the first waiter of the priority serves the ticket, or moves it up by one.
pub remove_at_first :
    (t : ℕ) (p : Priority) (ws : List Waiter) (i : ℕ) (w : Waiter)
    → find_priority p ws ≡ some i
    → get_elem? ws i ≡ some w
    → holds t p ws ≡ true
    → (w.ticket ≡ t)
      ⊎ ((holds t p (remove_at i ws) ≡ true) × (suc (ahead t p (remove_at i ws)) ≡ ahead t p ws))
unfolding find_priority
remove_at_first t p [] i w f g h = cc
remove_at_first t p (v ∷ ws) zero w f g h = ground (arith, Option-cases (find_priority p ws))
remove_at_first t p (v ∷ ws) (suc i) w f g h =
    ground (arith, remove_at_first t p ws i w, Option-cases (find_priority p ws))

-- Taking a waiter of another priority leaves its place as it was.
pub remove_at_other :
    (t : ℕ) (p : Priority) (ws : List Waiter) (i : ℕ) (w : Waiter)
    → get_elem? ws i ≡ some w
    → same_priority w.priority p ≡ false
    → holds t p ws ≡ true
    → (holds t p (remove_at i ws) ≡ true) × (ahead t p (remove_at i ws) ≡ ahead t p ws)
remove_at_other t p [] i w g d h = cc
remove_at_other t p (v ∷ ws) zero w g d h = ground arith
remove_at_other t p (v ∷ ws) (suc i) w g d h = ground (arith, remove_at_other t p ws i w g d)

-- A scan takes the first waiter of `p`, or another one and comes nearer to a slot of `p`.
pub scan_nearer :
    (p : Priority) (schedule : List Priority) (ws : List Waiter) (first tries c : ℕ)
    → find_priority p ws ≡ some first
    → found tries p schedule c ≡ true
    → tries ≤ length schedule
    → ((scan tries schedule ws c).0 ≡ first)
      ⊎ ((q : Priority) × (find_priority q ws ≡ some (scan tries schedule ws c).0)
          × (same_priority q p ≡ false)
          × (distance (length schedule) p schedule (scan tries schedule ws c).1
              < distance tries p schedule c))
unfolding scan found distance
scan_nearer p schedule ws first zero c f h le = cc
scan_nearer p schedule ws first (suc tries) c f h le =
    let next = (c + 1) % length schedule in
    elim (Bool-cases (same_priority (slot_at schedule c) p)) [
      | inl e ↦
          let same : slot_at schedule c ≡ p = same_priority-eq (slot_at schedule c) p e in
          inl (rw (same, scan) (rw (f, scan)))
      | inr e ↦
          let ahead' : found tries p schedule next ≡ true = ground arith in
          let further : distance (suc tries) p schedule c ≡ suc (distance tries p schedule next) =
            ground arith in
          elim (Option-cases (find_priority (slot_at schedule c) ws)) [
            | inl miss ↦
                rw (miss, scan)
                  (elim (scan_nearer p schedule ws first tries next f ahead' (omega arith)) [
                    | inl same ↦ inl same
                    | inr (q, hit, other, less) ↦ inr (q, hit, other, omega (arith, further, less))
                  ])
            | inr (i, hit) ↦
                rw (hit, scan)
                  (inr (
                    slot_at schedule c,
                    hit,
                    e,
                    omega (
                      arith,
                      further,
                      distance_more tries (length schedule) p schedule next ahead' (omega arith),
                    ),
                  ))
          ]
    ]
