-- ===== src/Queue/Scheduler/Fairness.antt =====
-- internal/httpapi/queue.go: no waiter is passed over for ever under the weighted policy.
use llama_wrangler.Common.{
  ℕ, suc, ◌+◌, ◌*◌, ◌<◌, ◌≡◌, refl, sym, ap, subst, ◌∙◌, ◌⊎◌, inl, inr, true, false, List, [], ◌∷◌,
  some, arith, length, remove_at,
}
use llama_wrangler.Queue.Priority.{Priority, weighted_priority, same_priority}
use llama_wrangler.Queue.Scheduler.{
  Waiter, Scheduler, find_priority, scan, next_waiter_index, get_elem?, dispatch_one, has_ticket,
}
use llama_wrangler.Queue.Scheduler.Dispatch.{dispatch_one_lem}
use llama_wrangler.Queue.Scheduler.Cycle.{IsTurning, dispatch_one-IsTurning}
use llama_wrangler.Queue.Scheduler.Distance.{distance, distance-lt, found_in_turn}
use llama_wrangler.Queue.Scheduler.Rank.{
  holds, ahead, find_priority-of_holds, find_priority-priority, remove_at_first, remove_at_other,
  scan_nearer,
}

abbrev pub rank : ℕ → Priority → Scheduler → ℕ
rank t p s =
    ahead t p s.waiting * length s.schedule + distance (length s.schedule) p s.schedule s.cursor

pub holds-length : (t : ℕ) (p : Priority) (ws : List Waiter) → holds t p ws ≡ true → 0 < length ws
holds-length t p [] h = cc
holds-length t p (w ∷ ws) h = omega arith

weighted-scan :
    (s : Scheduler)
    → s.policy ≡ weighted_priority
    → 0 < length s.schedule
    → next_waiter_index s ≡ scan (length s.schedule) s.schedule s.waiting s.cursor
unfolding next_waiter_index
weighted-scan s e h = go s.schedule refl
  where
    go :
        (l : List Priority)
        → s.schedule ≡ l
        → next_waiter_index s ≡ scan (length s.schedule) s.schedule s.waiting s.cursor
    go [] q = absurd (omega (arith, ap length q))
    go (x ∷ xs) q = rw (e, next_waiter_index) (rw q)

has_ticket_head : (t u : ℕ) (us : List ℕ) → u ≡ t → has_ticket t (u ∷ us) ≡ true
has_ticket_head t u us e = ground arith

-- The two ways of a round, on the values that it leaves.
module _ (t : ℕ) (p : Priority) (s : Scheduler) (i c : ℕ) (w : Waiter)
    (got : get_elem? s.waiting i ≡ some w) (h : holds t p s.waiting ≡ true) where
  abbrev Nearer : Type 0
  Nearer =
      (has_ticket t (w.ticket ∷ s.ready) ≡ true)
      ⊎ ((holds t p (remove_at i s.waiting) ≡ true)
          × (ahead t p (remove_at i s.waiting) * length s.schedule
                + distance (length s.schedule) p s.schedule c
              < rank t p s))

  nearer_first :
      find_priority p s.waiting ≡ some i
      → distance (length s.schedule) p s.schedule c < length s.schedule
      → Nearer
  nearer_first f less = elim (remove_at_first t p s.waiting i w f got h) [
    | inl e ↦ inl (has_ticket_head t w.ticket s.ready e)
    | inr (kept, up) ↦ inr (kept, shrink (ahead t p (remove_at i s.waiting)) _ up)
  ]
    where
      shrink :
          (a' a : ℕ)
          → suc a' ≡ a
          → a' * length s.schedule + distance (length s.schedule) p s.schedule c
            < a * length s.schedule + distance (length s.schedule) p s.schedule s.cursor
      shrink a' a e = rw (← e) (omega arith)

  nearer_other :
      (q : Priority)
      → find_priority q s.waiting ≡ some i
      → same_priority q p ≡ false
      → distance (length s.schedule) p s.schedule c
        < distance (length s.schedule) p s.schedule s.cursor
      → Nearer
  nearer_other q f other less =
      let same = find_priority-priority q s.waiting i w f got in
      let differs : same_priority w.priority p ≡ false = rw same other in
      let (kept, stay) = remove_at_other t p s.waiting i w got differs h in
      inr (kept, rw stay (omega arith))

-- One round of the dispatcher serves the ticket or brings its turn nearer.
pub dispatch_one_nearer :
    (t : ℕ) (p : Priority) (s : Scheduler)
    → IsTurning s
    → s.policy ≡ weighted_priority
    → holds t p s.waiting ≡ true
    → (has_ticket t (dispatch_one s).ready ≡ true)
      ⊎ ((holds t p (dispatch_one s).waiting ≡ true) × (rank t p (dispatch_one s) < rank t p s))
dispatch_one_nearer t p s turning weighted h =
    let (first, f) = find_priority-of_holds t p s.waiting h in
    let (w, got, d) = dispatch_one_lem s (holds-length t p s.waiting h) in
    let turned = dispatch_one-IsTurning s (holds-length t p s.waiting h) turning in
    let turned' = subst IsTurning d turned in
    let met = found_in_turn p s.schedule s.cursor turning.inside (turning.slot p) in
    let scanned = weighted-scan s weighted (omega (arith, turning.inside)) in
    let i = (next_waiter_index s).0 in
    let c = (next_waiter_index s).1 in
    rw d
      (elim (scan_nearer p s.schedule s.waiting first (length s.schedule) s.cursor f met
        (omega arith)) [
          | inl same ↦
              nearer_first t p s i c w got h (f ∙ ap some (sym (ap (λ r. r.0) scanned ∙ same))) (
                distance-lt (length s.schedule) p s.schedule c
                  (found_in_turn p s.schedule c turned'.inside (turning.slot p)))
          | inr (q, hit, other, less) ↦
              nearer_other t p s i c w got h q (hit ∙ ap some (sym (ap (λ r. r.0) scanned))) other
                (rw scanned less)
        ])
