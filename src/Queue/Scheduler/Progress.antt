-- ===== src/Queue/Scheduler/Progress.antt =====
-- internal/httpapi/queue.go: a step of the scheduler serves a waiter or brings it nearer.
use llama_wrangler.Common.{
  ℕ, zero, suc, ◌+◌, ◌-◌, ◌≤◌, ◌<◌, ◌≡◌, ◌≢◌, refl, sym, subst, ◌⊎◌, inl, inr, true, false, ◌&&◌,
  String, List, [], ◌∷◌, ◌++◌, arith, if◌then◌else◌, ltb, is_empty, length, Bool-cases,
}
use llama_wrangler.Queue.Priority.{Priority, weighted_priority}
use llama_wrangler.Queue.Scheduler.{
  Waiter, Scheduler, dispatch_one, dispatch_loop, dispatch_locked, can_dispatch, enter, abandon,
  release, remove_waiter, has_ticket, Event, enters, abandons, releases, reconfigures, step,
}
use llama_wrangler.Queue.Scheduler.Dispatch.{dispatch_one_lem}
use llama_wrangler.Queue.Scheduler.Invariant.{IsSound, step-IsSound}
use llama_wrangler.Queue.Scheduler.Rank.{holds, ahead}
use llama_wrangler.Queue.Scheduler.Fairness.{rank, holds-length, dispatch_one_nearer}

-- A ticket in the queue of a scheduler that works by weights and is not over its capacity.
pub record Waits (t : ℕ) (p : Priority) (s : Scheduler) : Type 0 where
  pub sound : IsSound s
  pub weighted : s.policy ≡ weighted_priority
  pub within : s.active ≤ s.capacity
  pub here : holds t p s.waiting ≡ true

-- With one slot free and somebody waiting, the dispatcher makes one round.
dispatch_locked-one :
    (s : Scheduler)
    → suc s.active ≡ s.capacity
    → 0 < length s.waiting
    → dispatch_locked s ≡ dispatch_one s
unfolding dispatch_locked dispatch_loop
dispatch_locked-one s e h = go (length s.waiting) h
  where
    stops : (t : Scheduler) → t.capacity ≤ t.active → (m : ℕ) → dispatch_loop m t ≡ t
    stops t full zero = refl
    stops t full (suc m) =
        let shut : can_dispatch t ≡ false = ground arith in rw (shut, dispatch_loop)

    go : (n : ℕ) → 0 < n → dispatch_loop n s ≡ dispatch_one s
    go zero pos = elim pos [ ]
    go (suc n) pos =
        let open' : can_dispatch s ≡ true = grind arith in
        let (w, got, d) = dispatch_one_lem s h in
        rw (open', dispatch_loop)
          (stops (dispatch_one s)
            (subst (λ (t : Scheduler). t.capacity ≤ t.active) (sym d) (omega arith)) n)

pub has_ticket_mono :
    (t u : ℕ) (us : List ℕ) → has_ticket t us ≡ true → has_ticket t (u ∷ us) ≡ true
has_ticket_mono t u us h = ground arith

holds-append :
    (t : ℕ) (p : Priority) (ws xs : List Waiter)
    → holds t p ws ≡ true
    → (holds t p (ws ++ xs) ≡ true) × (ahead t p (ws ++ xs) ≡ ahead t p ws)
holds-append t p [] xs h = cc
holds-append t p (w ∷ ws) xs h = ground (arith, holds-append t p ws xs)

holds-remove_waiter :
    (t u : ℕ) (p : Priority) (ws : List Waiter)
    → u ≢ t
    → holds t p ws ≡ true
    → (holds t p (remove_waiter u ws) ≡ true) × (ahead t p (remove_waiter u ws) ≤ ahead t p ws)
unfolding remove_waiter
holds-remove_waiter t u p [] d h = cc
holds-remove_waiter t u p (w ∷ ws) d h = ground (arith, holds-remove_waiter t u p ws)

-- The calls of other requests; the settings stay.
abbrev pub IsOther : ℕ → Event → Type 0
IsOther t (enters request_id priority) = Unit {0}
IsOther t (abandons u) = u ≢ t
IsOther t releases = Unit {0}
IsOther t (reconfigures capacity routing) = ⊥

abbrev pub cost : Event → ℕ
cost releases = 1
cost _ = 0

abbrev pub release_count : List Event → ℕ
release_count [] = 0
release_count (e ∷ es) = cost e + release_count es

abbrev Progress : ℕ → Priority → Scheduler → Event → Type 0
Progress t p s e =
    (has_ticket t (step s e).ready ≡ true)
    ⊎ (Waits t p (step s e) × (rank t p (step s e) + cost e ≤ rank t p s))

module _ (t : ℕ) (p : Priority) (s : Scheduler) (waits : Waits t p s) where
  full : (s.active ≡ s.capacity) × (0 < s.active) × (0 < length s.waiting)
  full =
      let h = holds-length t p s.waiting waits.here in
      (
        omega (arith, h, waits.sound.busy, waits.within),
        omega (arith, h, waits.sound.busy, waits.sound.room),
        h,
      )

  enters-Progress : (request_id priority : String) → Progress t p s (enters request_id priority)
  unfolding step enter
  enters-Progress request_id priority =
      let (full', _, _) = full in
      let shut : (ltb s.active s.capacity && is_empty s.waiting) ≡ false = ground arith in
      let (kept, stay) = holds-append t p s.waiting _ waits.here in
      inr (
        record {
          sound = step-IsSound s (enters request_id priority) waits.sound;
          weighted = rw (shut, step, enter) waits.weighted;
          within = rw (shut, step, enter) waits.within;
          here = rw (shut, step, enter) kept;
        },
        rw (shut, step, enter) (rw stay (omega arith)),
      )

  abandons-Progress : (u : ℕ) → u ≢ t → Progress t p s (abandons u)
  unfolding step abandon
  abandons-Progress u d = elim (Bool-cases (has_ticket u s.ready)) [
    | inl e ↦ inr (rw (e, step, abandon) waits, rw (e, step, abandon) (omega arith))
    | inr e ↦
        let (kept, less) = holds-remove_waiter t u p s.waiting d waits.here in
        inr (
          record {
            sound = step-IsSound s (abandons u) waits.sound;
            weighted = rw (e, step, abandon) waits.weighted;
            within = rw (e, step, abandon) waits.within;
            here = rw (e, step, abandon) kept;
          },
          rw (e, step, abandon) (grind (arith, less)),
        )
  ]

  freed : Scheduler
  freed = record s { active = if ltb 0 s.active then s.active - 1 else s.active }

  release-dispatch_one : release s ≡ dispatch_one freed
  unfolding release freed
  release-dispatch_one =
      let (full', pos, some') = full in dispatch_locked-one freed (ground arith) some'

  releases-Progress : Progress t p s releases
  unfolding step freed
  releases-Progress =
      let turning = waits.sound.turning in
      let (w, got, d) = dispatch_one_lem freed (holds-length t p s.waiting waits.here) in
      let (full', pos, some') = full in
      elim (dispatch_one_nearer t p freed (record { inside = turning.inside; slot = turning.slot })
        waits.weighted waits.here) [
          | inl served ↦ inl (rw release-dispatch_one served)
          | inr (kept, less) ↦ inr (
            record {
              sound = step-IsSound s releases waits.sound;
              weighted = rw release-dispatch_one (rw d waits.weighted);
              within = rw release-dispatch_one (rw d (ground arith));
              here = rw release-dispatch_one kept;
            },
            rw release-dispatch_one (omega (arith, less)),
          )
        ]

pub step-Progress :
    (t : ℕ) (p : Priority) (s : Scheduler) (e : Event)
    → Waits t p s
    → IsOther t e
    → Progress t p s e
step-Progress t p s (enters request_id priority) w o = enters-Progress t p s w request_id priority
step-Progress t p s (abandons u) w o = abandons-Progress t p s w u o
step-Progress t p s releases w o = releases-Progress t p s w
step-Progress t p s (reconfigures capacity routing) w o = absurd o
