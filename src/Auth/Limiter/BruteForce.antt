-- ===== src/Auth/Limiter/BruteForce.antt =====
-- internal/httpapi/auth_limiter.go: how many guesses a host gets in a period of one window.
use llama_wrangler.Common.{
  ℕ, ◌+◌, ◌-◌, ◌*◌, ◌≤◌, ◌<◌, ◌≡◌, ◌≢◌, refl, ap, ◌⊎◌, inl, inr, Bool, true, false, String, List,
  [], ◌∷◌, arith, All, Bool-cases,
}
use llama_wrangler.Auth.Limiter.{
  Attempt, Limiter, is_blocked, is_over, count_failure, register_failure,
}
use llama_wrangler.Auth.Limiter.Lockout.{
  attempt_of, unblocked, stored_attempt, register_failure-attempt, register_failure-max,
  step-Counts,
}

-- Failures by the end of the window on record: at most what is left of the limit goes unblocked.
window_bound :
    (key : String) (times : List ℕ) (l : Limiter)
    → (attempt_of key l).first_seen ≢ 0
    → All (λ now. now ≤ (attempt_of key l).first_seen + l.window) times
    → unblocked key times l ≤ l.max - 1 - (attempt_of key l).count
unfolding unblocked
window_bound key [] l f a = omega arith
window_bound key (now ∷ times) l f a =
    let c = step-Counts now key l f a.0 in
    let l' = (register_failure now key l).0 in
    let m = register_failure-max now key l in
    let f' : (attempt_of key l').first_seen ≢ 0 = rw c.same_window f in
    let a' : All (λ t. t ≤ (attempt_of key l').first_seen + l'.window) times =
      rw (c.same_window, m.1) a.1 in
    let ih = window_bound key times l' f' a' in
    elim (Bool-cases (register_failure now key l).1.0) [
      | inl e ↦ rw (e, unblocked) (omega (arith, ih, m.0, c.no_less))
      | inr e ↦ rw (e, unblocked) (omega (arith, ih, m.0, c.free e))
    ]

-- A failure when the window on record is over, or none is on record, opens a window at its time.
record Opens (now : ℕ) (l : Limiter) (b : Attempt) (blocked : Bool) : Type 0 where
  pub opened : b.first_seen ≡ now
  pub one : b.count ≡ 1
  pub free : blocked ≡ false → 1 < l.max

-- What a failure does, in any state.
count_failure_cases :
    (now : ℕ) (l : Limiter) (a : Attempt)
    → let (o, answer) = count_failure now l a in
      ((answer.0 ≡ true) × (stored_attempt a o ≡ a))
      ⊎ Opens now l (stored_attempt a o) answer.0
      ⊎ ((a.first_seen ≢ 0) × (now ≤ a.first_seen + l.window))
unfolding count_failure stored_attempt
count_failure_cases now l a = elim (Bool-cases (is_blocked now a)) [
  | inl e ↦ inl (rw e refl, rw e refl)
  | inr e ↦ elim (Bool-cases (is_over now l.window a)) [
    | inl o ↦ inr (inl (record { opened = ground arith; one = ground arith; free = ground arith }))
    | inr o ↦ inr (inr (λ z. grind arith, grind arith))
  ]
]

step_cases :
    (now : ℕ) (key : String) (l : Limiter)
    → let (l', answer) = register_failure now key l in
      ((answer.0 ≡ true) × (attempt_of key l' ≡ attempt_of key l))
      ⊎ Opens now l (attempt_of key l') answer.0
      ⊎ (((attempt_of key l).first_seen ≢ 0) × (now ≤ (attempt_of key l).first_seen + l.window))
unfolding register_failure
step_cases now key l =
    rw (register_failure-attempt now key l) (count_failure_cases now l (attempt_of key l))

-- The times of a period of one window that begins at `t`.
abbrev pub IsWithin : ℕ → ℕ → ℕ → Type 0
IsWithin t window now = (t ≤ now) × (now ≤ t + window)

within_opened :
    (t now window : ℕ) (times : List ℕ)
    → t ≤ now
    → All (IsWithin t window) times
    → All (λ s. s ≤ now + window) times
within_opened t now window [] h a = tt
within_opened t now window (s ∷ times) h a = (omega arith, within_opened t now window times h a.1)

module _ (t : ℕ) (positive : 0 < t) (key : String) where
  Bound : List ℕ → Limiter → Type 0
  Bound times l = unblocked key times l ≤ (l.max - 1 - (attempt_of key l).count) + (l.max - 1)

  period-Bound : (times : List ℕ) (l : Limiter) → All (IsWithin t l.window) times → Bound times l
  unfolding Bound unblocked
  period-Bound [] l a = omega arith
  period-Bound (now ∷ times) l a =
      let l' = (register_failure now key l).0 in
      let m = register_failure-max now key l in
      let rest : All (IsWithin t l'.window) times = rw m.1 a.1 in
      let ih = period-Bound times l' rest in
      elim (step_cases now key l) [
        | inl (shut, same) ↦
            let same_count : (attempt_of key l').count ≡ (attempt_of key l).count =
              ap (λ (b : Attempt). b.count) same in
            rw (shut, unblocked) (omega (arith, ih, m.0, same_count))
        | inr (inl opens) ↦
            let seen : (attempt_of key l').first_seen ≢ 0 = omega (arith, opens.opened, a.0) in
            let later : All (λ s. s ≤ (attempt_of key l').first_seen + l'.window) times =
              rw (opens.opened, m.1) (within_opened t now l.window times a.0.0 a.1) in
            let few = window_bound key times l' seen later in
            elim (Bool-cases (register_failure now key l).1.0) [
              | inl e ↦ rw (e, unblocked) (omega (arith, few, m.0, opens.one))
              | inr e ↦ rw (e, unblocked) (omega (arith, few, m.0, opens.one, opens.free e))
            ]
        | inr (inr (seen, inside)) ↦
            let c = step-Counts now key l seen inside in
            elim (Bool-cases (register_failure now key l).1.0) [
              | inl e ↦ rw (e, unblocked) (omega (arith, ih, m.0, c.no_less))
              | inr e ↦ rw (e, unblocked) (omega (arith, ih, m.0, c.free e))
            ]
      ]

-- Brute force. Whatever a key did before, of its failures that follow each other in a period of one
-- window, with no reset of the key (so no valid token) between them, at most twice the limit less one
-- go unblocked: the rest of one window on record, and one window that opens.
pub brute_force_bound :
    (t : ℕ) (key : String) (times : List ℕ) (l : Limiter)
    → 0 < t
    → All (IsWithin t l.window) times
    → unblocked key times l ≤ 2 * (l.max - 1)
unfolding Bound
brute_force_bound t key times l positive a = omega (arith, period-Bound t positive key times l a)
