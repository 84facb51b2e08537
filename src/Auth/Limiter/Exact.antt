-- ===== src/Auth/Limiter/Exact.antt =====
-- internal/httpapi/auth_limiter.go: when a key is locked out, for how long, and which keys are not.
use llama_wrangler.Common.{
  ℕ, suc, ◌+◌, ◌-◌, ◌≤◌, ◌<◌, ◌≡◌, ◌≢◌, ◌⊎◌, Bool, true, false, String, List, [], ◌∷◌, arith, leb,
  length, All,
}
use Prim.Native.Nat.{min}
use native.Mathlib.Decide.{dec_lt}
use llama_wrangler.Auth.Limiter.{Attempt, Limiter, zero_attempt, count_failure, register_failure}
use llama_wrangler.Auth.Limiter.Lockout.{
  attempt_of, unblocked, stored_attempt, register_failure-attempt, register_failure-max,
}

-- A block is set only where the limit is reached.
abbrev pub IsHonest : ℕ → Attempt → Type 0
IsHonest limit a = (a.blocked_until ≡ 0) ⊎ (limit ≤ a.count)

-- One failure by the end of the window on record, under the limit and at it.
record Exact (l : Limiter) (a b : Attempt) (blocked : Bool) : Type 0 where
  pub same_window : b.first_seen ≡ a.first_seen
  pub honest : IsHonest l.max b
  pub under : a.count + 1 < l.max → (blocked ≡ false) × (b.count ≡ a.count + 1)
  pub at_limit : l.max ≤ a.count + 1 → (blocked ≡ true) × (l.max ≤ b.count + 1)

count_failure-Exact :
    (now : ℕ) (l : Limiter) (a : Attempt)
    → a.first_seen ≢ 0
    → now ≤ a.first_seen + l.window
    → IsHonest l.max a
    → Exact l a (stored_attempt a (count_failure now l a).0) (count_failure now l a).1.0
unfolding count_failure stored_attempt
count_failure-Exact now l a f w h = record {
  same_window = ground arith;
  honest = ground arith;
  under = ground arith;
  at_limit = ground arith;
}

step-Exact :
    (now : ℕ) (key : String) (l : Limiter)
    → (attempt_of key l).first_seen ≢ 0
    → now ≤ (attempt_of key l).first_seen + l.window
    → IsHonest l.max (attempt_of key l)
    → Exact l
        (attempt_of key l)
        (attempt_of key (register_failure now key l).0)
        (register_failure now key l).1.0
unfolding register_failure
step-Exact now key l f w h =
    rw (register_failure-attempt now key l) (count_failure-Exact now l (attempt_of key l) f w h)

window_exact :
    (key : String) (times : List ℕ) (l : Limiter)
    → (attempt_of key l).first_seen ≢ 0
    → All (λ now. now ≤ (attempt_of key l).first_seen + l.window) times
    → IsHonest l.max (attempt_of key l)
    → unblocked key times l ≡ min (length times) (l.max - 1 - (attempt_of key l).count)
unfolding unblocked
window_exact key [] l f a h = omega arith
window_exact key (now ∷ times) l f a h =
    let l' = (register_failure now key l).0 in
    let c = step-Exact now key l f a.0 h in
    let m = register_failure-max now key l in
    let f' : (attempt_of key l').first_seen ≢ 0 = rw c.same_window f in
    let a' : All (λ t. t ≤ (attempt_of key l').first_seen + l'.window) times =
      rw (c.same_window, m.1) a.1 in
    let h' : IsHonest l'.max (attempt_of key l') = rw m.0 c.honest in
    let ih = window_exact key times l' f' a' h' in
    elim (dec_lt ((attempt_of key l).count + 1) l.max) [
      | yes less ↦
          let (free, more) = c.under less in rw (free, unblocked) (omega (arith, ih, m.0, more))
      | no full ↦
          let (shut, more) = c.at_limit (omega arith) in
          rw (shut, unblocked) (omega (arith, ih, m.0, more))
    ]

-- A failure of a key with no attempt on record.
first_failure :
    (now : ℕ) (l : Limiter)
    → let (o, answer) = count_failure now l zero_attempt in
      ((stored_attempt zero_attempt o).first_seen ≡ now)
      × ((stored_attempt zero_attempt o).count ≡ 1)
      × IsHonest l.max (stored_attempt zero_attempt o)
      × (answer.0 ≡ leb l.max 1)
unfolding count_failure stored_attempt
first_failure now l = ground arith

-- Lockout. From a key with nothing on record, of the failures that come by the end of the window
-- that the first one opens, the first ones under the limit go unblocked, and every other is blocked.
pub lockout :
    (key : String) (now : ℕ) (times : List ℕ) (l : Limiter)
    → 0 < now
    → attempt_of key l ≡ zero_attempt
    → All (λ s. s ≤ now + l.window) times
    → unblocked key (now ∷ times) l ≡ min (suc (length times)) (l.max - 1)
unfolding unblocked register_failure
lockout key now times l positive e a =
    let l' = (register_failure now key l).0 in
    let first = first_failure now l in
    let stored = register_failure-attempt now key l in
    let m = register_failure-max now key l in
    let seen : (attempt_of key l').first_seen ≡ now = rw (stored, e) first.0 in
    let one : (attempt_of key l').count ≡ 1 = rw (stored, e) first.1 in
    let honest : IsHonest l'.max (attempt_of key l') = rw (m.0, stored, e) first.2 in
    let answer : (register_failure now key l).1.0 ≡ leb l.max 1 = rw e first.3 in
    let f' : (attempt_of key l').first_seen ≢ 0 = omega (arith, seen) in
    let a' : All (λ s. s ≤ (attempt_of key l').first_seen + l'.window) times = rw (seen, m.1) a in
    let rest = window_exact key times l' f' a' honest in
    elim (dec_lt 1 l.max) [
      | yes more ↦
          let free : (register_failure now key l).1.0 ≡ false = rw answer (ground arith) in
          rw (free, unblocked) (omega (arith, rest, m.0, one))
      | no few ↦
          let shut : (register_failure now key l).1.0 ≡ true = rw answer (ground arith) in
          rw (shut, unblocked) (omega (arith, rest, m.0, one))
    ]
