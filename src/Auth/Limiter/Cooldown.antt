-- ===== src/Auth/Limiter/Cooldown.antt =====
-- internal/httpapi/auth_limiter.go: how long a block lasts, and what it leaves alone.
use llama_wrangler.Common.{
  ℕ, ◌+◌, ◌-◌, ◌*◌, ◌≤◌, ◌<◌, ◌≡◌, ◌≢◌, refl, true, false, String, Option, none, some, arith,
}
use Prim.Native.Nat.{max}
use llama_wrangler.Common.Text.{str_eq, eq_iff, eq_refl}
use llama_wrangler.Common.Dict.{lookup-insert, lookup-erase}
use llama_wrangler.Auth.Limiter.{
  Attempt, Limiter, zero_attempt, is_blocked, count_failure, store, register_failure, reset,
  retry_after_seconds,
}
use llama_wrangler.Auth.Limiter.Lockout.{attempt_of, stored_attempt, register_failure-attempt}

blocked_answer :
    (now : ℕ) (key : String) (l : Limiter)
    → is_blocked now (attempt_of key l) ≡ true
    → register_failure now key l ≡ (l, (true, (attempt_of key l).blocked_until - now))
unfolding register_failure count_failure
blocked_answer now key l h = rw (h, register_failure, count_failure) refl

blocks_until :
    (now : ℕ) (l : Limiter) (a : Attempt)
    → is_blocked now a ≡ false
    → (count_failure now l a).1.0 ≡ true
    → (stored_attempt a (count_failure now l a).0).blocked_until ≡ now + l.cooldown
unfolding count_failure stored_attempt
blocks_until now l a h e = ground arith

-- When a failure sets a block, every failure of the key before the cooldown is over is answered as
-- blocked, with the time that is left, and changes nothing: it does not prolong the block.
pub cooldown_holds :
    (now later : ℕ) (key : String) (l : Limiter)
    → is_blocked now (attempt_of key l) ≡ false
    → (register_failure now key l).1.0 ≡ true
    → later < now + l.cooldown
    → let l' = (register_failure now key l).0 in
      register_failure later key l' ≡ (l', (true, now + l.cooldown - later))
unfolding register_failure
cooldown_holds now later key l h e lt =
    let l' = (register_failure now key l).0 in
    let until : (attempt_of key l').blocked_until ≡ now + l.cooldown =
      rw (register_failure-attempt now key l) (blocks_until now l (attempt_of key l) h e) in
    let shut : is_blocked later (attempt_of key l') ≡ true = rw until (grind arith) in
    rw (← until) (blocked_answer later key l' shut)

-- A failure of one key and a `reset` of it leave every other key as it was; a `reset` forgets the
-- key's failures.
pub other_keys :
    (now : ℕ) (key other : String) (l : Limiter)
    → other ≢ key
    → (attempt_of other (register_failure now key l).0 ≡ attempt_of other l)
      × (attempt_of other (reset key l) ≡ attempt_of other l)
      × (attempt_of key (reset key l) ≡ zero_attempt)
unfolding register_failure reset
other_keys now key other l d = (
  kept (count_failure now l (attempt_of key l)).0,
  rw (lookup-erase key other) (rw differs),
  rw (lookup-erase key key) (rw (eq_refl key)),
)
  where
    differs : str_eq key other ≡ false
    differs = ground (arith, eq_iff key other)

    kept : (o : Option Attempt) → attempt_of other (store key l o) ≡ attempt_of other l
    kept none = refl
    kept (some b) = rw (lookup-insert key other b) (rw differs)

-- The `Retry-After` header is a whole number of seconds, at least 1, and otherwise within half a
-- second of the time that is left, above or below.
pub retry_after_bounds :
    (d : ℕ)
    → (1 ≤ retry_after_seconds d)
      × (d ≤ retry_after_seconds d * 1_000_000_000 + 499_999_999)
      × (retry_after_seconds d * 1_000_000_000 ≤ max 1_000_000_000 (d + 500_000_000))
unfolding retry_after_seconds
retry_after_bounds d = ground arith
