-- ===== src/Auth/Limiter/Lockout.antt =====
-- internal/httpapi/auth_limiter.go: how many guesses a host gets.
use llama_wrangler.Common.{
  ℕ, ◌+◌, ◌≤◌, ◌<◌, ◌≡◌, ◌≢◌, refl, Bool, false, String, List, [], ◌∷◌, Option, none, some, arith,
  if◌then◌else◌,
}
use llama_wrangler.Common.Text.{eq_refl}
use llama_wrangler.Common.Dict.{lookup, lookup-insert}
use llama_wrangler.Auth.Limiter.{
  Attempt, Limiter, attempt_or_zero, count_failure, store, register_failure,
}

-- The attempt on record for a key.
abbrev pub attempt_of : String → Limiter → Attempt
attempt_of key l = attempt_or_zero (lookup key l.attempts)

-- Failures of one key at the given times: the answers that did not block.
unfoldable pub unblocked : String → List ℕ → Limiter → ℕ
unblocked key [] l = 0
unblocked key (now ∷ times) l =
    let (l', answer) = register_failure now key l in
    (if answer.0 then 0 else 1) + unblocked key times l'

unfoldable pub stored_attempt : Attempt → Option Attempt → Attempt
stored_attempt a none = a
stored_attempt a (some b) = b

pub register_failure-attempt :
    (now : ℕ) (key : String) (l : Limiter)
    → attempt_of key (register_failure now key l).0
      ≡ stored_attempt (attempt_of key l) (count_failure now l (attempt_of key l)).0
unfolding register_failure stored_attempt
register_failure-attempt now key l = go (count_failure now l (attempt_of key l)).0
  where
    go : (o : Option Attempt) → attempt_of key (store key l o) ≡ stored_attempt (attempt_of key l) o
    go none = refl
    go (some b) = rw (lookup-insert key key b) (rw (eq_refl key))

pub register_failure-max :
    (now : ℕ) (key : String) (l : Limiter)
    → ((register_failure now key l).0.max ≡ l.max)
      × ((register_failure now key l).0.window ≡ l.window)
unfolding register_failure
register_failure-max now key l = go (count_failure now l (attempt_of key l)).0
  where
    go : (o : Option Attempt) → ((store key l o).max ≡ l.max) × ((store key l o).window ≡ l.window)
    go none = (refl, refl)
    go (some b) = (refl, refl)

-- What one failure does to the attempt on record, inside its window.
pub record Counts (now : ℕ) (l : Limiter) (a b : Attempt) (blocked : Bool) : Type 0 where
  pub same_window : b.first_seen ≡ a.first_seen
  pub no_less : a.count ≤ b.count
  pub free : blocked ≡ false → (b.count ≡ a.count + 1) × (b.count < l.max)

count_failure-Counts :
    (now : ℕ) (l : Limiter) (a : Attempt)
    → a.first_seen ≢ 0
    → now ≤ a.first_seen + l.window
    → Counts now l a (stored_attempt a (count_failure now l a).0) (count_failure now l a).1.0
unfolding count_failure stored_attempt
count_failure-Counts now l a f w = record {
  same_window = ground arith;
  no_less = ground arith;
  free = ground arith;
}

pub step-Counts :
    (now : ℕ) (key : String) (l : Limiter)
    → (attempt_of key l).first_seen ≢ 0
    → now ≤ (attempt_of key l).first_seen + l.window
    → Counts now l
        (attempt_of key l)
        (attempt_of key (register_failure now key l).0)
        (register_failure now key l).1.0
unfolding register_failure
step-Counts now key l f w =
    rw (register_failure-attempt now key l) (count_failure-Counts now l (attempt_of key l) f w)
