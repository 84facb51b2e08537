-- ===== src/Auth/Limiter.antt =====
-- internal/httpapi/auth_limiter.go. Times and durations are nanoseconds; the time 0 is Go's zero
-- time, and `l.now()` is the argument `now`. `now.Sub(t) > d` is written `t + d < now`.
-- `net.SplitHostPort` is the argument `split_host_port`: the host, or none where it reports an error.
pub mod Lockout
pub mod BruteForce
pub mod Exact
pub mod Cooldown
use llama_wrangler.Common.{
  ℕ, ◌+◌, ◌-◌, ◌/◌, [], Bool, true, false, not, ◌&&◌, ◌||◌, String, Option, none, some, ltb, leb,
  ◌==◌, if◌then◌else◌,
}
use Prim.Native.String.{◌++◌ as append_text}
use llama_wrangler.Common.Int.{ℤ, positive_or}
use llama_wrangler.Common.Text.{str_eq}
use llama_wrangler.Common.Dict.{Dict, lookup, insert, erase}

pub record Attempt : Type 0 where
  pub count : ℕ
  pub first_seen : ℕ
  pub blocked_until : ℕ

abbrev pub zero_attempt : Attempt
zero_attempt = record { count = 0; first_seen = 0; blocked_until = 0 }

pub record Limiter : Type 0 where
  pub attempts : Dict Attempt
  pub max : ℕ
  pub window : ℕ
  pub cooldown : ℕ

unfoldable pub new_auth_failure_limiter : ℤ → ℤ → ℤ → Limiter
new_auth_failure_limiter max window cooldown = record {
  attempts = [];
  max = positive_or max 5;
  window = positive_or window 60_000_000_000;
  cooldown = positive_or cooldown 30_000_000_000;
}

-- The key of a failure: the scope and the host of the remote address.
unfoldable pub auth_failure_key : (String → Option String) → String → String → String
auth_failure_key split_host_port scope remote_addr =
    let host : String = elim (split_host_port remote_addr) [ none ↦ remote_addr | some h ↦ h ] in
    append_text scope (append_text ":" (if str_eq host "" then "unknown" else host))

abbrev pub attempt_or_zero : Option Attempt → Attempt
attempt_or_zero none = zero_attempt
attempt_or_zero (some a) = a

abbrev pub is_blocked : ℕ → Attempt → Bool
is_blocked now a = not (a.blocked_until == 0) && ltb now a.blocked_until

abbrev pub is_over : ℕ → ℕ → Attempt → Bool
is_over now window a = a.first_seen == 0 || ltb (a.first_seen + window) now

-- The attempt that `registerFailure` counts: a new one when the window is over.
abbrev pub counted : ℕ → ℕ → Attempt → Attempt
counted now window a =
    let b =
      if is_over now window a
      then record { count = 0; first_seen = now; blocked_until = 0 }
      else a in
    record b { count = b.count + 1 }

-- `registerFailure` from the attempt on: what it stores, if it stores anything, and its answer.
unfoldable pub count_failure : ℕ → Limiter → Attempt → Option Attempt × (Bool × ℕ)
count_failure now l a =
    if is_blocked now a
    then (none, (true, a.blocked_until - now))
    else let b = counted now l.window a in
      if leb l.max b.count
      then (some (record b { blocked_until = now + l.cooldown }), (true, l.cooldown))
      else (some b, (false, 0))

abbrev pub store : String → Limiter → Option Attempt → Limiter
store key l none = l
store key l (some a) = record l { attempts = insert key a l.attempts }

unfoldable pub register_failure : ℕ → String → Limiter → Limiter × (Bool × ℕ)
register_failure now key l =
    let (stored, answer) = count_failure now l (attempt_or_zero (lookup key l.attempts)) in
    (store key l stored, answer)

unfoldable pub reset : String → Limiter → Limiter
reset key l = record l { attempts = erase key l.attempts }

pub record Metadata : Type 0 where
  pub max_failures : ℕ
  pub window_seconds : ℕ
  pub cooldown_seconds : ℕ

-- `int(d.Seconds())` of a positive duration.
unfoldable pub metadata : Limiter → Metadata
metadata l = record {
  max_failures = l.max;
  window_seconds = l.window / 1_000_000_000;
  cooldown_seconds = l.cooldown / 1_000_000_000;
}

-- `d.Round(time.Second).Seconds()`: to the nearest second, a half away from zero; at least 1.
unfoldable pub retry_after_seconds : ℕ → ℕ
retry_after_seconds d =
    let seconds = (d + 500_000_000) / 1_000_000_000 in if ltb seconds 1 then 1 else seconds
