-- ===== src/Auth/Tests.antt =====
-- internal/httpapi/auth_limiter.go and auth.go: small runs, and the theorems at such inputs.
use llama_wrangler.Common.{
  ◌+◌, ◌*◌, ◌≤◌, ◌≡◌, ◌↔◌, refl, ◌⊎◌, true, false, String, [], ◌∷◌, Option, some, arith,
}
use Prim.Native.Nat.{max}
use llama_wrangler.Common.Int.{pos}
use llama_wrangler.Common.Text.{eq_iff}
use llama_wrangler.Common.Dict.{lookup, insert}
use llama_wrangler.Auth.Limiter.{
  Limiter, zero_attempt, new_auth_failure_limiter, count_failure, register_failure, reset,
  retry_after_seconds, auth_failure_key,
}
use llama_wrangler.Auth.Limiter.Lockout.{attempt_of, unblocked}
use llama_wrangler.Auth.Limiter.BruteForce.{brute_force_bound}
use llama_wrangler.Auth.Limiter.Exact.{lockout}
use llama_wrangler.Auth.Limiter.Cooldown.{cooldown_holds, other_keys, retry_after_bounds}
use llama_wrangler.Auth.Gate.{
  Request, AuthState, passes, bearer_token, require_admin, require_client_api_key,
}
use llama_wrangler.Auth.Gate.Laws.{
  IsClientToken, require_admin_passes, require_client_api_key_passes,
}

-- Two failures in ten nanoseconds, then five of rest.
abbrev fresh : Limiter
fresh = record { attempts = []; max = 3; window = 10; cooldown = 5 }

defaults : (new_auth_failure_limiter (pos 0) (pos 0) (pos 0)).max ≡ 5
unfolding new_auth_failure_limiter
defaults = refl

key_test : auth_failure_key (λ s. some "10.0.0.7") "admin" "10.0.0.7:51234" ≡ "admin:10.0.0.7"
unfolding auth_failure_key
key_test = refl

unblocked_test : unblocked "k" (100 ∷ 101 ∷ 102 ∷ 103 ∷ 108 ∷ 114 ∷ []) fresh ≡ 3
unfolding unblocked register_failure count_failure lookup insert
unblocked_test = refl

brute_force_bound_example : unblocked "k" (100 ∷ 101 ∷ 102 ∷ 103 ∷ 110 ∷ []) fresh ≤ 4
brute_force_bound_example =
    brute_force_bound 100 "k" (100 ∷ 101 ∷ 102 ∷ 103 ∷ 110 ∷ []) fresh (omega arith) (omega arith)

lockout_example : unblocked "k" (100 ∷ 101 ∷ 102 ∷ 103 ∷ 110 ∷ []) fresh ≡ 2
unfolding lookup
lockout_example =
    lockout "k" 100 (101 ∷ 102 ∷ 103 ∷ 110 ∷ []) fresh (omega arith) refl (omega arith)

after_two : Limiter
unfolding register_failure count_failure lookup insert
after_two = (register_failure 101 "k" (register_failure 100 "k" fresh).0).0

cooldown_holds_example :
    let l = (register_failure 102 "k" after_two).0 in register_failure 104 "k" l ≡ (l, (true, 3))
unfolding after_two
cooldown_holds_example = cooldown_holds 102 104 "k" after_two refl refl (omega arith)

other_keys_example :
    (attempt_of "j" (register_failure 102 "k" after_two).0 ≡ attempt_of "j" after_two)
    × (attempt_of "j" (reset "k" after_two) ≡ attempt_of "j" after_two)
    × (attempt_of "k" (reset "k" after_two) ≡ zero_attempt)
other_keys_example = other_keys 102 "k" "j" after_two (ground (arith, eq_iff "j" "k"))

retry_after_bounds_example :
    (1 ≤ retry_after_seconds 1_400_000_000)
    × (1_400_000_000 ≤ retry_after_seconds 1_400_000_000 * 1_000_000_000 + 499_999_999)
    × (retry_after_seconds 1_400_000_000 * 1_000_000_000 ≤ max 1_000_000_000 1_900_000_000)
retry_after_bounds_example = retry_after_bounds 1_400_000_000

abbrev request : Request
request = record {
  method = "GET";
  authorization = "Bearer  abc ";
  admin_token_header = "";
  remote_addr = "10.0.0.7:51234";
}

abbrev guarded : AuthState
guarded = record {
  setup_complete = true;
  require_auth = true;
  auth_enabled = true;
  client_api_keys = record { id = "local-ide"; enabled = true } ∷ [];
  config_keys = "spare" ∷ [];
}

bearer_token_test : bearer_token request ≡ "abc"
unfolding bearer_token
bearer_token_test = refl

abbrev hosts : String → Option String
hosts s = some "10.0.0.7"

require_admin_passes_example :
    ((require_admin hosts 103 (λ t. true) guarded request after_two).1 ≡ passes) ↔ (
      (request.method ≡ "OPTIONS")
      ⊎ (guarded.setup_complete ≡ false)
      ⊎ (guarded.require_auth ≡ false)
      ⊎ (true ≡ true))
require_admin_passes_example = require_admin_passes hosts 103 (λ t. true) guarded request after_two

require_client_api_key_passes_example :
    ((require_client_api_key hosts 103 (λ k. "abc") guarded request after_two).1 ≡ passes) ↔ (
      (guarded.setup_complete ≡ false)
      ⊎ (guarded.auth_enabled ≡ false)
      ⊎ IsClientToken (λ k. "abc") guarded (bearer_token request))
require_client_api_key_passes_example =
    require_client_api_key_passes hosts 103 (λ k. "abc") guarded request after_two
