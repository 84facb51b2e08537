-- ===== src/Auth/Gate.antt =====
-- internal/httpapi/auth.go: the two gates in front of the handlers, `requireAdmin` and
-- `requireClientAPIKey`. A gate's answer is a value; the handler behind it is not part of it.
pub mod Laws
use llama_wrangler.Common.{
  ℕ, zero, suc, Bool, true, false, not, ◌&&◌, ◌||◌, String, List, [], ◌∷◌, Option, none, some, ◌==◌,
  if◌then◌else◌,
}
use Prim.Native.String.{◌++◌ as append_text}
use llama_wrangler.Common.Text.{str_eq, codes, to_lower, trim_space}
use llama_wrangler.Auth.Limiter.{
  Limiter, auth_failure_key, register_failure, reset, retry_after_seconds,
}

pub record Request : Type 0 where
  pub method : String
  pub authorization : String
  pub admin_token_header : String
  pub remote_addr : String

abbrev pub codes_prefix : List ℕ → List ℕ → Bool
codes_prefix [] s = true
codes_prefix (c ∷ p) [] = false
codes_prefix (c ∷ p) (d ∷ s) = c == d && codes_prefix p s

-- `s[n:]`, where the first `n` characters are ASCII.
abbrev pub drop_chars : ℕ → String → String
drop_chars zero s = s
drop_chars (suc n) String.[] = String.[]
drop_chars (suc n) (String.◌∷◌ c s) = drop_chars n s

unfoldable pub bearer_token : Request → String
unfolding to_lower trim_space
bearer_token r =
    if codes_prefix (codes "bearer ") (to_lower r.authorization)
    then trim_space (drop_chars 7 r.authorization)
    else r.admin_token_header

pub record ClientApiKey : Type 0 where
  pub id : String
  pub enabled : Bool

-- The part of the state and the settings that the gates read.
pub record AuthState : Type 0 where
  pub setup_complete : Bool
  pub require_auth : Bool
  pub auth_enabled : Bool
  pub client_api_keys : List ClientApiKey
  pub config_keys : List String

-- The loop over the stored keys: the key to touch. `secrets` is `s.secrets.Get`.
unfoldable pub matching_key : (String → String) → List ClientApiKey → String → Option String
matching_key secrets [] token = none
matching_key secrets (k ∷ ks) token =
    let stored = secrets (append_text "api_key:" k.id) in
    let rest = matching_key secrets ks token in
    if k.enabled && not (str_eq stored "") && str_eq stored token then some k.id else rest

unfoldable pub matches_config : List String → String → Bool
matches_config [] token = false
matches_config (k ∷ ks) token = not (str_eq k "") && str_eq k token || matches_config ks token

-- `validClientAPIKey`: the answer, and the key whose last use is noted.
unfoldable pub valid_client_api_key : (String → String) → AuthState → String → Bool × Option String
valid_client_api_key secrets state token = elim (matching_key secrets state.client_api_keys token) [
  | some id ↦ (true, some id)
  | none ↦ (matches_config state.config_keys token, none)
]

-- What a gate does: it calls the handler, or answers 429 with the header `Retry-After`, or 401.
pub data Gate : Type 0 where
  passes : Gate
  rate_limited : ℕ → Gate
  unauthorized : Gate

-- The part that both gates share, after a token that is not valid.
unfoldable pub refuse : ℕ → String → String → Limiter → Limiter × Gate
refuse now token key l =
    if str_eq token ""
    then (l, unauthorized)
    else let (l', answer) = register_failure now key l in
      if answer.0 then (l', rate_limited (retry_after_seconds answer.1)) else (l', unauthorized)

module _ (split_host_port : String → Option String) where
  -- `valid` is `s.secrets.Match` on the admin secret.
  unfoldable pub require_admin :
      ℕ → (String → Bool) → AuthState → Request → Limiter → Limiter × Gate
  require_admin now valid state r l =
      let key = auth_failure_key split_host_port "admin" r.remote_addr in
      if str_eq r.method "OPTIONS"
      then (l, passes)
      else if not state.setup_complete || not state.require_auth
      then (l, passes)
      else if valid (bearer_token r)
      then (reset key l, passes)
      else refuse now (bearer_token r) key l

  unfoldable pub require_client_api_key :
      ℕ → (String → String) → AuthState → Request → Limiter → Limiter × Gate
  require_client_api_key now secrets state r l =
      let key = auth_failure_key split_host_port "client" r.remote_addr in
      if not state.setup_complete || not state.auth_enabled
      then (l, passes)
      else if (valid_client_api_key secrets state (bearer_token r)).0
      then (reset key l, passes)
      else refuse now (bearer_token r) key l
