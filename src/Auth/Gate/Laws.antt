-- ===== src/Auth/Gate/Laws.antt =====
-- internal/httpapi/auth.go: who passes the gates, and what a refusal leaves behind.
use llama_wrangler.Common.{
  ℕ, ◌≡◌, ◌≢◌, ◌↔◌, refl, ◌⊎◌, inl, inr, Bool, true, false, not, ◌&&◌, String, List, [], ◌∷◌,
  Option, none, some, arith, In, Bool-cases, Option-cases,
}
use Prim.Native.String.{◌++◌ as append_text}
use llama_wrangler.Common.Text.{str_eq, eq_iff}
use llama_wrangler.Auth.Limiter.{Limiter, auth_failure_key}
use llama_wrangler.Auth.Gate.{
  Request, ClientApiKey, AuthState, bearer_token, matching_key, matches_config,
  valid_client_api_key, passes, refuse, require_admin, require_client_api_key,
}

refuse-ne-passes :
    (now : ℕ) (token key : String) (l : Limiter) → (refuse now token key l).1 ≢ passes
unfolding refuse
refuse-ne-passes now token key l e = ground arith

-- The token is the secret of an enabled key, or a configured key, and is not empty.
abbrev pub IsClientToken : (String → String) → AuthState → String → Type 0
IsClientToken secrets state token =
    (token ≢ "")
    × (((k : ClientApiKey) × In k state.client_api_keys
          × (k.enabled ≡ true)
          × (secrets (append_text "api_key:" k.id) ≡ token))
        ⊎ In token state.config_keys)

module _ (secrets : String → String) (token : String) where
  matching_key_sound :
      (ks : List ClientApiKey) (id : String)
      → matching_key secrets ks token ≡ some id
      → (token ≢ "")
        × ((k : ClientApiKey) × In k ks
            × (k.enabled ≡ true)
            × (secrets (append_text "api_key:" k.id) ≡ token))
  unfolding matching_key
  matching_key_sound [] id e = cc
  matching_key_sound (k ∷ ks) id e = elim (Bool-cases (matches k)) [
    | inl hit ↦ (
      λ z. ground (arith, eq_iff (stored k) "", eq_iff (stored k) token),
      (k, inl refl, ground arith, ground (arith, eq_iff (stored k) token)),
    )
    | inr miss ↦
        let later : matching_key secrets ks token ≡ some id = rw (← e) (rw (miss, matching_key)) in
        let (filled, found) = matching_key_sound ks id later in
        (filled, (found.0, inr found.1, found.2, found.3))
  ]
    where
      stored : ClientApiKey → String
      stored j = secrets (append_text "api_key:" j.id)

      matches : ClientApiKey → Bool
      matches j = j.enabled && not (str_eq (stored j) "") && str_eq (stored j) token

  matching_key_complete :
      (ks : List ClientApiKey) (k : ClientApiKey)
      → token ≢ ""
      → In k ks
      → k.enabled ≡ true
      → secrets (append_text "api_key:" k.id) ≡ token
      → matching_key secrets ks token ≢ none
  unfolding matching_key
  matching_key_complete [] k t m e s z = absurd m
  matching_key_complete (j ∷ ks) k t (inl here) e s z = ground (
    arith,
    eq_iff (secrets (append_text "api_key:" j.id)) "",
    eq_iff (secrets (append_text "api_key:" j.id)) token,
  )
  matching_key_complete (j ∷ ks) k t (inr later) e s z =
      ground (arith, matching_key_complete ks k t later e s)

  matches_config_iff :
      (ks : List String) → (matches_config ks token ≡ true) ↔ ((token ≢ "") × In token ks)
  unfolding matches_config
  matches_config_iff [] = (λ e. cc, λ h. absurd h.1)
  matches_config_iff (k ∷ ks) =
      let ih = matches_config_iff ks in
      (
        λ e. elim (Bool-cases (matches_config ks token)) [
          | inl later ↦ ((ih.0 later).0, inr (ih.0 later).1)
          | inr none' ↦ (
            λ z. ground (arith, eq_iff k "", eq_iff k token),
            inl (ground (arith, eq_iff k token)),
          )
        ],
        λ h. elim h.1 [
          | inl here ↦ ground (arith, h.0, eq_iff k "", eq_iff k token)
          | inr later ↦ rw (ih.1 (h.0, later)) (ground arith)
        ],
      )

pub valid_client_api_key_iff :
    (secrets : String → String) (state : AuthState) (token : String)
    → ((valid_client_api_key secrets state token).0 ≡ true) ↔ IsClientToken secrets state token
unfolding valid_client_api_key
valid_client_api_key_iff secrets state token =
    elim (Option-cases (matching_key secrets state.client_api_keys token)) [
      | inl miss ↦ (
        λ e.
            let found : matches_config state.config_keys token ≡ true = ground arith in
            let (filled, member) = (matches_config_iff secrets token state.config_keys).0 found in
            (filled, inr member),
        λ h. elim h.1 [
          | inl (k, member, enabled, same) ↦ absurd (
              matching_key_complete secrets token state.client_api_keys k h.0 member enabled same
                miss)
          | inr member ↦
              rw (miss, valid_client_api_key)
                ((matches_config_iff secrets token state.config_keys).1 (h.0, member))
        ],
      )
      | inr (id, hit) ↦
          let (filled, found) = matching_key_sound secrets token state.client_api_keys id hit in
          (λ e. (filled, inl found), λ h. rw (hit, valid_client_api_key) refl)
    ]

module _ (split_host_port : String → Option String) where
  -- The admin gate passes a request exactly when it is an `OPTIONS` request, the setup is not
  -- complete, no login is required, or its token is valid, whatever the limiter has on record.
  pub require_admin_passes :
      (now : ℕ) (valid : String → Bool) (state : AuthState) (r : Request) (l : Limiter)
      → ((require_admin split_host_port now valid state r l).1 ≡ passes) ↔ (
          (r.method ≡ "OPTIONS")
          ⊎ (state.setup_complete ≡ false)
          ⊎ (state.require_auth ≡ false)
          ⊎ (valid (bearer_token r) ≡ true))
  unfolding require_admin
  require_admin_passes now valid state r l =
      let key = auth_failure_key split_host_port "admin" r.remote_addr in
      let refused = refuse-ne-passes now (bearer_token r) key l in
      (
        ground (arith, eq_iff r.method "OPTIONS", refused),
        ground (arith, eq_iff r.method "OPTIONS"),
      )

  -- The gate for clients passes a request exactly when the setup is not complete, no login is
  -- required, or its token is the secret of an enabled key or a configured key, and not empty.
  pub require_client_api_key_passes :
      (now : ℕ) (secrets : String → String) (state : AuthState) (r : Request) (l : Limiter)
      → ((require_client_api_key split_host_port now secrets state r l).1 ≡ passes) ↔ (
          (state.setup_complete ≡ false)
          ⊎ (state.auth_enabled ≡ false)
          ⊎ IsClientToken secrets state (bearer_token r))
  unfolding require_client_api_key
  require_client_api_key_passes now secrets state r l =
      let key = auth_failure_key split_host_port "client" r.remote_addr in
      let refused = refuse-ne-passes now (bearer_token r) key l in
      let valid = valid_client_api_key_iff secrets state (bearer_token r) in
      (ground (arith, refused, valid), ground (arith, valid))
