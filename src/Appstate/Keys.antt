-- ===== src/Appstate/Keys.antt =====
-- internal/appstate/state.go: the client keys, the audit, and the approval of an enrollment. The file
-- that the store writes is left out. `random` is the random part of a new name; 0 is the zero time.
use llama_wrangler.Common.{
  ℕ, ◌≤◌, ◌≡◌, refl, Bool, false, not, ◌||◌, String, List, [], ◌∷◌, Option, none, some, ltb, ◌==◌,
  if◌then◌else◌, length, take, length-take, arith, by_test, ltb-false,
}
use Prim.Native.String.{◌++◌ as append_text}
use llama_wrangler.Common.Text.{str_eq, eq_iff}
use llama_wrangler.Appstate.Enrollment.{EnrollmentRequest}

pub record ClientApiKey : Type 0 where
  pub id : String
  pub name : String
  pub hint : String
  pub created_at : ℕ
  pub last_used : ℕ
  pub enabled : Bool

pub record AuditEvent : Type 0 where
  pub timestamp : ℕ
  pub kind : String
  pub request_id : String
  pub message : String

-- The parts of the state that these operations change.
pub record Ledger : Type 0 where
  pub client_api_keys : List ClientApiKey
  pub audit : List AuditEvent
  pub enrollment_queue : List EnrollmentRequest
  pub setup_complete : Bool
  pub admin_token_hint : String
  pub updated_at : ℕ

unfoldable pub contains_client_key : List ClientApiKey → String → Bool
contains_client_key [] id = false
contains_client_key (key ∷ keys) id = str_eq key.id id || contains_client_key keys id

-- The keys with the first one of that name replaced, or with the key at the end.
unfoldable pub replace_key : ClientApiKey → List ClientApiKey → List ClientApiKey
replace_key key [] = key ∷ []
replace_key key (k ∷ keys) =
    let rest = replace_key key keys in if str_eq k.id key.id then key ∷ keys else k ∷ rest

abbrev pub named_key : ℕ → String → ClientApiKey → ClientApiKey
named_key now random key = record key {
  id = if str_eq key.id "" then append_text "key_" random else key.id;
  created_at = if key.created_at == 0 then now else key.created_at;
}

unfoldable pub upsert_client_api_key : ℕ → String → ClientApiKey → Ledger → Ledger
unfolding contains_client_key replace_key
upsert_client_api_key now random key s =
    let named = named_key now random key in
    let ready = record named {
      enabled = named.enabled || not (contains_client_key s.client_api_keys named.id);
    } in
    record s { client_api_keys = replace_key ready s.client_api_keys; updated_at = now }

unfoldable pub touch_key : ℕ → String → List ClientApiKey → List ClientApiKey
touch_key now id [] = []
touch_key now id (key ∷ keys) =
    let rest = touch_key now id keys in
    if str_eq key.id id then record key { last_used = now } ∷ keys else key ∷ rest

-- `saveLocked` sets the time of the state, also where the key is.
unfoldable pub touch_client_api_key : ℕ → String → Ledger → Ledger
unfolding touch_key contains_client_key
touch_client_api_key now id s =
    if contains_client_key s.client_api_keys id
    then record s { client_api_keys = touch_key now id s.client_api_keys; updated_at = now }
    else s

unfoldable pub add_audit : ℕ → AuditEvent → Ledger → Ledger
add_audit now event s =
    let all = record event { timestamp = now } ∷ s.audit in
    record s { audit = if ltb 250 (length all) then take 250 all else all; updated_at = now }

unfoldable pub approve : String → String → List EnrollmentRequest → Option (List EnrollmentRequest)
approve node_id state [] = none
approve node_id state (r ∷ rs) =
    if str_eq r.node_id node_id
    then some (record r { approval_state = state } ∷ rs)
    else elim (approve node_id state rs) [ none ↦ none | some qs ↦ some (r ∷ qs) ]

unfoldable pub set_enrollment_approval : ℕ → String → String → Ledger → Ledger
unfolding approve
set_enrollment_approval now node_id state s = elim (approve node_id state s.enrollment_queue) [
  | none ↦ s
  | some queue ↦ record s { enrollment_queue = queue; updated_at = now }
]

unfoldable pub set_setup_complete : ℕ → Bool → Ledger → Ledger
set_setup_complete now complete s = record s { setup_complete = complete; updated_at = now }

unfoldable pub set_admin_token_hint : ℕ → String → Ledger → Ledger
set_admin_token_hint now hint s = record s { admin_token_hint = hint; updated_at = now }

-- The key of a name.
abbrev pub key_of : String → List ClientApiKey → Option ClientApiKey
key_of id [] = none
key_of id (key ∷ keys) = let rest = key_of id keys in if str_eq key.id id then some key else rest

-- A key that is stored is found under its name, and the others are as before.
pub replace_key_stores :
    (key : ClientApiKey) (keys : List ClientApiKey) (id : String)
    → key_of id (replace_key key keys) ≡ (if str_eq key.id id then some key else key_of id keys)
unfolding replace_key
replace_key_stores key [] id = refl
replace_key_stores key (k ∷ keys) id =
    ground
      (arith, replace_key_stores key keys id, eq_iff k.id key.id, eq_iff k.id id, eq_iff key.id id)

pub add_audit_bounded :
    (now : ℕ) (event : AuditEvent) (s : Ledger) → length (add_audit now event s).audit ≤ 250
unfolding add_audit
add_audit_bounded now event s =
    let all : List AuditEvent = record event { timestamp = now } ∷ s.audit in
    by_test (λ h. length h ≤ 250) (ltb 250 (length all)) (take 250 all) all
      (λ t. omega (arith, length-take 250 all)) (λ t. ltb-false 250 (length all) t)
