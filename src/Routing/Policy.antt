-- ===== src/Routing/Policy.antt =====
-- internal/routing/routing.go: the policy by which a node is eligible, and its score.
use llama_wrangler.Common.{
  ℕ, ◌+◌, ◌*◌, Bool, true, false, not, ◌&&◌, ◌||◌, String, List, [], ◌∷◌, Option, none, some, ltb,
  ◌==◌, if◌then◌else◌, length,
}
use Prim.Native.String.{◌++◌ as append_text}
use llama_wrangler.Common.Int.{ℤ, pos, negsuc, pos_part, neg_part, sub_ℕ, ◌+ℤ◌, ◌-ℤ◌}
use llama_wrangler.Common.Text.{str_eq, contains}
use llama_wrangler.Appstate.Node.{Value, truth, Fields, end, field, ModelState, Node}

-- Two minutes in nanoseconds.
abbrev pub managed_heartbeat_freshness_window : ℕ
managed_heartbeat_freshness_window = 120_000_000_000

abbrev pub consensus_default_min_participants : ℕ
consensus_default_min_participants = 2

abbrev pub consensus_default_max_participants : ℕ
consensus_default_max_participants = 4

abbrev pub consensus_maximum_participants : ℕ
consensus_maximum_participants = 8

-- `if x < 1 { x = default }`, and the bounds on what comes out.
abbrev pub at_least_one : ℤ → ℕ → ℕ
at_least_one (pos n) d = if ltb n 1 then d else n
at_least_one (negsuc n) d = d

unfoldable pub consensus_participant_bounds : ℤ → ℤ → ℕ × ℕ
consensus_participant_bounds min_participants max_participants =
    let low_1 = at_least_one min_participants consensus_default_min_participants in
    let low =
      if ltb consensus_maximum_participants low_1 then consensus_maximum_participants else low_1 in
    let high_1 = at_least_one max_participants consensus_default_max_participants in
    let high_2 = if ltb high_1 low then low else high_1 in
    let high =
      if ltb consensus_maximum_participants high_2
      then consensus_maximum_participants
      else high_2 in
    (low, high)

unfoldable pub is_consensus_mode : String → String → Bool
unfolding contains
is_consensus_mode execution_mode strategy =
    contains execution_mode "consensus" || contains strategy "consensus"

abbrev pub freshness : ℕ → Option ℕ → String
freshness now none = "missing"
freshness now (some t) =
    if t == 0
    then "missing"
    else if ltb (t + managed_heartbeat_freshness_window) now
    then "stale"
    else "fresh"

pub record NodePolicy : Type 0 where
  pub eligible : Bool
  pub reasons : List String

abbrev pub excluded : List String → NodePolicy
excluded reasons = record { eligible = false; reasons = reasons }

abbrev pub control_reason : String → String
control_reason control =
    if str_eq control "managed" then "managed_control" else "passive_single_route_allowed"

abbrev pub trust_reasons : String → List String
trust_reasons trust =
    if str_eq trust "local"
    then "trust_local" ∷ []
    else if str_eq trust "lan_trusted"
    then "trust_lan_trusted" ∷ []
    else if str_eq trust "lan_unverified"
    then "trust_lan_unverified_deprioritized" ∷ []
    else []

abbrev pub refused_reasons : Bool → Bool → List String
refused_reasons enabled approved =
    let rest = if approved then [] else "node_not_approved" ∷ [] in
    if enabled then rest else "node_disabled" ∷ rest

abbrev pub count_heavy : List String → ℕ
count_heavy [] = 0
count_heavy (tag ∷ tags) =
    (if str_eq tag "primary-code" || str_eq tag "heavy" then 1 else 0) + count_heavy tags

abbrev pub times_ℤ : ℤ → ℕ → ℤ
times_ℤ a k = sub_ℕ (pos_part a * k) (neg_part a * k)

abbrev pub control_score : String → ℤ
control_score control = if str_eq control "managed" then pos 15 else negsuc 19

abbrev pub trust_score : String → ℤ
trust_score trust =
    if str_eq trust "local"
    then pos 20
    else if str_eq trust "lan_trusted"
    then pos 10
    else if str_eq trust "lan_unverified"
    then negsuc 39
    else negsuc 999

module _ {F : Type 0} where
  -- `map[name]`, nil where it is missing.
  unfoldable pub value_of : String → Fields F → Value F
  value_of name end = Value.nil
  value_of name (field k v fs) = if str_eq k name then v else value_of name fs

  unfoldable pub control_level : Node F → String
  control_level n = if str_eq n.control_level "passive" then "passive" else "managed"

  unfoldable pub trust_level : Node F → String
  trust_level n =
      if str_eq n.trust_level "lan_trusted"
        || str_eq n.trust_level "lan_unverified"
        || str_eq n.trust_level "external"
      then n.trust_level
      else "local"

  unfoldable pub node_approved : Node F → Bool
  node_approved n =
      if str_eq n.approval_state ""
      then n.approved
      else str_eq n.approval_state "approved" && n.approved

  abbrev pub holds : Value F → Bool
  holds (truth b) = b
  holds _ = false

  unfoldable pub heartbeat_required : Node F → Bool
  unfolding control_level value_of
  heartbeat_required n =
      if not (str_eq (control_level n) "managed")
      then false
      else holds (value_of "heartbeat_required" n.observed)

  unfoldable pub heartbeat_freshness : Node F → ℕ → String
  heartbeat_freshness n now = freshness now n.last_reported_at

  -- `classify` for a node whose heartbeat does not exclude it.
  unfoldable pub classify_trust : Node F → Bool → NodePolicy
  classify_trust n consensus_mode =
      let control = control_level n in
      let trust = trust_level n in
      if str_eq trust "external"
      then excluded ("trust_external_excluded" ∷ [])
      else if consensus_mode && str_eq control "passive"
      then excluded ("passive_consensus_excluded" ∷ [])
      else if consensus_mode && str_eq trust "lan_unverified"
      then excluded ("trust_lan_unverified_consensus_excluded" ∷ [])
      else record { eligible = true; reasons = control_reason control ∷ trust_reasons trust }

  unfoldable pub classify : Node F → Bool → ℕ → NodePolicy
  unfolding classify_trust
  classify n consensus_mode now =
      if not n.enabled || not (node_approved n)
      then excluded (refused_reasons n.enabled (node_approved n))
      else if str_eq n.status "disabled" || str_eq n.status "failed"
      then excluded (append_text "node_status_" n.status ∷ [])
      else if heartbeat_required n && str_eq (heartbeat_freshness n now) "missing"
      then excluded ("heartbeat_missing" ∷ [])
      else if heartbeat_required n && str_eq (heartbeat_freshness n now) "stale"
      then excluded ("heartbeat_stale" ∷ [])
      else classify_trust n consensus_mode

  unfoldable pub score : Node F → Bool → ℤ
  unfolding control_level trust_level ◌+ℤ◌ ◌-ℤ◌
  score n consensus_mode =
      let healthy = if str_eq n.status "healthy" then 100 else 0 in
      let ollama = if n.ollama_available then 50 else 0 in
      let own = pos (healthy + ollama + length n.models * 5) in
      let busy = own -ℤ times_ℤ n.active_jobs 15 in
      let tagged = busy +ℤ pos (count_heavy n.tags * 20) in
      let placed = tagged +ℤ control_score (control_level n) +ℤ trust_score (trust_level n) in
      if consensus_mode && str_eq (control_level n) "managed" then placed +ℤ pos 20 else placed

  abbrev pub names_model : String → List (ModelState F) → Bool
  names_model model [] = false
  names_model model (m ∷ ms) = str_eq m.name model || names_model model ms

  unfoldable pub has_model : Node F → String → Bool
  has_model n model = names_model model n.models
