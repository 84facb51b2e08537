-- ===== src/Appstate/Normal.antt =====
-- internal/appstate/state.go: `normalizeNode`, by which every stored node is brought into shape, and
-- `UpsertNode`. URL and address parsing are a parameter; `now` is the clock.
use llama_wrangler.Common.{
  ℕ, Bool, true, false, not, ◌&&◌, ◌||◌, String, Option, none, some, ◌==◌, if◌then◌else◌,
}
use llama_wrangler.Common.Text.{str_eq, equal_fold, ends_with}
use llama_wrangler.Appstate.Node.{Node}

-- `net/url` and `net`: the host name of a URL in lower case (none where it does not parse, or has
-- none), and what an address is.
pub record Network : Type 0 where
  pub host_of : String → Option String
  pub is_ip : String → Bool
  pub is_loopback : String → Bool
  pub is_private : String → Bool
  pub is_link_local_unicast : String → Bool

abbrev pub text_or : String → String → String
text_or s d = if str_eq s "" then d else s

unfoldable pub host_trust : Network → String → String
unfolding ends_with
host_trust net host =
    if str_eq host "localhost" || ends_with host ".localhost"
    then "local"
    else if not (net.is_ip host)
    then if ends_with host ".local" then "lan_unverified" else "external"
    else if net.is_loopback host
    then "local"
    else if net.is_private host || net.is_link_local_unicast host
    then "lan_unverified"
    else "external"

abbrev pub parsed_trust : Network → Option String → String
parsed_trust net none = "lan_unverified"
parsed_trust net (some host) = host_trust net host

unfoldable pub trust_level_for_endpoint : Network → String → Bool → String
unfolding host_trust
trust_level_for_endpoint net raw local_default =
    if str_eq raw ""
    then if local_default then "local" else "lan_unverified"
    else parsed_trust net (net.host_of raw)

abbrev pub or_time : Option ℕ → ℕ → ℕ
or_time none d = d
or_time (some t) d = if t == 0 then d else t

module _ {F : Type 0} where
  unfoldable pub primary_node_endpoint : Node F → String
  primary_node_endpoint n = if str_eq n.url "" then n.ollama_url else n.url

  unfoldable pub normal_control : Node F → String
  unfolding equal_fold
  normal_control n =
      if str_eq n.control_level ""
      then if equal_fold n.role "passive" then "passive" else "managed"
      else if str_eq n.control_level "passive"
      then "passive"
      else "managed"

  -- The approval state and the flag that goes with it.
  unfoldable pub normal_approval : Node F → String × Bool
  normal_approval n =
      let by_flag = if n.approved then "approved" else "pending" in
      if str_eq n.approval_state "approved"
      then ("approved", true)
      else if str_eq n.approval_state "pending"
          || str_eq n.approval_state "rejected"
          || str_eq n.approval_state "revoked"
      then (n.approval_state, false)
      else (by_flag, n.approved)

  unfoldable pub normalize_node : Network → ℕ → Node F → Node F
  unfolding normal_control normal_approval trust_level_for_endpoint primary_node_endpoint
  normalize_node net now n =
      let control = normal_control n in
      let passive = str_eq control "passive" in
      let local_default = str_eq n.url "" && str_eq n.ollama_url "" in
      let source = if passive then "marshal_observed" else "subscriber_reported" in
      let seen = if n.last_seen == 0 then now else n.last_seen in
      record n {
        control_level = control;
        trust_level =
            if str_eq n.trust_level ""
            then trust_level_for_endpoint net (primary_node_endpoint n) local_default
            else n.trust_level;
        approval_state = (normal_approval n).0;
        approved = (normal_approval n).1;
        capability_source = text_or n.capability_source source;
        health_source = text_or n.health_source source;
        model_inventory_source = text_or n.model_inventory_source source;
        benchmark_source = text_or n.benchmark_source "none";
        telemetry_level =
            text_or n.telemetry_level
              (if passive then "marshal_observed_metadata" else "rich_metadata");
        warm_state_supported = if passive then false else n.warm_state_supported;
        management_supported = not passive;
        last_seen = seen;
        last_observed_at = some (or_time n.last_observed_at seen);
        last_reported_at = if passive then none else some (or_time n.last_reported_at seen);
      }
