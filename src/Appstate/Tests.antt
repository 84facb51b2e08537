-- ===== src/Appstate/Tests.antt =====
-- internal/appstate/state.go: a node that enrolls, and the theorems at it.
use llama_wrangler.Common.{ℕ, ◌≡◌, refl, true, false, [], ◌∷◌, some}
use llama_wrangler.Appstate.Node.{Node}
use llama_wrangler.Appstate.Normal.{Network, trust_level_for_endpoint}
use llama_wrangler.Appstate.Enrollment.{
  EnrollmentRequest, Registry, token_not_found, token_expired, upsert_node, add_enrollment_request,
  register_enrollment_node,
}
use llama_wrangler.Appstate.Registered.{IsKept, upsert_node-IsKept}
use llama_wrangler.Appstate.Registration.{IsRegistered, register_enrollment_node_lem}
use llama_wrangler.Routing.Search.{configured_node}

-- Every URL is one of a host in the local network.
abbrev lan : Network
lan = record {
  host_of = λ url. some "10.0.0.7";
  is_ip = λ host. true;
  is_loopback = λ host. false;
  is_private = λ host. true;
  is_link_local_unicast = λ host. false;
}

abbrev some_node : Node ℕ
some_node = configured_node (record { node_id = "n1"; url = "http://10.0.0.7:11436"; token = "" })

abbrev token_request : EnrollmentRequest
token_request = record {
  node_id = "n1";
  url = "http://10.0.0.7:11436";
  hostname = "box";
  control_level = "";
  trust_level = "";
  capability_source = "";
  approval_state = "";
  token_hash = "h";
  token_hint = "";
  created_at = 0;
  expires_at = 50;
  registered_at = 0;
}

abbrev empty_registry : Registry ℕ
empty_registry = record { nodes = []; enrollment_queue = []; updated_at = 0 }

abbrev waiting_registry : Registry ℕ
waiting_registry = record { nodes = []; enrollment_queue = token_request ∷ []; updated_at = 0 }

trust_test : trust_level_for_endpoint lan "http://10.0.0.7:11436" false ≡ "lan_unverified"
unfolding trust_level_for_endpoint
trust_test = refl

queue_test :
    (add_enrollment_request lan 5 "" token_request waiting_registry).0.enrollment_queue
    ≡ (add_enrollment_request lan 5 "" token_request waiting_registry).1 ∷ []
unfolding add_enrollment_request
queue_test = refl

upsert_node-IsKept_example : IsKept lan (upsert_node lan 5 "ab" some_node empty_registry)
upsert_node-IsKept_example = upsert_node-IsKept lan 5 "ab" some_node empty_registry tt

register_enrollment_node_lem_example :
    let (t, verdict) =
      register_enrollment_node lan 9 "h" some_node token_request waiting_registry in
    IsKept lan t × IsRegistered lan "h" waiting_registry t verdict
register_enrollment_node_lem_example =
    register_enrollment_node_lem lan 9 "h" some_node token_request waiting_registry tt

-- The first registration uses the token, the second one does not find it any more.
used_test :
    let t = (register_enrollment_node lan 9 "h" some_node token_request waiting_registry).0 in
    (register_enrollment_node lan 9 "h" some_node token_request t).1 ≡ token_not_found
unfolding register_enrollment_node
used_test = refl

late_test :
    (register_enrollment_node lan 51 "h" some_node token_request waiting_registry).1 ≡ token_expired
unfolding register_enrollment_node
late_test = refl
