-- ===== src/Appstate/Enrollment.antt =====
-- internal/appstate/state.go: the enrollment queue, and a node that registers with its token.
-- The file that the store writes is left out. `random` is the random part of a new name.
use llama_wrangler.Common.{
  ℕ, Bool, true, false, not, ◌&&◌, ◌||◌, String, List, [], ◌∷◌, Option, none, some, ltb, ◌==◌,
  if◌then◌else◌,
}
use Prim.Native.String.{◌++◌ as append_text}
use llama_wrangler.Common.Text.{str_eq}
use llama_wrangler.Common.Dict.{Dict, insert}
use llama_wrangler.Appstate.Node.{Node}
use llama_wrangler.Appstate.Normal.{Network, text_or, trust_level_for_endpoint, normalize_node}

pub record EnrollmentRequest : Type 0 where
  pub node_id : String
  pub url : String
  pub hostname : String
  pub control_level : String
  pub trust_level : String
  pub capability_source : String
  pub approval_state : String
  pub token_hash : String
  pub token_hint : String
  pub created_at : ℕ
  pub expires_at : ℕ
  pub registered_at : ℕ

-- The part of the state that enrollment changes.
pub record Registry (F : Type 0) : Type 0 where
  pub nodes : Dict (Node F)
  pub enrollment_queue : List EnrollmentRequest
  pub updated_at : ℕ

unfoldable pub normalize_enrollment_request : Network → EnrollmentRequest → EnrollmentRequest
unfolding trust_level_for_endpoint
normalize_enrollment_request net req = record req {
  control_level = text_or req.control_level "managed";
  trust_level = text_or req.trust_level (trust_level_for_endpoint net req.url false);
  capability_source = text_or req.capability_source "subscriber_reported";
  approval_state = text_or req.approval_state "pending";
}

unfoldable pub same_enrollment_request : EnrollmentRequest → EnrollmentRequest → Bool
same_enrollment_request a b =
    (not (str_eq a.token_hash "")
      && not (str_eq b.token_hash "")
      && str_eq a.token_hash b.token_hash)
    || (not (str_eq a.node_id "") && str_eq a.node_id b.node_id)

-- The queue with the first request that is the same replaced; none where there is none.
unfoldable pub replace_same :
    EnrollmentRequest → List EnrollmentRequest → Option (List EnrollmentRequest)
unfolding same_enrollment_request
replace_same req [] = none
replace_same req (q ∷ qs) =
    if same_enrollment_request q req
    then some (req ∷ qs)
    else elim (replace_same req qs) [ none ↦ none | some rs ↦ some (q ∷ rs) ]

-- What `RegisterEnrollmentNode` answers: one of its two errors, or the request and the node, with
-- the queue that is left.
pub data Verdict (F : Type 0) : Type 0 where
  token_not_found : Verdict F
  token_expired : Verdict F
  registered : EnrollmentRequest → Node F → List EnrollmentRequest → Verdict F

module _ {F : Type 0} where
  -- A node with a name, a status and a time.
  unfoldable pub named_node : ℕ → String → Node F → Node F
  named_node now random n = record n {
    node_id = if str_eq n.node_id "" then append_text "node_" random else n.node_id;
    status = text_or n.status "unknown";
    last_seen = if n.last_seen == 0 then now else n.last_seen;
  }

  unfoldable pub upsert_node : Network → ℕ → String → Node F → Registry F → Registry F
  unfolding normalize_node named_node
  upsert_node net now random n s =
      let node = normalize_node net now (named_node now random n) in
      record s { nodes = insert node.node_id node s.nodes; updated_at = now }

  unfoldable pub add_enrollment_request :
      Network → ℕ → String → EnrollmentRequest → Registry F → Registry F × EnrollmentRequest
  unfolding normalize_enrollment_request replace_same
  add_enrollment_request net now random req s =
      let named = record req {
        node_id = if str_eq req.node_id "" then append_text "enroll_" random else req.node_id;
        created_at = if req.created_at == 0 then now else req.created_at;
      } in
      let request = normalize_enrollment_request net named in
      let queue : List EnrollmentRequest = elim (replace_same request s.enrollment_queue) [
        | none ↦ request ∷ s.enrollment_queue
        | some qs ↦ qs
      ] in
      (record s { enrollment_queue = queue; updated_at = now }, request)

  -- What a registering node says of itself, completed by the queued request, before approval.
  unfoldable pub claimed_node : EnrollmentRequest → EnrollmentRequest → Node F → Node F
  claimed_node queued req n = record n {
    node_id = text_or n.node_id queued.node_id;
    url = text_or n.url queued.url;
    hostname = text_or n.hostname req.hostname;
    control_level = "managed";
    trust_level = text_or n.trust_level queued.trust_level;
    capability_source = "subscriber_reported";
    approval_state = "pending";
    approved = false;
    enabled = true;
  }

  unfoldable pub registered_node :
      Network → ℕ → EnrollmentRequest → EnrollmentRequest → Node F → Node F
  unfolding normalize_node claimed_node
  registered_node net now queued req n = normalize_node net now (claimed_node queued req n)

  unfoldable pub registered_request :
      ℕ → EnrollmentRequest → EnrollmentRequest → Node F → EnrollmentRequest
  registered_request now queued req node = record queued {
    node_id = node.node_id;
    url = node.url;
    hostname =
        if not (str_eq req.hostname "")
        then req.hostname
        else text_or node.hostname queued.hostname;
    control_level = "managed";
    trust_level = node.trust_level;
    capability_source = "subscriber_reported";
    approval_state = "pending";
    token_hash = "";
    registered_at = now;
  }

  abbrev pub behind : EnrollmentRequest → Verdict F → Verdict F
  behind q (registered r n qs) = registered r n (q ∷ qs)
  behind q v = v

  -- The loop of `RegisterEnrollmentNode`: the request and node, with the new queue.
  unfoldable pub find_registration :
      Network → ℕ → String → Node F → EnrollmentRequest → List EnrollmentRequest → Verdict F
  unfolding normalize_enrollment_request registered_node registered_request
  find_registration net now token_hash n req [] = token_not_found
  find_registration net now token_hash n req (q ∷ qs) =
      let queued = normalize_enrollment_request net q in
      let later = find_registration net now token_hash n req qs in
      let node = registered_node net now queued req n in
      let request = registered_request now queued req node in
      if str_eq queued.token_hash "" || not (str_eq queued.token_hash token_hash)
      then behind q later
      else if not (queued.expires_at == 0) && ltb queued.expires_at now
      then token_expired
      else registered request node (request ∷ qs)

  abbrev pub register_with : ℕ → Registry F → Verdict F → Registry F
  register_with now s (registered request node qs) = record s {
    enrollment_queue = qs;
    nodes = insert node.node_id node s.nodes;
    updated_at = now;
  }
  register_with now s _ = s

  unfoldable pub register_enrollment_node :
      Network → ℕ → String → Node F → EnrollmentRequest → Registry F → Registry F × Verdict F
  unfolding find_registration
  register_enrollment_node net now token_hash n req s =
      let verdict = find_registration net now token_hash n req s.enrollment_queue in
      (register_with now s verdict, verdict)
