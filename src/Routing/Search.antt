-- ===== src/Routing/Search.antt =====
-- internal/routing/routing.go: the two loops of `Select`, over the nodes and over the wanted models.
-- The nodes of the state are a list, in the order in which the map is read.
use llama_wrangler.Common.{
  ℕ, ◌+◌, Bool, true, false, not, ◌&&◌, ◌||◌, String, List, [], ◌∷◌, ◌++◌, none, ◌==◌,
  if◌then◌else◌, is_empty,
}
use llama_wrangler.Common.Int.{ℤ, pos, pos_part, neg_part, ltb_ℤ}
use llama_wrangler.Common.Text.{text_ltb}
use llama_wrangler.Common.Sort.{sort_stable}
use llama_wrangler.Config.{Config, SubscriberConfig}
use llama_wrangler.Appstate.Node.{Fields, Node}
use llama_wrangler.Routing.Policy.{
  control_level, trust_level, NodePolicy, classify, score, has_model,
}
use llama_wrangler.Routing.Placement.{Numbers, PlacementPolicy, benchmark_placement}
use llama_wrangler.Routing.Plan.{NodeMetadata, is_member}

abbrev pub same_ℤ : ℤ → ℤ → Bool
same_ℤ a b = pos_part a + neg_part b == pos_part b + neg_part a

pub record CandidateNode (F : Type 0) : Type 0 where
  pub node : Node F
  pub placement : PlacementPolicy F
  pub metadata : NodeMetadata

-- The model that is served, its candidates, and the nodes that the policy excludes.
pub record Found (F : Type 0) : Type 0 where
  pub resolved_model : String
  pub candidates : List (CandidateNode F)
  pub excluded : List NodeMetadata

module _ {F : Type 0} where
  -- A subscriber of the configuration that the state does not know.
  unfoldable pub configured_node : SubscriberConfig → Node F
  configured_node sub = record {
    node_id = sub.node_id;
    url = sub.url;
    role = "";
    hostname = "";
    ollama_url = "";
    control_level = "managed";
    trust_level = "lan_trusted";
    capability_source = "";
    approval_state = "approved";
    benchmark_source = "";
    health_source = "";
    model_inventory_source = "";
    warm_state_supported = false;
    management_supported = false;
    telemetry_level = "";
    ollama_available = false;
    models = [];
    tags = [];
    status = "configured";
    enabled = true;
    approved = true;
    active_jobs = pos 0;
    observed = Fields.end;
    last_seen = 0;
    last_observed_at = none;
    last_reported_at = none;
  }

  abbrev pub ids : List (Node F) → List String
  ids [] = []
  ids (n ∷ ns) = n.node_id ∷ ids ns

  abbrev pub configured_nodes : List String → List SubscriberConfig → List (Node F)
  configured_nodes seen [] = []
  configured_nodes seen (sub ∷ subs) =
      let rest = configured_nodes seen subs in
      if is_member sub.node_id seen then rest else configured_node sub ∷ rest

  -- All nodes that the marshal knows of.
  unfoldable pub all_nodes : Config → List (Node F) → List (Node F)
  unfolding configured_node
  all_nodes cfg nodes = nodes ++ configured_nodes (ids nodes) cfg.subscribers

  unfoldable pub node_before : Bool → Node F → Node F → Bool
  unfolding score text_ltb
  node_before consensus_mode a b =
      let left = score a consensus_mode in
      let right = score b consensus_mode in
      if not (same_ℤ left right) then ltb_ℤ right left else text_ltb a.node_id b.node_id

  unfoldable pub node_metadata : Node F → List String → NodeMetadata
  unfolding control_level trust_level
  node_metadata n reasons = record {
    node_id = n.node_id;
    control_level = control_level n;
    trust_level = trust_level n;
    capability_source = n.capability_source;
    reasons = reasons;
  }

  unfoldable pub serves : String → Node F → Bool
  unfolding has_model
  serves wanted n = has_model n wanted || is_empty n.models

  module _ (numbers : Numbers F) where
    unfoldable pub candidate_before : CandidateNode F → CandidateNode F → Bool
    candidate_before a b =
        let left = a.placement in
        let right = b.placement in
        if left.eligible && not right.eligible
        then true
        else if not left.eligible && right.eligible
        then false
        else left.eligible && numbers.ne left.score right.score && numbers.gt left.score right.score

    unfoldable pub candidate_node : Node F → String → NodePolicy → ℕ → CandidateNode F
    unfolding benchmark_placement node_metadata
    candidate_node n wanted policy now =
        let placement = benchmark_placement numbers n wanted now in
        record {
          node = n;
          placement = placement;
          metadata = node_metadata n (policy.reasons ++ placement.reasons);
        }

    -- The loop over the nodes for one model: the candidates; and the nodes that the policy
    -- excludes, with their names added to those that are listed already.
    unfoldable pub gather :
        Bool
        → ℕ
        → String
        → List (Node F)
        → List String
        → List (CandidateNode F) × List NodeMetadata × List String
    unfolding classify candidate_node node_metadata serves
    gather consensus_mode now wanted [] excluded = ([], [], excluded)
    gather consensus_mode now wanted (n ∷ ns) excluded =
        let policy = classify n consensus_mode now in
        let listed = policy.eligible || is_member n.node_id excluded in
        let (candidates, metadata, all) =
          gather consensus_mode now wanted ns (if listed then excluded else n.node_id ∷ excluded) in
        (
          if policy.eligible && serves wanted n
              then candidate_node n wanted policy now ∷ candidates
              else candidates,
          if listed then metadata else node_metadata n policy.reasons ∷ metadata,
          all,
        )

    -- The loop over the wanted models, which stops at the first one with a candidate.
    unfoldable pub search : Bool → ℕ → List (Node F) → List String → List String → Found F
    unfolding gather sort_stable candidate_before
    search consensus_mode now nodes [] excluded = record {
      resolved_model = "";
      candidates = [];
      excluded = [];
    }
    search consensus_mode now nodes (wanted ∷ rest) excluded =
        let (candidates, metadata, all) = gather consensus_mode now wanted nodes excluded in
        let later = search consensus_mode now nodes rest all in
        if is_empty candidates
        then record later { excluded = metadata ++ later.excluded }
        else record {
          resolved_model = wanted;
          candidates = sort_stable candidate_before candidates;
          excluded = metadata;
        }
