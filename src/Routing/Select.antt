-- ===== src/Routing/Select.antt =====
-- internal/routing/routing.go: `Select` and the answer that it gives. `now` is an argument.
use llama_wrangler.Common.{
  ℕ, Bool, true, false, ◌&&◌, String, List, [], ◌∷◌, ◌++◌, ltb, leb, if◌then◌else◌, length,
  is_empty, take,
}
use llama_wrangler.Common.Text.{contains}
use llama_wrangler.Common.Sort.{sort_stable}
use llama_wrangler.Config.{Config}
use llama_wrangler.Appstate.Node.{Node}
use llama_wrangler.Routing.Placement.{Numbers}
use llama_wrangler.Routing.Plan.{
  Request, NodeMetadata, Decision, Plan, plan_of, is_consensus_plan, bounds_of, when, choose,
}
use llama_wrangler.Routing.Search.{CandidateNode, Found, all_nodes, node_before, search}

module _ {F : Type 0} where
  abbrev pub names : List (CandidateNode F) → List String
  names [] = []
  names (c ∷ cs) = c.node.node_id ∷ names cs

  abbrev pub metadata_of : List (CandidateNode F) → List NodeMetadata
  metadata_of [] = []
  metadata_of (c ∷ cs) = c.metadata ∷ metadata_of cs

  abbrev pub first_reasons : List (CandidateNode F) → List String
  first_reasons [] = []
  first_reasons (c ∷ cs) = c.metadata.reasons

  -- The candidates within the limit of a consensus.
  unfoldable pub limited : Plan → List (CandidateNode F) → List (CandidateNode F)
  unfolding is_consensus_plan
  limited p cs = if is_consensus_plan p then take (bounds_of p).1 cs else cs

  -- What the answer says in any case.
  abbrev pub answer : Plan → Found F → List (CandidateNode F) → List String → Decision
  answer p found candidates reasons = record {
    model_alias = p.model;
    resolved_model = found.resolved_model;
    selected_node = "";
    candidate_nodes = names candidates;
    candidate_metadata = metadata_of candidates;
    fallback_nodes = [];
    excluded_nodes = found.excluded;
    strategy = p.strategy;
    reasons = reasons;
    execution_mode = p.execution_mode;
    affinity = p.affinity;
    consensus_required = (bounds_of p).0;
    consensus_limit = (bounds_of p).1;
  }

  unfoldable pub refused : Plan → Found F → Decision
  unfolding is_consensus_plan bounds_of
  refused p found =
      answer p found []
        ("no_policy_eligible_node" ∷ when (is_consensus_plan p) "consensus_policy_applied")

  abbrev pub cut_reasons : Plan → Found F → List String
  cut_reasons p found =
      when (is_consensus_plan p && ltb (bounds_of p).1 (length found.candidates))
        "consensus_max_participants_applied"

  abbrev pub too_few : Plan → Found F → Bool
  too_few p found =
      is_consensus_plan p
      && leb 1 (bounds_of p).0
      && ltb (length (limited p found.candidates)) (bounds_of p).0

  unfoldable pub short : Plan → Found F → Decision
  unfolding is_consensus_plan bounds_of limited
  short p found =
      answer p found (limited p found.candidates)
        (cut_reasons p found ++ "consensus_min_participants_unmet" ∷ [])

  unfoldable pub accepted : Plan → Found F → Decision
  unfolding is_consensus_plan bounds_of limited contains
  accepted p found =
      let chosen = limited p found.candidates in
      choose (names chosen) (
        answer p found chosen (
          cut_reasons p found
          ++ "requested_model_available"
            ∷ "node_enabled"
            ∷ "node_approved"
            ∷ "trust_policy_eligible"
            ∷ (if is_consensus_plan p
                then "consensus_policy_applied"
                else "single_route_policy_applied")
            ∷ first_reasons chosen
          ++ when (contains p.strategy "code") "role_primary_code"))

  -- The part of `Select` after the search.
  unfoldable pub conclude : Plan → Found F → Decision × Bool
  unfolding is_consensus_plan bounds_of limited refused short accepted
  conclude p found =
      if is_empty found.candidates
      then (refused p found, false)
      else if too_few p found
      then (short p found, false)
      else (accepted p found, true)

  -- What `Select` finds before it decides.
  unfoldable pub found_for : Numbers F → Config → List (Node F) → ℕ → Request → Found F
  unfolding plan_of is_consensus_plan all_nodes sort_stable node_before search
  found_for numbers cfg state_nodes now req =
      let p = plan_of cfg req in
      let consensus_mode = is_consensus_plan p in
      let nodes = sort_stable (node_before consensus_mode) (all_nodes cfg state_nodes) in
      search numbers consensus_mode now nodes p.wanted []

  unfoldable pub select : Numbers F → Config → List (Node F) → ℕ → Request → Decision × Bool
  unfolding plan_of found_for conclude
  select numbers cfg state_nodes now req =
      conclude (plan_of cfg req) (found_for numbers cfg state_nodes now req)
