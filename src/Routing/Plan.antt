-- ===== src/Routing/Plan.antt =====
-- internal/routing/routing.go: requests, decisions, and what a request asks for.
use llama_wrangler.Common.{ℕ, Bool, false, ◌||◌, String, List, [], ◌∷◌, none, some, if◌then◌else◌}
use llama_wrangler.Common.Int.{ℤ, pos}
use llama_wrangler.Common.Text.{str_eq}
use llama_wrangler.Common.Dict.{lookup}
use llama_wrangler.Config.{Config}
use llama_wrangler.Routing.Policy.{consensus_participant_bounds, is_consensus_mode}

pub record Request : Type 0 where
  pub model : String
  pub execution_mode : String
  pub session_id : String
  pub streaming : Bool
  pub task_type : String

pub record NodeMetadata : Type 0 where
  pub node_id : String
  pub control_level : String
  pub trust_level : String
  pub capability_source : String
  pub reasons : List String

pub record Decision : Type 0 where
  pub model_alias : String
  pub resolved_model : String
  pub selected_node : String
  pub candidate_nodes : List String
  pub candidate_metadata : List NodeMetadata
  pub fallback_nodes : List String
  pub excluded_nodes : List NodeMetadata
  pub strategy : String
  pub reasons : List String
  pub execution_mode : String
  pub affinity : String
  pub consensus_required : ℕ
  pub consensus_limit : ℕ

-- What the request asks for, once its alias is looked up.
pub record Plan : Type 0 where
  pub model : String
  pub wanted : List String
  pub strategy : String
  pub execution_mode : String
  pub affinity : String
  pub min_participants : ℤ
  pub max_participants : ℤ

abbrev pub text_or : String → String → String
text_or s d = if str_eq s "" then d else s

-- The part of `Select` up to the consensus bounds.
unfoldable pub plan_of : Config → Request → Plan
unfolding lookup
plan_of cfg req =
    let model = text_or req.model cfg.routing.default_model_alias in
    elim (lookup model cfg.model_aliases) [
      | none ↦ record {
        model = model;
        wanted = model ∷ [];
        strategy = "weighted_best_available";
        execution_mode = text_or req.execution_mode cfg.routing.default_execution_mode;
        affinity = cfg.session.default_affinity;
        min_participants = pos 0;
        max_participants = pos 0;
      }
      | some a ↦ record {
        model = model;
        wanted = a.candidates;
        strategy = a.strategy;
        execution_mode =
            text_or (text_or a.execution_mode req.execution_mode)
              cfg.routing.default_execution_mode;
        affinity = text_or a.affinity cfg.session.default_affinity;
        min_participants = a.min_participants;
        max_participants = a.max_participants;
      }
    ]

unfoldable pub is_consensus_plan : Plan → Bool
unfolding is_consensus_mode
is_consensus_plan p = is_consensus_mode p.execution_mode p.strategy

abbrev pub is_member : String → List String → Bool
is_member s [] = false
is_member s (t ∷ ts) = str_eq t s || is_member s ts

unfoldable pub bounds_of : Plan → ℕ × ℕ
unfolding is_consensus_plan consensus_participant_bounds
bounds_of p =
    if is_consensus_plan p
    then consensus_participant_bounds p.min_participants p.max_participants
    else (0, 0)

abbrev pub when : Bool → String → List String
when b s = if b then s ∷ [] else []

-- `decision.CandidateNodes[0]` and what follows it, for a list that is not empty.
abbrev pub choose : List String → Decision → Decision
choose [] d = d
choose (n ∷ ns) d = record d { selected_node = n; fallback_nodes = ns }
