-- ===== src/Proxy/ForwardConsensus.antt =====
-- internal/httpapi/consensus.go: `forwardConsensus`, and the answer to a request that it could not
-- serve. Headers, flushing and durations are left out.
use llama_wrangler.Common.{
  ℕ, suc, Bool, true, false, not, ◌&&◌, ◌||◌, String, List, [], ◌∷◌, Option, none, some, ltb, leb,
  ◌==◌, if◌then◌else◌, length, is_empty,
}
use llama_wrangler.Common.Dict.{Dict, lookup}
use llama_wrangler.Consensus.Content.{Platform}
use llama_wrangler.Consensus.Engine.{Floats, Candidate, Result, evaluate, noop_evaluator}
use llama_wrangler.Routing.Policy.{consensus_default_min_participants}
use llama_wrangler.Proxy.Answer.{Writer, write_header, normalized_upstream_error}
use llama_wrangler.Proxy.Copy.{Client, write}
use llama_wrangler.Proxy.Fanout.{
  Reason, upstream_4xx, timeout, Fleet, ParticipantOutcome, ParticipantFailure, Event, Collected,
  collect, nothing_collected, split_participants,
}

pub data ConsensusError : Type 0 where
  insufficient_successes context_done winner_missing write_failed : ConsensusError

-- `consensusProxyOutcome`, with the counts of the reasons as a function of the failures.
pub record ConsensusOutcome (F : Type 0) : Type 0 where
  pub participants : List String
  pub successful_nodes : List String
  pub failed_nodes : List String
  pub participant_failures : List ParticipantFailure
  pub winner_node : String
  pub required : ℕ
  pub limit : ℕ
  pub agreement_score : F
  pub agreement_count : ℕ
  pub comparison_strategy : String
  pub consensus_reached : Bool
  pub disagreement : Bool
  pub validator_passed : Bool
  pub bytes_written : ℕ
  pub response_committed : Bool
  pub client_cancelled : Bool
  pub timed_out : Bool
  pub err : Option ConsensusError

abbrev pub is_timeout : Reason → Bool
is_timeout timeout = true
is_timeout _ = false

abbrev pub is_upstream_4xx : Reason → Bool
is_upstream_4xx upstream_4xx = true
is_upstream_4xx _ = false

-- `outcome.FailureReasonCounts[consensusFailureTimeout]`
abbrev pub timeout_count : List ParticipantFailure → ℕ
timeout_count [] = 0
timeout_count (f ∷ fs) =
    let rest = timeout_count fs in if is_timeout f.reason_code then suc rest else rest

abbrev pub candidates_of : Dict ParticipantOutcome → List String → List Candidate
candidates_of responses [] = []
candidates_of responses (node ∷ nodes) = elim (lookup node responses) [
  | none ↦ candidates_of responses nodes
  | some o ↦ record { node_id = node; body = o.body } ∷ candidates_of responses nodes
]

-- The failures of the loop of `consensusInferenceFailure`: its two variables after it.
abbrev pub upstream_failures : ℕ → List ParticipantFailure → Bool × ℕ
upstream_failures status [] = (true, status)
upstream_failures status (f ∷ fs) =
    let rest = upstream_failures (if status == 0 then f.status_code else status) fs in
    if not (is_upstream_4xx f.reason_code) || ltb f.status_code 400 || leb 500 f.status_code
    then (false, status)
    else rest

abbrev pub required_of : ℕ → ℕ
required_of required = if ltb required 1 then consensus_default_min_participants else required

abbrev pub error_code_insufficient : String
error_code_insufficient = "consensus_insufficient_successful_participants"

abbrev pub context_error : Collected → Option ConsensusError
context_error c = if c.client_cancelled || c.timed_out then some context_done else none

module _ {F : Type 0} where
  unfoldable pub consensus_inference_failure : ConsensusOutcome F → ℕ × (String × String)
  unfolding normalized_upstream_error
  consensus_inference_failure o =
      let (all_upstream_4xx, status) = upstream_failures 0 o.participant_failures in
      if is_empty o.successful_nodes
        && not (is_empty o.participant_failures)
        && (all_upstream_4xx && not (status == 0))
      then (status, normalized_upstream_error status)
      else if o.timed_out || ltb 0 (timeout_count o.participant_failures)
      then (
        504,
        (
          error_code_insufficient,
          "Consensus timed out before enough Managed Node responses succeeded.",
        ),
      )
      else (
        502,
        (
          error_code_insufficient,
          "Consensus did not receive enough successful Managed Node responses.",
        ),
      )

  unfoldable pub consensus_debug_state : ConsensusOutcome F → String
  consensus_debug_state o = if o.consensus_reached then "reached" else "no_majority"

  unfoldable pub consensus_escalation_reason : ConsensusOutcome F → Bool → String
  consensus_escalation_reason o recommended =
      if not recommended
      then ""
      else elim o.err [ some _ ↦ "insufficient_successful_participants" | none ↦ "no_majority" ]

  -- The outcome before the participants are asked.
  abbrev pub started : Floats F → List String → ℕ → ℕ → ConsensusOutcome F
  started floats participants required limit = record {
    participants = participants;
    successful_nodes = [];
    failed_nodes = [];
    participant_failures = [];
    winner_node = "";
    required = required_of required;
    limit = limit;
    agreement_score = floats.zero_score;
    agreement_count = 0;
    comparison_strategy = "";
    consensus_reached = false;
    disagreement = false;
    validator_passed = false;
    bytes_written = 0;
    response_committed = false;
    client_cancelled = false;
    timed_out = false;
    err = none;
  }

  -- The outcome after the loop over the participants.
  abbrev pub divided : Collected → ConsensusOutcome F → ConsensusOutcome F
  divided c o =
      let split = split_participants c o.participants in
      record o {
        successful_nodes = split.successful_nodes;
        failed_nodes = split.failed_nodes;
        participant_failures = split.participant_failures;
        client_cancelled = c.client_cancelled;
        timed_out = c.timed_out;
        err = context_error c;
      }

  module _ (floats : Floats F) (platform : Platform) (fleet : Fleet) (client : Client)
      (surface : String) where
    -- `Evaluate` with the evaluator that scores nothing, and no validator.
    abbrev pub consensus_result : Collected → List String → Result F
    consensus_result c participants =
        evaluate floats platform
          (record { validator = none; evaluator = some (noop_evaluator floats) }) surface
          (candidates_of c.response_by_node participants)

    -- The winner's answer is sent to the client.
    unfoldable pub send_winner :
        Option ParticipantOutcome
        → Result F
        → Writer
        → ConsensusOutcome F
        → Writer × ConsensusOutcome F
    unfolding write_header write
    send_winner none result w o = (w, record o { err = some winner_missing })
    send_winner (some winner) result w o =
        let (sent, (written, failed)) =
          write client (fleet.encode winner.body) (write_header winner.status_code w) in
        (
          sent,
          record o {
            winner_node = winner.node_id;
            agreement_score = result.agreement_score;
            agreement_count = result.agreement_count;
            comparison_strategy = result.strategy;
            consensus_reached = result.consensus_reached;
            disagreement = result.disagreement;
            validator_passed = result.validator_passed;
            bytes_written = written;
            response_committed = true;
            err = if failed then some write_failed else none;
          },
        )

    -- What follows the collection.
    unfoldable pub conclude_consensus :
        Collected → Writer → ConsensusOutcome F → Writer × ConsensusOutcome F
    unfolding lookup send_winner
    conclude_consensus c w o =
        let after = divided c o in
        let result = consensus_result c o.participants in
        if c.client_cancelled
        then (w, after)
        else if ltb (length c.response_by_node) o.required
        then (w, record after { err = some insufficient_successes })
        else send_winner (lookup result.winner.node_id c.response_by_node) result w after

    -- With the participants, the required and the greatest number of them, and what happens.
    unfoldable pub forward_consensus :
        List String → ℕ → ℕ → List Event → Writer → Writer × ConsensusOutcome F
    unfolding collect conclude_consensus
    forward_consensus participants required limit events w =
        let o = started floats participants required limit in
        if ltb (length participants) o.required
        then (w, record o { err = some insufficient_successes })
        else conclude_consensus (collect fleet (length participants) events nothing_collected) w o
