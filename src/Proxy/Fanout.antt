-- ===== src/Proxy/Fanout.antt =====
-- internal/httpapi/consensus.go: a request that all participants are asked, and what is made of
-- their answers. The nodes are a parameter: the URL of each, and what it answers and how the context
-- stands then. Durations, headers and the part of a body that is read before it fails are left out.
use llama_wrangler.Common.{
  ℕ, zero, suc, Bool, true, false, String, List, [], ◌∷◌, Option, none, some, ltb, leb,
  if◌then◌else◌, length,
}
use llama_wrangler.Common.Text.{str_eq}
use llama_wrangler.Common.Dict.{Dict, lookup, insert}

abbrev pub consensus_max_response_bytes : ℕ
consensus_max_response_bytes = 8388608

pub data Reason : Type 0 where
  missing_proxy_url connection_error upstream_4xx upstream_5xx : Reason
  body_read response_size timeout cancellation : Reason

-- `ctx.Err()`
pub data Context : Type 0 where
  live deadline_exceeded canceled : Context

-- What a node answers: the request could not be made, it failed, or there is a status and what
-- `io.ReadAll` gives of the body, none where it fails.
pub data Exchange : Type 0 where
  bad_request unreachable : Exchange
  response : ℕ → Option String → Exchange

pub record Fleet : Type 0 where
  pub url : String → String
  pub exchange : String → Exchange
  pub context : String → Context
  -- The bytes of a text.
  pub encode : String → List ℕ

pub record ParticipantOutcome : Type 0 where
  pub node_id : String
  pub status_code : ℕ
  pub body : String
  pub failure_reason : Option Reason
  pub failed : Bool

pub record ParticipantFailure : Type 0 where
  pub node_id : String
  pub reason_code : Reason
  pub status_code : ℕ

unfoldable pub consensus_failure_reason_for_context : Context → Reason → Reason
consensus_failure_reason_for_context live fallback = fallback
consensus_failure_reason_for_context deadline_exceeded fallback = timeout
consensus_failure_reason_for_context canceled fallback = cancellation

abbrev pub failed_outcome : String → ℕ → String → Reason → ParticipantOutcome
failed_outcome node status body reason = record {
  node_id = node;
  status_code = status;
  body = body;
  failure_reason = some reason;
  failed = true;
}

module _ (fleet : Fleet) where
  open fleet use {url, exchange, context, encode}

  abbrev pub read_answer : String → ℕ → Option String → ParticipantOutcome
  read_answer node status none =
      failed_outcome node status "" (consensus_failure_reason_for_context (context node) body_read)
  read_answer node status (some body) =
      if ltb consensus_max_response_bytes (length (encode body))
      then failed_outcome node status "" response_size
      else record {
        node_id = node;
        status_code = status;
        body = body;
        failure_reason = none;
        failed = false;
      }

  abbrev pub exchange_outcome : String → Exchange → ParticipantOutcome
  exchange_outcome node bad_request = failed_outcome node 0 "" connection_error
  exchange_outcome node unreachable =
      failed_outcome node 0 ""
        (consensus_failure_reason_for_context (context node) connection_error)
  exchange_outcome node (response status body) =
      if leb 500 status
      then failed_outcome node status "" upstream_5xx
      else if leb 400 status
      then failed_outcome node status "" upstream_4xx
      else read_answer node status body

  unfoldable pub fetch_consensus_participant : String → ParticipantOutcome
  unfolding consensus_failure_reason_for_context
  fetch_consensus_participant node =
      if str_eq (url node) ""
      then failed_outcome node 0 "" missing_proxy_url
      else exchange_outcome node (exchange node)

abbrev pub reason_or : Reason → Option Reason → Reason
reason_or fallback none = fallback
reason_or fallback (some reason) = reason

unfoldable pub consensus_participant_failure : ParticipantOutcome → ParticipantFailure
consensus_participant_failure o = record {
  node_id = o.node_id;
  reason_code = reason_or connection_error o.failure_reason;
  status_code = o.status_code;
}

-- What the `select` of the loop takes: the outcome of a participant, the end of the time, or the
-- client's leaving. After the last event the time ends.
pub data Event : Type 0 where
  arrived : String → Event
  time_up client_gone : Event

pub record Collected : Type 0 where
  pub response_by_node : Dict ParticipantOutcome
  pub failure_by_node : Dict ParticipantFailure
  pub client_cancelled : Bool
  pub timed_out : Bool

unfoldable pub receive : ParticipantOutcome → Collected → Collected
unfolding insert consensus_participant_failure
receive o c =
    if o.failed
    then record c {
      failure_by_node = insert o.node_id (consensus_participant_failure o) c.failure_by_node;
    }
    else record c { response_by_node = insert o.node_id o c.response_by_node }

module _ (fleet : Fleet) where
  -- The loop `collect`, with the number of the participants that have not been heard of.
  unfoldable pub collect : ℕ → List Event → Collected → Collected
  unfolding receive fetch_consensus_participant
  collect zero events c = c
  collect (suc n) [] c = record c { timed_out = true }
  collect (suc n) (arrived node ∷ events) c =
      collect n events (receive (fetch_consensus_participant fleet node) c)
  collect (suc n) (time_up ∷ events) c = record c { timed_out = true }
  collect (suc n) (client_gone ∷ events) c = record c { client_cancelled = true }

abbrev pub nothing_collected : Collected
nothing_collected = record {
  response_by_node = [];
  failure_by_node = [];
  client_cancelled = false;
  timed_out = false;
}

unfoldable pub unfinished_reason : Collected → Reason
unfinished_reason c =
    if c.client_cancelled then cancellation else if c.timed_out then timeout else connection_error

pub record Split : Type 0 where
  pub successful_nodes : List String
  pub failed_nodes : List String
  pub participant_failures : List ParticipantFailure

abbrev pub failure_or : String → Reason → Option ParticipantFailure → ParticipantFailure
failure_or node reason none = record { node_id = node; reason_code = reason; status_code = 0 }
failure_or node reason (some failure) = failure

abbrev pub put_node : String → ParticipantFailure → Option ParticipantOutcome → Split → Split
put_node node failure (some o) s = record s { successful_nodes = node ∷ s.successful_nodes }
put_node node failure none s = record s {
  failed_nodes = node ∷ s.failed_nodes;
  participant_failures = failure ∷ s.participant_failures;
}

-- The loop over the participants after the collection.
unfoldable pub split_participants : Collected → List String → Split
unfolding lookup unfinished_reason
split_participants c [] = record {
  successful_nodes = [];
  failed_nodes = [];
  participant_failures = [];
}
split_participants c (node ∷ nodes) =
    put_node node (failure_or node (unfinished_reason c) (lookup node c.failure_by_node))
      (lookup node c.response_by_node) (split_participants c nodes)
