-- ===== src/Proxy/Forward.antt =====
-- internal/httpapi/server.go, `forwardWithFallback`. The nodes are a parameter: what the one tried at
-- a position of the list answers, by its URL and the body sent, and whether the client has gone by then. Telemetry is left out.
use llama_wrangler.Common.{
  ℕ, suc, Bool, true, false, not, ◌&&◌, ◌||◌, String, List, [], ◌∷◌, ltb, leb, if◌then◌else◌,
}
use llama_wrangler.Common.Text.{str_eq}
use llama_wrangler.Proxy.Answer.{Writer, normalized_upstream_error, write_inference_error_for_path}
use llama_wrangler.Proxy.Copy.{Client, Read, CopyOutcome, copy_upstream_response}

-- A node's answer: the request could not be made, it failed, or it has a status and a body.
pub data Reply : Type 0 where
  bad_request : Reply
  unreachable : Reply
  response : ℕ → List Read → Reply

pub record World : Type 0 where
  pub url : String → String
  pub reply : ℕ → String → String → Reply
  pub cancelled : ℕ → Bool
  pub client : Client

pub record ProxyOutcome : Type 0 where
  pub selected_node : String
  pub fallback_used : Bool
  pub retry_count : ℕ
  pub bytes_written : ℕ
  pub response_committed : Bool
  pub partial_output : Bool
  pub client_cancelled : Bool
  pub failed : Bool

-- One round of the loop: whether it returns, and with what.
pub data Round : Type 0 where
  returns : Writer → ProxyOutcome → Round
  goes_on : Writer → Round

abbrev pub stopped : ℕ → String → ProxyOutcome
stopped i node = record {
  selected_node = node;
  fallback_used = ltb 0 i;
  retry_count = 0;
  bytes_written = 0;
  response_committed = false;
  partial_output = false;
  client_cancelled = false;
  failed = true;
}

-- The answer after the loop. There is always a node, so the last error is set.
abbrev pub exhausted : ℕ → ProxyOutcome
exhausted tried = record (stopped 0 "") { fallback_used = ltb 1 tried }

module _ (world : World) (path sent : String) (stream : Bool) where
  open world use {url, reply, cancelled, client}

  unfoldable pub copied_round : ℕ → String → Writer × CopyOutcome → Round
  copied_round i node (w, c) =
      let some_output = ltb 0 c.bytes_written in
      let done = record (stopped i node) {
        retry_count = i;
        bytes_written = c.bytes_written;
        response_committed = c.response_committed;
        failed = c.failed;
      } in
      if not c.failed
      then returns w done
      else if cancelled i
      then returns w (record done { partial_output = some_output; client_cancelled = true })
      else if some_output || c.response_committed
      then returns w (record done { partial_output = some_output })
      else goes_on w

  abbrev pub replied_round : ℕ → String → Reply → Writer → Round
  replied_round i node bad_request w = returns w (stopped i node)
  replied_round i node unreachable w =
      if cancelled i
      then returns w (record (stopped i node) { client_cancelled = true })
      else goes_on w
  replied_round i node (response status body) w =
      if leb 400 status && ltb status 500
      then returns
          (write_inference_error_for_path path status (normalized_upstream_error status).0
            (normalized_upstream_error status).1 w)
          (record (stopped i node) { retry_count = i; response_committed = true })
      else if ltb status 400
      then copied_round i node (copy_upstream_response client status stream body w)
      else goes_on w

  unfoldable pub round : ℕ → String → Writer → Round
  unfolding normalized_upstream_error write_inference_error_for_path copied_round
      copy_upstream_response
  round i node w =
      if str_eq (url node) "" then goes_on w else replied_round i node (reply i (url node) sent) w

  unfoldable pub forward_from : ℕ → List String → Writer → Writer × ProxyOutcome
  unfolding round
  forward_from i [] w = (w, exhausted i)
  forward_from i (node ∷ nodes) w = elim (round i node w) [
    | returns sent outcome ↦ (sent, outcome)
    | goes_on sent ↦ forward_from (suc i) nodes sent
  ]

  -- The selected node, then the fallback nodes.
  unfoldable pub forward_with_fallback : String → List String → Writer → Writer × ProxyOutcome
  unfolding forward_from
  forward_with_fallback selected_node fallback_nodes w =
      forward_from 0 (selected_node ∷ fallback_nodes) w
