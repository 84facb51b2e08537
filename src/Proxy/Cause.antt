-- ===== src/Proxy/Cause.antt =====
-- internal/httpapi/consensus.go, `fetchConsensusParticipant`: why a participant failed, told from what
-- it answered.
use llama_wrangler.Common.{
  ℕ, ◌≤◌, ◌<◌, ◌≡◌, refl, true, false, String, Option, none, some, ltb, leb, if◌then◌else◌, length,
  by_test, arith, ltb→lt,
}
use llama_wrangler.Common.Text.{str_eq}
use llama_wrangler.Proxy.Fanout.{
  Reason, missing_proxy_url, connection_error, upstream_4xx, upstream_5xx, body_read, response_size,
  timeout, cancellation, Context, live, deadline_exceeded, canceled, Exchange, bad_request,
  unreachable, response, Fleet, ParticipantOutcome, failed_outcome, read_answer,
  consensus_max_response_bytes, consensus_failure_reason_for_context, exchange_outcome,
  fetch_consensus_participant, consensus_participant_failure,
}

-- The reason of a failure that the context may explain: the end of the time and the client's leaving
-- come before the failure itself.
pub data IsContextReason : Context → Reason → Reason → Type 0 where
  by_itself : (fallback : Reason) → IsContextReason live fallback fallback
  by_time : (fallback : Reason) → IsContextReason deadline_exceeded fallback timeout
  by_client : (fallback : Reason) → IsContextReason canceled fallback cancellation

context_reason :
    (c : Context) (fallback : Reason)
    → IsContextReason c fallback (consensus_failure_reason_for_context c fallback)
unfolding consensus_failure_reason_for_context
context_reason live fallback = by_itself fallback
context_reason deadline_exceeded fallback = by_time fallback
context_reason canceled fallback = by_client fallback

module _ (fleet : Fleet) (node : String) where
  -- The reason and the status of a failure, by what a node with a URL answered.
  pub data AnswerCause : Reason → ℕ → Type 0 where
    not_made : fleet.exchange node ≡ bad_request → AnswerCause connection_error 0
    not_reached :
        (r : Reason)
        → fleet.exchange node ≡ unreachable
        → IsContextReason (fleet.context node) connection_error r
        → AnswerCause r 0
    server_error :
        (status : ℕ) (body : Option String)
        → fleet.exchange node ≡ response status body
        → 500 ≤ status
        → AnswerCause upstream_5xx status
    client_error :
        (status : ℕ) (body : Option String)
        → fleet.exchange node ≡ response status body
        → 400 ≤ status
        → status < 500
        → AnswerCause upstream_4xx status
    not_read :
        (r : Reason) (status : ℕ)
        → fleet.exchange node ≡ response status none
        → status < 400
        → IsContextReason (fleet.context node) body_read r
        → AnswerCause r status
    too_large :
        (status : ℕ) (body : String)
        → fleet.exchange node ≡ response status (some body)
        → status < 400
        → consensus_max_response_bytes < length (fleet.encode body)
        → AnswerCause response_size status

  -- The same for any node.
  pub data Cause : Reason → ℕ → Type 0 where
    no_url : str_eq (fleet.url node) "" ≡ true → Cause missing_proxy_url 0
    answered :
        (r : Reason) (status : ℕ)
        → str_eq (fleet.url node) "" ≡ false
        → AnswerCause r status
        → Cause r status

  -- An outcome that failed has its cause.
  abbrev HasAnswerCause : ParticipantOutcome → Type 0
  HasAnswerCause o =
      o.failed ≡ true → (r : Reason) × (o.failure_reason ≡ some r) × AnswerCause r o.status_code

  abbrev pub HasCause : ParticipantOutcome → Type 0
  HasCause o = o.failed ≡ true → (r : Reason) × (o.failure_reason ≡ some r) × Cause r o.status_code

  read-HasAnswerCause :
      (status : ℕ) (o : Option String)
      → fleet.exchange node ≡ response status o
      → status < 400
      → HasAnswerCause (read_answer fleet node status o)
  read-HasAnswerCause status none e s =
      let r = consensus_failure_reason_for_context (fleet.context node) body_read in
      λ h. (r, refl, not_read r status e s (context_reason (fleet.context node) body_read))
  read-HasAnswerCause status (some body) e s =
      let taken : ParticipantOutcome = record {
        node_id = node;
        status_code = status;
        body = body;
        failure_reason = none;
        failed = false;
      } in
      let size = length (fleet.encode body) in
      by_test HasAnswerCause (ltb consensus_max_response_bytes size)
        (failed_outcome node status "" response_size) taken
        (λ q h. (response_size, refl, too_large status body e s (ltb→lt _ size q)))
        (λ q h. let no : ⊥ = cc in elim no [ ])

  exchange-HasAnswerCause :
      (x : Exchange) → fleet.exchange node ≡ x → HasAnswerCause (exchange_outcome fleet node x)
  exchange-HasAnswerCause bad_request e = λ h. (connection_error, refl, not_made e)
  exchange-HasAnswerCause unreachable e =
      let r = consensus_failure_reason_for_context (fleet.context node) connection_error in
      λ h. (r, refl, not_reached r e (context_reason (fleet.context node) connection_error))
  exchange-HasAnswerCause (response status body) e =
      by_test HasAnswerCause (leb 500 status) (failed_outcome node status "" upstream_5xx)
        (if leb 400 status
          then failed_outcome node status "" upstream_4xx
          else read_answer fleet node status body)
        (λ q h. (upstream_5xx, refl, server_error status body e (ground (arith, q))))
        (λ q.
          by_test HasAnswerCause (leb 400 status) (failed_outcome node status "" upstream_4xx)
            (read_answer fleet node status body)
            (λ t h. (
              upstream_4xx,
              refl,
              client_error status body e (ground (arith, t)) (ground (arith, q)),
            ))
            (λ t. read-HasAnswerCause status body e (ground (arith, t))))

  pub fetch-HasCause : HasCause (fetch_consensus_participant fleet node)
  unfolding fetch_consensus_participant
  fetch-HasCause =
      by_test HasCause (str_eq (fleet.url node) "") (failed_outcome node 0 "" missing_proxy_url)
        (exchange_outcome fleet node (fleet.exchange node))
        (λ q h. (missing_proxy_url, refl, no_url q))
        (λ q h.
          let (r, e, c) = exchange-HasAnswerCause (fleet.exchange node) refl h in
          (r, e, answered r (exchange_outcome fleet node (fleet.exchange node)).status_code q c))

-- What is kept of an outcome with a reason.
pub failure_kept :
    (node : String) (r : Reason) (o : ParticipantOutcome)
    → o.node_id ≡ node
    → o.failure_reason ≡ some r
    → consensus_participant_failure o
      ≡ record { node_id = node; reason_code = r; status_code = o.status_code }
unfolding consensus_participant_failure
failure_kept node r o n e = rw (n, e) refl
