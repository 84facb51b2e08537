-- ===== src/Proxy/Outcome.antt =====
-- internal/httpapi/consensus.go, `forwardConsensus`: what its outcome says, and what the client is sent.
use llama_wrangler.Common.{
  ℕ, ◌≤◌, ◌<◌, ◌≡◌, refl, sym, subst, true, false, String, List, Option, none, some, ltb,
  if◌then◌else◌, length, In, arith, by_test, ltb-false, ltb→lt,
}
use llama_wrangler.Common.Dict.{lookup}
use llama_wrangler.Consensus.Content.{Platform}
use llama_wrangler.Consensus.Engine.{Floats, Result}
use llama_wrangler.Proxy.Answer.{Writer, write_header}
use llama_wrangler.Proxy.Copy.{Client, write}
use llama_wrangler.Proxy.Retry.{IsSent}
use llama_wrangler.Proxy.Fanout.{
  Fleet, ParticipantOutcome, Event, client_gone, Collected, collect, nothing_collected, Split,
  split_participants,
}
use llama_wrangler.Proxy.ForwardConsensus.{
  insufficient_successes, ConsensusOutcome, required_of, started, divided, consensus_result,
  send_winner, conclude_consensus, forward_consensus,
}
use llama_wrangler.Proxy.Heard.{heard, ended, collect-IsKnown, collect-ended, collect_gone}
use llama_wrangler.Proxy.Held.{collect_collected}
use llama_wrangler.Proxy.Divided.{IsDivided, split-IsDivided}

abbrev pub split_of : {F : Type 0} → ConsensusOutcome F → Split
split_of o = record {
  successful_nodes = o.successful_nodes;
  failed_nodes = o.failed_nodes;
  participant_failures = o.participant_failures;
}

module _ {F : Type 0} (floats : Floats F) (platform : Platform) (fleet : Fleet) (client : Client)
    (surface : String) where
  -- A fact about the split that the later steps leave alone.
  winner_keeps :
      (P : Split → Type 0) (v : Option ParticipantOutcome) (result : Result F) (w : Writer)
      (o : ConsensusOutcome F)
      → P (split_of o)
      → P (split_of (send_winner floats platform fleet client surface v result w o).1)
  unfolding send_winner
  winner_keeps P none result w o p = p
  winner_keeps P (some v) result w o p = p

  -- The cases of what follows the collection.
  pub conclude_cases :
      (P : Writer × ConsensusOutcome F → Type 0) (c : Collected) (w : Writer)
      (o : ConsensusOutcome F)
      → (c.client_cancelled ≡ true → P (w, divided c o))
      → (length c.response_by_node < o.required
          → P (w, record (divided c o) { err = some insufficient_successes }))
      → (c.client_cancelled ≡ false
          → o.required ≤ length c.response_by_node
          → let result = consensus_result floats platform fleet client surface c o.participants in
            P (
              send_winner floats platform fleet client surface
                (lookup result.winner.node_id c.response_by_node)
                result
                w
                (divided c o)))
      → P (conclude_consensus floats platform fleet client surface c w o)
  unfolding conclude_consensus
  conclude_cases P c w o left few sent =
      let result = consensus_result floats platform fleet client surface c o.participants in
      let short : Writer × ConsensusOutcome F =
        (w, record (divided c o) { err = some insufficient_successes }) in
      let won =
        send_winner floats platform fleet client surface
          (lookup result.winner.node_id c.response_by_node) result w (divided c o) in
      let test = ltb (length c.response_by_node) o.required in
      by_test P c.client_cancelled (w, divided c o) (if test then short else won) left
        (λ q.
          by_test P test short won (λ t. few (ltb→lt (length c.response_by_node) o.required t))
            (λ t. sent q (ltb-false (length c.response_by_node) o.required t)))

  conclude_keeps :
      (P : Split → Type 0) (c : Collected) (w : Writer) (o : ConsensusOutcome F)
      → P (split_participants c o.participants)
      → P (split_of (conclude_consensus floats platform fleet client surface c w o).1)
  conclude_keeps P c w o p =
      let result = consensus_result floats platform fleet client surface c o.participants in
      conclude_cases (λ r. P (split_of r.1)) c w o (λ q. p) (λ q. p)
        (λ q t.
          winner_keeps P (lookup result.winner.node_id c.response_by_node) result w (divided c o) p)

  module _ (participants : List String) (required limit : ℕ) (events : List Event) where
    -- What is collected of the participants.
    abbrev pub collected : Collected
    collected = collect fleet (length participants) events nothing_collected

    abbrev pub served : Writer → Writer × ConsensusOutcome F
    served w =
        forward_consensus floats platform fleet client surface participants required limit events w

    -- Enough participants: the loops are gone through.
    pub concluded :
        (w : Writer)
        → required_of required ≤ length participants
        → served w
          ≡ conclude_consensus floats platform fleet client surface collected w
              (started floats participants required limit)
    unfolding forward_consensus
    concluded w h =
        let o = started floats participants required limit in
        let rest = conclude_consensus floats platform fleet client surface collected w o in
        by_test (λ r. r ≡ rest) (ltb (length participants) o.required)
          (w, record o { err = some insufficient_successes }) rest
          (λ q.
            let no : ⊥ = omega (arith, ltb→lt (length participants) o.required q, h) in elim no [ ])
          (λ q. refl)

    -- When there are as many participants as required: whatever the order of the events, each
    -- participant ends up once among the successful nodes or among the failed ones, in the order of
    -- the participants. The successful ones were heard before the collection ended, with a success.
    -- Each failed one has one failure, under its name: the reason and the status of one that was heard
    -- are those that its answer and its context call for, and one that was not heard has status 0 and
    -- the reason why the collection ended.
    pub forward_consensus_divides :
        (w : Writer)
        → required_of required ≤ length participants
        → let n = length participants in
          IsDivided fleet (heard n events) (ended n events) participants (split_of (served w).1)
    forward_consensus_divides w h =
        let n = length participants in
        let good = IsDivided fleet (heard n events) (ended n events) participants in
        subst (λ r. good (split_of r.1)) (sym (concluded w h))
          (conclude_keeps good collected w (started floats participants required limit) (
            split-IsDivided fleet (heard n events) (ended n events) collected participants
              (collect_collected fleet (heard n events) n events nothing_collected (λ k i. i)
                (tt, tt))
              (collect-IsKnown fleet n events nothing_collected)
              (collect-ended fleet n events nothing_collected refl refl)))

    pub outcome_cases :
        (P : Writer × ConsensusOutcome F → Type 0) (w : Writer)
        → let o = started floats participants required limit in
          P (w, record o { err = some insufficient_successes })
          → P (conclude_consensus floats platform fleet client surface collected w o)
          → P (served w)
    unfolding forward_consensus
    outcome_cases P w early late =
        let o = started floats participants required limit in
        by_test P (ltb (length participants) o.required)
          (w, record o { err = some insufficient_successes })
          (conclude_consensus floats platform fleet client surface collected w o) (λ q. early)
          (λ q. late)

    sent_gone :
        (v : Option ParticipantOutcome) (result : Result F) (w : Writer) (o : ConsensusOutcome F)
        → (o.client_cancelled ≡ true → In client_gone events)
        → let r = send_winner floats platform fleet client surface v result w o in
          r.1.client_cancelled ≡ true → In client_gone events
    unfolding send_winner
    sent_gone none result w o seen e = seen e
    sent_gone (some v) result w o seen e = seen e

    -- A consensus that says that the client has gone has seen it go.
    pub forward_consensus_gone :
        (w : Writer) → (served w).1.client_cancelled ≡ true → In client_gone events
    forward_consensus_gone w =
        let o = started floats participants required limit in
        let n = length participants in
        let gone = λ (r : Writer × ConsensusOutcome F).
          r.1.client_cancelled ≡ true → In client_gone events in
        let seen = collect_gone fleet n events nothing_collected refl in
        let result = consensus_result floats platform fleet client surface collected participants in
        outcome_cases gone w (λ e. let no : ⊥ = cc in elim no [ ])
          (conclude_cases gone collected w o (λ q e. seen e) (λ q e. seen e)
            (λ q t.
              sent_gone (lookup result.winner.node_id collected.response_by_node) result w
                (divided collected o) seen))

    send-IsSent :
        (v : Option ParticipantOutcome) (result : Result F) (w : Writer) (o : ConsensusOutcome F)
        → o.response_committed ≡ false
        → let r = send_winner floats platform fleet client surface v result w o in
          IsSent r.1.response_committed w r.0
    unfolding send_winner write_header write
    send-IsSent none result w o e = rw (e) refl
    send-IsSent (some v) result w o e = (v.status_code, refl)

    -- A consensus that is committed has sent the client one status line, and one that is not has sent
    -- nothing, whatever the nodes and the client do.
    pub forward_consensus-IsSent :
        (w : Writer) → IsSent (served w).1.response_committed w (served w).0
    forward_consensus-IsSent w =
        let o = started floats participants required limit in
        let result = consensus_result floats platform fleet client surface collected participants in
        outcome_cases (λ r. IsSent r.1.response_committed w r.0) w refl
          (conclude_cases (λ r. IsSent r.1.response_committed w r.0) collected w o (λ q. refl)
            (λ q. refl)
            (λ q t.
              send-IsSent (lookup result.winner.node_id collected.response_by_node) result w
                (divided collected o) refl))

    send_settled :
        (v : Option ParticipantOutcome) (result : Result F) (w : Writer) (o : ConsensusOutcome F)
        → let r = send_winner floats platform fleet client surface v result w o in
          r.1.err ≡ none → r.1.response_committed ≡ true
    unfolding send_winner
    send_settled none result w o e = let no : ⊥ = cc in elim no [ ]
    send_settled (some v) result w o e = refl

    -- A consensus without an error is committed.
    pub forward_consensus_settled :
        (w : Writer) → (served w).1.err ≡ none → (served w).1.response_committed ≡ true
    forward_consensus_settled w =
        let o = started floats participants required limit in
        let result = consensus_result floats platform fleet client surface collected participants in
        let fine =
          λ (r : Writer × ConsensusOutcome F). r.1.err ≡ none → r.1.response_committed ≡ true in
        outcome_cases fine w (λ e. let no : ⊥ = cc in elim no [ ])
          (conclude_cases fine collected w o
            (λ q e. let no : ⊥ = ground (arith, q, e) in elim no [ ])
            (λ q e. let no : ⊥ = cc in elim no [ ])
            (λ q t.
              send_settled (lookup result.winner.node_id collected.response_by_node) result w
                (divided collected o)))
