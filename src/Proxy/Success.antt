-- ===== src/Proxy/Success.antt =====
-- internal/httpapi/consensus.go, `forwardConsensus`: when the client is served, and with what.
use llama_wrangler.Common.{
  ℕ, ◌≤◌, ◌<◌, ◌≡◌, refl, sym, ap, subst, ◌∙◌, true, false, String, List, [], ◌∷◌, ◌++◌, Option,
  none, some, length, All, In, arith,
}
use llama_wrangler.Common.Dict.{lookup, lookup-AllEntries}
use llama_wrangler.Consensus.Content.{Platform}
use llama_wrangler.Consensus.Engine.{Floats, Result, noop_evaluator}
use llama_wrangler.Proxy.Answer.{Writer, write_header}
use llama_wrangler.Proxy.Copy.{Client}
use llama_wrangler.Proxy.Whole.{IsWriter, written_all}
use llama_wrangler.Proxy.Fanout.{
  Fleet, ParticipantOutcome, fetch_consensus_participant, Event, Collected, nothing_collected,
  split_participants,
}
use llama_wrangler.Proxy.ForwardConsensus.{
  ConsensusOutcome, required_of, started, divided, consensus_result, send_winner,
}
use llama_wrangler.Proxy.Heard.{heard}
use llama_wrangler.Proxy.Held.{IsResponse, collect_collected}
use llama_wrangler.Proxy.Participants.{fetch_named, IsAbout, collect-IsCounted}
use llama_wrangler.Proxy.Divided.{split_counted, split-In}
use llama_wrangler.Proxy.Elected.{IsPresent, winner_present}
use llama_wrangler.Proxy.Outcome.{concluded, conclude_cases, outcome_cases, collected, served}

module _ {F : Type 0} (floats : Floats F) (platform : Platform) (fleet : Fleet) (client : Client)
    (surface : String) where
  -- The client has the whole answer of a winner among enough successful nodes.
  pub record IsServed (w : Writer) (r : Writer × ConsensusOutcome F) : Type 0 where
    pub enough : r.1.required ≤ length r.1.successful_nodes
    pub elected : In r.1.winner_node r.1.successful_nodes
    pub headed :
        r.0.statuses
        ≡ w.statuses ++ (fetch_consensus_participant fleet r.1.winner_node).status_code ∷ []
    pub received :
        r.0.bytes ≡ w.bytes ++ fleet.encode (fetch_consensus_participant fleet r.1.winner_node).body

  send_commits :
      (o : Option ParticipantOutcome) (v : ParticipantOutcome) (result : Result F) (w : Writer)
      (before : ConsensusOutcome F)
      → o ≡ some v
      → (send_winner floats platform fleet client surface o result w before).1.response_committed
        ≡ true
  unfolding send_winner
  send_commits none v result w before e = let no : ⊥ = cc in elim no [ ]
  send_commits (some u) v result w before e = refl

  send-IsServed :
      (o : Option ParticipantOutcome) (v : ParticipantOutcome) (result : Result F) (w : Writer)
      (before : ConsensusOutcome F)
      → IsWriter client
      → o ≡ some v
      → v ≡ fetch_consensus_participant fleet v.node_id
      → In v.node_id before.successful_nodes
      → before.required ≤ length before.successful_nodes
      → let r = send_winner floats platform fleet client surface o result w before in
        r.1.err ≡ none → IsServed w r
  unfolding send_winner write_header
  send-IsServed none v result w before h e s i n q = let no : ⊥ = cc in elim no [ ]
  send-IsServed (some u) v result w before h e s i n q =
      let same : u ≡ v = cc in
      let own = ap (λ x. x.node_id) same in
      let fetched : u ≡ fetch_consensus_participant fleet u.node_id =
        same ∙ s ∙ ap (fetch_consensus_participant fleet) (sym own) in
      let head = write_header u.status_code w in
      let took : (client (length head.bytes) (fleet.encode u.body)).1 ≡ false = ground (arith, q) in
      let all = h.all (length head.bytes) (fleet.encode u.body) took in
      record {
        enough = n;
        elected = subst (λ k. In k before.successful_nodes) (sym own) i;
        headed = ap (λ x. w.statuses ++ x.status_code ∷ []) fetched;
        received =
            ap (λ x. x.bytes) (written_all client (fleet.encode u.body) head all)
            ∙ ap (λ x. w.bytes ++ fleet.encode x.body) fetched;
      }

  module _ (participants : List String) (required limit : ℕ) (events : List Event) where
    abbrev all_collected : Collected
    all_collected =
        collected floats platform fleet client surface participants required limit events

    -- The winner of the responses, when there are enough of them.
    elected_one :
        All (IsAbout fleet participants) events
        → required_of required ≤ length all_collected.response_by_node
        → IsPresent all_collected.response_by_node participants
            (consensus_result floats platform fleet client surface all_collected
              participants).winner.node_id
    unfolding collected
    elected_one about enough =
        let c = all_collected in
        let counted =
          collect-IsCounted fleet participants (length participants) events nothing_collected about
            (omega arith) in
        let some_required : 0 < required_of required = ground arith in
        winner_present floats platform
          (record { validator = none; evaluator = some (noop_evaluator floats) }) surface
          c.response_by_node participants (omega (arith, counted, some_required, enough))

    IsServed-by :
        (v : ParticipantOutcome) (w : Writer)
        → IsWriter client
        → All (IsAbout fleet participants) events
        → required_of required ≤ length all_collected.response_by_node
        → let c = all_collected in
          let o = started floats participants required limit in
          let result = consensus_result floats platform fleet client surface c participants in
          In result.winner.node_id participants
          → lookup result.winner.node_id c.response_by_node ≡ some v
          → let r =
              send_winner floats platform fleet client surface
                (lookup result.winner.node_id c.response_by_node)
                result
                w
                (divided c o) in
            r.1.err ≡ none → IsServed w r
    unfolding collected
    IsServed-by v w writer about enough asked e =
        let c = all_collected in
        let o = started floats participants required limit in
        let result = consensus_result floats platform fleet client surface c participants in
        let key = result.winner.node_id in
        let n = length participants in
        let held =
          collect_collected fleet (heard n events) n events nothing_collected (λ k i. i) (tt, tt) in
        let at =
          lookup-AllEntries (IsResponse fleet (heard n events)) key c.response_by_node v held.0 e in
        let named : v.node_id ≡ key = ap (λ x. x.node_id) at.0 ∙ fetch_named fleet key in
        let counted =
          collect-IsCounted fleet participants (length participants) events nothing_collected about
            (omega arith) in
        send-IsServed (lookup key c.response_by_node) v result w (divided c o) writer e
          (at.0 ∙ ap (fetch_consensus_participant fleet) (sym named))
          (subst (λ k. In k (split_participants c participants).successful_nodes) (sym named)
            (split-In fleet c participants key v asked e))
          (omega (arith, enough, counted, split_counted fleet c participants))

    -- Let there be as many participants as required, and let the events be about them. When the
    -- client stays and enough responses have come in before the time is up, the client is
    -- answered: a winner is found among them.
    pub forward_consensus_commits :
        (w : Writer)
        → All (IsAbout fleet participants) events
        → required_of required ≤ length participants
        → all_collected.client_cancelled ≡ false
        → required_of required ≤ length all_collected.response_by_node
        → (served floats platform fleet client surface participants required limit events
            w).1.response_committed
          ≡ true
    forward_consensus_commits w about many stays enough =
        let c = all_collected in
        let o = started floats participants required limit in
        let result = consensus_result floats platform fleet client surface c participants in
        let (asked, (v, e)) = elected_one about enough in
        let commits = λ (r : Writer × ConsensusOutcome F). r.1.response_committed ≡ true in
        subst commits
          (sym (
            concluded floats platform fleet client surface participants required limit events w
              many))
          (conclude_cases floats platform fleet client surface commits c w o
            (λ q. let no : ⊥ = ground (arith, q, stays) in elim no [ ])
            (λ q. let no : ⊥ = omega (arith, q, enough) in elim no [ ])
            (λ q t.
              send_commits (lookup result.winner.node_id c.response_by_node) v result w
                (divided c o) e))

    -- Let the client keep to the contract of `io.Writer`, and let the events be about the
    -- participants. Without an error, the client has been sent, in full, the answer of one of the
    -- successful nodes, which are at least as many as required.
    pub forward_consensus_serves :
        (w : Writer)
        → IsWriter client
        → All (IsAbout fleet participants) events
        → (served floats platform fleet client surface participants required limit events w).1.err
          ≡ none
        → IsServed w
            (served floats platform fleet client surface participants required limit events w)
    forward_consensus_serves w writer about =
        let c = all_collected in
        let o = started floats participants required limit in
        let result = consensus_result floats platform fleet client surface c participants in
        let fine = λ (r : Writer × ConsensusOutcome F). r.1.err ≡ none → IsServed w r in
        outcome_cases floats platform fleet client surface participants required limit events fine w
          (λ e. let no : ⊥ = cc in elim no [ ])
          (conclude_cases floats platform fleet client surface fine c w o
            (λ q e. let no : ⊥ = ground (arith, q, e) in elim no [ ])
            (λ q e. let no : ⊥ = cc in elim no [ ])
            (λ q enough.
              let (asked, (v, e)) = elected_one about enough in
              IsServed-by v w writer about enough asked e))
