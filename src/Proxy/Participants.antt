-- ===== src/Proxy/Participants.antt =====
-- internal/httpapi/consensus.go: what `forwardConsensus` knows of the participants after the
-- collection.
use llama_wrangler.Common.{
  ℕ, zero, suc, ◌≤◌, ◌<◌, ◌≡◌, refl, sym, subst, true, false, String, List, [], ◌∷◌, Option, none,
  some, ltb, leb, if◌then◌else◌, length, All, In, by_test, arith, ltb-false,
}
use llama_wrangler.Common.Text.{str_eq}
use llama_wrangler.Common.Dict.{insert}
use llama_wrangler.Common.Present.{present, length-insert, present-insert}
use llama_wrangler.Proxy.Fanout.{
  missing_proxy_url, upstream_4xx, upstream_5xx, response_size, Exchange, bad_request, unreachable,
  response, Fleet, ParticipantOutcome, consensus_max_response_bytes, failed_outcome, read_answer,
  exchange_outcome, fetch_consensus_participant, consensus_participant_failure, Event, arrived,
  time_up, client_gone, Collected, receive, collect,
}

module _ (fleet : Fleet) where
  read_answer_named :
      (node : String) (status : ℕ) (o : Option String)
      → (read_answer fleet node status o).node_id ≡ node
  read_answer_named node status none = refl
  read_answer_named node status (some body) = ground arith

  answer_named : (node : String) (e : Exchange) → (exchange_outcome fleet node e).node_id ≡ node
  answer_named node bad_request = refl
  answer_named node unreachable = refl
  answer_named node (response status body) = ground (arith, read_answer_named node status body)

  pub fetch_named : (node : String) → (fetch_consensus_participant fleet node).node_id ≡ node
  unfolding fetch_consensus_participant
  fetch_named node = ground (arith, answer_named node (fleet.exchange node))

  -- An answer that counts: a success of a size within the limit.
  pub record IsSuccess (node : String) (o : ParticipantOutcome) : Type 0 where
    pub reachable : str_eq (fleet.url node) "" ≡ false
    pub answered : fleet.exchange node ≡ response o.status_code (some o.body)
    pub status : o.status_code < 400
    pub small : length (fleet.encode o.body) ≤ consensus_max_response_bytes

  abbrev IsJudged : String → ParticipantOutcome → Type 0
  IsJudged node o = o.failed ≡ false → IsSuccess node o

  refused-IsJudged : (node : String) (o : ParticipantOutcome) → o.failed ≡ true → IsJudged node o
  refused-IsJudged node o e h = let no : ⊥ = ground (arith, e, h) in elim no [ ]

  read-IsJudged :
      (node : String) (status : ℕ) (o : Option String)
      → str_eq (fleet.url node) "" ≡ false
      → fleet.exchange node ≡ response status o
      → status < 400
      → IsJudged node (read_answer fleet node status o)
  read-IsJudged node status none r e s =
      refused-IsJudged node (read_answer fleet node status none) refl
  read-IsJudged node status (some body) r e s =
      let taken : ParticipantOutcome = record {
        node_id = node;
        status_code = status;
        body = body;
        failure_reason = none;
        failed = false;
      } in
      by_test (IsJudged node) (ltb consensus_max_response_bytes (length (fleet.encode body)))
        (failed_outcome node status "" response_size) taken
        (λ q. refused-IsJudged node (failed_outcome node status "" response_size) refl)
        (λ q h. record {
          reachable = r;
          answered = e;
          status = s;
          small = ltb-false consensus_max_response_bytes (length (fleet.encode body)) q;
        })

  answer-IsJudged :
      (node : String) (e : Exchange)
      → str_eq (fleet.url node) "" ≡ false
      → fleet.exchange node ≡ e
      → IsJudged node (exchange_outcome fleet node e)
  answer-IsJudged node bad_request r q =
      refused-IsJudged node (exchange_outcome fleet node bad_request) refl
  answer-IsJudged node unreachable r q =
      refused-IsJudged node (exchange_outcome fleet node unreachable) refl
  answer-IsJudged node (response status body) r q =
      let late =
        if leb 400 status
        then failed_outcome node status "" upstream_4xx
        else read_answer fleet node status body in
      by_test (IsJudged node) (leb 500 status) (failed_outcome node status "" upstream_5xx) late
        (λ t. refused-IsJudged node (failed_outcome node status "" upstream_5xx) refl)
        (λ t.
          by_test (IsJudged node) (leb 400 status) (failed_outcome node status "" upstream_4xx)
            (read_answer fleet node status body)
            (λ u. refused-IsJudged node (failed_outcome node status "" upstream_4xx) refl)
            (λ u. read-IsJudged node status body r q (ground (arith, u))))

  -- A participant's answer is taken only when it has a URL, and answers with a status below 400 and a
  -- whole body of at most 8 MiB.
  pub fetch_consensus_participant_accepts :
      (node : String)
      → (fetch_consensus_participant fleet node).failed ≡ false
      → IsSuccess node (fetch_consensus_participant fleet node)
  unfolding fetch_consensus_participant
  fetch_consensus_participant_accepts node =
      by_test (IsJudged node) (str_eq (fleet.url node) "")
        (failed_outcome node 0 "" missing_proxy_url)
        (exchange_outcome fleet node (fleet.exchange node))
        (λ q. refused-IsJudged node (failed_outcome node 0 "" missing_proxy_url) refl)
        (λ q. answer-IsJudged node (fleet.exchange node) q refl)

  -- The events are about participants.
  abbrev pub IsAbout : List String → Event → Type 0
  IsAbout ps (arrived node) = In node ps
  IsAbout ps time_up = Unit
  IsAbout ps client_gone = Unit

  -- There are no more responses than participants with one.
  abbrev pub IsCounted : List String → Collected → Type 0
  IsCounted ps c = length c.response_by_node ≤ present c.response_by_node ps

  receive-IsCounted :
      (ps : List String) (node : String) (c : Collected)
      → In node ps
      → IsCounted ps c
      → IsCounted ps (receive (fetch_consensus_participant fleet node) c)
  unfolding receive
  receive-IsCounted ps node c i h =
      let o = fetch_consensus_participant fleet node in
      by_test (IsCounted ps) o.failed
        (record c {
          failure_by_node = insert o.node_id (consensus_participant_failure o) c.failure_by_node;
        })
        (record c { response_by_node = insert o.node_id o c.response_by_node }) (λ q. h)
        (λ q. omega (
          arith,
          h,
          length-insert o.node_id o c.response_by_node,
          present-insert o.node_id o c.response_by_node ps
              (subst (λ k. In k ps) (sym (fetch_named node)) i),
        ))

  pub collect-IsCounted :
      (ps : List String) (n : ℕ) (events : List Event) (c : Collected)
      → All (IsAbout ps) events
      → IsCounted ps c
      → IsCounted ps (collect fleet n events c)
  unfolding collect
  collect-IsCounted ps zero events c a h = h
  collect-IsCounted ps (suc n) [] c a h = h
  collect-IsCounted ps (suc n) (arrived node ∷ events) c a h =
      collect-IsCounted ps n events (receive (fetch_consensus_participant fleet node) c) a.1
        (receive-IsCounted ps node c a.0 h)
  collect-IsCounted ps (suc n) (time_up ∷ events) c a h = h
  collect-IsCounted ps (suc n) (client_gone ∷ events) c a h = h
