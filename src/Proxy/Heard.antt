-- ===== src/Proxy/Heard.antt =====
-- internal/httpapi/consensus.go, the loop `collect`: whom it hears, why it ends, and whether the client
-- has gone, told from its events alone.
use llama_wrangler.Common.{
  ℕ, zero, suc, ◌≡◌, refl, ◌⊎◌, inl, inr, true, false, String, List, [], ◌∷◌, some, In, by_test,
  arith,
}
use llama_wrangler.Common.Text.{str_eq, eq_refl}
use llama_wrangler.Common.Dict.{lookup, insert, lookup-insert}
use llama_wrangler.Proxy.Fanout.{
  Reason, connection_error, timeout, cancellation, Fleet, fetch_consensus_participant,
  consensus_participant_failure, Event, arrived, time_up, client_gone, Collected, receive, collect,
  unfinished_reason,
}
use llama_wrangler.Proxy.Participants.{fetch_named}

-- The participants whose outcome comes before the loop ends, of as many as are asked.
abbrev pub heard : ℕ → List Event → List String
heard zero events = []
heard (suc n) [] = []
heard (suc n) (arrived node ∷ events) = node ∷ heard n events
heard (suc n) (time_up ∷ events) = []
heard (suc n) (client_gone ∷ events) = []

-- What ends the loop, as a reason for those who are not heard.
abbrev pub ended : ℕ → List Event → Reason
ended zero events = connection_error
ended (suc n) [] = timeout
ended (suc n) (arrived node ∷ events) = ended n events
ended (suc n) (time_up ∷ events) = timeout
ended (suc n) (client_gone ∷ events) = cancellation

-- A participant stands in one of the two maps.
abbrev pub IsKnown : Collected → String → Type 0
IsKnown c node =
    ((x : _) × (lookup node c.response_by_node ≡ some x))
    ⊎ ((x : _) × (lookup node c.failure_by_node ≡ some x))

module _ (fleet : Fleet) where
  -- The two cases of an outcome that comes in.
  pub received :
      (P : Collected → Type 0) (node : String) (c : Collected)
      → let o = fetch_consensus_participant fleet node in
        (o.failed ≡ true
          → P (record c {
            failure_by_node = insert o.node_id (consensus_participant_failure o) c.failure_by_node;
          }))
        → (o.failed ≡ false
            → P (record c { response_by_node = insert o.node_id o c.response_by_node }))
        → P (receive o c)
  unfolding receive
  received P node c bad good =
      let o = fetch_consensus_participant fleet node in
      by_test P o.failed
        (record c {
          failure_by_node = insert o.node_id (consensus_participant_failure o) c.failure_by_node;
        })
        (record c { response_by_node = insert o.node_id o c.response_by_node }) bad good

  receive_gone :
      (node : String) (c : Collected)
      → (receive (fetch_consensus_participant fleet node) c).client_cancelled ≡ c.client_cancelled
  receive_gone node c =
      received (λ d. d.client_cancelled ≡ c.client_cancelled) node c (λ q. refl) (λ q. refl)

  receive_timed :
      (node : String) (c : Collected)
      → (receive (fetch_consensus_participant fleet node) c).timed_out ≡ c.timed_out
  receive_timed node c = received (λ d. d.timed_out ≡ c.timed_out) node c (λ q. refl) (λ q. refl)

  -- The collection says that the client has gone only when it has.
  pub collect_gone :
      (n : ℕ) (events : List Event) (c : Collected)
      → c.client_cancelled ≡ false
      → (collect fleet n events c).client_cancelled ≡ true
      → In client_gone events
  unfolding collect
  collect_gone zero events c h e = let no : ⊥ = cc in elim no [ ]
  collect_gone (suc n) [] c h e = let no : ⊥ = cc in elim no [ ]
  collect_gone (suc n) (arrived node ∷ events) c h e = inr (
      collect_gone n events (receive (fetch_consensus_participant fleet node) c)
        (rw (receive_gone node c) h) e)
  collect_gone (suc n) (time_up ∷ events) c h e = let no : ⊥ = cc in elim no [ ]
  collect_gone (suc n) (client_gone ∷ events) c h e = inl refl

  pub collect-ended :
      (n : ℕ) (events : List Event) (c : Collected)
      → c.client_cancelled ≡ false
      → c.timed_out ≡ false
      → unfinished_reason (collect fleet n events c) ≡ ended n events
  unfolding collect unfinished_reason
  collect-ended zero events c h k = ground (arith, h, k)
  collect-ended (suc n) [] c h k = ground (arith, h)
  collect-ended (suc n) (arrived node ∷ events) c h k =
      collect-ended n events (receive (fetch_consensus_participant fleet node) c)
        (rw (receive_gone node c) h) (rw (receive_timed node c) k)
  collect-ended (suc n) (time_up ∷ events) c h k = ground (arith, h)
  collect-ended (suc n) (client_gone ∷ events) c h k = refl

  receive_new :
      (node : String) (c : Collected)
      → IsKnown (receive (fetch_consensus_participant fleet node) c) node
  receive_new node c =
      let o = fetch_consensus_participant fleet node in
      received (λ d. IsKnown d node) node c
        (λ q. inr (
          consensus_participant_failure o,
          rw
              (
                lookup-insert o.node_id node (consensus_participant_failure o) c.failure_by_node,
                fetch_named fleet node,
                eq_refl node,
              )
              refl,
        ))
        (λ q. inl (
          o,
          rw
              (
                lookup-insert o.node_id node o c.response_by_node,
                fetch_named fleet node,
                eq_refl node,
              )
              refl,
        ))

  inserted {ℓ} :
      {V : Type ℓ} (key asked : String) (value : V) (m : List (String × V))
      → ((x : V) × (lookup asked m ≡ some x))
      → (x : V) × (lookup asked (insert key value m) ≡ some x)
  inserted key asked value m (x, e) =
      let now = lookup-insert key asked value m in
      rw now (
        by_test (λ o. (y : _) × (o ≡ some y)) (str_eq key asked) (some value) (lookup asked m)
          (λ q. (value, refl)) (λ q. (x, e)))

  receive_old :
      (node asked : String) (c : Collected)
      → IsKnown c asked
      → IsKnown (receive (fetch_consensus_participant fleet node) c) asked
  receive_old node asked c (inl h) =
      let o = fetch_consensus_participant fleet node in
      received (λ d. IsKnown d asked) node c (λ q. inl h)
        (λ q. inl (inserted o.node_id asked o c.response_by_node h))
  receive_old node asked c (inr h) =
      let o = fetch_consensus_participant fleet node in
      received (λ d. IsKnown d asked) node c
        (λ q. inr (inserted o.node_id asked (consensus_participant_failure o) c.failure_by_node h))
        (λ q. inr h)

  collect_old :
      (n : ℕ) (events : List Event) (c : Collected) (asked : String)
      → IsKnown c asked
      → IsKnown (collect fleet n events c) asked
  unfolding collect
  collect_old zero events c asked h = h
  collect_old (suc n) [] c asked h = h
  collect_old (suc n) (arrived node ∷ events) c asked h =
      collect_old n events (receive (fetch_consensus_participant fleet node) c) asked
        (receive_old node asked c h)
  collect_old (suc n) (time_up ∷ events) c asked h = h
  collect_old (suc n) (client_gone ∷ events) c asked h = h

  -- Whoever is heard stands in one of the maps.
  pub collect-IsKnown :
      (n : ℕ) (events : List Event) (c : Collected) (asked : String)
      → In asked (heard n events)
      → IsKnown (collect fleet n events c) asked
  unfolding collect
  collect-IsKnown zero events c asked i = elim i [ ]
  collect-IsKnown (suc n) [] c asked i = elim i [ ]
  collect-IsKnown (suc n) (arrived node ∷ events) c asked (inl q) =
      let known = receive_new node c in
      collect_old n events (receive (fetch_consensus_participant fleet node) c) asked (rw q known)
  collect-IsKnown (suc n) (arrived node ∷ events) c asked (inr i) =
      collect-IsKnown n events (receive (fetch_consensus_participant fleet node) c) asked i
  collect-IsKnown (suc n) (time_up ∷ events) c asked i = elim i [ ]
  collect-IsKnown (suc n) (client_gone ∷ events) c asked i = elim i [ ]
