-- ===== src/Proxy/Held.antt =====
-- internal/httpapi/consensus.go: what the two maps of the collection hold.
use llama_wrangler.Common.{
  ℕ, zero, suc, ◌≡◌, refl, sym, ap, true, false, String, List, [], ◌∷◌, In, inl, inr, subst,
}
use llama_wrangler.Common.Dict.{AllEntries, insert-AllEntries}
use llama_wrangler.Proxy.Fanout.{
  Fleet, ParticipantOutcome, ParticipantFailure, fetch_consensus_participant,
  consensus_participant_failure, Event, arrived, time_up, client_gone, Collected, receive, collect,
}
use llama_wrangler.Proxy.Participants.{fetch_named}
use llama_wrangler.Proxy.Heard.{heard, received}

module _ (fleet : Fleet) (asked : List String) where
  -- A success, and a failure, of a participant that was heard.
  abbrev pub IsResponse : String → ParticipantOutcome → Type 0
  IsResponse k o = (o ≡ fetch_consensus_participant fleet k) × (o.failed ≡ false) × In k asked

  abbrev pub IsFailure : String → ParticipantFailure → Type 0
  IsFailure k f =
      (f ≡ consensus_participant_failure (fetch_consensus_participant fleet k))
      × ((fetch_consensus_participant fleet k).failed ≡ true)
      × In k asked

  -- The maps of the collection hold what the participants that were heard answered.
  abbrev pub IsCollected : Collected → Type 0
  IsCollected c = AllEntries IsResponse c.response_by_node × AllEntries IsFailure c.failure_by_node

  receive_collected :
      (node : String) (c : Collected)
      → In node asked
      → IsCollected c
      → IsCollected (receive (fetch_consensus_participant fleet node) c)
  receive_collected node c i h =
      let o = fetch_consensus_participant fleet node in
      let same = ap (fetch_consensus_participant fleet) (sym (fetch_named fleet node)) in
      let there = subst (λ k. In k asked) (sym (fetch_named fleet node)) i in
      received fleet IsCollected node c
        (λ q. (
          h.0,
          insert-AllEntries IsFailure o.node_id (consensus_participant_failure o) c.failure_by_node
              (ap consensus_participant_failure same, subst (λ v. v.failed ≡ true) same q, there)
              h.1,
        ))
        (λ q.
          (insert-AllEntries IsResponse o.node_id o c.response_by_node (same, q, there) h.0, h.1))

  pub collect_collected :
      (n : ℕ) (events : List Event) (c : Collected)
      → ((k : String) → In k (heard n events) → In k asked)
      → IsCollected c
      → IsCollected (collect fleet n events c)
  unfolding collect
  collect_collected zero events c all h = h
  collect_collected (suc n) [] c all h = h
  collect_collected (suc n) (arrived node ∷ events) c all h =
      collect_collected n events (receive (fetch_consensus_participant fleet node) c)
        (λ k i. all k (inr i)) (receive_collected node c (all node (inl refl)) h)
  collect_collected (suc n) (time_up ∷ events) c all h = h
  collect_collected (suc n) (client_gone ∷ events) c all h = h
