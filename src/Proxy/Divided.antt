-- ===== src/Proxy/Divided.antt =====
-- internal/httpapi/consensus.go, `forwardConsensus`: every participant counts as a success or as a
-- failure.
use llama_wrangler.Common.{
  ℕ, ◌+◌, ◌≡◌, refl, sym, ap, ◌∙◌, subst, ◌⊎◌, false, String, List, [], ◌∷◌, Option, none, some,
  map, length, All, In, inl, inr, arith,
}
use llama_wrangler.Common.Dict.{lookup, lookup-AllEntries}
use llama_wrangler.Common.Present.{present, one_if_some}
use llama_wrangler.Proxy.Fanout.{
  Reason, Fleet, ParticipantOutcome, ParticipantFailure, fetch_consensus_participant, Collected,
  unfinished_reason, Split, failure_or, put_node, split_participants,
}
use llama_wrangler.Proxy.Participants.{fetch_named}
use llama_wrangler.Proxy.Cause.{Cause, fetch-HasCause, failure_kept}
use llama_wrangler.Proxy.Heard.{IsKnown}
use llama_wrangler.Proxy.Held.{IsResponse, IsFailure, IsCollected}

-- The third list is the first two put together, each in its order.
pub data Merged {A : Type 0} : List A → List A → List A → Type 0 where
  done : Merged [] [] []
  left : (x : A) (xs ys zs : List A) → Merged xs ys zs → Merged (x ∷ xs) ys (x ∷ zs)
  right : (y : A) (xs ys zs : List A) → Merged xs ys zs → Merged xs (y ∷ ys) (y ∷ zs)

-- The participants that were heard, and why those that were not are not.
module _ (fleet : Fleet) (asked : List String) (reason : Reason) where
  -- A node failed: it was heard, and there is a cause in its answer for the reason and the status, or it
  -- was not heard, and has the reason for that.
  abbrev pub IsExplained : String → ParticipantFailure → Type 0
  IsExplained node f =
      (In node asked
        × (r : Reason) × (status : ℕ) × Cause fleet node r status
        × (f ≡ record { node_id = node; reason_code = r; status_code = status }))
      ⊎ (¬ In node asked × (f ≡ record { node_id = node; reason_code = reason; status_code = 0 }))

  -- The failures explain the nodes, in their order.
  abbrev pub AllExplained : List String → List ParticipantFailure → Type 0
  AllExplained [] [] = Unit
  AllExplained [] (f ∷ fs) = ⊥
  AllExplained (node ∷ nodes) [] = ⊥
  AllExplained (node ∷ nodes) (f ∷ fs) = IsExplained node f × AllExplained nodes fs

  -- What the split of the participants says of them.
  pub record IsDivided (participants : List String) (s : Split) : Type 0 where
    pub merged : Merged s.successful_nodes s.failed_nodes participants
    pub succeeded :
        All
          (λ node. In node asked × ((fetch_consensus_participant fleet node).failed ≡ false))
          s.successful_nodes
    pub named : map (λ f. f.node_id) s.participant_failures ≡ s.failed_nodes
    pub explained : AllExplained s.failed_nodes s.participant_failures

  explained_named : (node : String) (f : ParticipantFailure) → IsExplained node f → f.node_id ≡ node
  explained_named node f (inl (i, r, status, c, e)) = ap (λ g. g.node_id) e
  explained_named node f (inr h) = ap (λ g. g.node_id) h.1

  put-IsDivided :
      (node : String) (nodes : List String) (failure : ParticipantFailure)
      (o : Option ParticipantOutcome) (s : Split)
      → (o ≡ none → IsExplained node failure)
      → ((v : ParticipantOutcome)
          → o ≡ some v
          → In node asked × ((fetch_consensus_participant fleet node).failed ≡ false))
      → IsDivided nodes s
      → IsDivided (node ∷ nodes) (put_node node failure o s)
  put-IsDivided node nodes failure none s e good h = record {
    merged = right node s.successful_nodes s.failed_nodes nodes h.merged;
    succeeded = h.succeeded;
    named =
        ap (λ k. k ∷ map (λ f. f.node_id) s.participant_failures)
          (explained_named node failure (e refl))
        ∙ ap (◌∷◌ node) h.named;
    explained = (e refl, h.explained);
  }
  put-IsDivided node nodes failure (some v) s e good h = record {
    merged = left node s.successful_nodes s.failed_nodes nodes h.merged;
    succeeded = (good v refl, h.succeeded);
    named = h.named;
    explained = h.explained;
  }

  not_known :
      (node : String) (c : Collected)
      → IsKnown c node
      → lookup node c.response_by_node ≡ none
      → lookup node c.failure_by_node ≡ none
      → ⊥
  not_known node c (inl (x, h)) e g = cc
  not_known node c (inr (x, h)) e g = cc

  failure-IsExplained :
      (node : String) (o : Option ParticipantFailure)
      → ((f : ParticipantFailure) → o ≡ some f → IsFailure fleet asked node f)
      → (o ≡ none → ¬ In node asked)
      → IsExplained node (failure_or node reason o)
  failure-IsExplained node none held absent = inr (absent refl, refl)
  failure-IsExplained node (some f) held absent =
      let o = fetch_consensus_participant fleet node in
      let (kept, failed, i) = held f refl in
      let (r, e, c) = fetch-HasCause fleet node failed in
      inl (i, r, o.status_code, c, kept ∙ failure_kept node r o (fetch_named fleet node) e)

  pub split-IsDivided :
      (c : Collected) (participants : List String)
      → IsCollected fleet asked c
      → ((k : String) → In k asked → IsKnown c k)
      → unfinished_reason c ≡ reason
      → IsDivided participants (split_participants c participants)
  unfolding split_participants
  split-IsDivided c [] h known why = record {
    merged = done;
    succeeded = tt;
    named = refl;
    explained = tt;
  }
  split-IsDivided c (node ∷ nodes) h known why =
      put-IsDivided node nodes
        (failure_or node (unfinished_reason c) (lookup node c.failure_by_node))
        (lookup node c.response_by_node) (split_participants c nodes)
        (λ e.
          subst (λ r. IsExplained node (failure_or node r (lookup node c.failure_by_node)))
            (sym why)
            (failure-IsExplained node (lookup node c.failure_by_node)
              (λ f g. lookup-AllEntries (IsFailure fleet asked) node c.failure_by_node f h.1 g)
              (λ g i. not_known node c (known node i) e g)))
        (λ v e.
          let a = lookup-AllEntries (IsResponse fleet asked) node c.response_by_node v h.0 e in
          (a.2, ap (λ o. o.failed) (sym a.0) ∙ a.1))
        (split-IsDivided c nodes h known why)

module _ (fleet : Fleet) where
  put_counted :
      (node : String) (failure : ParticipantFailure) (o : Option ParticipantOutcome) (s : Split)
      → length (put_node node failure o s).successful_nodes
        ≡ one_if_some o + length s.successful_nodes
  put_counted node failure none s = omega arith
  put_counted node failure (some v) s = omega arith

  -- The successful nodes are the participants that are in the map of the responses.
  pub split_counted :
      (c : Collected) (participants : List String)
      → length (split_participants c participants).successful_nodes
        ≡ present c.response_by_node participants
  unfolding split_participants present
  split_counted c [] = refl
  split_counted c (node ∷ nodes) =
      put_counted node (failure_or node (unfinished_reason c) (lookup node c.failure_by_node))
        (lookup node c.response_by_node) (split_participants c nodes)
      ∙ ap (λ n. one_if_some (lookup node c.response_by_node) + n) (split_counted c nodes)

  put-In :
      (node asked : String) (failure : ParticipantFailure) (o : Option ParticipantOutcome)
      (s : Split)
      → In asked s.successful_nodes
      → In asked (put_node node failure o s).successful_nodes
  put-In node asked failure none s i = i
  put-In node asked failure (some v) s i = inr i

  -- A participant in the map of the responses is a successful node.
  pub split-In :
      (c : Collected) (participants : List String) (asked : String) (v : ParticipantOutcome)
      → In asked participants
      → lookup asked c.response_by_node ≡ some v
      → In asked (split_participants c participants).successful_nodes
  unfolding split_participants
  split-In c [] asked v i e = elim i [ ]
  split-In c (node ∷ nodes) asked v (inl q) e = rw (← q, e) (inl refl)
  split-In c (node ∷ nodes) asked v (inr i) e =
      put-In node asked (failure_or node (unfinished_reason c) (lookup node c.failure_by_node))
        (lookup node c.response_by_node) (split_participants c nodes) (split-In c nodes asked v i e)
