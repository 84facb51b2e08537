-- ===== src/Proxy/Elected.antt =====
-- internal/httpapi/consensus.go, `forwardConsensus`: the candidates of the evaluation, and its winner.
use llama_wrangler.Common.{
  ℕ, suc, ◌+◌, ◌<◌, ◌≡◌, refl, sym, ap, subst, ◌∙◌, String, List, [], ◌∷◌, Option, none, some,
  length, In, inl, inr, arith,
}
use llama_wrangler.Common.Dict.{Dict, lookup}
use llama_wrangler.Common.Present.{present, one_if_some}
use llama_wrangler.Consensus.Content.{Platform}
use llama_wrangler.Consensus.Engine.{
  Floats, Candidate, Scored, Engine, score_candidate, score_all, evaluate,
}
use llama_wrangler.Consensus.Winner.{evaluate_elects}
use llama_wrangler.Proxy.Fanout.{ParticipantOutcome}
use llama_wrangler.Proxy.ForwardConsensus.{candidates_of}

-- A participant in the map of the responses.
abbrev pub IsPresent : Dict ParticipantOutcome → List String → String → Type 0
IsPresent responses participants node =
    In node participants × ((o : ParticipantOutcome) × (lookup node responses ≡ some o))

put_candidate :
    (responses : Dict ParticipantOutcome) (node : String) (nodes : List String)
    (o : Option ParticipantOutcome) (c : Candidate)
    → lookup node responses ≡ o
    → (In c (candidates_of responses nodes) → IsPresent responses nodes c.node_id)
    → In c (elim o [
      | none ↦ candidates_of responses nodes
      | some v ↦ record { node_id = node; body = v.body } ∷ candidates_of responses nodes
    ])
    → IsPresent responses (node ∷ nodes) c.node_id
put_candidate responses node nodes none c e later i = let h = later i in (inr h.0, h.1)
put_candidate responses node nodes (some v) c e later (inl q) =
    (inl (ap (λ d. d.node_id) q), (v, ap (λ d. lookup d.node_id responses) q ∙ e))
put_candidate responses node nodes (some v) c e later (inr i) = let h = later i in (inr h.0, h.1)

candidate-IsPresent :
    (responses : Dict ParticipantOutcome) (nodes : List String) (c : Candidate)
    → In c (candidates_of responses nodes)
    → IsPresent responses nodes c.node_id
candidate-IsPresent responses [] c i = elim i [ ]
candidate-IsPresent responses (node ∷ nodes) c i =
    put_candidate responses node nodes (lookup node responses) c refl
      (candidate-IsPresent responses nodes c) i

counted_candidate :
    (responses : Dict ParticipantOutcome) (node : String) (nodes : List String)
    (o : Option ParticipantOutcome)
    → length (elim o [
      | none ↦ candidates_of responses nodes
      | some v ↦ record { node_id = node; body = v.body } ∷ candidates_of responses nodes
    ])
      ≡ one_if_some o + length (candidates_of responses nodes)
counted_candidate responses node nodes none = omega arith
counted_candidate responses node nodes (some v) = omega arith

length-candidates_of :
    (responses : Dict ParticipantOutcome) (nodes : List String)
    → length (candidates_of responses nodes) ≡ present responses nodes
unfolding present
length-candidates_of responses [] = refl
length-candidates_of responses (node ∷ nodes) =
    counted_candidate responses node nodes (lookup node responses)
    ∙ ap (λ n. one_if_some (lookup node responses) + n) (length-candidates_of responses nodes)

module _ {F : Type 0} (floats : Floats F) (platform : Platform) (engine : Engine F)
    (surface : String) where
  scored_listed :
      (n : ℕ) (cs : List Candidate) (m : Scored F)
      → In m (score_all floats platform engine surface n cs)
      → In m.candidate cs
  unfolding score_all score_candidate
  scored_listed n [] m i = elim i [ ]
  scored_listed n (c ∷ cs) m (inl q) = inl (ap (λ s. s.candidate) q)
  scored_listed n (c ∷ cs) m (inr i) = inr (scored_listed (suc n) cs m i)

  -- The winner of the evaluation is a participant that has answered.
  pub winner_present :
      (responses : Dict ParticipantOutcome) (participants : List String)
      → 0 < present responses participants
      → IsPresent responses participants
          (evaluate floats platform engine surface
            (candidates_of responses participants)).winner.node_id
  winner_present responses participants h =
      let cs = candidates_of responses participants in
      let (m, e) =
        evaluate_elects floats platform engine surface cs
          (omega (arith, h, length-candidates_of responses participants)) in
      subst (λ c. IsPresent responses participants c.node_id) (sym e.named)
        (candidate-IsPresent responses participants m.candidate (scored_listed 0 cs m e.listed))
