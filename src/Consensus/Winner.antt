-- ===== src/Consensus/Winner.antt =====
-- internal/consensus/engine.go: what `Evaluate` answers, in terms of the candidates' signatures.
use llama_wrangler.Common.{
  ℕ, suc, ◌*◌, ◌≤◌, ◌<◌, ◌≡◌, refl, ap, ◌∙◌, ◌↔◌, inl, inr, Bool, true, ◌&&◌, String, List, [], ◌∷◌,
  ltb, leb, length, All, In, Bool-cases, arith,
}
use llama_wrangler.Common.Text.{str_eq, eq_iff}
use llama_wrangler.Consensus.Content.{Platform}
use llama_wrangler.Consensus.Engine.{
  Floats, Engine, Candidate, Scored, Group, Result, score_all, group_all, best_group, best_member,
  more_than_one, result_of, decide_groups, evaluate,
}
use llama_wrangler.Consensus.Groups.{count_signature, present, IsGrouped, IsCovered, rev_append}
use llama_wrangler.Consensus.Grouping.{group_from-IsGrouped}
use llama_wrangler.Consensus.Best.{
  count-rev_append, length-rev_append, In-rev_append, In-group, two_signatures, no_votes,
  best_member-In, best_group-In, best_group_largest,
}

-- The answer names `m`, one of the candidates, with as many candidates of its signature as there are
-- of any, and says whether these are a strict majority and at least two.
pub record IsElected {F : Type 0} (xs : List (Scored F)) (r : Result F) (m : Scored F)
    : Type 0 where
  pub listed : In m xs
  pub named : r.winner ≡ m.candidate
  pub passed : r.validator_passed ≡ m.validator_passed
  pub counted : r.agreement_count ≡ count_signature m.signature xs
  pub largest : (σ : String) → count_signature σ xs ≤ r.agreement_count
  pub total : r.candidate_count ≡ length xs
  pub reached :
      r.consensus_reached ≡ (leb 2 r.agreement_count && ltb (length xs) (r.agreement_count * 2))

module _ {F : Type 0} where
  covered_size :
      (xs : List (Scored F)) (gs : List (Group F)) (n : ℕ) (σ : String)
      → IsGrouped xs gs
      → All (λ g. length g.members ≤ n) gs
      → present σ gs ≡ true
      → count_signature σ xs ≤ n
  covered_size xs [] n σ h a p = ground arith
  covered_size xs (g ∷ gs) n σ h a p = elim (Bool-cases (str_eq g.signature σ)) [
    | inl q ↦ rw (← (eq_iff g.signature σ).0 q) omega (arith, h.0.counted, a.0)
    | inr q ↦ covered_size xs gs n σ h.2 a.1 (ground arith)
  ]

  own_member :
      (xs : List (Scored F)) (g : Group F) (ms : List (Scored F)) (m : Scored F)
      → All (λ m. (m.signature ≡ g.signature) × In m xs) ms
      → In m ms
      → (m.signature ≡ g.signature) × In m xs
  own_member xs g [] m a i = elim i [ ]
  own_member xs g (x ∷ ms) m a (inl e) = rw e a.0
  own_member xs g (x ∷ ms) m a (inr i) = own_member xs g ms m a.1 i

  majority_named :
      (xs : List (Scored F)) (r : Result F) (m : Scored F) (σ : String)
      → IsElected xs r m
      → length xs < count_signature σ xs * 2
      → m.signature ≡ σ
  majority_named xs r m σ e h = elim (Bool-cases (str_eq m.signature σ)) [
    | inl q ↦ (eq_iff m.signature σ).0 q
    | inr q ↦
        let no : ⊥ = omega (arith, h, e.counted, e.largest σ, two_signatures m.signature σ xs q) in
        elim no [ ]
  ]

  reached_iff :
      (xs : List (Scored F)) (r : Result F) (m : Scored F) (n : ℕ)
      → length xs ≡ n
      → IsElected xs r m
      → (r.consensus_reached ≡ true
          ↔ ((σ : String) × 2 ≤ count_signature σ xs × n < count_signature σ xs * 2))
  reached_iff xs r m n all e = (
    λ t. (
      m.signature,
      ground (arith, t, e.reached, e.counted, all),
      ground (arith, t, e.reached, e.counted, all),
    ),
    λ s. ground (arith, e.reached, e.largest s.0, s.1, s.2, all),
  )

  module _ (floats : Floats F) where
    elected :
        (xs : List (Scored F)) (d : Bool) (g : Group F) (ms : List (Scored F))
        → length ms ≡ count_signature g.signature xs
        → 0 < length ms
        → All (λ m. (m.signature ≡ g.signature) × In m xs) ms
        → ((σ : String) → count_signature σ xs ≤ length ms)
        → (m : Scored F) × IsElected xs (result_of floats (length xs) d g ms) m
    elected xs d g [] e some_member own large =
        let no : ⊥ = omega (arith, some_member) in elim no [ ]
    elected xs d g (m ∷ ms) e some_member own large =
        let mine =
          own_member xs g (m ∷ ms) (best_member floats m ms) own (best_member-In floats m ms) in
        (
          best_member floats m ms,
          record {
            listed = mine.1;
            named = refl;
            passed = refl;
            counted = rw (mine.0) e;
            largest = large;
            total = refl;
            reached = refl;
          },
        )

    decided :
        (xs : List (Scored F)) (gs : List (Group F))
        → 0 < length xs
        → IsGrouped xs gs
        → IsCovered xs gs
        → (m : Scored F) × IsElected xs (decide_groups floats (length xs) gs) m
    decided [] gs some_candidate h c = let no : ⊥ = omega (arith, some_candidate) in elim no [ ]
    decided (x ∷ xs) [] some_candidate h c =
        let no : ⊥ = omega (arith, no_votes (x ∷ xs) x (inl refl), c x.signature refl) in
        elim no [ ]
    decided (x ∷ xs) (g ∷ gs) some_candidate h c =
        let w = best_group floats g gs in
        let k = In-group (x ∷ xs) w (g ∷ gs) h (best_group-In floats g gs) in
        elected (x ∷ xs) (more_than_one floats (g ∷ gs)) w w.members k.counted k.nonempty k.own
          (λ σ. elim (Bool-cases (present σ (g ∷ gs))) [
            | inl q ↦
                covered_size (x ∷ xs) (g ∷ gs) (length w.members) σ h
                  (best_group_largest floats g gs) q
            | inr q ↦ omega (arith, c σ q)
          ])

    -- The scored candidates with the order turned, for which the groups are known.
    turned :
        (xs : List (Scored F)) (r : Result F) (m : Scored F)
        → IsElected (rev_append xs []) r m
        → IsElected xs r m
    turned xs r m h =
        let all : length (rev_append xs []) ≡ length xs = omega (arith, length-rev_append xs []) in
        record {
          listed = elim (In-rev_append m xs [] h.listed) [ inl i ↦ i | inr i ↦ elim i [ ] ];
          named = h.named;
          passed = h.passed;
          counted = omega (arith, h.counted, count-rev_append m.signature xs []);
          largest = λ σ. omega (arith, h.largest σ, count-rev_append σ xs []);
          total = omega (arith, h.total, length-rev_append xs []);
          reached = rw (← all) h.reached;
        }

    module _ (platform : Platform) (engine : Engine F) (surface : String) where
      -- The candidates with their signatures and marks.
      abbrev pub ballots : List Candidate → List (Scored F)
      ballots candidates = score_all floats platform engine surface 0 candidates

      length-score_all :
          (n : ℕ) (candidates : List Candidate)
          → length (score_all floats platform engine surface n candidates) ≡ length candidates
      unfolding score_all
      length-score_all n [] = refl
      length-score_all n (c ∷ cs) = omega (arith, length-score_all (suc n) cs)

      -- For at least one candidate, `Evaluate` names one of the candidates, whose signature is the
      -- most frequent one. It counts the candidates of that signature, and claims consensus just
      -- when these are at least two and more than half.
      pub evaluate_elects :
          (candidates : List Candidate)
          → 0 < length candidates
          → (m : Scored F) × IsElected
              (ballots candidates)
              (evaluate floats platform engine surface candidates)
              m
      unfolding evaluate
      evaluate_elects candidates some_candidate =
          let xs = ballots candidates in
          let all = length-score_all 0 candidates in
          let groups = group_from-IsGrouped floats xs [] [] tt (λ σ e. refl) in
          let turned_all : length (rev_append xs []) ≡ length candidates =
            omega (arith, all, length-rev_append xs []) in
          let (m, h) =
            decided (rev_append xs []) (group_all floats xs []) (omega (arith, turned_all)) groups.0
              groups.1 in
          (
            m,
            turned xs (decide_groups floats (length candidates) (group_all floats xs [])) m
                (rw (← turned_all) h),
          )

      -- A signature that more than half of the candidates have wins, with all of these counted,
      -- whatever the validator and the evaluator say.
      pub majority_wins :
          (candidates : List Candidate) (σ : String)
          → length candidates < count_signature σ (ballots candidates) * 2
          → (m : Scored F) × In m (ballots candidates)
            × m.signature ≡ σ
            × (evaluate floats platform engine surface candidates).winner ≡ m.candidate
            × (evaluate floats platform engine surface candidates).agreement_count
              ≡ count_signature σ (ballots candidates)
      unfolding score_all
      majority_wins [] σ h = let no : ⊥ = omega (arith, h) in elim no [ ]
      majority_wins (c ∷ cs) σ h =
          let (m, e) = evaluate_elects (c ∷ cs) (omega arith) in
          let all = length-score_all 0 (c ∷ cs) in
          let same =
            majority_named (ballots (c ∷ cs)) (evaluate floats platform engine surface (c ∷ cs)) m σ
              e (omega (arith, h, all)) in
          (
            m,
            e.listed,
            same,
            e.named,
            e.counted ∙ ap (λ τ. count_signature τ (ballots (c ∷ cs))) same,
          )

      -- `Evaluate` claims consensus just when some signature has at least two of the candidates
      -- and more than half of them.
      pub consensus_iff :
          (candidates : List Candidate)
          → ((evaluate floats platform engine surface candidates).consensus_reached ≡ true ↔ (
              (σ : String) × 2 ≤ count_signature σ (ballots candidates)
              × length candidates < count_signature σ (ballots candidates) * 2))
      unfolding evaluate score_all
      consensus_iff [] = (
        λ t. let no : ⊥ = ground (arith, t) in elim no [ ],
        λ s. let no : ⊥ = omega (arith, s.1) in elim no [ ],
      )
      consensus_iff (c ∷ cs) =
          let (m, e) = evaluate_elects (c ∷ cs) (omega arith) in
          reached_iff (ballots (c ∷ cs)) (evaluate floats platform engine surface (c ∷ cs)) m
            (length (c ∷ cs)) (length-score_all 0 (c ∷ cs)) e
