-- ===== src/Consensus/Disagreement.antt =====
-- internal/consensus/engine.go: `Evaluate` reports a disagreement.
use llama_wrangler.Common.{
  ℕ, ◌<◌, ◌≡◌, refl, sym, ◌∙◌, ◌↔◌, inl, inr, Bool, true, false, String, List, [], ◌∷◌, length, All,
  In, Bool-cases, arith,
}
use llama_wrangler.Common.Text.{str_eq, eq_iff}
use llama_wrangler.Consensus.Content.{Platform}
use llama_wrangler.Consensus.Engine.{
  Floats, Engine, Candidate, Scored, Group, group_all, best_group, more_than_one, result_of,
  decide_groups, evaluate,
}
use llama_wrangler.Consensus.Groups.{IsGrouped, IsCovered, rev_append}
use llama_wrangler.Consensus.Grouping.{group_from-IsGrouped}
use llama_wrangler.Consensus.Best.{In-rev_append, rev_append-In, In-group, no_votes, best_group-In}
use llama_wrangler.Consensus.Winner.{ballots}

-- Two candidates with different signatures.
abbrev pub Split : {F : Type 0} → List (Scored F) → Type 0
Split {F} xs = (a b : Scored F) × In a xs × In b xs × ¬ (a.signature ≡ b.signature)

module _ {F : Type 0} where
  a_member :
      (xs : List (Scored F)) (g : Group F) (ms : List (Scored F))
      → 0 < length ms
      → All (λ m. (m.signature ≡ g.signature) × In m xs) ms
      → (m : Scored F) × (m.signature ≡ g.signature) × In m xs
  a_member xs g [] h own = let no : ⊥ = omega (arith, h) in elim no [ ]
  a_member xs g (m ∷ ms) h own = (m, own.0.0, own.0.1)

  two_groups :
      (xs : List (Scored F)) (g h : Group F) (gs : List (Group F))
      → IsGrouped xs (g ∷ h ∷ gs)
      → Split xs
  two_groups xs g h gs a =
      let (m, m_own, m_in) = a_member xs g g.members a.0.nonempty a.0.own in
      let (k, k_own, k_in) = a_member xs h h.members a.2.0.nonempty a.2.0.own in
      (
        m,
        k,
        m_in,
        k_in,
        λ e. ground (arith, eq_iff h.signature g.signature, m_own, k_own, e, a.1.0),
      )

  one_group :
      (xs : List (Scored F)) (g : Group F)
      → IsCovered xs (g ∷ [])
      → (m : Scored F) → In m xs
      → g.signature ≡ m.signature
  one_group xs g c m i = elim (Bool-cases (str_eq g.signature m.signature)) [
    | inl q ↦ (eq_iff g.signature m.signature).0 q
    | inr q ↦
        let no : ⊥ = omega (arith, no_votes xs m i, c m.signature (rw (q) refl)) in elim no [ ]
  ]

  unturned : (xs : List (Scored F)) → Split (rev_append xs []) → Split xs
  unturned xs (a, b, i, j, n) = (a, b, In_unturned xs a i, In_unturned xs b j, n)
    where
      In_unturned : (xs : List (Scored F)) (m : Scored F) → In m (rev_append xs []) → In m xs
      In_unturned xs m i = elim (In-rev_append m xs [] i) [ inl p ↦ p | inr p ↦ elim p [ ] ]

  turned : (xs : List (Scored F)) → Split xs → Split (rev_append xs [])
  turned xs (a, b, i, j, n) =
      (a, b, rev_append-In a xs [] (inl i), rev_append-In b xs [] (inl j), n)

  module _ (floats : Floats F) where
    result_disagreement :
        (n : ℕ) (d : Bool) (g : Group F) (ms : List (Scored F))
        → 0 < length ms
        → (result_of floats n d g ms).disagreement ≡ d
    result_disagreement n d g [] h = let no : ⊥ = omega (arith, h) in elim no [ ]
    result_disagreement n d g (m ∷ ms) h = refl

    decided_disagreement :
        (xs : List (Scored F)) (gs : List (Group F)) (n : ℕ)
        → IsGrouped xs gs
        → IsCovered xs gs
        → ((decide_groups floats n gs).disagreement ≡ true ↔ Split xs)
    decided_disagreement xs [] n h c = (
      λ e. ground (arith, e),
      λ s. let no : ⊥ = omega (arith, no_votes xs s.0 s.2, c s.0.signature refl) in elim no [ ],
    )
    decided_disagreement xs (g ∷ []) n h c =
        let same = result_disagreement n false g g.members h.0.nonempty in
        (
          λ e. ground (arith, e, same),
          λ s. elim (s.4 (sym (one_group xs g c s.0 s.2) ∙ one_group xs g c s.1 s.3)) [ ],
        )
    decided_disagreement xs (g ∷ k ∷ gs) n h c =
        let w = best_group floats g (k ∷ gs) in
        let one = In-group xs w (g ∷ k ∷ gs) h (best_group-In floats g (k ∷ gs)) in
        let several : more_than_one floats (g ∷ k ∷ gs) ≡ true = ground arith in
        (
          λ e. two_groups xs g k gs h,
          λ s.
              result_disagreement n (more_than_one floats (g ∷ k ∷ gs)) w w.members one.nonempty
              ∙ several,
        )

    module _ (platform : Platform) (engine : Engine F) (surface : String) where
      -- `Evaluate` reports a disagreement just when two candidates have different signatures.
      pub evaluate_disagrees :
          (candidates : List Candidate)
          → ((evaluate floats platform engine surface candidates).disagreement ≡ true
              ↔ Split (ballots floats platform engine surface candidates))
      unfolding evaluate
      evaluate_disagrees candidates =
          let xs = ballots floats platform engine surface candidates in
          let groups = group_from-IsGrouped floats xs [] [] tt (λ σ e. refl) in
          let d =
            decided_disagreement (rev_append xs []) (group_all floats xs []) (length candidates)
              groups.0 groups.1 in
          (λ e. unturned xs (d.0 e), λ s. d.1 (turned xs s))
