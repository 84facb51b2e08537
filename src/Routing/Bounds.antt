-- ===== src/Routing/Bounds.antt =====
-- internal/routing/routing.go: how many nodes take part in a consensus.
use llama_wrangler.Common.{
  ℕ, ◌≤◌, ◌≡◌, refl, ap, ◌∙◌, inl, inr, Bool, String, true, false, List, [], ◌∷◌, if◌then◌else◌,
  length, is_empty, take, length-take, arith, Bool-cases,
}
use llama_wrangler.Common.Int.{ℤ, pos, negsuc}
use llama_wrangler.Config.{Config}
use llama_wrangler.Appstate.Node.{Node}
use llama_wrangler.Routing.Policy.{consensus_participant_bounds}
use llama_wrangler.Routing.Placement.{Numbers}
use llama_wrangler.Routing.Plan.{
  Request, Decision, Plan, plan_of, is_consensus_plan, bounds_of, choose,
}
use llama_wrangler.Routing.Search.{CandidateNode, Found}
use llama_wrangler.Routing.Select.{names, limited, too_few, accepted, found_for, conclude, select}

-- Whatever the alias says, a consensus wants between 1 and 8 nodes, and no more than it allows.
pub consensus_participant_bounds_lem :
    (low high : ℤ) → let b = consensus_participant_bounds low high in 1 ≤ b.0 × b.0 ≤ b.1 × b.1 ≤ 8
unfolding consensus_participant_bounds
consensus_participant_bounds_lem (pos m) (pos n) = ground arith
consensus_participant_bounds_lem (pos m) (negsuc n) = ground arith
consensus_participant_bounds_lem (negsuc m) (pos n) = ground arith
consensus_participant_bounds_lem (negsuc m) (negsuc n) = ground arith

length-names : {F : Type 0} (cs : List (CandidateNode F)) → length (names cs) ≡ length cs
length-names [] = refl
length-names (c ∷ cs) = omega (arith, length-names cs)

choose_keeps :
    (ns : List String) (d : Decision)
    → ((choose ns d).candidate_nodes ≡ d.candidate_nodes)
      × ((choose ns d).consensus_required ≡ d.consensus_required)
      × ((choose ns d).consensus_limit ≡ d.consensus_limit)
choose_keeps [] d = (refl, refl, refl)
choose_keeps (n ∷ ns) d = (refl, refl, refl)

bounds_of_lem :
    (p : Plan)
    → is_consensus_plan p ≡ true
    → 1 ≤ (bounds_of p).0 × (bounds_of p).0 ≤ (bounds_of p).1 × (bounds_of p).1 ≤ 8
unfolding bounds_of
bounds_of_lem p e = rw (e) (consensus_participant_bounds_lem p.min_participants p.max_participants)

taken_bound :
    {A : Type 0} (b : Bool) (n : ℕ) (xs : List A)
    → b ≡ true
    → length (if b then take n xs else xs) ≤ n
taken_bound true n xs e = omega (arith, length-take n xs)
taken_bound false n xs e = let no : ⊥ = ground (arith, e) in elim no [ ]

module _ {F : Type 0} where
  accepted_bounds :
      (p : Plan) (found : Found F)
      → ((accepted p found).candidate_nodes ≡ names (limited p found.candidates))
        × ((accepted p found).consensus_required ≡ (bounds_of p).0)
        × ((accepted p found).consensus_limit ≡ (bounds_of p).1)
  unfolding accepted
  accepted_bounds p found = choose_keeps (names (limited p found.candidates)) _

  limited_bound :
      (p : Plan) (cs : List (CandidateNode F))
      → is_consensus_plan p ≡ true
      → length (limited p cs) ≤ (bounds_of p).1
  unfolding limited
  limited_bound p cs e = taken_bound (is_consensus_plan p) (bounds_of p).1 cs e

  concluded_bounds :
      (p : Plan) (found : Found F)
      → is_consensus_plan p ≡ true
      → (conclude p found).1 ≡ true
      → let d = (conclude p found).0 in
        1 ≤ d.consensus_required
        × d.consensus_required ≤ length d.candidate_nodes
        × length d.candidate_nodes ≤ d.consensus_limit
        × d.consensus_limit ≤ 8
  unfolding conclude
  concluded_bounds p found e ok = elim (Bool-cases (is_empty found.candidates)) [
    | inl q ↦ let no : ⊥ = ground (arith, ok, q) in elim no [ ]
    | inr q ↦ elim (Bool-cases (too_few p found)) [
      | inl r ↦ let no : ⊥ = ground (arith, ok, q, r) in elim no [ ]
      | inr r ↦
          let (names_of, low, high) = accepted_bounds p found in
          let within = limited_bound p found.candidates e in
          let (one, order, eight) = bounds_of_lem p e in
          let enough : (bounds_of p).0 ≤ length (limited p found.candidates) =
            ground (arith, e, r, one) in
          let all : length (accepted p found).candidate_nodes
              ≡ length (limited p found.candidates) =
            ap length names_of ∙ length-names (limited p found.candidates) in
          rw (q, r)
            (
              omega (arith, low, one),
              omega (arith, low, all, enough),
              omega (arith, high, all, within),
              omega (arith, high, eight),
            )
    ]
  ]

  -- A consensus that `Select` accepts has at least as many nodes as it requires and at most as many
  -- as its limit, which is at most 8.
  pub select_bounds :
      (numbers : Numbers F) (cfg : Config) (nodes : List (Node F)) (now : ℕ) (req : Request)
      → is_consensus_plan (plan_of cfg req) ≡ true
      → (select numbers cfg nodes now req).1 ≡ true
      → let d = (select numbers cfg nodes now req).0 in
        1 ≤ d.consensus_required
        × d.consensus_required ≤ length d.candidate_nodes
        × length d.candidate_nodes ≤ d.consensus_limit
        × d.consensus_limit ≤ 8
  unfolding select
  select_bounds numbers cfg nodes now req e ok =
      concluded_bounds (plan_of cfg req) (found_for numbers cfg nodes now req) e ok
