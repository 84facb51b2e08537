-- ===== src/Routing/Served.antt =====
-- internal/routing/routing.go: what `Select` answers, for a request as a whole.
use llama_wrangler.Common.{
  ℕ, zero, suc, ◌≡◌, refl, sym, ap, subst, ◌∙◌, ◌↔◌, inl, inr, Bool, true, false, not, ◌&&◌, String,
  List, [], ◌∷◌, ltb, leb, if◌then◌else◌, length, is_empty, take, In, arith,
}
use llama_wrangler.Common.Sort.{sort_stable, In-sort_stable, sort_stable-In}
use llama_wrangler.Config.{Config}
use llama_wrangler.Appstate.Node.{Node}
use llama_wrangler.Routing.Placement.{Numbers}
use llama_wrangler.Routing.Plan.{
  Request, Decision, Plan, plan_of, is_consensus_plan, bounds_of, choose,
}
use llama_wrangler.Routing.Search.{CandidateNode, Found, all_nodes, node_before}
use llama_wrangler.Routing.Select.{
  names, limited, refused, short, accepted, too_few, found_for, conclude, select,
}
use llama_wrangler.Routing.Eligible.{IsServing, search-IsServing, search_serving}

chosen_keeps :
    (ns : List String) (d : Decision)
    → ((choose ns d).candidate_nodes ≡ d.candidate_nodes)
      × ((choose ns d).resolved_model ≡ d.resolved_model)
chosen_keeps [] d = (refl, refl)
chosen_keeps (n ∷ ns) d = (refl, refl)

In-take : {A : Type 0} (n : ℕ) (a : A) (xs : List A) → In a (take n xs) → In a xs
In-take zero a xs i = elim i [ ]
In-take (suc n) a [] i = elim i [ ]
In-take (suc n) a (x ∷ xs) (inl e) = inl e
In-take (suc n) a (x ∷ xs) (inr i) = inr (In-take n a xs i)

module _ {F : Type 0} where
  In-names :
      (id : String) (cs : List (CandidateNode F))
      → In id (names cs)
      → (c : CandidateNode F) × (id ≡ c.node.node_id) × In c cs
  In-names id [] i = elim i [ ]
  In-names id (c ∷ cs) (inl e) = (c, e, inl refl)
  In-names id (c ∷ cs) (inr i) = let (d, e, j) = In-names id cs i in (d, e, inr j)

  limited_cases :
      (b : Bool) (n : ℕ) (c : CandidateNode F) (cs : List (CandidateNode F))
      → In c (if b then take n cs else cs)
      → In c cs
  limited_cases true n c cs i = In-take n c cs i
  limited_cases false n c cs i = i

  -- The answer's candidates come from the search, for the model that it resolved.
  abbrev IsFrom : Found F → String → Decision → Type 0
  IsFrom found id d =
      In id d.candidate_nodes
      → (d.resolved_model ≡ found.resolved_model)
        × ((c : CandidateNode F) × (id ≡ c.node.node_id) × In c found.candidates)

  from_limited :
      (p : Plan) (found : Found F) (id : String)
      → In id (names (limited p found.candidates))
      → (c : CandidateNode F) × (id ≡ c.node.node_id) × In c found.candidates
  unfolding limited
  from_limited p found id i =
      let (c, e, j) = In-names id (limited p found.candidates) i in
      (c, e, limited_cases (is_consensus_plan p) _ c found.candidates j)

  IsFrom-refused : (p : Plan) (found : Found F) (id : String) → IsFrom found id (refused p found)
  unfolding refused
  IsFrom-refused p found id i = elim i [ ]

  IsFrom-short : (p : Plan) (found : Found F) (id : String) → IsFrom found id (short p found)
  unfolding short
  IsFrom-short p found id i = (refl, from_limited p found id i)

  accepted_parts :
      (p : Plan) (found : Found F)
      → ((accepted p found).candidate_nodes ≡ names (limited p found.candidates))
        × ((accepted p found).resolved_model ≡ found.resolved_model)
  unfolding accepted
  accepted_parts p found = chosen_keeps (names (limited p found.candidates)) _

  IsFrom-accepted : (p : Plan) (found : Found F) (id : String) → IsFrom found id (accepted p found)
  IsFrom-accepted p found id i =
      let (e, r) = accepted_parts p found in
      (r, from_limited p found id (subst (λ ns. In id ns) e i))

  concluded-IsFrom :
      (p : Plan) (found : Found F) (id : String) → IsFrom found id (conclude p found).0
  unfolding conclude
  concluded-IsFrom p found id = among (is_empty found.candidates) (too_few p found)
    where
      among :
          (b c : Bool)
          → IsFrom found id
              (if◌then◌else◌ {A = Decision × Bool} b
                (refused p found, false)
                (if c then (short p found, false) else (accepted p found, true))).0
      among true c = IsFrom-refused p found id
      among false true = IsFrom-short p found id
      among false false = IsFrom-accepted p found id

  unsorted :
      (cm : Bool) (now : ℕ) (known : List (Node F)) (model : String) (n : Node F)
      → IsServing cm now (sort_stable (node_before cm) known) model n
      → IsServing cm now known model n
  unsorted cm now known model n h = record {
    known = In-sort_stable (node_before cm) n known h.known;
    admitted = h.admitted;
    serving = h.serving;
  }

  sorted :
      (cm : Bool) (now : ℕ) (known : List (Node F)) (model : String) (n : Node F)
      → IsServing cm now known model n
      → IsServing cm now (sort_stable (node_before cm) known) model n
  sorted cm now known model n h = record {
    known = sort_stable-In (node_before cm) n known h.known;
    admitted = h.admitted;
    serving = h.serving;
  }

  single_verdict :
      (p : Plan) (found : Found F)
      → is_consensus_plan p ≡ false
      → (conclude p found).1 ≡ not (is_empty found.candidates)
  unfolding conclude
  single_verdict p found single =
      verdict (is_empty found.candidates) (is_consensus_plan p) (leb 1 (bounds_of p).0)
        (ltb (length (limited p found.candidates)) (bounds_of p).0) single
    where
      verdict :
          (b c d k : Bool)
          → c ≡ false
          → (if◌then◌else◌ {A = Decision × Bool} b
              (refused p found, false)
              (if c && d && k then (short p found, false) else (accepted p found, true))).1
            ≡ not b
      verdict true c d k e = refl
      verdict false true d k e = let no : ⊥ = ground (arith, e) in elim no [ ]
      verdict false false d k e = refl

  a_candidate :
      (cs : List (CandidateNode F)) → not (is_empty cs) ≡ true → (c : CandidateNode F) × In c cs
  a_candidate [] e = let no : ⊥ = ground (arith, e) in elim no [ ]
  a_candidate (c ∷ cs) e = (c, inl refl)

  -- Every candidate that `Select` names is a node that the marshal knows and that the policy admits at
  -- that time; it lists the model resolved, which is one of those wanted, or lists no models at all.
  pub select_eligible :
      (numbers : Numbers F) (cfg : Config) (nodes : List (Node F)) (now : ℕ) (req : Request)
      (id : String)
      → let d = (select numbers cfg nodes now req).0 in
        let p = plan_of cfg req in
        In id d.candidate_nodes
        → In d.resolved_model p.wanted
          × ((n : Node F) × (id ≡ n.node_id)
              × IsServing (is_consensus_plan p) now (all_nodes cfg nodes) d.resolved_model n)
  unfolding select found_for
  select_eligible numbers cfg nodes now req id i =
      let p = plan_of cfg req in
      let cm = is_consensus_plan p in
      let known = all_nodes cfg nodes in
      let (r, (c, e, j)) = concluded-IsFrom p (found_for numbers cfg nodes now req) id i in
      let (w, h) =
        search-IsServing numbers cm now (sort_stable (node_before cm) known) p.wanted [] c j in
      (
        subst (λ m. In m p.wanted) (sym r) w,
        (
          c.node,
          e,
          subst (λ m. IsServing cm now known m c.node) (sym r) (unsorted cm now known _ c.node h),
        ),
      )

  -- A request that is no consensus is answered just when some node that the marshal knows is
  -- admitted by the policy and serves a wanted model. No suitable node is overlooked.
  pub select_served :
      (numbers : Numbers F) (cfg : Config) (nodes : List (Node F)) (now : ℕ) (req : Request)
      → is_consensus_plan (plan_of cfg req) ≡ false
      → ((select numbers cfg nodes now req).1 ≡ true ↔ (
          (model : String) × In model (plan_of cfg req).wanted
          × ((n : Node F) × IsServing false now (all_nodes cfg nodes) model n)))
  unfolding select found_for
  select_served numbers cfg nodes now req single =
      let p = plan_of cfg req in
      let cm = is_consensus_plan p in
      let known = all_nodes cfg nodes in
      let found = found_for numbers cfg nodes now req in
      let verdict = single_verdict p found single in
      (
        λ ok.
            let (c, j) = a_candidate found.candidates (sym verdict ∙ ok) in
            let (w, h) =
              search-IsServing numbers cm now (sort_stable (node_before cm) known) p.wanted [] c
                j in
            (
              found.resolved_model,
              w,
              (
                c.node,
                subst (λ b. IsServing b now known found.resolved_model c.node) single
                    (unsorted cm now known found.resolved_model c.node h),
              ),
            ),
        λ s.
            let h = subst (λ b. IsServing b now known s.0 s.2.0) (sym single) s.2.1 in
            verdict
            ∙ ap not (
                search_serving numbers cm now (sort_stable (node_before cm) known) p.wanted [] s.0
                  s.2.0 s.1 (sorted cm now known s.0 s.2.0 h)),
      )
