-- ===== src/Routing/Eligible.antt =====
-- internal/routing/routing.go: the candidates are nodes that the marshal knows, that the policy
-- admits, and that serve the model.
use llama_wrangler.Common.{
  ℕ, ◌≡◌, refl, sym, subst, ◌∙◌, ◌⊎◌, inl, inr, Bool, true, false, ◌&&◌, ◌||◌, String, List, [],
  ◌∷◌, ◌++◌, if◌then◌else◌, length, is_empty, In, arith,
}
use llama_wrangler.Common.Sort.{sort_stable, In-sort_stable, length-sort_stable}
use llama_wrangler.Appstate.Node.{Node}
use llama_wrangler.Routing.Policy.{classify}
use llama_wrangler.Routing.Placement.{Numbers}
use llama_wrangler.Routing.Plan.{is_member}
use llama_wrangler.Routing.Search.{
  CandidateNode, Found, candidate_before, candidate_node, serves, gather, search,
}

added :
    {A : Type 0} (b : Bool) (x c : A) (xs : List A)
    → In c (if b then x ∷ xs else xs)
    → ((b ≡ true) × (c ≡ x)) ⊎ In c xs
added true x c xs (inl e) = inl (refl, e)
added true x c xs (inr i) = inr i
added false x c xs i = inr i

kept :
    {A : Type 0} (b : Bool) (x : A) (xs : List A)
    → (b ≡ true) ⊎ (is_empty xs ≡ false)
    → is_empty (if b then x ∷ xs else xs) ≡ false
kept true x xs h = refl
kept false x xs (inl e) = ground (arith, e)
kept false x xs (inr e) = e

is_empty-length : {A : Type 0} (xs ys : List A) → length xs ≡ length ys → is_empty xs ≡ is_empty ys
is_empty-length [] [] e = refl
is_empty-length [] (y ∷ ys) e = let no : ⊥ = omega (arith, e) in elim no [ ]
is_empty-length (x ∷ xs) [] e = let no : ⊥ = omega (arith, e) in elim no [ ]
is_empty-length (x ∷ xs) (y ∷ ys) e = refl

both_true : (a b : Bool) → (a && b) ≡ true → (a ≡ true) × (b ≡ true)
both_true true b e = (refl, e)
both_true false b e = let no : ⊥ = ground (arith, e) in elim no [ ]

not_both : {P : Type 0} (b : Bool) → b ≡ true → b ≡ false → P
not_both true e f = let no : ⊥ = ground (arith, f) in elim no [ ]
not_both false e f = let no : ⊥ = ground (arith, e) in elim no [ ]

true_and : (a b : Bool) → a ≡ true → b ≡ true → (a && b) ≡ true
true_and true b e f = f
true_and false b e f = e

module _ {F : Type 0} where
  -- A node of `nodes` that the policy admits now and that serves the model.
  pub record IsServing (consensus_mode : Bool) (now : ℕ) (nodes : List (Node F)) (model : String)
      (n : Node F) : Type 0 where
    pub known : In n nodes
    pub admitted : (classify n consensus_mode now).eligible ≡ true
    pub serving : serves model n ≡ true

  later-IsServing :
      (consensus_mode : Bool) (now : ℕ) (m : Node F) (nodes : List (Node F)) (model : String)
      (n : Node F)
      → IsServing consensus_mode now nodes model n
      → IsServing consensus_mode now (m ∷ nodes) model n
  later-IsServing consensus_mode now m nodes model n h = record {
    known = inr h.known;
    admitted = h.admitted;
    serving = h.serving;
  }

  -- The answer of the search is the later one, or the one of this model.
  picked :
      (b : Bool) (P : Found F → Type 0) (later found : Found F)
      → (b ≡ true → P later)
      → (b ≡ false → P found)
      → P (if b then later else found)
  picked true P later found h k = h refl
  picked false P later found h k = k refl

  module _ (numbers : Numbers F) (consensus_mode : Bool) (now : ℕ) where
    gather-IsServing :
        (wanted : String) (ns : List (Node F)) (excluded : List String) (c : CandidateNode F)
        → In c (gather numbers consensus_mode now wanted ns excluded).0
        → IsServing consensus_mode now ns wanted c.node
    unfolding gather candidate_node
    gather-IsServing wanted [] excluded c i = elim i [ ]
    gather-IsServing wanted (n ∷ ns) excluded c i =
        let policy = classify n consensus_mode now in
        let ex =
          if policy.eligible || is_member n.node_id excluded
          then excluded
          else n.node_id ∷ excluded in
        elim (added (policy.eligible && serves wanted n)
          (candidate_node numbers n wanted policy now) c
          (gather numbers consensus_mode now wanted ns ex).0 i) [
            | inl (t, e) ↦
                subst (λ x. IsServing consensus_mode now (n ∷ ns) wanted x.node) (sym e)
                  (record {
                    known = inl refl;
                    admitted = (both_true policy.eligible (serves wanted n) t).0;
                    serving = (both_true policy.eligible (serves wanted n) t).1;
                  })
            | inr j ↦
                later-IsServing consensus_mode now n ns wanted c.node
                  (gather-IsServing wanted ns ex c j)
          ]

    gather_serving :
        (wanted : String) (ns : List (Node F)) (excluded : List String) (n : Node F)
        → IsServing consensus_mode now ns wanted n
        → is_empty (gather numbers consensus_mode now wanted ns excluded).0 ≡ false
    unfolding gather
    gather_serving wanted [] excluded n h = elim h.known [ ]
    gather_serving wanted (m ∷ ns) excluded n h =
        let policy = classify m consensus_mode now in
        let ex =
          if policy.eligible || is_member m.node_id excluded
          then excluded
          else m.node_id ∷ excluded in
        kept (policy.eligible && serves wanted m) (candidate_node numbers m wanted policy now)
          (gather numbers consensus_mode now wanted ns ex).0
          (elim h.known [
            | inl e ↦ inl (
                subst (λ x. ((classify x consensus_mode now).eligible && serves wanted x) ≡ true) e
                  (true_and (classify n consensus_mode now).eligible (serves wanted n) h.admitted
                    h.serving))
            | inr i ↦ inr (
                gather_serving wanted ns ex n
                  (record { known = i; admitted = h.admitted; serving = h.serving }))
          ])

    pub search-IsServing :
        (nodes : List (Node F)) (wanted excluded : List String) (c : CandidateNode F)
        → let f = search numbers consensus_mode now nodes wanted excluded in
          In c f.candidates
          → In f.resolved_model wanted × IsServing consensus_mode now nodes f.resolved_model c.node
    unfolding search
    search-IsServing nodes [] excluded c i = elim i [ ]
    search-IsServing nodes (w ∷ ws) excluded c i =
        let g = gather numbers consensus_mode now w nodes excluded in
        let later = search numbers consensus_mode now nodes ws g.2 in
        picked (is_empty g.0)
          (λ f.
            In c f.candidates
            → In f.resolved_model (w ∷ ws)
              × IsServing consensus_mode now nodes f.resolved_model c.node)
          (record later { excluded = g.1 ++ later.excluded })
          (record {
            resolved_model = w;
            candidates = sort_stable (candidate_before numbers) g.0;
            excluded = g.1;
          })
          (λ q i. let (m, s) = search-IsServing nodes ws g.2 c i in (inr m, s))
          (λ q i. (
            inl refl,
            gather-IsServing w nodes excluded c (In-sort_stable (candidate_before numbers) c g.0 i),
          ))
          i

    pub search_serving :
        (nodes : List (Node F)) (wanted excluded : List String) (model : String) (n : Node F)
        → In model wanted
        → IsServing consensus_mode now nodes model n
        → is_empty (search numbers consensus_mode now nodes wanted excluded).candidates ≡ false
    unfolding search
    search_serving nodes [] excluded model n i h = elim i [ ]
    search_serving nodes (w ∷ ws) excluded model n i h =
        let g = gather numbers consensus_mode now w nodes excluded in
        let later = search numbers consensus_mode now nodes ws g.2 in
        picked (is_empty g.0) (λ f. is_empty f.candidates ≡ false)
          (record later { excluded = g.1 ++ later.excluded })
          (record {
            resolved_model = w;
            candidates = sort_stable (candidate_before numbers) g.0;
            excluded = g.1;
          })
          (λ q. elim i [
            | inl e ↦
                let full =
                  gather_serving w nodes excluded n
                    (subst (λ x. IsServing consensus_mode now nodes x n) e h) in
                not_both (is_empty g.0) q full
            | inr j ↦ search_serving nodes ws g.2 model n j h
          ])
          (λ q.
            is_empty-length (sort_stable (candidate_before numbers) g.0) g.0
              (length-sort_stable (candidate_before numbers) g.0)
            ∙ q)
