-- ===== src/Proxy/Fallback.antt =====
-- internal/httpapi/server.go, `forwardWithFallback`: what the whole loop over the nodes answers.
use llama_wrangler.Common.{
  ℕ, suc, ◌≡◌, refl, sym, ap, subst, ◌∙◌, Bool, true, false, String, List, [], ◌∷◌,
}
use llama_wrangler.Proxy.Answer.{Writer}
use llama_wrangler.Proxy.Forward.{
  World, ProxyOutcome, Round, returns, goes_on, exhausted, round, forward_from,
  forward_with_fallback,
}
use llama_wrangler.Proxy.Retry.{IsSent}
use llama_wrangler.Proxy.Rounds.{IsGone, IsFair, round-IsFair}

-- What the nodes would each answer on their own, in the order of the list.
abbrev pub rounds_from : World → String → String → Bool → ℕ → List String → Writer → List Round
rounds_from world path sent stream i [] w = []
rounds_from world path sent stream i (node ∷ nodes) w =
    round world path sent stream i node w ∷ rounds_from world path sent stream (suc i) nodes w

-- The first round that returns, or the answer after them all.
abbrev pub first_answer : ℕ → List Round → Writer → Writer × ProxyOutcome
first_answer i [] w = (w, exhausted i)
first_answer i (returns sent outcome ∷ rs) w = (sent, outcome)
first_answer i (goes_on _ ∷ rs) w = first_answer (suc i) rs w

abbrev pub IsAnswer : World → Writer → Writer × ProxyOutcome → Type 0
IsAnswer world w r =
    IsSent r.1.response_committed w r.0
    × (r.1.failed ≡ false → r.1.response_committed ≡ true)
    × IsGone world r.1.client_cancelled

module _ (world : World) (path sent : String) (stream : Bool) where
  after_round :
      (i : ℕ) (r : Round) (nodes : List String) (rs : List Round) (w : Writer)
      → IsFair world w r
      → forward_from world path sent stream (suc i) nodes w ≡ first_answer (suc i) rs w
      → elim r [
        | returns v outcome ↦ (v, outcome)
        | goes_on v ↦ forward_from world path sent stream (suc i) nodes v
      ]
        ≡ first_answer i (r ∷ rs) w
  after_round i (returns v outcome) nodes rs w h e = refl
  after_round i (goes_on v) nodes rs w h e =
      ap (forward_from world path sent stream (suc i) nodes) h ∙ e

  forward_from_first :
      (i : ℕ) (nodes : List String) (w : Writer)
      → forward_from world path sent stream i nodes w
        ≡ first_answer i (rounds_from world path sent stream i nodes w) w
  unfolding forward_from
  forward_from_first i [] w = refl
  forward_from_first i (node ∷ nodes) w =
      after_round i (round world path sent stream i node w) nodes
        (rounds_from world path sent stream (suc i) nodes w) w
        (round-IsFair world path sent stream i node w) (forward_from_first (suc i) nodes w)

  -- A request that is forwarded gets the answer of the first node of the list, the selected one and
  -- then the fallback nodes, that decides when asked alone; the tries before it leave no trace.
  pub forward_with_fallback-first_answer :
      (selected_node : String) (fallback_nodes : List String) (w : Writer)
      → forward_with_fallback world path sent stream selected_node fallback_nodes w
        ≡ first_answer 0 (rounds_from world path sent stream 0 (selected_node ∷ fallback_nodes) w) w
  unfolding forward_with_fallback
  forward_with_fallback-first_answer selected_node fallback_nodes w =
      forward_from_first 0 (selected_node ∷ fallback_nodes) w

  fair-IsAnswer :
      (k : ℕ) (r : Round) (rs : List Round) (w : Writer)
      → IsFair world w r
      → IsAnswer world w (first_answer (suc k) rs w)
      → IsAnswer world w (first_answer k (r ∷ rs) w)
  fair-IsAnswer k (returns v outcome) rs w h later = h
  fair-IsAnswer k (goes_on v) rs w h later = later

  first_answer_fair :
      (i k : ℕ) (nodes : List String) (w : Writer)
      → IsAnswer world w (first_answer k (rounds_from world path sent stream i nodes w) w)
  first_answer_fair i k [] w = (refl, λ e. sym e, λ e. let no : ⊥ = cc in elim no [ ])
  first_answer_fair i k (node ∷ nodes) w =
      fair-IsAnswer k (round world path sent stream i node w)
        (rounds_from world path sent stream (suc i) nodes w) w
        (round-IsFair world path sent stream i node w) (first_answer_fair (suc i) (suc k) nodes w)

  -- Whatever the nodes and the client do, a forwarded request that is committed has been sent one
  -- status line, and one that is not has been sent nothing; one that does not fail is committed, and one that is
  -- cancelled has found the context of the request done.
  pub forward_with_fallback_sent :
      (selected_node : String) (fallback_nodes : List String) (w : Writer)
      → IsAnswer world w
          (forward_with_fallback world path sent stream selected_node fallback_nodes w)
  forward_with_fallback_sent selected_node fallback_nodes w =
      subst (IsAnswer world w)
        (sym (forward_with_fallback-first_answer selected_node fallback_nodes w))
        (first_answer_fair 0 0 (selected_node ∷ fallback_nodes) w)
