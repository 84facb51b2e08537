-- ===== src/Proxy/Failure.antt =====
-- internal/httpapi/consensus.go, `consensusInferenceFailure`: the status of a consensus that failed.
use llama_wrangler.Common.{
  ℕ, ◌≤◌, ◌<◌, ◌≡◌, refl, ◌⊎◌, inl, inr, Bool, true, false, not, ◌&&◌, ◌||◌, String, List, [], ◌∷◌,
  ltb, leb, ◌==◌, if◌then◌else◌, is_empty, All, arith, by_test,
}
use llama_wrangler.Proxy.Answer.{normalized_upstream_error}
use llama_wrangler.Proxy.Fanout.{ParticipantFailure}
use llama_wrangler.Proxy.ForwardConsensus.{
  ConsensusOutcome, is_upstream_4xx, timeout_count, upstream_failures, error_code_insufficient,
  consensus_inference_failure,
}

abbrev pub Is4xx : ℕ → Type 0
Is4xx status = (400 ≤ status) × (status < 500)

-- A participant that has refused the request.
abbrev pub IsRefusal : ParticipantFailure → Type 0
IsRefusal f = (is_upstream_4xx f.reason_code ≡ true) × Is4xx f.status_code

abbrev IsBlank : ℕ → Type 0
IsBlank status = (status ≡ 0) ⊎ Is4xx status

-- What the loop says when it goes through all of the failures.
abbrev IsRead : List ParticipantFailure → Bool × ℕ → Type 0
IsRead fs r = r.0 ≡ true → All IsRefusal fs × IsBlank r.1

refusal :
    (f : ParticipantFailure)
    → (not (is_upstream_4xx f.reason_code) || ltb f.status_code 400 || leb 500 f.status_code)
      ≡ false
    → IsRefusal f
refusal f e = (ground (arith, e), (ground (arith, e), ground (arith, e)))

upstream-IsRead :
    (fs : List ParticipantFailure) (status : ℕ)
    → IsBlank status
    → IsRead fs (upstream_failures status fs)
upstream-IsRead [] status h = λ q. (tt, h)
upstream-IsRead (f ∷ fs) status h =
    let next = if status == 0 then f.status_code else status in
    let test =
      not (is_upstream_4xx f.reason_code) || ltb f.status_code 400 || leb 500 f.status_code in
    by_test (IsRead (f ∷ fs)) test (false, status) (upstream_failures next fs)
      (λ t q. let no : ⊥ = ground (arith, q) in elim no [ ])
      (λ t q.
        let one = refusal f t in
        let blank = by_test IsBlank (status == 0) f.status_code status (λ u. inr one.1) (λ u. h) in
        let rest = upstream-IsRead fs next blank q in ((one, rest.0), rest.1))

refusals :
    (fs : List ParticipantFailure) (status : ℕ) {b : Bool}
    → b ≡ true
    → All IsRefusal fs × IsBlank status
    → (status == 0) ≡ false
    → Is4xx status × (b ≡ true) × All IsRefusal fs
refusals fs status e (all, inl q) n = let no : ⊥ = ground (arith, q, n) in elim no [ ]
refusals fs status e (all, inr h) n = (h, e, all)

module _ {F : Type 0} where
  -- What the client is told of a consensus that failed.
  abbrev pub IsTold : ConsensusOutcome F → ℕ → Type 0
  IsTold o status =
      (status ≡ 502)
      ⊎ (status ≡ 504)
      ⊎ (Is4xx status × (is_empty o.successful_nodes ≡ true) × All IsRefusal o.participant_failures)

  -- The status of a consensus that failed is 502 or 504, unless no node has succeeded and all
  -- participants have refused the request: then it is one of 400 to 499.
  pub consensus_inference_failure_status :
      (o : ConsensusOutcome F) → IsTold o (consensus_inference_failure o).0
  unfolding consensus_inference_failure
  consensus_inference_failure_status o =
      let r = upstream_failures 0 o.participant_failures in
      let all =
        is_empty o.successful_nodes
        && not (is_empty o.participant_failures)
        && (r.0 && not (r.1 == 0)) in
      let late = o.timed_out || ltb 0 (timeout_count o.participant_failures) in
      let told = λ (a : ℕ × (String × String)). IsTold o a.0 in
      let slow : ℕ × (String × String) = (
        504,
        (
          error_code_insufficient,
          "Consensus timed out before enough Managed Node responses succeeded.",
        ),
      ) in
      let poor : ℕ × (String × String) = (
        502,
        (
          error_code_insufficient,
          "Consensus did not receive enough successful Managed Node responses.",
        ),
      ) in
      by_test told all (r.1, normalized_upstream_error r.1) (if late then slow else poor)
        (λ t. inr (
          inr (
            refusals o.participant_failures r.1 (ground (arith, t))
              (upstream-IsRead o.participant_failures 0 (inl refl) (ground (arith, t)))
              (ground (arith, t)))))
        (λ t. by_test told late slow poor (λ u. inr (inl refl)) (λ u. inl refl))
