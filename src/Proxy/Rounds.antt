-- ===== src/Proxy/Rounds.antt =====
-- internal/httpapi/server.go, `forwardWithFallback`: when a round of its loop goes on, and what one
-- that returns has sent.
use llama_wrangler.Common.{
  ℕ, ◌≡◌, refl, sym, Bool, true, false, ◌&&◌, ◌||◌, String, leb, ltb, if◌then◌else◌, arith,
}
use llama_wrangler.Common.Text.{str_eq}
use llama_wrangler.Proxy.Answer.{
  Writer, write_header, normalized_upstream_error, write_inference_error_for_path,
}
use llama_wrangler.Proxy.Copy.{copy_upstream_response}
use llama_wrangler.Proxy.Retry.{IsSent, copy_sent, copy_settled}
use llama_wrangler.Proxy.Forward.{
  Reply, bad_request, unreachable, response, World, Round, returns, goes_on, stopped, copied_round,
  replied_round, round,
}

one_of_three :
    {A : Type 0} (P : A → Type 0) (a b : Bool) (x y z : A)
    → (a ≡ true → P x)
    → P y
    → (b ≡ false → P z)
    → P (if a then x else if b then y else z)
one_of_three P true b x y z px py pz = px refl
one_of_three P false true x y z px py pz = py
one_of_three P false false x y z px py pz = pz refl

-- Whoever says that the client has gone has seen that the context is done.
abbrev pub IsGone : World → Bool → Type 0
IsGone world gone = gone ≡ true → (i : ℕ) × (world.cancelled i ≡ true)

not-IsGone : (world : World) → IsGone world false
not-IsGone world e = let no : ⊥ = cc in elim no [ ]

-- A round that goes on has sent nothing. One that returns has sent a status line, or nothing, is
-- committed if it did not fail, and says that the client has gone only if it has.
abbrev pub IsFair : World → Writer → Round → Type 0
IsFair world w (returns v outcome) =
    IsSent outcome.response_committed w v
    × (outcome.failed ≡ false → outcome.response_committed ≡ true)
    × IsGone world outcome.client_cancelled
IsFair world w (goes_on v) = v ≡ w

module _ (world : World) (path sent : String) (stream : Bool) where
  copied-IsFair :
      (i : ℕ) (node : String) (failed committed : Bool) (w v : Writer) (bytes_written : ℕ)
      → IsSent committed w v
      → (failed ≡ false → committed ≡ true)
      → IsFair world w (
          copied_round world path sent stream i node (
            v,
            record {
              bytes_written = bytes_written;
              response_committed = committed;
              failed = failed;
            },
          ))
  unfolding copied_round
  copied-IsFair i node false committed w v n h k = (h, k, not-IsGone world)
  copied-IsFair i node true true w v n h k =
      let some_output = ltb 0 n in
      let done = record (stopped i node) {
        retry_count = i;
        bytes_written = n;
        response_committed = true;
        failed = true;
      } in
      one_of_three (IsFair world w) (world.cancelled i) (some_output || true)
        (returns v (record done { partial_output = some_output; client_cancelled = true }))
        (returns v (record done { partial_output = some_output })) (goes_on v)
        (λ q. (h, λ e. refl, λ e. (i, q))) (h, λ e. refl, not-IsGone world)
        (λ q. let no : ⊥ = ground (arith, q) in elim no [ ])
  copied-IsFair i node true false w v n h k =
      let some_output = ltb 0 n in
      let done = record (stopped i node) { retry_count = i; bytes_written = n; failed = true } in
      one_of_three (IsFair world w) (world.cancelled i) (some_output || false)
        (returns v (record done { partial_output = some_output; client_cancelled = true }))
        (returns v (record done { partial_output = some_output })) (goes_on v)
        (λ q. (h, λ e. sym e, λ e. (i, q))) (h, λ e. sym e, not-IsGone world) (λ q. h)

  reply-IsFair :
      (i : ℕ) (node : String) (reply : Reply) (w : Writer)
      → IsFair world w (replied_round world path sent stream i node reply w)
  unfolding write_inference_error_for_path write_header normalized_upstream_error copied_round
      copy_upstream_response
  reply-IsFair i node bad_request w = (refl, λ e. sym e, not-IsGone world)
  reply-IsFair i node unreachable w =
      one_of_three (IsFair world w) (world.cancelled i) false
        (returns w (record (stopped i node) { client_cancelled = true })) (goes_on w) (goes_on w)
        (λ q. (refl, λ e. sym e, λ e. (i, q))) refl (λ q. refl)
  reply-IsFair i node (response status body) w =
      let copied = copy_upstream_response world.client status stream body w in
      one_of_three (IsFair world w) (leb 400 status && ltb status 500) (ltb status 400)
        (returns
          (write_inference_error_for_path path status (normalized_upstream_error status).0
            (normalized_upstream_error status).1 w)
          (record (stopped i node) { retry_count = i; response_committed = true }))
        (copied_round world path sent stream i node copied) (goes_on w)
        (λ q. ((status, refl), λ e. refl, not-IsGone world))
        (copied-IsFair i node copied.1.failed copied.1.response_committed w copied.0
          copied.1.bytes_written (copy_sent world.client status stream body w)
          (copy_settled world.client status stream body w))
        (λ q. refl)

  pub round-IsFair :
      (i : ℕ) (node : String) (w : Writer) → IsFair world w (round world path sent stream i node w)
  unfolding round
  round-IsFair i node w =
      let r = replied_round world path sent stream i node (world.reply i (world.url node) sent) w in
      one_of_three (IsFair world w) (str_eq (world.url node) "") true (goes_on w) r (goes_on w)
        (λ q. refl) (reply-IsFair i node (world.reply i (world.url node) sent) w) (λ q. refl)
