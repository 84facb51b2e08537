-- ===== src/Proxy/Retry.antt =====
-- internal/httpapi/server.go, `forwardWithFallback`: when another node is tried, and what the client
-- is sent.
use llama_wrangler.Common.{
  ℕ, ◌+◌, ◌≡◌, refl, sym, ◌∙◌, Bool, true, false, not, ◌||◌, List, [], ◌∷◌, ◌++◌, Option, none,
  some, ◌==◌, if◌then◌else◌, length, is_empty,
}
use llama_wrangler.Proxy.Answer.{Writer, write_header}
use llama_wrangler.Proxy.Copy.{
  Ending, more, eof, broken, Read, Client, CopyOutcome, outcome, read_all, write, copy_rest,
  copy_stream, copy_whole, copy_upstream_response, is_broken, is_more,
}
use llama_wrangler.Proxy.Whole.{finished}

-- The client is sent one status line when the answer is committed, and nothing at all otherwise.
abbrev pub IsSent : Bool → Writer → Writer → Type 0
IsSent true w v = (s : ℕ) × v.statuses ≡ w.statuses ++ s ∷ []
IsSent false w v = v ≡ w

one_of_four :
    {A : Type 0} (P : A → Type 0) (a b c : Bool) (x y z u : A)
    → P x
    → P y
    → P z
    → P u
    → P (if a then x else if b then y else if c then z else u)
one_of_four P true b c x y z u px py pz pu = px
one_of_four P false true c x y z u px py pz pu = py
one_of_four P false false true x y z u px py pz pu = pz
one_of_four P false false false x y z u px py pz pu = pu

-- The status lines are those, and the answer is committed.
abbrev IsHeaded : List ℕ → Writer × CopyOutcome → Type 0
IsHeaded statuses r = (r.0.statuses ≡ statuses) × (r.1.response_committed ≡ true)

-- What a copy leaves behind.
abbrev IsCopied : Writer → Writer × CopyOutcome → Type 0
IsCopied w r = IsSent r.1.response_committed w r.0

module _ (client : Client) where
  part_statuses :
      (bytes : List ℕ) (w : Writer)
      → let s : Writer × (ℕ × Bool) =
          if is_empty bytes then (w, (0, false)) else write client bytes w in
        s.0.statuses ≡ w.statuses
  unfolding write
  part_statuses [] w = refl
  part_statuses (b ∷ bytes) w = refl

  copy_rest_sent :
      (written : ℕ) (rs : List Read) (w : Writer)
      → IsHeaded w.statuses (copy_rest client written rs w)
  unfolding copy_rest
  copy_rest_sent written [] w = (refl, refl)
  copy_rest_sent written (r ∷ rs) w =
      let s : Writer × (ℕ × Bool) =
        if is_empty r.bytes then (w, (0, false)) else write client r.bytes w in
      let n = written + s.1.0 in
      let same = part_statuses r.bytes w in
      let rest = copy_rest_sent n rs s.0 in
      one_of_four (IsHeaded w.statuses) (s.1.1 || not (s.1.0 == length r.bytes))
        (is_broken r.ending) (is_more r.ending) (s.0, outcome n true) (s.0, outcome n true)
        (copy_rest client n rs s.0) (s.0, outcome n false) (same, refl) (same, refl)
        (rest.0 ∙ same, rest.1) (same, refl)

  headed_sent :
      (status : ℕ) (w : Writer) (r : Writer × CopyOutcome)
      → IsHeaded (w.statuses ++ status ∷ []) r
      → IsCopied w r
  headed_sent status w r h = rw (h.1) (status, h.0)

  bytes-IsHeaded :
      (status : ℕ) (bytes : List ℕ) (ending : Ending) (rs : List Read) (w : Writer)
      → let s = write client bytes (write_header status w) in
        IsHeaded
          (w.statuses ++ status ∷ [])
          (finished client s.1.1 (s.1.0 == length bytes) ending s.1.0 rs s.0)
  unfolding write write_header
  bytes-IsHeaded status bytes ending rs w =
      let s = write client bytes (write_header status w) in
      let n = s.1.0 in
      one_of_four (IsHeaded (w.statuses ++ status ∷ [])) (s.1.1 || not (n == length bytes))
        (is_broken ending) (is_more ending) (s.0, outcome n true) (s.0, outcome n true)
        (copy_rest client n rs s.0) (s.0, outcome n false) (refl, refl) (refl, refl)
        (copy_rest_sent n rs s.0) (refl, refl)

  bytes_sent :
      (status : ℕ) (bytes : List ℕ) (ending : Ending) (rs : List Read) (w : Writer)
      → let s = write client bytes (write_header status w) in
        IsCopied w (finished client s.1.1 (s.1.0 == length bytes) ending s.1.0 rs s.0)
  bytes_sent status bytes ending rs w =
      let s = write client bytes (write_header status w) in
      headed_sent status w (finished client s.1.1 (s.1.0 == length bytes) ending s.1.0 rs s.0)
        (bytes-IsHeaded status bytes ending rs w)

  first_sent :
      (status : ℕ) (bytes : List ℕ) (ending : Ending) (rs : List Read) (w : Writer)
      → IsCopied w (copy_stream client status (record { bytes = bytes; ending = ending } ∷ rs) w)
  unfolding copy_stream write_header
  first_sent status [] more rs w = bytes_sent status [] more rs w
  first_sent status [] eof rs w = (status, refl)
  first_sent status [] broken rs w = refl
  first_sent status (b ∷ bytes) ending rs w = bytes_sent status (b ∷ bytes) ending rs w

  stream_sent :
      (status : ℕ) (rs : List Read) (w : Writer) → IsCopied w (copy_stream client status rs w)
  unfolding copy_stream write_header
  stream_sent status [] w = (status, refl)
  stream_sent status (r ∷ rs) w = first_sent status r.bytes r.ending rs w

  whole_sent :
      (status : ℕ) (o : Option (List ℕ)) (w : Writer) → IsCopied w (copy_whole client status o w)
  unfolding write write_header
  whole_sent status none w = refl
  whole_sent status (some bytes) w = (status, refl)

  pub copy_sent :
      (status : ℕ) (stream : Bool) (rs : List Read) (w : Writer)
      → IsCopied w (copy_upstream_response client status stream rs w)
  unfolding copy_upstream_response
  copy_sent status true rs w = stream_sent status rs w
  copy_sent status false rs w = whole_sent status (read_all rs) w

  -- A copy that succeeds is committed.
  abbrev IsSettledCopy : Writer × CopyOutcome → Type 0
  IsSettledCopy r = r.1.failed ≡ false → r.1.response_committed ≡ true

  first_settled :
      (status : ℕ) (bytes : List ℕ) (ending : Ending) (rs : List Read) (w : Writer)
      → IsSettledCopy (copy_stream client status (record { bytes = bytes; ending = ending } ∷ rs) w)
  unfolding copy_stream
  first_settled status [] more rs w e = (bytes-IsHeaded status [] more rs w).1
  first_settled status [] eof rs w e = refl
  first_settled status [] broken rs w e = sym e
  first_settled status (b ∷ bytes) ending rs w e = (bytes-IsHeaded status (b ∷ bytes) ending rs w).1

  whole_settled :
      (status : ℕ) (o : Option (List ℕ)) (w : Writer) → IsSettledCopy (copy_whole client status o w)
  whole_settled status none w e = sym e
  whole_settled status (some bytes) w e = refl

  pub copy_settled :
      (status : ℕ) (stream : Bool) (rs : List Read) (w : Writer)
      → IsSettledCopy (copy_upstream_response client status stream rs w)
  unfolding copy_upstream_response copy_stream
  copy_settled status true [] w e = refl
  copy_settled status true (r ∷ rs) w e = first_settled status r.bytes r.ending rs w e
  copy_settled status false rs w e = whole_settled status (read_all rs) w e
