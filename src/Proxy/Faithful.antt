-- ===== src/Proxy/Faithful.antt =====
-- internal/httpapi/server.go, `copyUpstreamResponse`: what reaches the client.
use llama_wrangler.Common.{
  ℕ, ◌≡◌, refl, sym, ap, ◌∙◌, Bool, true, false, List, [], ◌∷◌, ◌++◌, Option, none, some, ◌==◌,
  length, arith, ==_iff,
}
use llama_wrangler.Proxy.Answer.{Writer, write_header}
use llama_wrangler.Proxy.Copy.{
  Ending, more, eof, broken, Read, Client, CopyOutcome, outcome, read_all, write, copy_stream,
  copy_whole, copy_upstream_response,
}
use llama_wrangler.Proxy.Whole.{
  IsWhole, IsWriter, append_nil, written_all, finished, copy_rest_whole, finished_whole,
}

module _ (client : Client) where
  -- The answer to a stream that starts with some bytes or goes on.
  started :
      (status : ℕ) (r : Read) (rs : List Read) (w : Writer) (c : Writer × CopyOutcome)
      → IsWhole [] (r ∷ rs) 0 (write_header status w) c
      → IsWhole (status ∷ []) (r ∷ rs) 0 w c
  unfolding write_header
  started status r rs w c h = record {
    body = h.body;
    read = h.read;
    received = h.received;
    counted = h.counted;
    headed = h.headed ∙ append_nil (w.statuses ++ status ∷ []);
    committed = h.committed;
  }

  -- A body without bytes: only the status line is sent.
  headed_only :
      (status : ℕ) (rs : List Read) (w : Writer)
      → read_all rs ≡ some []
      → IsWhole (status ∷ []) rs 0 w (write_header status w, outcome 0 false)
  unfolding write_header
  headed_only status rs w e = record {
    body = [];
    read = e;
    received = sym (append_nil w.bytes);
    counted = omega arith;
    headed = refl;
    committed = refl;
  }

  bytes_first :
      (status : ℕ) (bytes : List ℕ) (ending : Ending) (rs : List Read) (w : Writer)
      → let s = write client bytes (write_header status w) in
        let r = finished client s.1.1 (s.1.0 == length bytes) ending s.1.0 rs s.0 in
        r.1.failed ≡ false
        → IsWhole (status ∷ []) (record { bytes = bytes; ending = ending } ∷ rs) 0 w r
  bytes_first status bytes ending rs w e =
      let h = write_header status w in
      let s = write client bytes h in
      let taken = λ (t : (s.1.0 == length bytes) ≡ true). (==_iff s.1.0 (length bytes)).0 t in
      started status (record { bytes = bytes; ending = ending }) rs w
        (finished client s.1.1 (s.1.0 == length bytes) ending s.1.0 rs s.0)
        (finished_whole client s.1.1 (s.1.0 == length bytes) ending bytes rs 0 s.1.0 s.1.0 h s.0
          (omega arith) taken (λ t. written_all client bytes h (taken t))
          (copy_rest_whole client s.1.0 rs s.0) e)

  first_read :
      (status : ℕ) (bytes : List ℕ) (ending : Ending) (rs : List Read) (w : Writer)
      → let reads = record { bytes = bytes; ending = ending } ∷ rs in
        (copy_stream client status reads w).1.failed ≡ false
        → IsWhole (status ∷ []) reads 0 w (copy_stream client status reads w)
  unfolding copy_stream read_all
  first_read status [] more rs w e = bytes_first status [] more rs w e
  first_read status [] eof rs w e =
      headed_only status (record { bytes = []; ending = eof } ∷ rs) w refl
  first_read status [] broken rs w e = let no : ⊥ = ground (arith, e) in elim no [ ]
  first_read status (b ∷ bytes) ending rs w e = bytes_first status (b ∷ bytes) ending rs w e

  -- The tests of a stream's first read: it has no bytes and ends the body, or the loop begins.
  copy_stream_whole :
      (status : ℕ) (rs : List Read) (w : Writer)
      → (copy_stream client status rs w).1.failed ≡ false
      → IsWhole (status ∷ []) rs 0 w (copy_stream client status rs w)
  unfolding copy_stream read_all
  copy_stream_whole status [] w e = headed_only status [] w refl
  copy_stream_whole status (r ∷ rs) w e = first_read status r.bytes r.ending rs w e

  copy_whole_whole :
      (status : ℕ) (rs : List Read) (o : Option (List ℕ)) (w : Writer)
      → IsWriter client
      → read_all rs ≡ o
      → (copy_whole client status o w).1.failed ≡ false
      → IsWhole (status ∷ []) rs 0 w (copy_whole client status o w)
  unfolding write_header write
  copy_whole_whole status rs none w h q e = let no : ⊥ = ground (arith, e) in elim no [ ]
  copy_whole_whole status rs (some body) w h q e =
      let sent = write_header status w in
      let took = h.all (length sent.bytes) body e in
      record {
        body = body;
        read = q;
        received = ap (λ v. v.bytes) (written_all client body sent took);
        counted = omega (arith, took);
        headed = refl;
        committed = refl;
      }

  -- Let the client keep to the contract of `io.Writer`. When the copy of a node's answer succeeds,
  -- streamed or not, the client has been sent the status and then the whole body, each byte once
  -- and in order, and the count of bytes is right.
  pub copy_upstream_response_whole :
      (status : ℕ) (stream : Bool) (rs : List Read) (w : Writer)
      → IsWriter client
      → (copy_upstream_response client status stream rs w).1.failed ≡ false
      → IsWhole (status ∷ []) rs 0 w (copy_upstream_response client status stream rs w)
  unfolding copy_upstream_response
  copy_upstream_response_whole status true rs w h e = copy_stream_whole status rs w e
  copy_upstream_response_whole status false rs w h e =
      copy_whole_whole status rs (read_all rs) w h refl e
