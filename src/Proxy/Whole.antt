-- ===== src/Proxy/Whole.antt =====
-- internal/httpapi/server.go, `copyUpstreamResponse`: what its loop over the reads sends to the client.
use llama_wrangler.Common.{
  ℕ, ◌+◌, ◌≤◌, ◌≡◌, refl, sym, ap, ◌∙◌, Bool, true, false, not, ◌||◌, List, [], ◌∷◌, ◌++◌, some,
  ◌==◌, if◌then◌else◌, length, length-append, take_all, is_empty, arith, ==_iff,
}
use llama_wrangler.Proxy.Answer.{Writer}
use llama_wrangler.Proxy.Copy.{
  Ending, more, eof, broken, Read, Client, CopyOutcome, outcome, read_all, write, is_broken,
  is_more, copy_rest,
}

append_assoc : {A : Type 0} (xs ys zs : List A) → (xs ++ ys) ++ zs ≡ xs ++ (ys ++ zs)
append_assoc [] ys zs = refl
append_assoc (x ∷ xs) ys zs = ap (◌∷◌ x) (append_assoc xs ys zs)

pub append_nil : {A : Type 0} (xs : List A) → xs ++ [] ≡ xs
append_nil [] = refl
append_nil (x ∷ xs) = ap (◌∷◌ x) (append_nil xs)

-- The client has the whole body, in order: `w` is what it had before.
pub record IsWhole (status : List ℕ) (reads : List Read) (written : ℕ) (w : Writer)
    (r : Writer × CopyOutcome) : Type 0 where
  pub body : List ℕ
  pub read : read_all reads ≡ some body
  pub received : r.0.bytes ≡ w.bytes ++ body
  pub counted : r.1.bytes_written ≡ written + length body
  pub headed : r.0.statuses ≡ w.statuses ++ status
  pub committed : r.1.response_committed ≡ true

-- A writer counts what it takes, and takes everything unless it fails (`io.Writer`).
pub record IsWriter (client : Client) : Type 0 where
  pub within : (k : ℕ) (bytes : List ℕ) → (client k bytes).0 ≤ length bytes
  pub all :
      (k : ℕ) (bytes : List ℕ) → (client k bytes).1 ≡ false → (client k bytes).0 ≡ length bytes

module _ (client : Client) where
  pub written_all :
      (bytes : List ℕ) (w : Writer)
      → (write client bytes w).1.0 ≡ length bytes
      → (write client bytes w).0 ≡ record w { bytes = w.bytes ++ bytes }
  unfolding write
  written_all bytes w e =
      ap (λ taken. record w { bytes = w.bytes ++ taken })
        (take_all (client (length w.bytes) bytes).0 bytes (omega (arith, e)))

  -- One round of the loop that is not the last: it adds its bytes.
  added :
      (n total : ℕ) (bytes : List ℕ) (rs : List Read) (written : ℕ) (w sent : Writer)
      → total ≡ written + n
      → n ≡ length bytes
      → sent ≡ record w { bytes = w.bytes ++ bytes }
      → IsWhole [] rs total sent (copy_rest client total rs sent)
      → IsWhole []
          (record { bytes = bytes; ending = more } ∷ rs)
          written
          w
          (copy_rest client total rs sent)
  unfolding read_all
  added n total bytes rs written w sent sum e same h = record {
    body = bytes ++ h.body;
    read = rw (h.read) refl;
    received = h.received ∙ ap (λ v. v.bytes ++ h.body) same ∙ append_assoc w.bytes bytes h.body;
    counted = omega (arith, h.counted, e, sum, length-append bytes h.body);
    headed = h.headed ∙ ap (λ v. v.statuses ++ []) same;
    committed = h.committed;
  }

  -- A part of the body that is the last one.
  last_part :
      (bytes : List ℕ) (rs : List Read) (written n total : ℕ) (w sent : Writer)
      → total ≡ written + n
      → n ≡ length bytes
      → sent ≡ record w { bytes = w.bytes ++ bytes }
      → IsWhole []
          (record { bytes = bytes; ending = eof } ∷ rs)
          written
          w
          (sent, outcome total false)
  unfolding read_all
  last_part bytes rs written n total w sent sum e same = record {
    body = bytes;
    read = refl;
    received = ap (λ v. v.bytes) same;
    counted = omega (arith, e, sum);
    headed = ap (λ v. v.statuses) same ∙ sym (append_nil w.statuses);
    committed = refl;
  }

  unchanged : (w : Writer) → w ≡ record w { bytes = w.bytes ++ [] }
  unchanged w = ap (λ b. record w { bytes = b }) (sym (append_nil w.bytes))

  -- The writer after a read of the loop, when all of it was taken.
  part_added :
      (bytes : List ℕ) (w : Writer)
      → let s : Writer × (ℕ × Bool) =
          if is_empty bytes then (w, (0, false)) else write client bytes w in
        s.1.0 ≡ length bytes → s.0 ≡ record w { bytes = w.bytes ++ bytes }
  part_added [] w e = unchanged w
  part_added (b ∷ bytes) w e = written_all (b ∷ bytes) w e

  -- A round of the loop, by its tests: a failure of the client, a short write, the end of the read.
  abbrev pub finished : Bool → Bool → Ending → ℕ → List Read → Writer → Writer × CopyOutcome
  finished failed full ending written rs sent =
      if failed || not full
      then (sent, outcome written true)
      else if is_broken ending
      then (sent, outcome written true)
      else if is_more ending
      then copy_rest client written rs sent
      else (sent, outcome written false)

  pub finished_whole :
      (failed full : Bool) (ending : Ending) (bytes : List ℕ) (rs : List Read) (written n total : ℕ)
      (w sent : Writer)
      → total ≡ written + n
      → (full ≡ true → n ≡ length bytes)
      → (full ≡ true → sent ≡ record w { bytes = w.bytes ++ bytes })
      → ((copy_rest client total rs sent).1.failed ≡ false
          → IsWhole [] rs total sent (copy_rest client total rs sent))
      → (finished failed full ending total rs sent).1.failed ≡ false
      → IsWhole []
          (record { bytes = bytes; ending = ending } ∷ rs)
          written
          w
          (finished failed full ending total rs sent)
  finished_whole true full ending bytes rs written n total w sent sum e same later h =
      let no : ⊥ = ground (arith, h) in elim no [ ]
  finished_whole false false ending bytes rs written n total w sent sum e same later h =
      let no : ⊥ = ground (arith, h) in elim no [ ]
  finished_whole false true broken bytes rs written n total w sent sum e same later h =
      let no : ⊥ = ground (arith, h) in elim no [ ]
  finished_whole false true more bytes rs written n total w sent sum e same later h =
      added n total bytes rs written w sent sum (e refl) (same refl) (later h)
  finished_whole false true eof bytes rs written n total w sent sum e same later h =
      last_part bytes rs written n total w sent sum (e refl) (same refl)

  pub copy_rest_whole :
      (written : ℕ) (rs : List Read) (w : Writer)
      → (copy_rest client written rs w).1.failed ≡ false
      → IsWhole [] rs written w (copy_rest client written rs w)
  unfolding copy_rest read_all
  copy_rest_whole written [] w e = record {
    body = [];
    read = refl;
    received = sym (append_nil w.bytes);
    counted = omega arith;
    headed = sym (append_nil w.statuses);
    committed = refl;
  }
  copy_rest_whole written (r ∷ rs) w e =
      let s : Writer × (ℕ × Bool) =
        if is_empty r.bytes then (w, (0, false)) else write client r.bytes w in
      finished_whole s.1.1 (s.1.0 == length r.bytes) r.ending r.bytes rs written s.1.0
        (written + s.1.0) w s.0 refl (λ t. (==_iff s.1.0 (length r.bytes)).0 t)
        (λ t. part_added r.bytes w ((==_iff s.1.0 (length r.bytes)).0 t))
        (copy_rest_whole (written + s.1.0) rs s.0) e
