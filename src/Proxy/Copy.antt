-- ===== src/Proxy/Copy.antt =====
-- internal/httpapi/server.go, `copyUpstreamResponse`. The body of the answer is a list of reads, each
-- with its bytes and how it ends; after the last one the body is at its end. The client takes a
-- prefix of what is written, and may fail.
use llama_wrangler.Common.{
  ℕ, ◌+◌, Bool, true, false, not, ◌&&◌, ◌||◌, List, [], ◌∷◌, ◌++◌, Option, none, some, ◌==◌,
  if◌then◌else◌, length, take, is_empty,
}
use llama_wrangler.Proxy.Answer.{Writer, write_header}

-- `err` of a read: nil, `io.EOF`, or another one.
pub data Ending : Type 0 where
  more eof broken : Ending

pub record Read : Type 0 where
  pub bytes : List ℕ
  pub ending : Ending

-- What the client does with some bytes after so many: how many it takes, and whether it fails.
abbrev pub Client : Type 0
Client = ℕ → List ℕ → ℕ × Bool

pub record CopyOutcome : Type 0 where
  pub bytes_written : ℕ
  pub response_committed : Bool
  pub failed : Bool

-- `io.ReadAll`
unfoldable pub read_all : List Read → Option (List ℕ)
read_all [] = some []
read_all (r ∷ rs) = elim r.ending [
  | broken ↦ none
  | eof ↦ some r.bytes
  | more ↦ elim (read_all rs) [ none ↦ none | some bytes ↦ some (r.bytes ++ bytes) ]
]

abbrev pub outcome : ℕ → Bool → CopyOutcome
outcome n failed = record { bytes_written = n; response_committed = true; failed = failed }

abbrev pub is_broken : Ending → Bool
is_broken broken = true
is_broken _ = false

abbrev pub is_more : Ending → Bool
is_more more = true
is_more _ = false

module _ (client : Client) where
  -- `w.Write`: the number of bytes written, and whether it failed.
  unfoldable pub write : List ℕ → Writer → Writer × (ℕ × Bool)
  write bytes w =
      let taken = client (length w.bytes) bytes in
      (record w { bytes = w.bytes ++ take taken.0 bytes }, taken)

  -- The loop over the reads after the first one. A read without bytes is not written.
  unfoldable pub copy_rest : ℕ → List Read → Writer → Writer × CopyOutcome
  unfolding write
  copy_rest written [] w = (w, outcome written false)
  copy_rest written (r ∷ rs) w =
      let (sent, (n, failed)) : Writer × (ℕ × Bool) =
        if is_empty r.bytes then (w, (0, false)) else write r.bytes w in
      let rest = copy_rest (written + n) rs sent in
      if failed || not (n == length r.bytes)
      then (sent, outcome (written + n) true)
      else if is_broken r.ending
      then (sent, outcome (written + n) true)
      else if is_more r.ending
      then rest
      else (sent, outcome (written + n) false)

  -- An answer that is streamed: its first read decides whether the client is sent anything.
  unfoldable pub copy_stream : ℕ → List Read → Writer → Writer × CopyOutcome
  unfolding write write_header copy_rest
  copy_stream status [] w = (write_header status w, outcome 0 false)
  copy_stream status (r ∷ rs) w =
      if is_empty r.bytes && not (is_more r.ending)
      then if is_broken r.ending
        then (w, record { bytes_written = 0; response_committed = false; failed = true })
        else (write_header status w, outcome 0 false)
      else let (sent, (n, failed)) = write r.bytes (write_header status w) in
        if failed || not (n == length r.bytes)
        then (sent, outcome n true)
        else if is_broken r.ending
        then (sent, outcome n true)
        else if is_more r.ending
        then copy_rest n rs sent
        else (sent, outcome n false)

  abbrev pub copy_whole : ℕ → Option (List ℕ) → Writer → Writer × CopyOutcome
  copy_whole status none w =
      (w, record { bytes_written = 0; response_committed = false; failed = true })
  copy_whole status (some bytes) w =
      let (sent, (n, failed)) = write bytes (write_header status w) in (sent, outcome n failed)

  unfoldable pub copy_upstream_response : ℕ → Bool → List Read → Writer → Writer × CopyOutcome
  unfolding read_all write write_header copy_stream
  copy_upstream_response status stream reads w =
      if stream then copy_stream status reads w else copy_whole status (read_all reads) w
