-- ===== src/Proxy/Answered.antt =====
-- internal/httpapi/server.go, `marshalProxy`: every request gets one answer.
use llama_wrangler.Common.{
  ℕ, ◌≡◌, ◌⊎◌, Bool, true, not, ◌||◌, List, [], ◌∷◌, ◌++◌, Option, none, some, if◌then◌else◌, In,
}
use llama_wrangler.Proxy.Answer.{Writer}
use llama_wrangler.Session.{Store}
use llama_wrangler.Proxy.Meta.{Meta}
use llama_wrangler.Proxy.Fanout.{Event, client_gone}
use llama_wrangler.Proxy.ForwardConsensus.{ConsensusError}
use llama_wrangler.Proxy.Request.{Server, Served}

-- One status line has been sent, or what happened led to the client's being given up, and nothing was.
abbrev IsSettled : Type 0 → Writer → Served → Type 0
IsSettled left w r =
    ((s : ℕ) × r.writer.statuses ≡ w.statuses ++ s ∷ [])
    ⊎ (left × (r.queue_status ≡ "cancelled") × (r.writer ≡ w))

-- How the outcome of a request is settled, by what it says.
settled : (failed gone committed partial : Bool) → Writer → Writer → Store → Served
settled failed gone committed partial v written sessions =
    let status = if gone then "cancelled" else if partial then "partial" else "failed" in
    if not failed
    then record { writer = v; sessions = sessions; queue_status = "completed" }
    else if gone || committed
    then record { writer = v; sessions = sessions; queue_status = status }
    else record { writer = written; sessions = sessions; queue_status = status }

consensus_settled : Option ConsensusError → Bool → Bool → Writer → Writer → Store → Served
consensus_settled err gone committed v written sessions = elim err [
  | none ↦ record { writer = v; sessions = sessions; queue_status = "completed" }
  | some x ↦
      if gone
      then record { writer = v; sessions = sessions; queue_status = "cancelled" }
      else if committed
      then record { writer = v; sessions = sessions; queue_status = "partial" }
      else record { writer = written; sessions = sessions; queue_status = "failed" }
]

module _ {F : Type 0} (server : Server F) where
  -- The client has gone: a try of a node found the context of the request done, or the collection of a
  -- consensus did.
  abbrev pub HasLeft : List Event → Type 0
  HasLeft events = ((i : ℕ) × (server.cancelled i ≡ true)) ⊎ In client_gone events

  -- One status line has been sent, or the client has gone and nothing has.
  abbrev pub IsAnswered : List Event → Writer → Served → Type 0
  IsAnswered events w r =
      ((s : ℕ) × r.writer.statuses ≡ w.statuses ++ s ∷ [])
      ⊎ (HasLeft events × (r.queue_status ≡ "cancelled") × (r.writer ≡ w))
