-- ===== src/Proxy/Tests.antt =====
-- internal/httpapi/server.go and consensus.go: some requests, and the theorems at them.
use llama_wrangler.Common.{
  ◌≡◌, refl, inl, inr, true, false, String, List, [], ◌∷◌, some, length, arith, if◌then◌else◌,
}
use llama_wrangler.Common.Text.{str_eq}
use llama_wrangler.Proxy.Answer.{Writer}
use llama_wrangler.Proxy.Copy.{Read, Client, more, eof, copy_upstream_response}
use llama_wrangler.Proxy.Whole.{IsWhole, IsWriter}
use llama_wrangler.Proxy.Faithful.{copy_upstream_response_whole}
use llama_wrangler.Proxy.Forward.{response, unreachable, World, forward_with_fallback}
use llama_wrangler.Proxy.Fallback.{rounds_from, first_answer, forward_with_fallback-first_answer}
use llama_wrangler.Proxy.Fanout.{
  Fleet, Exchange, Event, arrived, collect, fetch_consensus_participant,
}
use llama_wrangler.Proxy.Fanout
use llama_wrangler.Proxy.Heard.{heard, ended}
use llama_wrangler.Proxy.Divided.{IsDivided}
use llama_wrangler.Proxy.Outcome.{split_of, served, forward_consensus_divides}
use llama_wrangler.Proxy.Success.{IsServed, forward_consensus_commits, forward_consensus_serves}
use llama_wrangler.Proxy.ForwardConsensus.{forward_consensus}
use llama_wrangler.Consensus.Content.{response_signature}
use llama_wrangler.Consensus.Engine.{
  evaluate, add_to_groups, join_group, new_group, best_group, best_member, better_member,
}
use llama_wrangler.Consensus.Tests.{percent, plain}

abbrev untouched : Writer
untouched = record { statuses = []; bytes = []; errors = [] }

-- A client that takes all bytes.
abbrev reader : Client
reader k bytes = (length bytes, false)

reader-IsWriter : IsWriter reader
reader-IsWriter = record { within = λ k bytes. omega arith; all = λ k bytes e. refl }

abbrev parts : List Read
parts =
    record { bytes = 1 ∷ 2 ∷ []; ending = more }
    ∷ record { bytes = []; ending = more }
    ∷ record { bytes = 3 ∷ []; ending = eof }
    ∷ []

copy_upstream_response_whole_example :
    IsWhole (200 ∷ []) parts 0 untouched (copy_upstream_response reader 200 true parts untouched)
unfolding copy_upstream_response
copy_upstream_response_whole_example =
    copy_upstream_response_whole reader 200 true parts untouched reader-IsWriter refl

-- The first node cannot be reached, the second one answers.
abbrev two_nodes : World
two_nodes = record {
  url = λ node. node;
  reply = λ i node body. if str_eq node "a" then unreachable else response 200 parts;
  cancelled = λ i. false;
  client = reader;
}

forward_with_fallback-first_answer_example :
    forward_with_fallback two_nodes "/v1/x" "{}" true "a" ("b" ∷ []) untouched
    ≡ first_answer 0
        (rounds_from two_nodes "/v1/x" "{}" true 0 ("a" ∷ "b" ∷ []) untouched)
        untouched
forward_with_fallback-first_answer_example =
    forward_with_fallback-first_answer two_nodes "/v1/x" "{}" true "a" ("b" ∷ []) untouched

-- Two of the participants agree, the third one cannot be reached.
abbrev jury : Fleet
jury = record {
  url = λ node. node;
  exchange =
      λ node. if str_eq node "c" then Fanout.unreachable else Fanout.response 200 (some "yes");
  context = λ node. Fanout.live;
  encode = λ s. 1 ∷ 2 ∷ [];
}

abbrev jurors : List String
jurors = "a" ∷ "b" ∷ "c" ∷ []

abbrev verdicts : List Event
verdicts = arrived "b" ∷ arrived "c" ∷ arrived "a" ∷ []

forward_consensus_divides_example :
    IsDivided jury
      (heard 3 verdicts)
      (ended 3 verdicts)
      jurors
      (split_of (served percent plain jury reader "s" jurors 2 3 verdicts untouched).1)
forward_consensus_divides_example =
    forward_consensus_divides percent plain jury reader "s" jurors 2 3 verdicts untouched
      (omega arith)

forward_consensus_commits_example :
    (served percent plain jury reader "s" jurors 2 3 verdicts untouched).1.response_committed ≡ true
unfolding collect
forward_consensus_commits_example =
    forward_consensus_commits percent plain jury reader "s" jurors 2 3 verdicts untouched
      (inr (inl refl), (inr (inr (inl refl)), (inl refl, tt))) (omega arith) refl (omega arith)

forward_consensus_serves_example :
    IsServed percent plain jury reader "s" untouched
      (served percent plain jury reader "s" jurors 2 3 verdicts untouched)
unfolding forward_consensus evaluate add_to_groups join_group new_group response_signature
    best_group best_member better_member
forward_consensus_serves_example =
    forward_consensus_serves percent plain jury reader "s" jurors 2 3 verdicts untouched
      reader-IsWriter (inr (inl refl), (inr (inr (inl refl)), (inl refl, tt))) refl
