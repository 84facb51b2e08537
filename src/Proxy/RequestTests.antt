-- ===== src/Proxy/RequestTests.antt =====
-- internal/httpapi/server.go: a request with its slot, and the theorems at it.
use llama_wrangler.Common.{ℕ, false, [], ◌∷◌, some, length}
use llama_wrangler.Session
use llama_wrangler.Session.{Store}
use llama_wrangler.Routing.Plan.{Decision}
use llama_wrangler.Routing.Tests.{counts, fleet}
use llama_wrangler.Consensus.Tests.{percent, plain}
use llama_wrangler.Proxy.Answer.{Writer}
use llama_wrangler.Proxy.Copy.{eof}
use llama_wrangler.Consensus.Content.{end}
use llama_wrangler.Proxy.Meta.{Meta}
use llama_wrangler.Proxy.Forward.{response}
use llama_wrangler.Proxy.Fanout.{live}
use llama_wrangler.Proxy.Fanout
use llama_wrangler.Proxy.Request.{Server, Incoming}

abbrev desk : Server ℕ
desk = record {
  config = fleet;
  state_nodes = [];
  numbers = counts;
  now = 100;
  site = record {
    nodes = [];
    subscribers = fleet.subscribers;
    own_id = "own";
    ollama_url = "http://own";
  };
  platform = plain;
  left_over = λ body. end;
  floats = percent;
  client = λ k bytes. (length bytes, false);
  cancelled = λ i. false;
  reply = λ i url body. response 200 (record { bytes = 7 ∷ []; ending = eof } ∷ []);
  exchange = λ node url body. Fanout.response 200 (some "yes");
  context = λ node. live;
  encode = λ s. 1 ∷ [];
}

abbrev chat : Incoming
chat = record {
  request_id = "r1";
  path = "/v1/chat/completions";
  surface = "openai";
  body = "{}";
  session_header = "s1";
}

abbrev empty_writer : Writer
empty_writer = record { statuses = []; bytes = []; errors = [] }

abbrev no_store : Store
no_store = record { sessions = []; updated_at = 0 }

-- The session is at "b", and routing now prefers "a".
abbrev held : Store
held = record {
  sessions =
      (
        "s1",
        record {
          session_id = "s1";
          affinity_mode = "strict";
          node_id = "b";
          model = "llama";
          last_request_id = "r0";
          updated_at = 5;
        },
      )
      ∷ [];
  updated_at = 5;
}

abbrev best_first : Decision
best_first = record {
  model_alias = "best";
  resolved_model = "llama";
  selected_node = "a";
  candidate_nodes = "a" ∷ "b" ∷ [];
  candidate_metadata = [];
  fallback_nodes = "b" ∷ [];
  excluded_nodes = [];
  strategy = "";
  reasons = [];
  execution_mode = "single";
  affinity = "strict";
  consensus_required = 0;
  consensus_limit = 0;
}

abbrev asked : Meta
asked = record { model = "llama"; stream = false; session_id = "s1" }
