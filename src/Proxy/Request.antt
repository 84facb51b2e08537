-- ===== src/Proxy/Request.antt =====
-- internal/httpapi/server.go, `acquireQueue` and `marshalProxy`: a request from the queue to its
-- answer. Telemetry is left out, as is the release of the slot, which Queue/Scheduler models.
use llama_wrangler.Common.{
  ℕ, Bool, true, false, not, ◌||◌, String, List, Option, none, some, if◌then◌else◌,
}
use llama_wrangler.Config.{Config}
use llama_wrangler.Appstate.Node.{Node}
use llama_wrangler.Queue.Tracker.{Tracker, QueueEntry, enqueue, start, finish}
use llama_wrangler.Session.{Store, Call, apply_affinity}
use llama_wrangler.Routing.Placement.{Numbers}
use llama_wrangler.Routing.Plan.{Decision}
use llama_wrangler.Routing.Policy.{is_consensus_mode}
use llama_wrangler.Routing.Select.{select}
use llama_wrangler.Consensus.Content.{Platform, Fields}
use llama_wrangler.Consensus.Engine.{Floats}
use llama_wrangler.Proxy.Answer.{Writer, write_inference_error}
use llama_wrangler.Proxy.Copy.{Client}
use llama_wrangler.Proxy.Meta.{Meta, Site, node_proxy_url, parse_request_meta, rewrite_model}
use llama_wrangler.Proxy.Forward.{Reply, World, ProxyOutcome, forward_with_fallback}
use llama_wrangler.Proxy.Fanout.{Exchange, Context, Fleet, Event}
use llama_wrangler.Proxy.ForwardConsensus.{
  ConsensusOutcome, forward_consensus, consensus_inference_failure,
}

-- How the wait for a slot ends: with one, with the client's leaving, or with the end of the time.
pub data Admission : Type 0 where
  admitted left_queue queue_timeout : Admission

abbrev pub queue_full : Option String → Writer → Writer
queue_full path w =
    write_inference_error path 429 "queue_full"
      "Request queue is full. Try again when active jobs complete." w

-- The clock and the depth of the queue at the end.
unfoldable pub acquire_queue :
    Admission → String → ℕ → ℕ → String → QueueEntry → Tracker → Writer → (Tracker × Writer) × Bool
unfolding enqueue start finish write_inference_error
acquire_queue admission path now depth request_id entry q w =
    let waiting = (enqueue now (record entry { request_id = request_id }) q).0 in
    elim admission [
      | admitted ↦ (((start now request_id depth waiting).0, w), true)
      | left_queue ↦ (((finish now request_id "cancelled" depth waiting).0, w), false)
      | queue_timeout ↦
          (((finish now request_id "rejected" depth waiting).0, queue_full (some path) w), false)
    ]

-- What surrounds a request that is being answered.
pub record Server (F : Type 0) : Type 0 where
  pub config : Config
  pub state_nodes : List (Node F)
  pub numbers : Numbers F
  pub now : ℕ
  pub site : Site F
  pub platform : Platform
  -- What `json.Unmarshal` leaves in the map when it fails.
  pub left_over : String → Fields
  pub floats : Floats F
  pub client : Client
  pub cancelled : ℕ → Bool
  -- What a node answers: the one at a place of the list, or a participant of a consensus, by its URL
  -- and the body that is sent.
  pub reply : ℕ → String → String → Reply
  pub exchange : String → String → String → Exchange
  pub context : String → Context
  pub encode : String → List ℕ

pub record Served : Type 0 where
  pub writer : Writer
  pub sessions : Store
  pub queue_status : String

-- A request: its path and surface, its body, the headers for the session and the debugging.
pub record Incoming : Type 0 where
  pub request_id : String
  pub path : String
  pub surface : String
  pub body : String
  pub session_header : String

unfoldable pub is_consensus_decision : Decision → Bool
unfolding is_consensus_mode
is_consensus_decision d = is_consensus_mode d.execution_mode d.strategy

module _ {F : Type 0} (server : Server F) where
  open server use {config, state_nodes, numbers, now, site, platform, floats, client}

  abbrev pub world_of : String → World
  world_of path = record {
    url = λ node. node_proxy_url site node path;
    reply = server.reply;
    cancelled = server.cancelled;
    client = client;
  }

  abbrev pub fleet_of : String → String → Fleet
  fleet_of path sent = record {
    url = λ node. node_proxy_url site node path;
    exchange = λ node. server.exchange node (node_proxy_url site node path) sent;
    context = server.context;
    encode = server.encode;
  }

  -- The status in the queue and the rest of the answer, by the outcome of a consensus.
  unfoldable pub settle_consensus : String → Store → Writer × ConsensusOutcome F → Served
  unfolding write_inference_error consensus_inference_failure
  settle_consensus path sessions (w, o) =
      let (status, (code, message)) = consensus_inference_failure o in
      elim o.err [
        | none ↦ record { writer = w; sessions = sessions; queue_status = "completed" }
        | some err ↦
            if o.client_cancelled
            then record { writer = w; sessions = sessions; queue_status = "cancelled" }
            else if o.response_committed
            then record { writer = w; sessions = sessions; queue_status = "partial" }
            else record {
              writer = write_inference_error (some path) status code message w;
              sessions = sessions;
              queue_status = "failed";
            }
      ]

  -- The same by the outcome of the forwarding.
  unfoldable pub settle_forward : String → Store → Writer × ProxyOutcome → Served
  unfolding write_inference_error
  settle_forward path sessions (w, o) =
      let status =
        if o.client_cancelled
        then "cancelled"
        else if o.partial_output
        then "partial"
        else "failed" in
      if not o.failed
      then record { writer = w; sessions = sessions; queue_status = "completed" }
      else if o.client_cancelled || o.response_committed
      then record { writer = w; sessions = sessions; queue_status = status }
      else record {
        writer =
            write_inference_error (some path) 502 "upstream_unavailable"
              "Upstream Ollama node is unavailable." w;
        sessions = sessions;
        queue_status = status;
      }

  unfoldable pub serve_consensus : Incoming → Meta → Decision → List Event → Store → Writer → Served
  unfolding forward_consensus settle_consensus write_inference_error
  serve_consensus r meta decision events sessions w =
      let sent = rewrite_model platform r.body decision.resolved_model in
      if meta.stream
      then record {
        writer =
            write_inference_error (some r.path) 400 "consensus_streaming_not_supported"
              "Streaming consensus is not available in the V1 non-streaming consensus foundation."
              w;
        sessions = sessions;
        queue_status = "failed";
      }
      else settle_consensus r.path sessions (
          forward_consensus floats platform (fleet_of r.path sent) client r.surface
            decision.candidate_nodes decision.consensus_required decision.consensus_limit events w)

  abbrev pub call_of : Incoming → Meta → Decision → Call
  call_of r meta decision = record {
    session_id = meta.session_id;
    affinity = decision.affinity;
    decision_node = decision.selected_node;
    model = decision.resolved_model;
    request_id = r.request_id;
    eligible_nodes = decision.candidate_nodes;
  }

  unfoldable pub serve_one : Incoming → Meta → Decision → Store → Writer → Served
  unfolding apply_affinity forward_with_fallback settle_forward
  serve_one r meta decision sessions w =
      let (pinned, node) = apply_affinity now (call_of r meta decision) sessions in
      let sent = rewrite_model platform r.body decision.resolved_model in
      settle_forward r.path pinned (
        forward_with_fallback (world_of r.path) r.path sent meta.stream node decision.fallback_nodes
          w)

  -- What follows the choice of the nodes.
  unfoldable pub serve_decided :
      Incoming → Meta → Decision → Bool → List Event → Store → Writer → Served
  unfolding is_consensus_decision serve_consensus serve_one write_inference_error
  serve_decided r meta decision found events sessions w =
      if not found
      then record {
        writer =
            write_inference_error (some r.path) 502 "no_eligible_node"
              "No eligible Ollama node is available for the requested model." w;
        sessions = sessions;
        queue_status = "failed";
      }
      else if is_consensus_decision decision
      then serve_consensus r meta decision events sessions w
      else serve_one r meta decision sessions w

  -- `marshalProxy` once the request has its slot.
  unfoldable pub marshal_proxy : Incoming → List Event → Store → Writer → Served
  unfolding parse_request_meta select serve_decided
  marshal_proxy r events sessions w =
      let meta = parse_request_meta platform server.left_over r.body r.session_header in
      let (decision, found) = select numbers config state_nodes now (record {
        model = meta.model;
        execution_mode = "";
        session_id = meta.session_id;
        streaming = meta.stream;
        task_type = "";
      }) in
      serve_decided r meta decision found events sessions w
