-- ===== src/Routing/Tests.antt =====
-- internal/routing/routing.go: a small fleet, and the theorems at it.
use llama_wrangler.Common.{
  ℕ, ◌≤◌, ◌≡◌, ◌↔◌, refl, inl, true, false, not, String, [], ◌∷◌, none, ltb, ◌==◌, length, In,
}
use llama_wrangler.Common.Int.{pos, pos_part}
use llama_wrangler.Common.Sort.{insert_sorted}
use llama_wrangler.Config.{Config}
use llama_wrangler.Appstate.Node.{Node}
use llama_wrangler.Routing.Policy.{classify, node_approved, heartbeat_required}
use llama_wrangler.Routing.Placement.{Numbers}
use llama_wrangler.Routing.Plan.{Request, plan_of, is_consensus_plan}
use llama_wrangler.Routing.Search.{configured_node, all_nodes}
use llama_wrangler.Routing.Select.{select}
use llama_wrangler.Routing.Bounds.{select_bounds}
use llama_wrangler.Routing.Admission.{IsAdmitted, classify_iff}
use llama_wrangler.Routing.Eligible.{IsServing}
use llama_wrangler.Routing.Served.{select_eligible, select_served}

abbrev pub counts : Numbers ℕ
counts = record {
  zero_float = 0;
  of_int = pos_part;
  of_number = λ s. 0;
  not_positive = λ x. x == 0;
  ne = λ a b. not (a == b);
  gt = λ a b. ltb b a;
  parse_time = λ s. none;
}

-- Two nodes that the state does not know, and an alias that wants both.
abbrev pub fleet : Config
fleet = record {
  routing = record {
    default_model_alias = "best";
    default_execution_mode = "single";
    allow_fallback = true;
    request_timeout_sec = pos 60;
    queue_max_depth = pos 8;
    queue_scheduling_policy = "fifo";
    queue_priority_weights = record { high = pos 4; normal = pos 2; low = pos 1 };
  };
  model_aliases =
      (
        "best",
        record {
          strategy = "consensus";
          candidates = "llama" ∷ [];
          execution_mode = "";
          min_participants = pos 0;
          max_participants = pos 0;
          affinity = "";
          keep_warm = false;
        },
      )
      ∷ [];
  subscribers =
      record { node_id = "b"; url = "http://b"; token = "" }
      ∷ record { node_id = "a"; url = "http://a"; token = "" }
      ∷ [];
  session = record { default_affinity = "soft" };
}

abbrev ask : String → Request
ask model = record {
  model = model;
  execution_mode = "";
  session_id = "";
  streaming = false;
  task_type = "";
}

consensus_test : (select counts fleet [] 5 (ask "")).0.candidate_nodes ≡ "a" ∷ "b" ∷ []
unfolding select insert_sorted node_approved heartbeat_required
consensus_test = refl

single_test : (select counts fleet [] 5 (ask "qwen")).0.selected_node ≡ "a"
unfolding select insert_sorted node_approved heartbeat_required
single_test = refl

select_bounds_example :
    let d = (select counts fleet [] 5 (ask "")).0 in
    1 ≤ d.consensus_required
    × d.consensus_required ≤ length d.candidate_nodes
    × length d.candidate_nodes ≤ d.consensus_limit
    × d.consensus_limit ≤ 8
unfolding select is_consensus_plan plan_of insert_sorted node_approved heartbeat_required
select_bounds_example = select_bounds counts fleet [] 5 (ask "") refl refl

select_eligible_example :
    let d = (select counts fleet [] 5 (ask "")).0 in
    In d.resolved_model ("llama" ∷ [])
    × ((n : Node ℕ) × ("a" ≡ n.node_id) × IsServing true 5 (all_nodes fleet []) d.resolved_model n)
unfolding select is_consensus_plan plan_of insert_sorted node_approved heartbeat_required
select_eligible_example = select_eligible counts fleet [] 5 (ask "") "a" (inl refl)

select_served_example : ((select counts fleet [] 5 (ask "qwen")).1 ≡ true) ↔ (
    (model : String) × In model ("qwen" ∷ [])
    × ((n : Node ℕ) × IsServing false 5 (all_nodes fleet []) model n))
unfolding is_consensus_plan plan_of
select_served_example = select_served counts fleet [] 5 (ask "qwen") refl

abbrev plain_node : Node ℕ
plain_node = configured_node (record { node_id = "a"; url = "http://a"; token = "" })

classify_iff_example : ((classify plain_node true 5).eligible ≡ true) ↔ IsAdmitted true 5 plain_node
classify_iff_example = classify_iff plain_node true 5
