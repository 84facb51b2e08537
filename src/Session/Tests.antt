-- ===== src/Session/Tests.antt =====
-- internal/session/session.go: a session of three requests, and the theorems at them.
use llama_wrangler.Common.{◌≡◌, refl, true, String, [], ◌∷◌}
use llama_wrangler.Common.Dict.{lookup, insert}
use llama_wrangler.Session.{
  Store, Call, contains, apply_affinity, affinity_eligible, affinity_sticks,
}

abbrev no_sessions : Store
no_sessions = record { sessions = []; updated_at = 0 }

-- A request for which routing chooses the given node, where both are eligible.
abbrev ask : String → String → Call
ask affinity node = record {
  session_id = "s1";
  affinity = affinity;
  decision_node = node;
  model = "llama";
  request_id = "r";
  eligible_nodes = "a" ∷ "b" ∷ [];
}

strict_test :
    (apply_affinity 2 (ask "strict" "b") (apply_affinity 1 (ask "strict" "a") no_sessions).0).1
    ≡ "a"
unfolding apply_affinity lookup insert
strict_test = refl

affinity_eligible_example :
    contains ("a" ∷ "b" ∷ []) (apply_affinity 1 (ask "task" "a") no_sessions).1 ≡ true
unfolding contains
affinity_eligible_example = affinity_eligible 1 (ask "task" "a") no_sessions refl

affinity_sticks_example :
    (apply_affinity 2 (ask "strict" "b") (apply_affinity 1 (ask "soft" "a") no_sessions).0).1
    ≡ (apply_affinity 1 (ask "soft" "a") no_sessions).1
unfolding apply_affinity contains lookup
affinity_sticks_example =
    affinity_sticks 1 2 (ask "soft" "a") (ask "strict" "b") no_sessions refl refl refl refl refl
      refl
