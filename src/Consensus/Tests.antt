-- ===== src/Consensus/Tests.antt =====
-- internal/consensus/engine.go: small elections, and the theorems at them.
use llama_wrangler.Common.{
  ℕ, ◌*◌, ◌≤◌, ◌<◌, ◌≡◌, ◌↔◌, refl, true, String, List, [], ◌∷◌, some, none, ltb, ◌==◌, not, length,
  In, arith, if◌then◌else◌,
}
use llama_wrangler.Common.Text.{str_eq}
use llama_wrangler.Consensus.Content.{Json, Platform, Fields, normalize_text, response_signature}
use llama_wrangler.Consensus.Engine.{
  Floats, Engine, Candidate, Scored, score_candidate, score_all, add_to_groups, join_group,
  new_group, best_group, better_group, best_member, better_member, evaluate,
}
use llama_wrangler.Consensus.Groups.{count_signature}
use llama_wrangler.Consensus.Winner.{
  IsElected, ballots, evaluate_elects, majority_wins, consensus_iff,
}
use llama_wrangler.Consensus.Disagreement.{Split, evaluate_disagrees}

-- Scores are percentages.
abbrev pub percent : Floats ℕ
percent = record {
  zero_score = 0;
  gt = λ a b. ltb b a;
  ne = λ a b. not (a == b);
  quotient = λ a b. a * 100;
}

-- Bodies are plain text, but for one.
abbrev pub plain : Platform
plain = record {
  decode = λ s. if str_eq s "{}" then some (Json.object Fields.end) else none;
  marshal = λ v. some "{}";
  to_lower = λ s. s;
}

abbrev voter : Engine ℕ
voter = record {
  validator = none;
  evaluator = some (λ surface c. if str_eq c.node_id "c" then 9 else 1);
}

abbrev three : List Candidate
three =
    record { node_id = "a"; body = "4" }
    ∷ record { node_id = "b"; body = "5" }
    ∷ record { node_id = "c"; body = " 4" }
    ∷ []

words_test : normalize_text plain "  a \t bc" ≡ "a bc"
unfolding normalize_text
words_test = refl

object_test : response_signature plain "{}" "other" ≡ ("json:{}", "json_structural")
unfolding response_signature
object_test = refl

winner_test : (evaluate percent plain voter "s" three).winner.node_id ≡ "c"
unfolding evaluate best_group better_group best_member better_member join_group new_group
    add_to_groups response_signature
winner_test = refl

reached_test : (evaluate percent plain voter "s" three).consensus_reached ≡ true
unfolding evaluate best_group better_group best_member better_member join_group new_group
    add_to_groups response_signature
reached_test = refl

evaluate_elects_example :
    (m : Scored ℕ) × IsElected
      (ballots percent plain voter "s" three)
      (evaluate percent plain voter "s" three)
      m
evaluate_elects_example = evaluate_elects percent plain voter "s" three (omega arith)

majority_wins_example :
    (m : Scored ℕ) × In m (ballots percent plain voter "s" three)
    × m.signature ≡ "text:4"
    × (evaluate percent plain voter "s" three).winner ≡ m.candidate
    × (evaluate percent plain voter "s" three).agreement_count
      ≡ count_signature "text:4" (ballots percent plain voter "s" three)
unfolding score_all score_candidate response_signature
majority_wins_example = majority_wins percent plain voter "s" three "text:4" (omega arith)

evaluate_disagrees_example :
    (evaluate percent plain voter "s" three).disagreement ≡ true
    ↔ Split (ballots percent plain voter "s" three)
evaluate_disagrees_example = evaluate_disagrees percent plain voter "s" three

consensus_iff_example : (evaluate percent plain voter "s" three).consensus_reached ≡ true ↔ (
    (σ : String) × 2 ≤ count_signature σ (ballots percent plain voter "s" three)
    × length three < count_signature σ (ballots percent plain voter "s" three) * 2)
consensus_iff_example = consensus_iff percent plain voter "s" three
