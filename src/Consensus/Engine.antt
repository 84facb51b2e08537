-- ===== src/Consensus/Engine.antt =====
-- internal/consensus/engine.go: `Evaluate`. The map of groups with the slice `order` is one list of
-- groups in the order in which their signatures first appear. Scores are `float64`: a type with the
-- operations that the code uses. `RegexValidator` needs `regexp`; a validator is a function.
use llama_wrangler.Common.{
  ℕ, suc, ◌*◌, Bool, true, false, not, ◌&&◌, String, List, [], ◌∷◌, ◌++◌, Option, none, some, ltb,
  leb, ◌==◌, if◌then◌else◌, length,
}
use llama_wrangler.Common.Text.{str_eq}
use llama_wrangler.Consensus.Content.{Platform, response_signature}

-- The operations on `float64`: 0, `>`, `!=`, and the quotient of two counts.
pub record Floats (F : Type 0) : Type 0 where
  pub zero_score : F
  pub gt : F → F → Bool
  pub ne : F → F → Bool
  pub quotient : ℕ → ℕ → F

pub record Candidate : Type 0 where
  pub node_id : String
  pub body : String

pub record Scored (F : Type 0) : Type 0 where
  pub candidate : Candidate
  pub signature : String
  pub strategy : String
  pub validator_passed : Bool
  pub evaluator_score : F
  pub index : ℕ

pub record Group (F : Type 0) : Type 0 where
  pub signature : String
  pub members : List (Scored F)
  pub first_index : ℕ
  pub strategy : String
  pub validator_passed : Bool
  pub evaluator_score : F

pub record Engine (F : Type 0) : Type 0 where
  pub validator : Option (String → Candidate → Bool)
  pub evaluator : Option (String → Candidate → F)

pub record Result (F : Type 0) : Type 0 where
  pub winner : Candidate
  pub agreement_score : F
  pub agreement_count : ℕ
  pub candidate_count : ℕ
  pub consensus_reached : Bool
  pub disagreement : Bool
  pub strategy : String
  pub validator_passed : Bool
  pub evaluator_score : F

abbrev pub same_flag : Bool → Bool → Bool
same_flag true b = b
same_flag false b = not b

module _ {F : Type 0} (floats : Floats F) where
  open floats use {zero_score, gt, ne, quotient}

  unfoldable pub noop_evaluator : String → Candidate → F
  noop_evaluator surface c = zero_score

  abbrev pub evaluator_or_noop : Option (String → Candidate → F) → String → Candidate → F
  evaluator_or_noop none = noop_evaluator
  evaluator_or_noop (some e) = e

  abbrev pub validated : Option (String → Candidate → Bool) → String → Candidate → Bool
  validated none surface c = false
  validated (some v) surface c = v surface c

  unfoldable pub score_candidate : Platform → Engine F → String → ℕ → Candidate → Scored F
  unfolding noop_evaluator
  score_candidate platform e surface index c =
      let (signature, strategy) = response_signature platform c.body surface in
      record {
        candidate = c;
        signature = signature;
        strategy = strategy;
        validator_passed = validated e.validator surface c;
        evaluator_score = evaluator_or_noop e.evaluator surface c;
        index = index;
      }

  unfoldable pub score_all : Platform → Engine F → String → ℕ → List Candidate → List (Scored F)
  score_all platform e surface index [] = []
  score_all platform e surface index (c ∷ cs) =
      score_candidate platform e surface index c ∷ score_all platform e surface (suc index) cs

  -- A scored candidate joins a group.
  unfoldable pub join_group : Scored F → Group F → Group F
  join_group x g = record g {
    members = g.members ++ x ∷ [];
    validator_passed = if x.validator_passed then true else g.validator_passed;
    evaluator_score =
        if gt x.evaluator_score g.evaluator_score then x.evaluator_score else g.evaluator_score;
  }

  unfoldable pub new_group : Scored F → Group F
  new_group x = record {
    signature = x.signature;
    members = [];
    first_index = x.index;
    strategy = x.strategy;
    validator_passed = false;
    evaluator_score = zero_score;
  }

  unfoldable pub add_to_groups : Scored F → List (Group F) → List (Group F)
  add_to_groups x [] = join_group x (new_group x) ∷ []
  add_to_groups x (g ∷ gs) =
      if str_eq g.signature x.signature then join_group x g ∷ gs else g ∷ add_to_groups x gs

  unfoldable pub group_all : List (Scored F) → List (Group F) → List (Group F)
  group_all [] gs = gs
  group_all (x ∷ xs) gs = group_all xs (add_to_groups x gs)

  unfoldable pub better_group : Group F → Group F → Bool
  better_group candidate current =
      if not (length candidate.members == length current.members)
      then ltb (length current.members) (length candidate.members)
      else if not (same_flag candidate.validator_passed current.validator_passed)
      then candidate.validator_passed
      else if ne candidate.evaluator_score current.evaluator_score
      then gt candidate.evaluator_score current.evaluator_score
      else ltb candidate.first_index current.first_index

  unfoldable pub best_group : Group F → List (Group F) → Group F
  best_group winner [] = winner
  best_group winner (g ∷ gs) = best_group (if better_group g winner then g else winner) gs

  -- One round of the loop over the members of the winning group.
  unfoldable pub better_member : Scored F → Scored F → Bool
  better_member m winner =
      if m.validator_passed && not winner.validator_passed
      then true
      else same_flag m.validator_passed winner.validator_passed
        && gt m.evaluator_score winner.evaluator_score

  unfoldable pub best_member : Scored F → List (Scored F) → Scored F
  best_member winner [] = winner
  best_member winner (m ∷ ms) = best_member (if better_member m winner then m else winner) ms

  abbrev pub zero_result : ℕ → Result F
  zero_result count = record {
    winner = record { node_id = ""; body = "" };
    agreement_score = zero_score;
    agreement_count = 0;
    candidate_count = count;
    consensus_reached = false;
    disagreement = false;
    strategy = "";
    validator_passed = false;
    evaluator_score = zero_score;
  }

  abbrev pub more_than_one : List (Group F) → Bool
  more_than_one gs = ltb 1 (length gs)

  -- The result of a group with a first member. (A group is never empty.)
  abbrev pub result_of : ℕ → Bool → Group F → List (Scored F) → Result F
  result_of count disagreement g [] = zero_result count
  result_of count disagreement g (m ∷ ms) =
      let winner = best_member m ms in
      let agreed = length (m ∷ ms) in
      record {
        winner = winner.candidate;
        agreement_score = quotient agreed count;
        agreement_count = agreed;
        candidate_count = count;
        consensus_reached = leb 2 agreed && ltb count (agreed * 2);
        disagreement = disagreement;
        strategy = g.strategy;
        validator_passed = winner.validator_passed;
        evaluator_score = winner.evaluator_score;
      }

  -- What follows the loop over the candidates.
  abbrev pub decide_groups : ℕ → List (Group F) → Result F
  decide_groups count [] = zero_result count
  decide_groups count (g ∷ gs) =
      let winner = best_group g gs in result_of count (more_than_one (g ∷ gs)) winner winner.members

  unfoldable pub evaluate : Platform → Engine F → String → List Candidate → Result F
  unfolding score_all score_candidate group_all
  evaluate platform e surface candidates =
      decide_groups (length candidates) (group_all (score_all platform e surface 0 candidates) [])
