-- ===== src/Queue/Priority.antt =====
-- internal/httpapi/queue.go: priorities, policies and the weighted schedule.
-- A priority that went through `normalizeQueuePriority` is one of three constants: `Priority`.
use llama_wrangler.Common.{Bool, true, false, String, List, ◌++◌, replicate, if◌then◌else◌}
use llama_wrangler.Common.Int.{ℤ, pos, pos_part, ltb_ℤ}
use llama_wrangler.Common.Text.{folds_to}
use llama_wrangler.Config.{QueuePriorityWeights}

pub data Priority : Type 0 where
  high normal low : Priority

pub data Policy : Type 0 where
  weighted_priority fifo : Policy

abbrev pub same_priority : Priority → Priority → Bool
same_priority high high = true
same_priority normal normal = true
same_priority low low = true
same_priority _ _ = false

abbrev pub priority_text : Priority → String
priority_text high = "high"
priority_text normal = "normal"
priority_text low = "low"

unfoldable pub normalize_queue_priority : String → Priority
unfolding folds_to
normalize_queue_priority priority =
    if folds_to priority "high" then high else if folds_to priority "low" then low else normal

unfoldable pub normalize_queue_scheduling_policy : String → Policy
unfolding folds_to
normalize_queue_scheduling_policy policy =
    if folds_to policy "fifo" then fifo else weighted_priority

-- `if w <= 0 { w = fallback }`
abbrev pub weight_or : ℤ → ℤ → ℤ
weight_or w fallback = if ltb_ℤ (pos 0) w then w else fallback

unfoldable pub normalize_queue_priority_weights : QueuePriorityWeights → QueuePriorityWeights
normalize_queue_priority_weights weights = record {
  high = weight_or weights.high (pos 3);
  normal = weight_or weights.normal (pos 2);
  low = weight_or weights.low (pos 1);
}

-- A counted loop from 0 to `n` makes `pos_part n` rounds.
build_slots : QueuePriorityWeights → List Priority
build_slots w =
    replicate (pos_part w.high) high
    ++ (replicate (pos_part w.normal) normal ++ replicate (pos_part w.low) low)

unfoldable pub build_queue_priority_schedule : QueuePriorityWeights → List Priority
unfolding build_slots normalize_queue_priority_weights
build_queue_priority_schedule weights = build_slots (normalize_queue_priority_weights weights)
