-- ===== src/Config.antt =====
-- internal/config/config.go: the settings that the modelled components read.
use llama_wrangler.Common.{Bool, String, List}
use llama_wrangler.Common.Dict.{Dict}
use llama_wrangler.Common.Int.{ℤ}

pub record QueuePriorityWeights : Type 0 where
  pub high : ℤ
  pub normal : ℤ
  pub low : ℤ

pub record RoutingConfig : Type 0 where
  pub default_model_alias : String
  pub default_execution_mode : String
  pub allow_fallback : Bool
  pub request_timeout_sec : ℤ
  pub queue_max_depth : ℤ
  pub queue_scheduling_policy : String
  pub queue_priority_weights : QueuePriorityWeights

pub record ModelAlias : Type 0 where
  pub strategy : String
  pub candidates : List String
  pub execution_mode : String
  pub min_participants : ℤ
  pub max_participants : ℤ
  pub affinity : String
  pub keep_warm : Bool

pub record SubscriberConfig : Type 0 where
  pub node_id : String
  pub url : String
  pub token : String

pub record SessionConfig : Type 0 where
  pub default_affinity : String

-- The fields of `Config` that routing reads.
pub record Config : Type 0 where
  pub routing : RoutingConfig
  pub model_aliases : Dict ModelAlias
  pub subscribers : List SubscriberConfig
  pub session : SessionConfig
