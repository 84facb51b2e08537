-- ===== src/Appstate/Node.antt =====
-- internal/appstate/state.go: `Node` and `ModelState`. A time is in nanoseconds after the zero time,
-- and 0 is that; an optional time is none where the pointer is nil.
use llama_wrangler.Common.{ℕ, Bool, String, List, Option}
use llama_wrangler.Common.Int.{ℤ}

-- What a node reports about itself: `map[string]interface{}`, by the types that the code tests for.
-- `results` is a Go list of maps, `array` a list of any values, and `number` is a `json.Number`.
mutual
  pub data Value (F : Type 0) : Type 0 where
    nil : Value F
    text : String → Value F
    truth : Bool → Value F
    float64 : F → Value F
    float32 : F → Value F
    int : ℤ → Value F
    int64 : ℤ → Value F
    number : String → Value F
    time : ℕ → Value F
    object : Fields F → Value F
    results : Maps F → Value F
    array : Items F → Value F

  pub data Fields (F : Type 0) : Type 0 where
    end : Fields F
    field : String → Value F → Fields F → Fields F

  pub data Maps (F : Type 0) : Type 0 where
    no_maps : Maps F
    more_maps : Fields F → Maps F → Maps F

  pub data Items (F : Type 0) : Type 0 where
    no_items : Items F
    more_items : Value F → Items F → Items F

pub record ModelState (F : Type 0) : Type 0 where
  pub name : String
  pub state : String
  pub keep_warm : Bool
  pub tokens_sec : F
  pub load_time_ms : ℤ

-- The fields that routing and the state's own rules read; the node's hardware is left out.
pub record Node (F : Type 0) : Type 0 where
  pub node_id : String
  pub url : String
  pub role : String
  pub hostname : String
  pub ollama_url : String
  pub control_level : String
  pub trust_level : String
  pub capability_source : String
  pub approval_state : String
  pub benchmark_source : String
  pub health_source : String
  pub model_inventory_source : String
  pub warm_state_supported : Bool
  pub management_supported : Bool
  pub telemetry_level : String
  pub ollama_available : Bool
  pub models : List (ModelState F)
  pub tags : List String
  pub status : String
  pub enabled : Bool
  pub approved : Bool
  pub active_jobs : ℤ
  pub observed : Fields F
  pub last_seen : ℕ
  pub last_observed_at : Option ℕ
  pub last_reported_at : Option ℕ
