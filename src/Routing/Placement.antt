-- ===== src/Routing/Placement.antt =====
-- internal/routing/routing.go: a node's own benchmark summaries, which order the eligible nodes.
-- Floating point numbers, `json.Number.Float64` and `time.Parse` are a parameter.
use llama_wrangler.Common.{
  ℕ, ◌+◌, Bool, true, false, not, ◌&&◌, ◌||◌, String, List, [], ◌∷◌, Option, none, some, ltb, ◌==◌,
  if◌then◌else◌,
}
use llama_wrangler.Common.Int.{ℤ}
use llama_wrangler.Common.Text.{str_eq, trim_space}
use llama_wrangler.Appstate.Node.{
  Value, text, float64, float32, int, int64, number, time, object, results, array, Fields, Maps,
  no_maps, more_maps, Items, no_items, more_items, Node,
}
use llama_wrangler.Routing.Policy.{control_level, trust_level, value_of}

-- 0, the integers, `x <= 0`, `!=` and `>` on floating point numbers; what a `json.Number` says, 0
-- where it is none; and `time.Parse` for RFC 3339, in nanoseconds after the zero time.
pub record Numbers (F : Type 0) : Type 0 where
  pub zero_float : F
  pub of_int : ℤ → F
  pub of_number : String → F
  pub not_positive : F → Bool
  pub ne : F → F → Bool
  pub gt : F → F → Bool
  pub parse_time : String → Option ℕ

-- A day in nanoseconds.
abbrev pub benchmark_placement_freshness_window : ℕ
benchmark_placement_freshness_window = 86_400_000_000_000

pub record PlacementPolicy (F : Type 0) : Type 0 where
  pub eligible : Bool
  pub score : F
  pub reasons : List String

module _ {F : Type 0} where
  unfoldable pub string_value : Value F → String
  unfolding trim_space
  string_value (text s) = trim_space s
  string_value _ = ""

  abbrev pub maps_of : Maps F → List (Fields F)
  maps_of no_maps = []
  maps_of (more_maps m ms) = m ∷ maps_of ms

  abbrev pub objects_of : Items F → List (Fields F)
  objects_of no_items = []
  objects_of (more_items (object m) vs) = m ∷ objects_of vs
  objects_of (more_items _ vs) = objects_of vs

  abbrev pub listed_results : Value F → List (Fields F)
  listed_results (results ms) = maps_of ms
  listed_results (array vs) = objects_of vs
  listed_results _ = []

  unfoldable pub benchmark_results : Node F → List (Fields F)
  unfolding value_of
  benchmark_results n = listed_results (value_of "benchmark_results" n.observed)

  abbrev pub as_object : Value F → List (Fields F)
  as_object (object m) = m ∷ []
  as_object _ = []

  abbrev pub or_last : List (Fields F) → Value F → List (Fields F)
  or_last [] last = as_object last
  or_last (m ∷ ms) last = m ∷ ms

  unfoldable pub benchmark_source : Node F → String
  unfolding value_of string_value control_level
  benchmark_source n =
      let observed = string_value (value_of "benchmark_source" n.observed) in
      if not (str_eq n.benchmark_source "")
      then n.benchmark_source
      else if not (str_eq observed "")
      then observed
      else if str_eq (control_level n) "managed"
      then "subscriber_reported"
      else "none"

  unfoldable pub result_source : Fields F → String
  unfolding value_of string_value
  result_source result =
      let source = string_value (value_of "source" result) in
      if str_eq source "" then "subscriber_reported" else source

  abbrev pub ignored : F → String → PlacementPolicy F
  ignored zero_score reason = record { eligible = false; score = zero_score; reasons = reason ∷ [] }

module _ {F : Type 0} (numbers : Numbers F) where
  open numbers use {zero_float, of_int, of_number, not_positive, parse_time}

  unfoldable pub float_value : Value F → F
  float_value (float64 x) = x
  float_value (float32 x) = x
  float_value (int n) = of_int n
  float_value (int64 n) = of_int n
  float_value (number s) = of_number s
  float_value _ = zero_float

  unfoldable pub result_time : Value F → Option ℕ
  result_time (time t) = some t
  result_time (text s) = parse_time s
  result_time _ = none

  abbrev pub or_zero : Option ℕ → ℕ
  or_zero none = 0
  or_zero (some t) = t

  abbrev pub is_for : String → Fields F → Bool
  is_for model result =
      let named = string_value (value_of "model" result) in
      str_eq model "" || str_eq named "" || str_eq named model

  -- One round of the loop of `latestBenchmarkResult`; the time of the best one stands beside it.
  abbrev pub later : Fields F → Option (Fields F × ℕ) → Option (Fields F × ℕ)
  later result none = some (result, or_zero (result_time (value_of "completed_at" result)))
  later result (some (best, best_time)) =
      let completed_at = or_zero (result_time (value_of "completed_at" result)) in
      if ltb best_time completed_at then some (result, completed_at) else some (best, best_time)

  unfoldable pub latest_of :
      String → List (Fields F) → Option (Fields F × ℕ) → Option (Fields F × ℕ)
  unfolding string_value value_of result_time
  latest_of model [] best = best
  latest_of model (result ∷ rest) best =
      latest_of model rest (if is_for model result then later result best else best)

  unfoldable pub latest_benchmark_result : Node F → String → Option (Fields F)
  unfolding latest_of benchmark_results value_of
  latest_benchmark_result n model =
      elim (latest_of model
        (or_last (benchmark_results n) (value_of "benchmark_last_result" n.observed)) none) [
          | none ↦ none
          | some best ↦ some best.0
        ]

  -- `resultTime` of the one, of the other where it fails.
  abbrev pub first_time : Option ℕ → Option ℕ → Option ℕ
  first_time (some t) o = some t
  first_time none o = o

  -- The last part of `benchmarkPlacement`: the rate.
  abbrev pub rate_of : Fields F → F
  rate_of result =
      let tokens = float_value (value_of "tokens_per_second" result) in
      if not_positive tokens
      then float_value (value_of "output_tokens_per_second" result)
      else tokens

  abbrev pub placed_at : Fields F → ℕ → Option ℕ → PlacementPolicy F
  placed_at result now none = ignored zero_float "benchmark_placement_freshness_missing"
  placed_at result now (some t) =
      if t == 0
      then ignored zero_float "benchmark_placement_freshness_missing"
      else if ltb (t + benchmark_placement_freshness_window) now
      then ignored zero_float "benchmark_placement_summary_stale"
      else if not_positive (rate_of result)
      then ignored zero_float "benchmark_placement_rate_missing"
      else record {
        eligible = true;
        score = rate_of result;
        reasons = "benchmark_placement_applied" ∷ "benchmark_placement_fresh" ∷ [];
      }

  abbrev pub placed_by : Node F → ℕ → Option (Fields F) → PlacementPolicy F
  placed_by n now none = ignored zero_float "benchmark_placement_summary_missing"
  placed_by n now (some result) =
      let status = string_value (value_of "status" result) in
      if not (str_eq (result_source result) "subscriber_reported")
      then ignored zero_float "benchmark_placement_source_ignored"
      else if not (str_eq status "")
          && not (str_eq status "completed")
          && not (str_eq status "reported")
      then ignored zero_float "benchmark_placement_status_ignored"
      else placed_at result now (
          first_time (result_time (value_of "completed_at" result))
            (result_time (value_of "benchmark_updated_at" n.observed)))

  unfoldable pub benchmark_placement : Node F → String → ℕ → PlacementPolicy F
  unfolding control_level trust_level benchmark_source latest_benchmark_result value_of string_value
      result_source result_time float_value
  benchmark_placement n model now =
      if not (str_eq (control_level n) "managed")
      then ignored zero_float "benchmark_placement_passive_probe_ignored"
      else if not (str_eq (trust_level n) "local") && not (str_eq (trust_level n) "lan_trusted")
      then ignored zero_float "benchmark_placement_untrusted_ignored"
      else if not (str_eq (benchmark_source n) "subscriber_reported")
      then ignored zero_float "benchmark_placement_source_ignored"
      else placed_by n now (latest_benchmark_result n model)
