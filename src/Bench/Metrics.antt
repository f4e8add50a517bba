-- ===== src/Bench/Metrics.antt =====
-- `_extract_decode`, `_extract_prefix` and `_extract_short_chat`: the samples that a benchmark's
-- artifact holds. Rounds has `_extract_cache_sessions`.
pub mod Finite
pub mod Rounds
use glm5_3_flash_2x_dgx_spar.Prelude.{
  ℕ, suc, ◌+◌, Bool, true, false, not, ◌&&◌, ◌||◌, Option, none, some, List, [], ◌∷◌, ◌++◌, map,
  any, length, ◌==◌, if◌then◌else◌, Result, ok, err, ◌>>=◌,
}
use glm5_3_flash_2x_dgx_spar.Number.{Float, ◌≤ᶠ◌, ◌<ᶠ◌}
use glm5_3_flash_2x_dgx_spar.Number.Extremes.{least_of, largest_of}
use glm5_3_flash_2x_dgx_spar.Text.{Text, codes, strip}
use glm5_3_flash_2x_dgx_spar.Bench.Json.{
  Json, null, bool, number, text, array, object, Fields, end, ExtractError, no_decode_samples,
  pairs_not_objects, no_prefix_samples, round_not_object, no_sessions, no_round_metrics,
  no_chat_samples, not_iterable, items_of, fields_of, get_field, as_fields, as_items, objects,
  require_list, number_of, numbers_of, field_numbers, opt_number, median_json, is_truthy, or_json,
}

-- what is remarked on an artifact
pub data Note : Type 0 where
  has_nan no_hit_ratio no_warm_hits no_first_token : Note
  warning : Text → Note

pub record BenchMetrics (F : Type 0) : Type 0 where
  pub samples : List (Text × List F)
  pub summary : List (Text × Json F)
  pub notes : List Note

abbrev pub note_if : Bool → Note → List Note
note_if true n = n ∷ []
note_if false n = []

abbrev opt_list : {F : Type 0} → Option F → List F
opt_list none = []
opt_list (some x) = x ∷ []

abbrev pub is_empty {ℓ} : {A : Type ℓ} → List A → Bool
is_empty [] = true
is_empty (x ∷ xs) = false

module _ {F : Type 0} ⦃f : Float F⦄ where
  abbrev int_json : ℕ → Json F
  int_json n = number (f.of_ℕ n)

  decode_metrics : Fields F → List (Json F) → List F → Result ExtractError (BenchMetrics F)
  decode_metrics artifact runs [] = err no_decode_samples
  decode_metrics artifact runs (x ∷ xs) =
      let tok_s = x ∷ xs in
      let ttft = numbers_of runs (codes "ttft_s") in
      ok (record {
        samples = (codes "decode_tok_s", tok_s) ∷ (codes "ttft_s", ttft) ∷ [];
        summary =
            (codes "decode_tok_s_median", median_json tok_s)
            ∷ (codes "decode_tok_s_min", number (least_of x xs))
            ∷ (codes "decode_tok_s_max", number (largest_of x xs))
            ∷ (codes "ttft_median_s", median_json ttft)
            ∷ (
              codes "completion_tokens_median",
              median_json (numbers_of runs (codes "completion_tokens")),
            )
            ∷ (codes "any_nan", bool (is_truthy (get_field (codes "any_nan") artifact)))
            ∷ (codes "runs", int_json (length runs))
            ∷ [];
        notes =
            note_if (any (λ run. is_truthy (get_field (codes "nan") run)) (objects runs)) has_nan;
      })

  unfoldable pub extract_decode : Fields F → Result ExtractError (BenchMetrics F)
  unfolding decode_metrics
  extract_decode artifact = require_list artifact (codes "runs") >>= λ runs.
      decode_metrics artifact runs (numbers_of runs (codes "tok_s"))

  -- `_pair_metric(pair, short + "_ttft_s")`
  pair_metric : Text → Fields F → Option F
  pair_metric short pair = elim (number_of (get_field (short ++ codes "_ttft_s") pair)) [
    | some x ↦ some x
    | none ↦ elim (as_fields (get_field short pair)) [
      | none ↦ none
      | some nested ↦ number_of (get_field (codes "wall_s") nested)
    ]
  ]

  pair_metrics : Text → List (Fields F) → List F
  unfolding pair_metric
  pair_metrics short [] = []
  pair_metrics short (pair ∷ pairs) = elim (pair_metric short pair) [
    | none ↦ pair_metrics short pairs
    | some x ↦ x ∷ pair_metrics short pairs
  ]

  prefix_metrics : List (Fields F) → Result ExtractError (BenchMetrics F)
  unfolding pair_metrics
  prefix_metrics [] = err pairs_not_objects
  prefix_metrics (p ∷ ps) =
      let pairs = p ∷ ps in
      let cold = pair_metrics (codes "cold") pairs in
      let warm = pair_metrics (codes "warm") pairs in
      let ratios = field_numbers (codes "prefix_hit_ratio") pairs in
      let efficiency = field_numbers (codes "hit_efficiency") pairs in
      if is_empty cold && is_empty warm && is_empty ratios
      then err no_prefix_samples
      else ok (record {
        samples =
            (codes "cold_ttft_s", cold)
            ∷ (codes "warm_ttft_s", warm)
            ∷ (codes "prefix_hit_ratio", ratios)
            ∷ (codes "hit_efficiency", efficiency)
            ∷ (codes "speedup", field_numbers (codes "speedup") pairs)
            ∷ [];
        summary =
            (codes "pairs", int_json (length pairs))
            ∷ (codes "cold_ttft_median_s", median_json cold)
            ∷ (codes "warm_ttft_median_s", median_json warm)
            ∷ (codes "prefix_hit_ratio_median", median_json ratios)
            ∷ (codes "hit_efficiency_median", median_json efficiency)
            ∷ [];
        notes = note_if (is_empty ratios) no_hit_ratio;
      })

  unfoldable pub extract_prefix : Fields F → Result ExtractError (BenchMetrics F)
  unfolding prefix_metrics
  extract_prefix artifact =
      require_list artifact (codes "pairs") >>= λ pairs. prefix_metrics (objects pairs)

  unfoldable pub extract_short_chat : Fields F → Result ExtractError (BenchMetrics F)
  extract_short_chat artifact = require_list artifact (codes "requests") >>= λ requests.
      let ttft = numbers_of requests (codes "ttft_s") in
      let decode = numbers_of requests (codes "decode_tok_s") in
      if is_empty ttft && is_empty decode
      then err no_chat_samples
      else ok (record {
        samples = (codes "ttft_s", ttft) ∷ (codes "decode_tok_s", decode) ∷ [];
        summary =
            (codes "ttft_median_s", median_json ttft)
            ∷ (codes "decode_tok_s_median", median_json decode)
            ∷ (codes "requests", int_json (length requests))
            ∷ [];
        notes = note_if (is_empty ttft) no_first_token;
      })
