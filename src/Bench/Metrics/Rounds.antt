-- ===== src/Bench/Metrics/Rounds.antt =====
-- `_extract_cache_sessions`: the samples of an artifact of sessions in rounds.
pub mod Sessions
use glm5_3_flash_2x_dgx_spar.Prelude.{
  ℕ, suc, ◌+◌, Bool, true, false, not, ◌&&◌, ◌||◌, Option, none, some, List, [], ◌∷◌, ◌++◌, map,
  any, length, ◌==◌, if◌then◌else◌, Result, ok, err, ◌>>=◌,
}
use glm5_3_flash_2x_dgx_spar.Number.{Float, ◌≤ᶠ◌, ◌<ᶠ◌}
use glm5_3_flash_2x_dgx_spar.Number.Extremes.{least_of, largest_of}
use glm5_3_flash_2x_dgx_spar.Text.{Text, codes, strip}
use glm5_3_flash_2x_dgx_spar.Bench.Json.{
  Json, null, bool, number, text, array, object, Fields, end, ExtractError, no_decode_samples,
  pairs_not_objects, no_prefix_samples, round_not_object, no_sessions, no_round_metrics,
  no_chat_samples, not_iterable, items_of, fields_of, get_field, as_fields, as_items, objects,
  require_list, number_of, numbers_of, field_numbers, opt_number, median_json, is_truthy, or_json,
}
use glm5_3_flash_2x_dgx_spar.Bench.Metrics.{
  Note, no_warm_hits, warning, BenchMetrics, note_if, is_empty, opt_list,
}

-- the lists that the loop of `_extract_cache_sessions` fills
pub record Rounds (F : Type 0) : Type 0 where
  pub warm_hits : List F
  pub cold_hits : List F
  pub warm_ttft : List F
  pub warm_decode : List F
  pub warm_wall : List F

module _ {F : Type 0} ⦃f : Float F⦄ where
  abbrev no_rounds : Rounds F
  no_rounds = record {
    warm_hits = [];
    cold_hits = [];
    warm_ttft = [];
    warm_decode = [];
    warm_wall = [];
  }

  -- `round_number == 1`, where the number is `int(number)` or else the position plus one
  is_first_round : ℕ → Option F → Bool
  is_first_round position none = position == 0
  is_first_round position (some x) = f.of_ℕ 1 ≤ᶠ x && x <ᶠ f.of_ℕ 2

  warm_round : Option F → Fields F → Rounds F → Result ExtractError (Rounds F)
  warm_round hit fs r = elim (as_items (get_field (codes "sessions") fs)) [
    | none ↦ err no_sessions
    | some sessions ↦ ok (record {
      warm_hits = r.warm_hits ++ opt_list hit;
      cold_hits = r.cold_hits;
      warm_ttft = r.warm_ttft ++ numbers_of sessions (codes "ttft_s");
      warm_decode = r.warm_decode ++ numbers_of sessions (codes "decode_tok_s");
      warm_wall = r.warm_wall ++ opt_list (number_of (get_field (codes "wall_s") fs));
    })
  ]

  add_round : ℕ → Json F → Rounds F → Result ExtractError (Rounds F)
  unfolding is_first_round warm_round
  add_round position entry r = elim (as_fields entry) [
    | none ↦ err round_not_object
    | some fs ↦
        let hit = number_of (get_field (codes "hit_fraction") fs) in
        if is_first_round position (number_of (get_field (codes "round") fs))
        then ok (record r { cold_hits = r.cold_hits ++ opt_list hit })
        else warm_round hit fs r
  ]

  add_rounds : ℕ → List (Json F) → Rounds F → Result ExtractError (Rounds F)
  unfolding add_round
  add_rounds position [] r = ok r
  add_rounds position (entry ∷ entries) r =
      add_round position entry r >>= λ more. add_rounds (suc position) entries more

  -- `str(value)` is a parameter, as Python prints any value
  module _ (show : Json F → Text) where
    -- `artifact.get("warnings") or []`, gone through
    iterate : Json F → Result ExtractError (List (Json F))
    iterate null = ok []
    iterate (bool true) = err not_iterable
    iterate (bool false) = ok []
    iterate (number x) = if is_truthy (number x) then err not_iterable else ok []
    iterate (text s) = ok (map (λ c. text (c ∷ [])) s)
    iterate (array xs) = ok (items_of xs)
    iterate (object fs) = ok (map (λ p. text p.0) (fields_of fs))

    warning_notes : List (Json F) → List Note
    warning_notes [] = []
    warning_notes (w ∷ ws) =
        let rest = warning_notes ws in
        if is_empty (strip (show w)) then rest else warning (show w) ∷ rest

    abbrev fields_or_none : Json F → Fields F
    fields_or_none v = elim (as_fields v) [ none ↦ end | some fs ↦ fs ]

    rounds_metrics : Fields F → Rounds F → Result ExtractError (BenchMetrics F)
    unfolding iterate warning_notes
    rounds_metrics artifact r =
        if is_empty r.cold_hits
          && is_empty r.warm_hits
          && is_empty r.warm_ttft
          && is_empty r.warm_decode
        then err no_round_metrics
        else iterate (get_field (codes "warnings") artifact) >>= λ warnings.
            let summary = fields_or_none (get_field (codes "summary") artifact) in
            ok (record {
              samples =
                  (codes "cold_hit_fraction", r.cold_hits)
                  ∷ (codes "warm_hit_fraction", r.warm_hits)
                  ∷ (codes "warm_ttft_s", r.warm_ttft)
                  ∷ (codes "warm_decode_tok_s", r.warm_decode)
                  ∷ (codes "warm_wall_s", r.warm_wall)
                  ∷ [];
              summary =
                  (
                    codes "verdict",
                    or_json (get_field (codes "verdict") summary)
                        (get_field (codes "verdict") artifact),
                  )
                  ∷ (codes "cold_hit_fraction_median", median_json r.cold_hits)
                  ∷ (
                    codes "warm_hit_fraction_median",
                    get_field (codes "warm_hit_fraction_median") summary,
                  )
                  ∷ (codes "warm_ttft_median_s", get_field (codes "warm_ttft_median_s") summary)
                  ∷ (
                    codes "warm_decode_tok_s_median",
                    get_field (codes "warm_decode_tok_s_median") summary,
                  )
                  ∷ (codes "http_ok", get_field (codes "http_ok") summary)
                  ∷ [];
              notes = warning_notes warnings ++ note_if (is_empty r.warm_hits) no_warm_hits;
            })

    unfoldable pub extract_cache_sessions : Fields F → Result ExtractError (BenchMetrics F)
    unfolding add_rounds rounds_metrics
    extract_cache_sessions artifact = require_list artifact (codes "rounds") >>= λ rounds.
        add_rounds 0 rounds no_rounds >>= λ r. rounds_metrics artifact r
