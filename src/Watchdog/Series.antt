-- ===== src/Watchdog/Series.antt =====
-- `analyze_series`: the recent window against the median of the observations before it.
pub mod Windows
use glm5_3_flash_2x_dgx_spar.Prelude.{
  ℕ, ◌+◌, ◌-◌, max, Bool, true, false, not, ◌&&◌, Option, none, some, List, [], ◌∷◌, length, take,
  drop, ltb, count_if, if◌then◌else◌, Result, ok, err, ◌>>=◌,
}
use glm5_3_flash_2x_dgx_spar.Number.{Float, ◌-ᶠ◌, ◌*ᶠ◌, ◌/ᶠ◌, ◌≤ᶠ◌, ◌<ᶠ◌}
use glm5_3_flash_2x_dgx_spar.Number.Median.{median}
use glm5_3_flash_2x_dgx_spar.Watchdog.{Status, healthy, degraded, insufficient, SeriesAnalysis}

-- the `ValueError`s, and `statistics.median` of no data
pub data SeriesError : Type 0 where
  bad_window bad_baseline_window bad_threshold no_data : SeriesError

module _ {F : Type 0} ⦃f : Float F⦄ where
  -- the values that are numbers, finite and positive
  pub clean : List (Option F) → List F
  clean [] = []
  clean (none ∷ vs) = clean vs
  clean (some v ∷ vs) = elim (f.finite v && f.of_ℕ 0 <ᶠ v) [
    | true ↦ v ∷ clean vs
    | false ↦ clean vs
  ]

  -- not enough observations
  too_few : ℕ → ℕ → F → SeriesAnalysis F
  too_few n window threshold = record {
    status = insufficient;
    n = n;
    baseline = none;
    recent = none;
    drop_fraction = none;
    cutoff = none;
    recent_below_cutoff = 0;
    window = window;
    threshold = threshold;
  }

  median_of : List F → Result SeriesError F
  median_of vs = elim (median vs) [ none ↦ err no_data | some m ↦ ok m ]

  -- the verdict on two medians
  judge : ℕ → F → F → List F → ℕ → F → SeriesAnalysis F
  judge n baseline recent recent_values window threshold =
      let cutoff = baseline *ᶠ (f.of_ℕ 1 -ᶠ threshold) in
      record {
        status = if recent ≤ᶠ cutoff then degraded else healthy;
        n = n;
        baseline = some baseline;
        recent = some recent;
        drop_fraction =
            if f.of_ℕ 0 <ᶠ baseline then some (f.of_ℕ 1 -ᶠ recent /ᶠ baseline) else none;
        cutoff = some cutoff;
        recent_below_cutoff = count_if (λ v. v ≤ᶠ cutoff) recent_values;
        window = window;
        threshold = threshold;
      }

  compare_windows : ℕ → List F → List F → ℕ → F → Result SeriesError (SeriesAnalysis F)
  unfolding median_of judge
  compare_windows n baseline_values recent_values window threshold =
      median_of baseline_values >>= λ baseline. median_of recent_values >>= λ recent.
      ok (judge n baseline recent recent_values window threshold)

  -- `clean[-window:]`
  abbrev pub recent_part : List F → ℕ → List F
  recent_part vs window = drop (length vs - window) vs

  -- `clean[pool_start:-window]`
  abbrev pub baseline_part : List F → ℕ → ℕ → List F
  baseline_part vs window baseline_window =
      drop (length vs - window - baseline_window) (take (length vs - window) vs)

  analyze_clean : List F → ℕ → F → ℕ → Result SeriesError (SeriesAnalysis F)
  unfolding too_few compare_windows
  analyze_clean vs window threshold baseline_window =
      if ltb (length vs) (window + 1)
      then ok (too_few (length vs) window threshold)
      else elim (baseline_part vs window baseline_window) [
        | [] ↦ ok (too_few (length vs) window threshold)
        | b ∷ bs ↦ compare_windows (length vs) (b ∷ bs) (recent_part vs window) window threshold
      ]

  unfoldable pub analyze_series :
      List (Option F) → ℕ → F → ℕ → Result SeriesError (SeriesAnalysis F)
  unfolding clean analyze_clean
  analyze_series values window threshold baseline_window =
      if ltb window 1
      then err bad_window
      else if ltb baseline_window 1
      then err bad_baseline_window
      else if not (f.of_ℕ 0 <ᶠ threshold && threshold <ᶠ f.of_ℕ 1)
      then err bad_threshold
      else analyze_clean (clean values) window threshold baseline_window
