-- ===== src/Bench/Stats.antt =====
-- `percentile`, `numeric_stats` and `_delta_pct`.
use glm5_3_flash_2x_dgx_spar.Prelude.{
  ℕ, ◌-◌, min, max, not, ◌&&◌, Option, none, some, List, [], ◌∷◌, keep_if, length, get_elem?,
  Result, ok, err, ◌>>=◌, if◌then◌else◌,
}
use glm5_3_flash_2x_dgx_spar.Number.{Float, ◌-ᶠ◌, ◌*ᶠ◌, ◌/ᶠ◌, ◌≤ᶠ◌, ◌<ᶠ◌, ◌==ᶠ◌}
use glm5_3_flash_2x_dgx_spar.Number.Median.{sorted, median}
use glm5_3_flash_2x_dgx_spar.Number.Extremes.{least_of, largest_of}
use glm5_3_flash_2x_dgx_spar.Bench.Specs.{Direction, lower, higher, neutral}

-- the `ValueError`s of `percentile`, `math.ceil` and `statistics.median`, the `IndexError` of a list
pub data StatsError : Type 0 where
  bad_quantile no_integer no_data no_index : StatsError

pub record NumericStats (F : Type 0) : Type 0 where
  pub n : ℕ
  pub median : Option F
  pub p99 : Option F
  pub min : Option F
  pub max : Option F
  pub mean : Option F

abbrev pub or_error : {A : Type 0} → Option A → StatsError → Result StatsError A
or_error none e = err e
or_error (some a) e = ok a

module _ {F : Type 0} ⦃f : Float F⦄ where
  -- the nearest rank
  unfoldable pub percentile : List F → F → Result StatsError (Option F)
  percentile [] quantile = ok none
  percentile (v ∷ vs) quantile =
      let n = length (v ∷ vs) in
      if not (f.of_ℕ 0 <ᶠ quantile && quantile ≤ᶠ f.of_ℕ 100)
      then err bad_quantile
      else or_error (f.ceil (quantile /ᶠ f.of_ℕ 100 *ᶠ f.of_ℕ n)) no_integer >>= λ c.
          or_error (get_elem? (sorted (v ∷ vs)) (min (max 1 c) n - 1)) no_index >>= λ m. ok (some m)

  stats_of : List F → Result StatsError (NumericStats F)
  unfolding percentile
  stats_of [] =
      ok (record { n = 0; median = none; p99 = none; min = none; max = none; mean = none })
  stats_of (v ∷ vs) = or_error (median (v ∷ vs)) no_data >>= λ middle.
      percentile (v ∷ vs) (f.of_ℕ 99) >>= λ p99. ok (record {
        n = length (v ∷ vs);
        median = some middle;
        p99 = p99;
        min = some (least_of v vs);
        max = some (largest_of v vs);
        mean = some (f.fmean (v ∷ vs));
      })

  unfoldable pub numeric_stats : List F → Result StatsError (NumericStats F)
  unfolding stats_of
  numeric_stats values = stats_of (keep_if f.finite values)

  -- `abs(x)`
  abbrev magnitude : F → F
  magnitude x = if x <ᶠ f.of_ℕ 0 then f.of_ℕ 0 -ᶠ x else x

  relative : F → F → Direction → F
  relative baseline candidate lower = (baseline -ᶠ candidate) /ᶠ magnitude baseline *ᶠ f.of_ℕ 100
  relative baseline candidate higher = (candidate -ᶠ baseline) /ᶠ magnitude baseline *ᶠ f.of_ℕ 100
  relative baseline candidate neutral = (candidate -ᶠ baseline) /ᶠ magnitude baseline *ᶠ f.of_ℕ 100

  -- `_delta_pct`
  unfoldable pub delta_pct : Option F → Option F → Direction → Option F
  unfolding relative
  delta_pct none candidate direction = none
  delta_pct (some b) none direction = none
  delta_pct (some b) (some c) direction =
      if b ==ᶠ f.of_ℕ 0 then none else some (relative b c direction)
