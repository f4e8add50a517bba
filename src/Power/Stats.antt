-- ===== src/Power/Stats.antt =====
-- `percentile` and `series_stats`. `sorted` is meant for values without a NaN.
pub mod Ranks
use glm5_3_flash_2x_dgx_spar.Prelude.{
  ℕ, ◌-◌, min, Option, none, some, List, [], ◌∷◌, length, get_elem?, Result, ok, err, ◌>>=◌,
  if◌then◌else◌,
}
use glm5_3_flash_2x_dgx_spar.Number.{Float, ◌*ᶠ◌, ◌/ᶠ◌, ◌<ᶠ◌}
use glm5_3_flash_2x_dgx_spar.Number.Extremes.{least_of, largest_of}
use glm5_3_flash_2x_dgx_spar.Number.Median.{sorted, median}

-- the `ValueError` of `math.ceil` and of `statistics.median`, the `IndexError` of a list
pub data StatsError : Type 0 where
  no_integer no_data no_index : StatsError

-- `{"samples": 0}` has nothing but the number
pub record Stats (F : Type 0) : Type 0 where
  pub samples : ℕ
  pub mean_w : Option F
  pub median_w : Option F
  pub min_w : Option F
  pub max_w : Option F
  pub p95_w : Option F

abbrev pub or_error : {A : Type 0} → Option A → StatsError → Result StatsError A
or_error none e = err e
or_error (some a) e = ok a

module _ {F : Type 0} ⦃f : Float F⦄ where
  unfoldable pub percentile : List F → F → Result StatsError (Option F)
  percentile [] fraction = ok none
  percentile (v ∷ vs) fraction =
      let n = length (v ∷ vs) in
      or_error (f.ceil (fraction *ᶠ f.of_ℕ n)) no_integer >>= λ c.
      or_error (get_elem? (sorted (v ∷ vs)) (min (n - 1) (c - 1))) no_index >>= λ m. ok (some m)

  -- `round(x, digits)` of a value that may be missing
  abbrev pub rounded : Option F → ℕ → Option F
  rounded none digits = none
  rounded (some v) digits = some (f.round v digits)

  -- the dictionary of values that begin with `v`
  abbrev pub stats_of : F → List F → F → Option F → Stats F
  stats_of v vs middle p95 = record {
    samples = length (v ∷ vs);
    mean_w = some (f.round (f.fmean (v ∷ vs)) 3);
    median_w = some (f.round middle 3);
    min_w = some (f.round (least_of v vs) 3);
    max_w = some (f.round (largest_of v vs) 3);
    p95_w = rounded p95 3;
  }

  unfoldable pub series_stats : List F → Result StatsError (Stats F)
  unfolding percentile
  series_stats [] = ok (record {
    samples = 0;
    mean_w = none;
    median_w = none;
    min_w = none;
    max_w = none;
    p95_w = none;
  })
  series_stats (v ∷ vs) = or_error (median (v ∷ vs)) no_data >>= λ middle.
      percentile (v ∷ vs) (f.of_ℕ 95 /ᶠ f.of_ℕ 100) >>= λ p95. ok (stats_of v vs middle p95)
