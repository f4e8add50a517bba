-- ===== src/Bench/Comparison.antt =====
-- `build_comparison`: the samples of the successful arms by metric, and the candidates' deltas.
pub mod Sound
use glm5_3_flash_2x_dgx_spar.Prelude.{
  ℕ, Bool, true, false, not, ◌&&◌, ◌||◌, Option, none, some, List, [], ◌∷◌, ◌++◌, keep_if, is_some,
  ltb, ◌==◌, Result, ok, err, ◌>>=◌, if◌then◌else◌,
}
use glm5_3_flash_2x_dgx_spar.Number.{Float}
use glm5_3_flash_2x_dgx_spar.Text.{Text, codes, text_eq}
use glm5_3_flash_2x_dgx_spar.Bench.Env.{lookup, assign}
use glm5_3_flash_2x_dgx_spar.Bench.Metrics.{BenchMetrics}
use glm5_3_flash_2x_dgx_spar.Bench.Specs.{Benchmark, Direction, neutral, name_of, directions_of}
use glm5_3_flash_2x_dgx_spar.Bench.Stats.{StatsError, NumericStats, numeric_stats, delta_pct}
use glm5_3_flash_2x_dgx_spar.Bench.Results.{BenchRecord, ArmResult}

-- the statistics of one metric, by arm
abbrev pub ArmStats : Type 0 → Type 0
ArmStats F = List (Text × NumericStats F)

-- `per_metric` and `directions`
pub record Tables (F : Type 0) : Type 0 where
  pub per_metric : List (Text × ArmStats F)
  pub directions : List (Text × Direction)

pub record Row (F : Type 0) : Type 0 where
  pub metric : Text
  pub direction : Direction
  pub baseline : Option (NumericStats F)
  pub arms : ArmStats F
  pub deltas : List (Text × Option F)

pub record Comparison (F : Type 0) : Type 0 where
  pub baseline : Option Text
  pub baseline_ok : Bool
  pub metrics : List (Text × ArmStats F)
  pub rows : List (Row F)

-- `a < b`, of texts
text_lt : Text → Text → Bool
text_lt [] [] = false
text_lt [] (b ∷ t) = true
text_lt (a ∷ s) [] = false
text_lt (a ∷ s) (b ∷ t) = ltb a b || a == b && text_lt s t

abbrev or_neutral : Option Direction → Direction
or_neutral none = neutral
or_neutral (some d) = d

-- `directions.setdefault(key, d)`
set_default : Text → Direction → List (Text × Direction) → List (Text × Direction)
set_default key d directions = elim (lookup key directions) [
  | none ↦ assign key d directions
  | some e ↦ directions
]

module _ {F : Type 0} where
  abbrev or_empty : Option (ArmStats F) → ArmStats F
  or_empty none = []
  or_empty (some s) = s

  -- `sorted(per_metric)`, with the entries
  insert_metric : Text × ArmStats F → List (Text × ArmStats F) → List (Text × ArmStats F)
  unfolding text_lt
  insert_metric e [] = e ∷ []
  insert_metric e (x ∷ xs) = if text_lt x.0 e.0 then x ∷ insert_metric e xs else e ∷ x ∷ xs

  sort_metrics : List (Text × ArmStats F) → List (Text × ArmStats F)
  unfolding insert_metric
  sort_metrics [] = []
  sort_metrics (x ∷ xs) = insert_metric x (sort_metrics xs)

module _ {F : Type 0} ⦃f : Float F⦄ where
  -- one list of samples, which is kept where it has finite values
  add_sample : Text → Benchmark → Text → List F → Tables F → Result StatsError (Tables F)
  unfolding set_default
  add_sample arm_name bench sample values t = elim (keep_if f.finite values) [
    | [] ↦ ok t
    | v ∷ vs ↦ numeric_stats (v ∷ vs) >>= λ stats.
        let key = name_of bench ++ (codes "." ++ sample) in
        ok (record {
          per_metric =
              assign key (assign arm_name stats (or_empty (lookup key t.per_metric))) t.per_metric;
          directions =
              set_default key (or_neutral (lookup sample (directions_of bench))) t.directions;
        })
  ]

  add_samples : Text → Benchmark → List (Text × List F) → Tables F → Result StatsError (Tables F)
  unfolding add_sample
  add_samples arm_name bench [] t = ok t
  add_samples arm_name bench ((sample, values) ∷ rest) t =
      add_sample arm_name bench sample values t >>= λ more. add_samples arm_name bench rest more

  add_bench : Text → BenchRecord F → Tables F → Result StatsError (Tables F)
  unfolding add_samples
  add_bench arm_name b t =
      if not b.ok
      then ok t
      else elim b.metrics [ none ↦ ok t | some m ↦ add_samples arm_name b.bench m.samples t ]

  add_benches : Text → List (BenchRecord F) → Tables F → Result StatsError (Tables F)
  unfolding add_bench
  add_benches arm_name [] t = ok t
  add_benches arm_name (b ∷ bs) t = add_bench arm_name b t >>= λ more. add_benches arm_name bs more

  add_arm : ArmResult F → Tables F → Result StatsError (Tables F)
  unfolding add_benches
  add_arm arm t = if not arm.ok then ok t else add_benches arm.name arm.benches t

  add_arms : List (ArmResult F) → Tables F → Result StatsError (Tables F)
  unfolding add_arm
  add_arms [] t = ok t
  add_arms (arm ∷ arms) t = add_arm arm t >>= λ more. add_arms arms more

  put_delta :
      Option (NumericStats F)
      → Option (NumericStats F)
      → Direction
      → Text
      → List (Text × Option F)
      → List (Text × Option F)
  put_delta none stats direction arm_name deltas = deltas
  put_delta (some base) none direction arm_name deltas = deltas
  put_delta (some base) (some stats) direction arm_name deltas =
      assign arm_name (delta_pct base.median stats.median direction) deltas

  -- the loop that fills `deltas`
  add_delta : Text → Row F → Text → List (Text × Option F) → List (Text × Option F)
  unfolding put_delta
  add_delta baseline_name row arm_name deltas =
      if text_eq arm_name baseline_name
      then deltas
      else put_delta row.baseline (lookup arm_name row.arms) row.direction arm_name deltas

  deltas_of : Text → Row F → List (ArmResult F) → List (Text × Option F) → List (Text × Option F)
  unfolding add_delta
  deltas_of baseline_name row [] deltas = deltas
  deltas_of baseline_name row (arm ∷ arms) deltas =
      deltas_of baseline_name row arms (add_delta baseline_name row arm.name deltas)

  -- the row of a metric before its deltas
  plain_row : Option Text → List (Text × Direction) → Text × ArmStats F → Row F
  plain_row baseline directions (key, arms) = record {
    metric = key;
    direction = or_neutral (lookup key directions);
    baseline = elim baseline [
      | none ↦ none
      | some [] ↦ none
      | some (c ∷ cs) ↦ lookup (c ∷ cs) arms
    ];
    arms = arms;
    deltas = [];
  }

  row_of : Option Text → Bool → List (ArmResult F) → Row F → Row F
  unfolding deltas_of
  row_of none baseline_ok arms row = row
  row_of (some name) false arms row = row
  row_of (some name) true arms row = record {
    metric = row.metric;
    direction = row.direction;
    baseline = row.baseline;
    arms = row.arms;
    deltas = deltas_of name row arms [];
  }

  rows_of :
      Option Text
      → Bool
      → List (ArmResult F)
      → List (Text × Direction)
      → List (Text × ArmStats F)
      → List (Row F)
  unfolding plain_row row_of
  rows_of baseline baseline_ok arms directions [] = []
  rows_of baseline baseline_ok arms directions (m ∷ ms) =
      row_of baseline baseline_ok arms (plain_row baseline directions m)
      ∷ rows_of baseline baseline_ok arms directions ms

  abbrev pub baseline_of : List (ArmResult F) → Option Text
  baseline_of [] = none
  baseline_of (a ∷ arms) = some a.name

  abbrev pub is_baseline_ok : List (ArmResult F) → Bool
  is_baseline_ok [] = false
  is_baseline_ok (a ∷ arms) = a.ok

  unfoldable pub build_comparison : List (ArmResult F) → Result StatsError (Comparison F)
  unfolding add_arms rows_of sort_metrics
  build_comparison arms = add_arms arms (record { per_metric = []; directions = [] }) >>= λ t.
      ok (record {
        baseline = baseline_of arms;
        baseline_ok = is_baseline_ok arms;
        metrics = t.per_metric;
        rows =
            rows_of (baseline_of arms) (is_baseline_ok arms) arms t.directions
              (sort_metrics t.per_metric);
      })
