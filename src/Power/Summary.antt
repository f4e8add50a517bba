-- ===== src/Power/Summary.antt =====
-- `summarize_phase`: the statistics and the energy of every device of a phase, and of all GPUs.
pub mod Methods
use glm5_3_flash_2x_dgx_spar.Prelude.{
  ℕ, Bool, true, false, not, ◌&&◌, Option, none, some, List, [], ◌∷◌, ◌++◌, map, all, keep_if,
  length, ltb, ◌==◌, if◌then◌else◌, Result, ok, err, ◌>>=◌, traverse,
}
use glm5_3_flash_2x_dgx_spar.Number.{Float, ◌+ᶠ◌, ◌-ᶠ◌, ◌/ᶠ◌}
use glm5_3_flash_2x_dgx_spar.Text.{Text}
use glm5_3_flash_2x_dgx_spar.Power.Stats.{StatsError, Stats, series_stats, rounded}
use glm5_3_flash_2x_dgx_spar.Number.Extremes.{largest_of}
use glm5_3_flash_2x_dgx_spar.Power.Energy.{Energy, trapezoid_energy, counter_energy}
use glm5_3_flash_2x_dgx_spar.Power.Samples.{
  Group, gpu, system, Device, Sample, Column, column, pairs_for,
}

-- `energy_method`
pub data EnergyMethod : Type 0 where
  counter trapezoid unknown : EnergyMethod

pub record Entry (F : Type 0) : Type 0 where
  pub key : Text
  pub group : Group
  pub stats : Stats F
  pub method : EnergyMethod
  pub energy_j : Option F
  pub trapezoid_energy_j : Option F
  pub energy_wh : Option F
  pub excluded_gap_seconds : F
  pub excluded_gaps : ℕ
  pub mean_util_pct : Option F
  pub mean_temp_c : Option F
  pub max_temp_c : Option F
  pub mean_clock_sm_mhz : Option F
  pub mean_mem_mib : Option F

pub record Phase (F : Type 0) : Type 0 where
  pub start_t : F
  pub end_t : F
  pub duration_s : F
  pub max_gap_s : F
  pub gpus : List (Entry F)
  pub system : List (Entry F)
  pub total : Stats F
  pub total_energy_j : Option F
  pub total_energy_wh : Option F

abbrev pub is_gpu : Group → Bool
is_gpu gpu = true
is_gpu system = false

abbrev pub is_known : EnergyMethod → Bool
is_known counter = true
is_known trapezoid = true
is_known unknown = false

module _ {F : Type 0} where
  -- `[x for x in xs if isinstance(x, (int, float))]`, alone and with the time
  abbrev numbers : List (Option F) → List F
  numbers [] = []
  numbers (none ∷ xs) = numbers xs
  numbers (some x ∷ xs) = x ∷ numbers xs

  abbrev timed : List (F × Option F) → List (F × F)
  timed [] = []
  timed ((t, none) ∷ ps) = timed ps
  timed ((t, some x) ∷ ps) = (t, x) ∷ timed ps

module _ {F : Type 0} ⦃f : Float F⦄ where
  -- what is known of the energy: the counter, or else the points, if there are any
  method_of : Option F → List (F × Option F) → EnergyMethod
  method_of (some counted) points = counter
  method_of none (p ∷ ps) = trapezoid
  method_of none [] = unknown

  energy_of : Option F → List (F × Option F) → F → Option F
  energy_of (some counted) points drawn = some (f.round counted 1)
  energy_of none (p ∷ ps) drawn = some (f.round drawn 1)
  energy_of none [] drawn = none

  beside_counter : Option F → F → Option F
  beside_counter (some counted) drawn = some (f.round drawn 1)
  beside_counter none drawn = none

  watt_hours : Option F → Option F
  watt_hours none = none
  watt_hours (some j) = some (f.round (j /ᶠ f.of_ℕ 3600) 4)

  mean_of : List F → ℕ → Option F
  mean_of [] digits = none
  mean_of (x ∷ xs) digits = some (f.round (f.fmean (x ∷ xs)) digits)

  max_temp : List F → Option F
  max_temp [] = none
  max_temp (x ∷ xs) = some (f.round (largest_of x xs) 1)

  entry : List (Sample F) → F → Column F → Result StatsError (Entry F)
  unfolding method_of energy_of beside_counter watt_hours mean_of max_temp
  entry samples max_gap c = series_stats (numbers c.w) >>= λ stats.
      let (watt_points, mj_points) = pairs_for samples c.key in
      let drawn = trapezoid_energy (timed watt_points) max_gap in
      let counted = counter_energy (numbers (map (λ p. p.1) mj_points)) in
      let energy_j = energy_of counted watt_points drawn.energy in
      ok (record {
        key = c.key;
        group = c.group;
        stats = stats;
        method = method_of counted watt_points;
        energy_j = energy_j;
        trapezoid_energy_j = beside_counter counted drawn.energy;
        energy_wh = watt_hours energy_j;
        excluded_gap_seconds = f.round drawn.excluded_seconds 3;
        excluded_gaps = drawn.excluded_segments;
        mean_util_pct = mean_of (numbers c.util) 2;
        mean_temp_c = mean_of (numbers c.temp) 1;
        max_temp_c = max_temp (numbers c.temp);
        mean_clock_sm_mhz = mean_of (numbers c.sm_mhz) 1;
        mean_mem_mib = mean_of (numbers c.mem_mib) 1;
      })

  -- `total_energy_j`, from `acc` on
  total_energy : F → List (Entry F) → F
  total_energy acc [] = acc
  total_energy acc (e ∷ es) = elim e.energy_j [
    | none ↦ total_energy acc es
    | some j ↦ total_energy (if is_gpu e.group then acc +ᶠ j else acc) es
  ]

  -- `sum(watts)` of the GPUs of every sample that has some
  gpu_watts : List (Device F) → List F
  gpu_watts ds = numbers (map (λ d. d.w) (keep_if (λ d. is_gpu d.group) ds))

  total_series : List (Sample F) → List F
  unfolding gpu_watts
  total_series [] = []
  total_series (s ∷ ss) = elim (gpu_watts s.devices) [
    | [] ↦ total_series ss
    | w ∷ ws ↦ f.sum (w ∷ ws) ∷ total_series ss
  ]

  -- the gaps between neighbours
  gaps : List (Sample F) → List F
  gaps [] = []
  gaps (s ∷ []) = []
  gaps (s ∷ r ∷ ss) = (r.t -ᶠ s.t) ∷ gaps (r ∷ ss)

  largest_gap : List F → F
  largest_gap [] = f.of_ℕ 0
  largest_gap (g ∷ gs) = largest_of g gs

  abbrev last_sample : Sample F → List (Sample F) → Sample F
  last_sample s [] = s
  last_sample s (r ∷ rs) = last_sample r rs

  -- the phase of samples from `first` to `last`
  phase : Sample F → Sample F → List F → List (Entry F) → Stats F → Phase F
  unfolding total_energy watt_hours largest_gap
  phase first last between entries totals =
      let joules =
        if ltb 0 totals.samples && all (λ e. is_known e.method) entries
        then some (total_energy (f.of_ℕ 0) entries)
        else none in
      record {
        start_t = f.round first.t 3;
        end_t = f.round last.t 3;
        duration_s = f.round (last.t -ᶠ first.t) 3;
        max_gap_s = f.round (largest_gap between) 3;
        gpus = keep_if (λ e. is_gpu e.group) entries;
        system = keep_if (λ e. not (is_gpu e.group)) entries;
        total = totals;
        total_energy_j = rounded joules 1;
        total_energy_wh = watt_hours joules;
      }

  unfoldable pub summarize_phase : List (Sample F) → F → Result StatsError (Option (Phase F))
  unfolding entry total_series gaps phase
  summarize_phase [] max_gap = ok none
  summarize_phase (s ∷ []) max_gap = ok none
  summarize_phase (s ∷ r ∷ rest) max_gap =
      let samples = s ∷ r ∷ rest in
      traverse (entry samples max_gap) (column samples) >>= λ entries.
      series_stats (total_series samples) >>= λ totals.
      ok (some (phase s (last_sample r rest) (gaps samples) entries totals))
