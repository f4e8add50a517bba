-- ===== src/Power/Tests.antt =====
-- Runs on small inputs, and each theorem at an input that meets its hypotheses.
use glm5_3_flash_2x_dgx_spar.Prelude.{
  ℕ, ◌<◌, not, ◌≤◌, ◌≡◌, min, refl, Option, none, some, is_some, List, [], ◌∷◌, ◌++◌, map, All,
  count_if, ltb, Result, ok, err,
}
use glm5_3_flash_2x_dgx_spar.Number.{◌≤ᶠ◌}
use glm5_3_flash_2x_dgx_spar.Number.Int.{ℤ, pos}
use glm5_3_flash_2x_dgx_spar.Number.Fixed.{fixed, fixed-IsOrdered}
use glm5_3_flash_2x_dgx_spar.Number.Median.{median, sorted}
use glm5_3_flash_2x_dgx_spar.Text.{Text, codes, split_bytes, strip}
use glm5_3_flash_2x_dgx_spar.Power.Markers.{labels_of, polls}
use glm5_3_flash_2x_dgx_spar.Power.Markers.Polls.{
  quiet, grown, written, polls-written, polls_partial,
}
use glm5_3_flash_2x_dgx_spar.Power.Stats.{StatsError, percentile, series_stats}
use glm5_3_flash_2x_dgx_spar.Power.Stats.Ranks.{percentile-count_if}
use glm5_3_flash_2x_dgx_spar.Power.Energy.{trapezoid_energy, counter_energy}
use glm5_3_flash_2x_dgx_spar.Power.Samples.{gpu, Device, Sample, column, pairs_for}
use glm5_3_flash_2x_dgx_spar.Power.Summary.{Phase, summarize_phase}
use glm5_3_flash_2x_dgx_spar.Power.Summary.Methods.{IsKnown, summarize_phase-IsKnown}

abbrev ascii : List ℕ → Text
ascii bytes = bytes

polls-written_example :
    polls ascii 2 (grown (codes "x\n") (codes "start" ∷ codes " load \n\nidle" ∷ []))
    ≡ (labels_of ascii (split_bytes (written (codes "start" ∷ codes " load \n\nidle" ∷ []))), 21)
polls-written_example =
    polls-written ascii (codes "x\n") (codes "start" ∷ codes " load \n\nidle" ∷ [])

polls_partial_example : polls ascii 0 (quiet (codes "a\nb") ∷ quiet (codes "a\nbc\n") ∷ []) ≡ (
  labels_of ascii (split_bytes (codes "ba\n")) ++ labels_of ascii (split_bytes (codes "bc\n")),
  5,
)
polls_partial_example = polls_partial ascii [] (codes "a") b'b' [] (codes "c") refl

-- the markers that are delivered for "a" and "bc"
doubled :
    (polls ascii 0 (quiet (codes "a\nb") ∷ quiet (codes "a\nbc\n") ∷ [])).0
    ≡ codes "ba" ∷ codes "bc" ∷ []
unfolding polls split_bytes strip
doubled = refl

abbrev watts : List ℤ
watts = pos 30000 ∷ pos 10000 ∷ pos 20000 ∷ []

percentile-count_if_example :
    (m : ℤ) × ((percentile watts (pos 500) ≡ ok (some m))
      × ((min 2 3 ≤ count_if (λ x. x ≤ᶠ m) watts)
          × ((count_if (λ x. not (m ≤ᶠ x)) watts ≤ 1) × (count_if (λ x. not (m ≤ᶠ x)) watts < 3))))
percentile-count_if_example =
    percentile-count_if fixed-IsOrdered (pos 30000) (pos 10000 ∷ pos 20000 ∷ []) (pos 500) 2
      (refl, (refl, (refl, tt))) refl

abbrev points : List (ℤ × ℤ)
points = (pos 0, pos 10000) ∷ (pos 2000, pos 20000) ∷ (pos 9000, pos 20000) ∷ []

-- "a" is measured, "b" never is
abbrev device : Text → Option ℤ → Device ℤ
device key w = record {
  key = key;
  group = gpu;
  w = w;
  mj = none;
  util = none;
  temp = none;
  sm_mhz = none;
  mem_mib = none;
}

abbrev samples : List (Sample ℤ)
samples =
    record {
      t = pos 0;
      devices = device (codes "a") (some (pos 10000)) ∷ device (codes "b") none ∷ [];
    }
    ∷ record {
      t = pos 1000;
      devices = device (codes "a") (some (pos 30000)) ∷ device (codes "b") none ∷ [];
    }
    ∷ []

abbrev phase_of : Result StatsError (Option (Phase ℤ)) → Option (Phase ℤ)
phase_of (ok p) = p
phase_of (err e) = none

abbrev energies : Option (Phase ℤ) → List (Option ℤ)
energies none = []
energies (some p) = map (λ e. e.energy_j) p.gpus

-- "b" is given an energy of zero
unmeasured :
    energies (phase_of (summarize_phase samples (pos 5000))) ≡ some (pos 20000) ∷ some (pos 0) ∷ []
unfolding summarize_phase series_stats percentile column pairs_for trapezoid_energy counter_energy
    median sorted
unmeasured = refl

abbrev blank : Phase ℤ
blank = record {
  start_t = pos 0;
  end_t = pos 0;
  duration_s = pos 0;
  max_gap_s = pos 0;
  gpus = [];
  system = [];
  total = record {
    samples = 0;
    mean_w = none;
    median_w = none;
    min_w = none;
    max_w = none;
    p95_w = none;
  };
  total_energy_j = none;
  total_energy_wh = none;
}

abbrev or_blank : Option (Phase ℤ) → Phase ℤ
or_blank none = blank
or_blank (some p) = p

abbrev summary : Phase ℤ
summary = or_blank (phase_of (summarize_phase samples (pos 5000)))

summarised : summarize_phase samples (pos 5000) ≡ ok (some summary)
unfolding summarize_phase series_stats percentile column pairs_for trapezoid_energy counter_energy
    median sorted
summarised = refl

summarize_phase-IsKnown_example :
    (All IsKnown summary.gpus) × (is_some summary.total_energy_j ≡ ltb 0 summary.total.samples)
summarize_phase-IsKnown_example = summarize_phase-IsKnown samples (pos 5000) summarised
