-- ===== src/Power/Energy.antt =====
-- `trapezoid_energy` and `counter_energy`.
pub mod Segments
use glm5_3_flash_2x_dgx_spar.Prelude.{ℕ, ◌+◌, Option, none, some, List, [], ◌∷◌, if◌then◌else◌}
use glm5_3_flash_2x_dgx_spar.Number.{Float, ◌+ᶠ◌, ◌-ᶠ◌, ◌*ᶠ◌, ◌/ᶠ◌, ◌≤ᶠ◌, ◌<ᶠ◌}

-- `energy_j`, `excluded_gap_seconds` and `excluded_segment_count`
pub record Energy (F : Type 0) : Type 0 where
  pub energy : F
  pub excluded_seconds : F
  pub excluded_segments : ℕ

module _ {F : Type 0} ⦃f : Float F⦄ where
  segment : F → Energy F → F × F → F × F → Energy F
  segment max_gap e (t0, w0) (t1, w1) =
      let dt = t1 -ᶠ t0 in
      if dt ≤ᶠ f.of_ℕ 0
      then e
      else if max_gap <ᶠ dt
      then record e {
        excluded_seconds = e.excluded_seconds +ᶠ dt;
        excluded_segments = e.excluded_segments + 1;
      }
      else record e { energy = e.energy +ᶠ (w0 +ᶠ w1) /ᶠ f.of_ℕ 2 *ᶠ dt }

  segments : F → Energy F → List (F × F) → Energy F
  unfolding segment
  segments max_gap e [] = e
  segments max_gap e (p ∷ []) = e
  segments max_gap e (p ∷ q ∷ ps) = segments max_gap (segment max_gap e p q) (q ∷ ps)

  unfoldable pub trapezoid_energy : List (F × F) → F → Energy F
  unfolding segments
  trapezoid_energy points max_gap =
      segments max_gap
        (record { energy = f.of_ℕ 0; excluded_seconds = f.of_ℕ 0; excluded_segments = 0 }) points

  abbrev last_of_two : F → List F → F
  last_of_two x [] = x
  last_of_two x (y ∷ ys) = last_of_two y ys

  unfoldable pub counter_energy : List F → Option F
  counter_energy [] = none
  counter_energy (first ∷ []) = none
  counter_energy (first ∷ second ∷ rest) =
      let delta = last_of_two second rest -ᶠ first in
      if delta <ᶠ f.of_ℕ 0 then none else some (delta /ᶠ f.of_ℕ 1000)
