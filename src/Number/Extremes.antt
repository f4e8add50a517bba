-- ===== src/Number/Extremes.antt =====
-- `min` and `max` of floats.
use glm5_3_flash_2x_dgx_spar.Prelude.{List, [], ◌∷◌, if◌then◌else◌}
use glm5_3_flash_2x_dgx_spar.Number.{Float, ◌<ᶠ◌}

module _ {F : Type 0} ⦃f : Float F⦄ where
  -- `min(values)` and `max(values)` of values that begin with `x`
  abbrev pub least_of : F → List F → F
  least_of x [] = x
  least_of x (y ∷ ys) = least_of (if y <ᶠ x then y else x) ys

  abbrev pub largest_of : F → List F → F
  largest_of x [] = x
  largest_of x (y ∷ ys) = largest_of (if x <ᶠ y then y else x) ys
