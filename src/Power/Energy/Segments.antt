-- ===== src/Power/Energy/Segments.antt =====
-- The energy of a list of points against the list of its neighbours.
use glm5_3_flash_2x_dgx_spar.Prelude.{
  ◌+◌, ◌≡◌, refl, ◌∙◌, Bool, not, ◌&&◌, List, [], ◌∷◌, map, keep_if, count_if, arith, Bool-cases,
  inl, inr,
}
use glm5_3_flash_2x_dgx_spar.Number.{Float, ◌+ᶠ◌, ◌-ᶠ◌, ◌*ᶠ◌, ◌/ᶠ◌, ◌≤ᶠ◌, ◌<ᶠ◌}
use glm5_3_flash_2x_dgx_spar.Power.Energy.{Energy, segment, segments, trapezoid_energy}

-- each element with the next one
abbrev pub neighbours : {A : Type 0} → List A → List (A × A)
neighbours [] = []
neighbours (p ∷ []) = []
neighbours (p ∷ q ∷ ps) = (p, q) ∷ neighbours (q ∷ ps)

module _ {F : Type 0} ⦃f : Float F⦄ (max_gap : F) where
  -- time went on, and by more than the gap that is allowed
  abbrev pub is_wide : (F × F) × (F × F) → Bool
  is_wide (p, q) = not (q.0 -ᶠ p.0 ≤ᶠ f.of_ℕ 0) && max_gap <ᶠ q.0 -ᶠ p.0

  abbrev pub is_counted : (F × F) × (F × F) → Bool
  is_counted (p, q) = not (q.0 -ᶠ p.0 ≤ᶠ f.of_ℕ 0) && not (max_gap <ᶠ q.0 -ᶠ p.0)

  abbrev pub area : (F × F) × (F × F) → F
  area (p, q) = (p.1 +ᶠ q.1) /ᶠ f.of_ℕ 2 *ᶠ (q.0 -ᶠ p.0)

  -- a sum from the left
  abbrev pub sum_from : F → List F → F
  sum_from acc [] = acc
  sum_from acc (x ∷ xs) = sum_from (acc +ᶠ x) xs

  segment-energy :
      (e : Energy F) (p q : F × F) (rest : List ((F × F) × (F × F)))
      → sum_from (segment max_gap e p q).energy (map area (keep_if is_counted rest))
        ≡ sum_from e.energy (map area (keep_if is_counted ((p, q) ∷ rest)))
  unfolding segment
  segment-energy e p q rest = elim (Bool-cases (q.0 -ᶠ p.0 ≤ᶠ f.of_ℕ 0)) [
    | inl g ↦ rw (g, keep_if)
    | inr g ↦ elim (Bool-cases (max_gap <ᶠ q.0 -ᶠ p.0)) [
      | inl h ↦ rw (g, h, keep_if)
      | inr h ↦ rw (g, h, keep_if)
    ]
  ]

  segments-energy :
      (e : Energy F) (points : List (F × F))
      → (segments max_gap e points).energy
        ≡ sum_from e.energy (map area (keep_if is_counted (neighbours points)))
  unfolding segments segment
  segments-energy e [] = refl
  segments-energy e (p ∷ []) = refl
  segments-energy e (p ∷ q ∷ ps) =
      segments-energy (segment max_gap e p q) (q ∷ ps) ∙ segment-energy e p q (neighbours (q ∷ ps))

  segments-excluded :
      (e : Energy F) (points : List (F × F))
      → (segments max_gap e points).excluded_segments
        ≡ e.excluded_segments + count_if is_wide (neighbours points)
  unfolding segments segment
  segments-excluded e [] = omega arith
  segments-excluded e (p ∷ []) = omega arith
  segments-excluded e (p ∷ q ∷ ps) =
      ground (arith, segments-excluded (segment max_gap e p q) (q ∷ ps))

  -- The energy of some points is the sum of the areas between the neighbours that are no more than
  -- the allowed gap apart, and the wider ones are counted.
  pub trapezoid_energy-sum_from :
      (points : List (F × F))
      → ((trapezoid_energy points max_gap).energy
          ≡ sum_from (f.of_ℕ 0) (map area (keep_if is_counted (neighbours points))))
        × ((trapezoid_energy points max_gap).excluded_segments
            ≡ count_if is_wide (neighbours points))
  unfolding trapezoid_energy
  trapezoid_energy-sum_from points =
      let start : Energy F = record {
        energy = f.of_ℕ 0;
        excluded_seconds = f.of_ℕ 0;
        excluded_segments = 0;
      } in
      (segments-energy start points, omega (arith, segments-excluded start points))
