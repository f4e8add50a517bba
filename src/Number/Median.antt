-- ===== src/Number/Median.antt =====
-- `sorted` and `statistics.median` of floats, and where the median lies.
pub mod Majority
pub mod Defined
use glm5_3_flash_2x_dgx_spar.Prelude.{
  ℕ, zero, suc, ◌+◌, ◌-◌, ◌*◌, ◌/◌, ◌%◌, ◌≤◌, ◌<◌, ◌≡◌, refl, Bool, true, false, Option, none, some,
  List, [], ◌∷◌, ◌++◌, arith, ◌==◌, length, get_elem?, count_if, All, Bool-cases, inl, inr,
  if◌then◌else◌,
}
use glm5_3_flash_2x_dgx_spar.Number.{Float, IsOrdered, ◌+ᶠ◌, ◌/ᶠ◌, ◌≤ᶠ◌}

module _ {F : Type 0} ⦃f : Float F⦄ where
  pub insert_sorted : F → List F → List F
  insert_sorted x [] = x ∷ []
  insert_sorted x (y ∷ ys) = if x ≤ᶠ y then x ∷ y ∷ ys else y ∷ insert_sorted x ys

  -- `sorted(xs)`
  unfoldable pub sorted : List F → List F
  unfolding insert_sorted
  sorted [] = []
  sorted (x ∷ xs) = insert_sorted x (sorted xs)

  abbrev pub middle : Option F → Option F → Option F
  middle (some a) (some b) = some ((a +ᶠ b) /ᶠ f.of_ℕ 2)
  middle (some a) none = none
  middle none b = none

  -- `statistics.median(xs)`, which raises where there is no data
  unfoldable pub median : List F → Option F
  median xs =
      let data' = sorted xs in
      let n = length xs in
      if n == 0
      then none
      else if (n % 2) == 1
      then get_elem? data' (n / 2)
      else middle (get_elem? data' (n / 2 - 1)) (get_elem? data' (n / 2))
