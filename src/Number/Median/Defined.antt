-- ===== src/Number/Median/Defined.antt =====
-- There is a median wherever there is a value.
use glm5_3_flash_2x_dgx_spar.Prelude.{
  ℕ, zero, suc, ◌-◌, ◌/◌, ◌%◌, ◌≤◌, ◌<◌, ◌≡◌, refl, ap, ◌∙◌, false, some, List, [], ◌∷◌, arith,
  ◌==◌, length, get_elem?, Bool-cases, inl, inr,
}
use glm5_3_flash_2x_dgx_spar.Number.{Float, ◌+ᶠ◌, ◌/ᶠ◌}
use glm5_3_flash_2x_dgx_spar.Number.Median.{insert_sorted, sorted, median}

pub get_elem?-some {ℓ} :
    {A : Type ℓ} (xs : List A) (i : ℕ) → i < length xs → (m : A) × (get_elem? xs i ≡ some m)
get_elem?-some [] i h = absurd (omega arith)
get_elem?-some (x ∷ xs) zero h = (x, refl)
get_elem?-some (x ∷ xs) (suc i) h = get_elem?-some xs i (omega arith)

module _ {F : Type 0} ⦃f : Float F⦄ where
  length-insert_sorted : (x : F) (ys : List F) → length (insert_sorted x ys) ≡ suc (length ys)
  unfolding insert_sorted
  length-insert_sorted x [] = refl
  length-insert_sorted x (y ∷ ys) = ground (arith, length-insert_sorted x ys)

  pub length-sorted : (xs : List F) → length (sorted xs) ≡ length xs
  unfolding sorted
  length-sorted [] = refl
  length-sorted (x ∷ xs) = length-insert_sorted x (sorted xs) ∙ ap suc (length-sorted xs)

  pub median-some : (xs : List F) → 1 ≤ length xs → (m : F) × (median xs ≡ some m)
  unfolding median
  median-some xs pos =
      let n = length xs in
      let zero_free : (n == 0) ≡ false = ground arith in
      let (b, eb) = get_elem?-some (sorted xs) (n / 2) (omega (arith, length-sorted xs)) in
      elim (Bool-cases ((n % 2) == 1)) [
        | inl odd ↦ (b, rw (zero_free, odd) eb)
        | inr even ↦
            let (a, ea) =
              get_elem?-some (sorted xs) (n / 2 - 1) (omega (arith, length-sorted xs)) in
            ((a +ᶠ b) /ᶠ f.of_ℕ 2, rw (zero_free, even, ea, eb))
      ]
