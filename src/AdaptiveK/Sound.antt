-- ===== src/AdaptiveK/Sound.antt =====
-- What holds of a policy between two calls, and that `_count` and `observe` keep it.
use glm5_3_flash_2x_dgx_spar.Prelude.{
  ℕ, suc, ◌+◌, ◌≤◌, String, ◌≡◌, true, false, not, ◌||◌, List, [], ◌∷◌, arith, All, ◌==◌,
  Bool-cases, inl, inr,
}
use glm5_3_flash_2x_dgx_spar.Number.{Float}
use glm5_3_flash_2x_dgx_spar.AdaptiveK.{Policy, contains, largest, bump, observe, count}

-- how many steps the histogram counts
abbrev pub tally : List (ℕ × ℕ) → ℕ
tally [] = 0
tally ((n, c) ∷ hist) = c + tally hist

pub record Sound (k_set boot_set : List ℕ) (k_max steps : ℕ) (hist : List (ℕ × ℕ)) : Type 0 where
  -- only sizes that were captured at the start are used
  pub sizes : (v : ℕ) → contains k_set v ≡ true → contains boot_set v ≡ true
  -- and there is one, if there was one
  pub sized : k_set ≡ [] → boot_set ≡ []
  pub top : k_max ≡ largest boot_set
  pub counted : tally hist ≤ steps

abbrev pub IsSound : {F : Type 0} → Policy F → Type 0
IsSound p = Sound p.k_set p.boot_set p.k_max p.steps p.hist

-- one more step under one of the keys
tally-bump : (n : ℕ) (hist : List (ℕ × ℕ)) → tally (bump n hist) ≡ suc (tally hist)
unfolding bump
tally-bump n [] = omega arith
tally-bump n ((m, c) ∷ hist) = ground (arith, tally-bump n hist)

pub count-IsSound :
    {F : Type 0} (p : Policy F) (n : ℕ) (live_ids : List String)
    → IsSound p
    → IsSound (count p n live_ids)
unfolding count
count-IsSound p n live_ids h = record {
  sizes = h.sizes;
  sized = h.sized;
  top = h.top;
  counted = omega (arith, h.counted, tally-bump n p.hist);
}

module _ {F : Type 0} ⦃f : Float F⦄ where
  pub observe-IsSound :
      (p : Policy F) (req_id : String) (num_draft num_accepted : ℕ)
      → IsSound p
      → IsSound (observe p req_id num_draft num_accepted)
  unfolding observe
  observe-IsSound p req_id d a h = elim (Bool-cases (not p.enabled || d == 0)) [
    | inl e ↦ rw e h
    | inr e ↦ rw e h
  ]

pub positive_of : (xs : List ℕ) → contains xs 0 ≡ false → All (λ v. 1 ≤ v) xs
positive_of [] h = tt
positive_of (x ∷ xs) h = (ground arith, positive_of xs (ground arith))
