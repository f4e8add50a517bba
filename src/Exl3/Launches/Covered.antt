-- ===== src/Exl3/Launches/Covered.antt =====
-- That launches and fallbacks together go through each row of each expert exactly once.
use glm5_3_flash_2x_dgx_spar.Prelude.{ℕ, ◌≡◌, List, [], ◌∷◌, map, length, leb, if◌then◌else◌}
use glm5_3_flash_2x_dgx_spar.Exl3.Launches.{Work, launch, fallback}
use glm5_3_flash_2x_dgx_spar.Exl3.Launches.Spans.{join, no_rows, split}

-- `moe cap rows` is what the kernel goes through of the rows of an expert, with `cap` rows of buffers
module _ (moe : ℕ → List ℕ → List ℕ) where
  -- the kernel goes through the rows of an expert that fits the buffers, and skips the others
  abbrev pub IsKernel : Type 0
  IsKernel = (cap : ℕ) (rows : List ℕ) → moe cap rows ≡ (if leb (length rows) cap then rows else [])

  abbrev pub rows : ℕ → Work → List (List ℕ)
  rows cap (launch counts given) = map (λ r. moe cap r) (split counts given)
  rows cap (fallback tier fat) = fat

  -- the rows of each expert that some work goes through, in the order of the work
  abbrev pub rows_of : ℕ → List Work → List ℕ → List (List ℕ)
  rows_of cap [] counts = no_rows counts
  rows_of cap (w ∷ ws) counts = join (rows cap w) (rows_of cap ws counts)
