-- ===== src/Exl3/Routing.antt =====
-- `map_topk_to_local`: the local expert of each global one, or the number past the last where a rank
-- has none. Tensors of indices are lists of integers, already flat.
pub mod Bounded
use glm5_3_flash_2x_dgx_spar.Prelude.{
  ℕ, zero, suc, ◌-◌, max, Bool, true, false, not, ◌||◌, Option, none, some, List, [], ◌∷◌, map,
  length, get_elem?, leb, if◌then◌else◌,
}
use glm5_3_flash_2x_dgx_spar.Number.Int.{ℤ, pos, negsuc, le_ℤ}

-- `a < b`
abbrev pub ltℤ : ℤ → ℤ → Bool
ltℤ a b = not (le_ℤ b a)

-- `flat.clamp(min=0, max=top)`
abbrev clamp : ℕ → ℤ → ℕ
clamp top (negsuc n) = 0
clamp top (pos n) = if leb n top then n else top

-- `expert_map[safe]`, of an index that is within bounds unless the map is empty
abbrev element_or : ℤ → Option ℤ → ℤ
element_or e none = e
element_or e (some x) = x

-- `torch.where(invalid, n_local, mapped)`
unfoldable pub local_of : ℕ → Bool → ℤ → ℤ
local_of n_local invalid mapped = if invalid then pos n_local else mapped

-- of one index, without a map
unfoldable pub plain_id : ℕ → ℤ → ℤ
unfolding local_of
plain_id n_local id = local_of n_local (ltℤ id (pos 0) || le_ℤ (pos n_local) id) id

-- of one index, through the map
unfoldable pub mapped_id : ℕ → List ℤ → ℤ → ℤ
unfolding local_of
mapped_id n_local expert_map id =
    let n_global = length expert_map in
    let mapped =
      element_or (pos n_local) (get_elem? expert_map (clamp (max (n_global - 1) 0) id)) in
    local_of n_local
      (ltℤ id (pos 0) || le_ℤ (pos n_global) id || ltℤ mapped (pos 0) || le_ℤ (pos n_local) mapped)
      mapped

unfoldable pub map_topk_to_local : List ℤ → ℕ → Option (List ℤ) → List ℤ
unfolding plain_id mapped_id
map_topk_to_local ids n_local none = map (λ id. plain_id n_local id) ids
map_topk_to_local ids n_local (some expert_map) = map (λ id. mapped_id n_local expert_map id) ids
