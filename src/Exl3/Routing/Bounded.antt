-- ===== src/Exl3/Routing/Bounded.antt =====
-- Where the local experts lie.
use glm5_3_flash_2x_dgx_spar.Prelude.{
  ℕ, ◌≡◌, refl, Bool, true, false, ◌&&◌, ◌||◌, Option, none, some, List, [], ◌∷◌, map, all, length,
  arith,
}
use glm5_3_flash_2x_dgx_spar.Number.Int.{ℤ, pos, le_ℤ}
use glm5_3_flash_2x_dgx_spar.Exl3.Routing.{ltℤ, local_of, plain_id, mapped_id, map_topk_to_local}

-- from 0 to `n_local`, the number past the last expert
abbrev pub is_local : ℕ → ℤ → Bool
is_local n_local i = le_ℤ (pos 0) i && le_ℤ i (pos n_local)

local_of-is_local :
    (n_local : ℕ) (outside : Bool) (mapped : ℤ)
    → is_local n_local
        (local_of n_local (outside || ltℤ mapped (pos 0) || le_ℤ (pos n_local) mapped) mapped)
      ≡ true
unfolding local_of
local_of-is_local n_local outside mapped = ground arith

plain_id-is_local : (n_local : ℕ) (id : ℤ) → is_local n_local (plain_id n_local id) ≡ true
unfolding plain_id
plain_id-is_local n_local id = local_of-is_local n_local false id

mapped_id-is_local :
    (n_local : ℕ) (expert_map : List ℤ) (id : ℤ)
    → is_local n_local (mapped_id n_local expert_map id) ≡ true
unfolding mapped_id
mapped_id-is_local n_local expert_map id =
    local_of-is_local n_local (ltℤ id (pos 0) || le_ℤ (pos (length expert_map)) id) _

all-map :
    (p : ℤ → Bool) (g : ℤ → ℤ)
    → ((i : ℤ) → p (g i) ≡ true)
    → (is : List ℤ) → all p (map g is) ≡ true
all-map p g h [] = refl
all-map p g h (i ∷ is) = ground (arith, h i, all-map p g h is)

-- Whatever the indices and the map, every local expert is from 0 to the number past the last one.
pub map_topk_to_local-is_local :
    (ids : List ℤ) (n_local : ℕ) (expert_map : Option (List ℤ))
    → all (is_local n_local) (map_topk_to_local ids n_local expert_map) ≡ true
unfolding map_topk_to_local
map_topk_to_local-is_local ids n_local none =
    all-map (is_local n_local) _ (plain_id-is_local n_local) ids
map_topk_to_local-is_local ids n_local (some m) =
    all-map (is_local n_local) _ (mapped_id-is_local n_local m) ids
