-- ===== src/Exl3/Tiers.antt =====
-- `configured_fat_tier` and `resolve_exl3_fat_tier`.
pub mod Closed
use glm5_3_flash_2x_dgx_spar.Prelude.{
  Bool, true, false, not, ◌&&◌, ◌||◌, none, some, String, str_eq, Dict, get, List, [], ◌∷◌, ◌++◌,
  Result, ok, err, if◌then◌else◌,
}

pub data Tier : Type 0 where
  legacy sorted batched kernel : Tier

pub data Reason : Type 0 where
  none_requested shared_suh_absent : Reason
  requested : Tier → Reason

-- `os.environ.get(name, "0") != "0"`
unfoldable pub is_enabled : String → Dict String → Bool
is_enabled name env = elim (get name env) [ none ↦ false | some v ↦ not (str_eq v "0") ]

-- the highest tier that is requested
unfoldable pub configured_fat_tier : Dict String → Tier
unfolding is_enabled
configured_fat_tier env =
    if is_enabled "EXL3_FAT_KERNEL" env
    then kernel
    else if is_enabled "EXL3_FAT_BATCHED" env
    then batched
    else if is_enabled "EXL3_FAT_SORTED" env
    then sorted
    else legacy

-- what the extension has of `exl3_moe`, `exl3_fat_gemm`, `exl3_fat_gemm_scatter`
pub record Symbols : Type 0 where
  pub moe : Bool
  pub fat_gemm : Bool
  pub fat_gemm_scatter : Bool

missing_symbols : Symbols → List String
missing_symbols s =
    (if s.fat_gemm then [] else "exl3_fat_gemm" ∷ [])
    ++ (if s.fat_gemm_scatter then [] else "exl3_fat_gemm_scatter" ∷ [])

-- the `RuntimeError` names what is missing
resolve_kernel : List String → Result (List String) (Tier × Reason)
resolve_kernel [] = ok (kernel, requested kernel)
resolve_kernel (m ∷ ms) = err (m ∷ ms)

resolve_shared : Tier → Symbols → Result (List String) (Tier × Reason)
unfolding missing_symbols resolve_kernel
resolve_shared legacy s = ok (legacy, none_requested)
resolve_shared sorted s = ok (sorted, requested sorted)
resolve_shared batched s = ok (batched, requested batched)
resolve_shared kernel s = resolve_kernel (missing_symbols s)

-- without a shared input Hadamard the tier is at most sorted
resolve_unshared : Tier → Result (List String) (Tier × Reason)
resolve_unshared legacy = ok (legacy, none_requested)
resolve_unshared sorted = ok (sorted, requested sorted)
resolve_unshared batched = ok (sorted, shared_suh_absent)
resolve_unshared kernel = ok (sorted, shared_suh_absent)

unfoldable pub resolve_exl3_fat_tier :
    Dict String → Bool → Symbols → Result (List String) (Tier × Reason)
unfolding resolve_shared resolve_unshared
resolve_exl3_fat_tier env shared_suh s =
    let tier = configured_fat_tier env in
    if shared_suh then resolve_shared tier s else resolve_unshared tier
