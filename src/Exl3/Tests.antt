-- ===== src/Exl3/Tests.antt =====
-- Runs on small inputs, and each theorem at an input that meets its hypotheses.
use glm5_3_flash_2x_dgx_spar.Prelude.{
  length, ℕ, ◌≡◌, refl, true, false, String, Dict, some, List, [], ◌∷◌, get, ok, arith, leb,
  if◌then◌else◌,
}
use glm5_3_flash_2x_dgx_spar.Number.Int.{ℤ, pos, negsuc}
use glm5_3_flash_2x_dgx_spar.Exl3.Tiers.{
  is_enabled, sorted, shared_suh_absent, configured_fat_tier, Symbols, resolve_exl3_fat_tier,
}
use glm5_3_flash_2x_dgx_spar.Exl3.Tiers.Closed.{IsResolved, resolve_exl3_fat_tier-IsResolved}
use glm5_3_flash_2x_dgx_spar.Exl3.Stats.{no_stats, largest_count, record_all}
use glm5_3_flash_2x_dgx_spar.Exl3.Stats.Sums.{IsConsistent, record_all-IsConsistent}
use glm5_3_flash_2x_dgx_spar.Exl3.Shards.{dim1, Tensor, trellis, narrow_tp, shard_exl3_col}
use glm5_3_flash_2x_dgx_spar.Exl3.Shards.Joined.{gather, narrow_tp-gather}
use glm5_3_flash_2x_dgx_spar.Exl3.Routing.{map_topk_to_local}
use glm5_3_flash_2x_dgx_spar.Exl3.Launches.{
  launch, fallback, no_fallback, no_fat_experts, Diag, row_tiles, n_tiles, fused_moe,
}

abbrev env : Dict String
env = ("EXL3_FAT_KERNEL", "1") ∷ ("EXL3_FAT_SORTED", "0") ∷ []

abbrev no_scatter : Symbols
no_scatter = record { moe = true; fat_gemm = true; fat_gemm_scatter = false }

-- the cap of the checkpoint comes before the symbols of the image
capped : resolve_exl3_fat_tier env false no_scatter ≡ ok (sorted, shared_suh_absent)
unfolding resolve_exl3_fat_tier configured_fat_tier get
capped = refl

resolve_exl3_fat_tier-IsResolved_example :
    IsResolved (configured_fat_tier env) true no_scatter (resolve_exl3_fat_tier env true no_scatter)
resolve_exl3_fat_tier-IsResolved_example = resolve_exl3_fat_tier-IsResolved env true no_scatter

abbrev calls : List (List ℕ)
calls = (3 ∷ 130 ∷ 7 ∷ []) ∷ [] ∷ (16 ∷ 17 ∷ []) ∷ []

counted : record_all 128 calls no_stats ≡ record {
  layers = 3;
  fat_layers = 1;
  fat_experts = 1;
  max_rows = 130;
  sum_max_rows = 147;
  hist = 1 ∷ 1 ∷ 0 ∷ 0 ∷ 1 ∷ 0 ∷ 0 ∷ 0 ∷ 0 ∷ [];
}
unfolding record_all
counted = refl

record_all-IsConsistent_example : IsConsistent (record_all 128 calls no_stats)
record_all-IsConsistent_example =
    record_all-IsConsistent 128 calls no_stats
      (refl, (refl, (omega arith, (omega arith, omega arith))))

abbrev weight : Tensor ℕ
weight = (1 ∷ 2 ∷ 3 ∷ 4 ∷ []) ∷ (5 ∷ 6 ∷ 7 ∷ 8 ∷ []) ∷ []

second : shard_exl3_col weight trellis 1 2 ≡ ok ((3 ∷ 4 ∷ []) ∷ (7 ∷ 8 ∷ []) ∷ [])
unfolding shard_exl3_col narrow_tp
second = refl

narrow_tp-gather_example : gather dim1 weight (λ r. narrow_tp weight dim1 r 2) 2 0 ≡ ok weight
narrow_tp-gather_example = narrow_tp-gather dim1 weight 2 (omega arith) refl (refl, (refl, tt))

-- below 0, past the map, mapped nowhere, mapped
abbrev ids : List ℤ
ids = negsuc 0 ∷ pos 3 ∷ pos 0 ∷ pos 1 ∷ []

mapped :
    map_topk_to_local ids 2 (some (negsuc 0 ∷ pos 1 ∷ pos 0 ∷ []))
    ≡ pos 2 ∷ pos 2 ∷ pos 2 ∷ pos 1 ∷ []
unfolding map_topk_to_local
mapped = refl

-- three tiles of 2 rows for experts of 1, 3 and 5; the third is for the last one alone
tiled :
    row_tiles 2 0 (n_tiles 5 2) (1 ∷ 3 ∷ 5 ∷ [])
    ≡ launch (1 ∷ 2 ∷ 2 ∷ []) (0 ∷ 1 ∷ 2 ∷ 4 ∷ 5 ∷ [])
      ∷ launch (0 ∷ 1 ∷ 2 ∷ []) (3 ∷ 6 ∷ 7 ∷ [])
      ∷ launch (0 ∷ 0 ∷ 1 ∷ []) (8 ∷ [])
      ∷ []
unfolding row_tiles
tiled = refl

abbrev no_diag : Diag
no_diag = record {
  prefill_layer_calls = 0;
  thin_calls = 0;
  row_tile_calls = 0;
  fat_expert_runs = 0;
  direct_calls = 0;
  scatter_calls = 0;
  fallback_calls = [];
  fallback_reasons = [];
  stats = no_stats;
  last_fallback = no_fallback;
  last_reason = no_fat_experts;
}

abbrev skip_fat : ℕ → List ℕ → List ℕ
skip_fat cap rows = if leb (length rows) cap then rows else []

-- without a shared input Hadamard the kernel is not used, and the sorted fallback runs
degraded :
    (fused_moe env false 2 2 9 (1 ∷ 3 ∷ 5 ∷ []) no_diag).0
    ≡ launch (1 ∷ 3 ∷ 5 ∷ []) (0 ∷ 1 ∷ 2 ∷ 3 ∷ 4 ∷ 5 ∷ 6 ∷ 7 ∷ 8 ∷ [])
      ∷ fallback sorted ([] ∷ (1 ∷ 2 ∷ 3 ∷ []) ∷ (4 ∷ 5 ∷ 6 ∷ 7 ∷ 8 ∷ []) ∷ [])
      ∷ []
unfolding fused_moe is_enabled get largest_count
degraded = refl

abbrev tiling : Dict String
tiling = ("EXL3_MOE_ROW_TILE", "1") ∷ []
