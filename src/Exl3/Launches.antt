-- ===== src/Exl3/Launches.antt =====
-- `apply_exl3_fused_moe` and `_exl3_moe_row_tiles`: which launches and fallbacks a layer's routing gets.
-- The routing is the number of rows of each expert in the buffer that is sorted by expert, and rows are
-- places in that buffer; what a launch computes is outside, as are the errors of a call without pointer
-- tables or without a symbol of the extension.
pub mod Spans
pub mod Covered
use glm5_3_flash_2x_dgx_spar.Prelude.{
  ℕ, zero, suc, ◌+◌, ◌-◌, ◌*◌, ◌/◌, min, Bool, true, false, not, ◌&&◌, ◌||◌, none, some, String,
  str_eq, Dict, get, List, [], ◌∷◌, ◌++◌, map, count_if, ltb, leb, ◌==◌, if◌then◌else◌,
}
use glm5_3_flash_2x_dgx_spar.Exl3.Tiers.{Tier, legacy, sorted, batched, kernel, is_enabled}
use glm5_3_flash_2x_dgx_spar.Exl3.Stats.{FatStats, largest_count, record_stats}

-- a launch of `exl3_moe` with the counts and the rows, expert after expert, that it is given, and a
-- fallback with the rows of each expert that it goes through
pub data Work : Type 0 where
  launch : List ℕ → List ℕ → Work
  fallback : Tier → List (List ℕ) → Work

pub data LastFallback : Type 0 where
  no_fallback row_tile : LastFallback
  of_tier : Tier → LastFallback

pub data FatReason : Type 0 where
  no_fat_experts thin_only row_tile_preempts_fat kernel_ok batched_ok degraded_shared_suh sorted_ok
        legacy_default :
      FatReason

-- what `_EXL3_FAT_DIAG` counts here: `fallback_calls` and `fallback_reasons` as lists with an entry for
-- each increment; `_FAT_STATS`; and the layer's `_exl3_last_fat_fallback` and `_exl3_last_fat_reason`
pub record Diag : Type 0 where
  pub prefill_layer_calls : ℕ
  pub thin_calls : ℕ
  pub row_tile_calls : ℕ
  pub fat_expert_runs : ℕ
  pub direct_calls : ℕ
  pub scatter_calls : ℕ
  pub fallback_calls : List Tier
  pub fallback_reasons : List FatReason
  pub stats : FatStats
  pub last_fallback : LastFallback
  pub last_reason : FatReason

abbrev sum_of : List ℕ → ℕ
sum_of [] = 0
sum_of (n ∷ ns) = n + sum_of ns

-- `n` rows from `start` on
abbrev pub span : ℕ → ℕ → List ℕ
span start zero = []
span start (suc n) = start ∷ span (suc start) n

-- the launch on the whole sorted buffer
abbrev launch_all : List ℕ → Work
launch_all counts = launch counts (span 0 (sum_of counts))

-- `(counts - row0).clamp(min=0, max=tile)`
abbrev tile_counts : ℕ → ℕ → List ℕ → List ℕ
tile_counts row0 tile counts = map (λ n. min tile (n - row0)) counts

-- `src = prefix[expert_id] + row0 + local_row`, where `prefix` is that of the first of the counts
abbrev tile_rows : ℕ → ℕ → ℕ → List ℕ → List ℕ
tile_rows row0 tile prefix [] = []
tile_rows row0 tile prefix (n ∷ counts) =
    span (prefix + row0) (min tile (n - row0)) ++ tile_rows row0 tile (prefix + n) counts

-- the tiles from `t`, as many as are left
unfoldable pub row_tiles : ℕ → ℕ → ℕ → List ℕ → List Work
row_tiles tile t zero counts = []
row_tiles tile t (suc left) counts =
    let rest = row_tiles tile (suc t) left counts in
    let now = tile_counts (t * tile) tile counts in
    if sum_of now == 0 then rest else launch now (tile_rows (t * tile) tile 0 counts) ∷ rest

-- `(max_rows + tile - 1) // tile`
abbrev pub n_tiles : ℕ → ℕ → ℕ
n_tiles max_rows tile = (max_rows + tile - 1) / tile

-- the fallbacks go through all rows of the experts above the cap, `token_sorted[start:offset]`
abbrev fat_rows : ℕ → ℕ → List ℕ → List (List ℕ)
fat_rows cap start [] = []
fat_rows cap start (n ∷ counts) =
    let rest = fat_rows cap (start + n) counts in (if leb n cap then [] else span start n) ∷ rest

-- the tier that runs, and the reason that is recorded
choose_fallback : Bool → Bool → Bool → Bool → Tier × FatReason
choose_fallback want_kernel want_batched use_sorted shared_suh =
    if want_batched && shared_suh
    then if want_kernel then (kernel, kernel_ok) else (batched, batched_ok)
    else if use_sorted
    then (sorted, if want_batched then degraded_shared_suh else sorted_ok)
    else (legacy, legacy_default)

abbrev fallback_of : Dict String → Bool → Tier × FatReason
fallback_of env shared_suh =
    let want_kernel = is_enabled "EXL3_FAT_KERNEL" env in
    let want_batched = is_enabled "EXL3_FAT_BATCHED" env || want_kernel in
    choose_fallback want_kernel want_batched (is_enabled "EXL3_FAT_SORTED" env || want_batched)
      shared_suh

-- `os.environ.get("EXL3_FAT_EXPERT_LOG", "1") != "0"`
fat_expert_log_enabled : Dict String → Bool
fat_expert_log_enabled env = elim (get "EXL3_FAT_EXPERT_LOG" env) [
  | none ↦ true
  | some v ↦ not (str_eq v "0")
]

-- at the start of a call that exceeds the cap; `log_cap` is `temp_rows_fused()`
count_prefill : Dict String → ℕ → List ℕ → Diag → Diag
unfolding fat_expert_log_enabled
count_prefill env log_cap counts d = record d {
  prefill_layer_calls = suc d.prefill_layer_calls;
  stats = if fat_expert_log_enabled env then record_stats log_cap counts d.stats else d.stats;
}

count_thin : Diag → Diag
count_thin d = record d {
  thin_calls = suc d.thin_calls;
  fallback_reasons = d.fallback_reasons ++ (thin_only ∷ []);
}

count_row_tile : Diag → Diag
count_row_tile d = record d {
  row_tile_calls = suc d.row_tile_calls;
  fallback_reasons = d.fallback_reasons ++ (row_tile_preempts_fat ∷ []);
  last_fallback = row_tile;
  last_reason = row_tile_preempts_fat;
}

-- one call of each kernel for each fat expert, in the tier that has them
abbrev kernel_runs : Tier → ℕ → ℕ
kernel_runs legacy n = 0
kernel_runs sorted n = 0
kernel_runs batched n = 0
kernel_runs kernel n = n

count_fallback : ℕ → List ℕ → Tier × FatReason → Diag → Diag
count_fallback cap counts (tier, reason) d =
    let fat = count_if (λ n. ltb cap n) counts in
    record d {
      fat_expert_runs = d.fat_expert_runs + fat;
      direct_calls = d.direct_calls + kernel_runs tier fat;
      scatter_calls = d.scatter_calls + kernel_runs tier fat;
      fallback_calls = d.fallback_calls ++ (tier ∷ []);
      fallback_reasons = d.fallback_reasons ++ (reason ∷ []);
      last_fallback = of_tier tier;
      last_reason = reason;
    }

-- the labels of an earlier call are dropped
forget_last : Diag → Diag
forget_last d = record d { last_fallback = no_fallback; last_reason = no_fat_experts }

-- a prefill of more tokens than the cap. The one launch comes before the statistics where a batched
-- fallback may follow, and after them elsewhere.
prefill_moe : Dict String → Bool → ℕ → List ℕ → Diag → List Work × Diag
unfolding row_tiles choose_fallback count_thin count_row_tile count_fallback
prefill_moe env shared_suh cap counts d =
    let max_rows = largest_count counts in
    let chosen = fallback_of env shared_suh in
    if leb max_rows cap
    then (launch_all counts ∷ [], count_thin d)
    else if is_enabled "EXL3_MOE_ROW_TILE" env
    then (row_tiles cap 0 (n_tiles max_rows cap) counts, count_row_tile d)
    else (
      launch_all counts ∷ fallback chosen.0 (fat_rows cap 0 counts) ∷ [],
      count_fallback cap counts chosen d,
    )

-- `cap` is the number of rows of the buffers
unfoldable pub fused_moe : Dict String → Bool → ℕ → ℕ → ℕ → List ℕ → Diag → List Work × Diag
unfolding prefill_moe count_prefill forget_last
fused_moe env shared_suh log_cap cap tokens counts d =
    let fresh = forget_last d in
    if leb tokens cap
    then (launch_all counts ∷ [], fresh)
    else prefill_moe env shared_suh cap counts (count_prefill env log_cap counts fresh)
