-- ===== src/Exl3/Stats.antt =====
-- `record_exl3_fat_expert_stats`: what the routing of a prefill adds to the counters.
pub mod Sums
use glm5_3_flash_2x_dgx_spar.Prelude.{
  ℕ, zero, suc, ◌+◌, max, Bool, true, false, List, [], ◌∷◌, length, count_if, ltb, leb, ◌==◌,
  if◌then◌else◌,
}

-- `_FAT_BUCKET_EDGES`
abbrev pub bucket_edges : List ℕ
bucket_edges = 16 ∷ 32 ∷ 64 ∷ 128 ∷ 256 ∷ 512 ∷ 1024 ∷ 2048 ∷ []

-- `_FAT_STATS`
pub record FatStats : Type 0 where
  pub layers : ℕ
  pub fat_layers : ℕ
  pub fat_experts : ℕ
  pub max_rows : ℕ
  pub sum_max_rows : ℕ
  pub hist : List ℕ

abbrev zeros : ℕ → List ℕ
zeros zero = []
zeros (suc n) = 0 ∷ zeros n

-- `reset_exl3_fat_expert_stats()`, which sets what the module starts with
abbrev pub no_stats : FatStats
no_stats = record {
  layers = 0;
  fat_layers = 0;
  fat_experts = 0;
  max_rows = 0;
  sum_max_rows = 0;
  hist = zeros (suc (length bucket_edges));
}

-- the first edge that `n` does not exceed, or the bucket after them
bucket_from : List ℕ → ℕ → ℕ
bucket_from [] n = 0
bucket_from (edge ∷ edges) n =
    let later = bucket_from edges n in if leb n edge then 0 else suc later

-- `_fat_bucket(n)`
unfoldable pub fat_bucket : ℕ → ℕ
unfolding bucket_from
fat_bucket n = bucket_from bucket_edges n

-- `hist[i] += 1`
add_at : ℕ → List ℕ → List ℕ
add_at i [] = []
add_at zero (h ∷ hist) = suc h ∷ hist
add_at (suc i) (h ∷ hist) = h ∷ add_at i hist

-- `max(counts, default=0)`
unfoldable pub largest_count : List ℕ → ℕ
largest_count [] = 0
largest_count (n ∷ ns) = max n (largest_count ns)

-- one call with a host copy of the counts; `cap` is `temp_rows_fused()`
unfoldable pub record_stats : ℕ → List ℕ → FatStats → FatStats
unfolding fat_bucket add_at largest_count
record_stats cap counts s =
    let rows = largest_count counts in
    let fat = count_if (λ n. ltb cap n) counts in
    record {
      layers = suc s.layers;
      fat_layers = if fat == 0 then s.fat_layers else suc s.fat_layers;
      fat_experts = s.fat_experts + fat;
      max_rows = if ltb s.max_rows rows then rows else s.max_rows;
      sum_max_rows = s.sum_max_rows + rows;
      hist = add_at (fat_bucket rows) s.hist;
    }

-- calls in a row
unfoldable pub record_all : ℕ → List (List ℕ) → FatStats → FatStats
unfolding record_stats
record_all cap [] s = s
record_all cap (counts ∷ calls) s = record_all cap calls (record_stats cap counts s)
