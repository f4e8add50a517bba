-- ===== src/Exl3/Stats/Sums.antt =====
-- How the counters agree with one another.
use glm5_3_flash_2x_dgx_spar.Prelude.{
  ℕ, zero, suc, ◌+◌, ◌≤◌, ◌<◌, ◌≡◌, refl, List, [], ◌∷◌, length, arith,
}
use glm5_3_flash_2x_dgx_spar.Exl3.Stats.{
  bucket_edges, FatStats, bucket_from, fat_bucket, add_at, largest_count, record_stats, record_all,
}

abbrev sum : List ℕ → ℕ
sum [] = 0
sum (n ∷ ns) = n + sum ns

-- each layer is in one bucket, and the maximum and the fat layers are among those counted
abbrev pub IsConsistent : FatStats → Type 0
IsConsistent s =
    (sum s.hist ≡ s.layers)
    × ((length s.hist ≡ suc (length bucket_edges))
        × ((s.fat_layers ≤ s.layers)
            × ((s.fat_layers ≤ s.fat_experts) × (s.max_rows ≤ s.sum_max_rows))))

bucket_from-le : (edges : List ℕ) (n : ℕ) → bucket_from edges n ≤ length edges
unfolding bucket_from
bucket_from-le [] n = omega arith
bucket_from-le (e ∷ edges) n = ground (arith, bucket_from-le edges n)

sum-add_at : (i : ℕ) (hist : List ℕ) → i < length hist → sum (add_at i hist) ≡ suc (sum hist)
unfolding add_at
sum-add_at i [] h = absurd (omega arith)
sum-add_at zero (x ∷ hist) h = omega arith
sum-add_at (suc i) (x ∷ hist) h = omega (arith, sum-add_at i hist (omega arith))

length-add_at : (i : ℕ) (hist : List ℕ) → length (add_at i hist) ≡ length hist
unfolding add_at
length-add_at i [] = refl
length-add_at zero (x ∷ hist) = refl
length-add_at (suc i) (x ∷ hist) = omega (arith, length-add_at i hist)

record_stats-IsConsistent :
    (cap : ℕ) (counts : List ℕ) (s : FatStats)
    → IsConsistent s
    → IsConsistent (record_stats cap counts s)
unfolding record_stats fat_bucket
record_stats-IsConsistent cap counts s (total, (size, (layers, (experts, rows)))) =
    let b = bucket_from bucket_edges (largest_count counts) in
    let small = bucket_from-le bucket_edges (largest_count counts) in
    (
      omega (arith, sum-add_at b s.hist (omega (arith, small, size)), total),
      (
        omega (arith, length-add_at b s.hist, size),
        (ground (arith, layers), (ground (arith, experts), ground (arith, rows))),
      ),
    )

-- Any calls keep it that the histogram has its buckets and counts each layer once, that no more layers
-- are fat than were counted, or than fat experts were, and that the largest number of rows is no more
-- than the sum of those numbers.
pub record_all-IsConsistent :
    (cap : ℕ) (calls : List (List ℕ)) (s : FatStats)
    → IsConsistent s
    → IsConsistent (record_all cap calls s)
unfolding record_all
record_all-IsConsistent cap [] s h = h
record_all-IsConsistent cap (counts ∷ calls) s h =
    record_all-IsConsistent cap calls (record_stats cap counts s)
      (record_stats-IsConsistent cap counts s h)
