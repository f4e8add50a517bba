-- ===== src/Power/Stats/Ranks.antt =====
-- Where a percentile lies, and that the statistics of any series are defined.
use glm5_3_flash_2x_dgx_spar.Prelude.{
  ℕ, zero, suc, sym, subst, not, All, ◌<◌, ◌-◌, ◌≤◌, min, ◌≡◌, refl, true, some, List, [], ◌∷◌,
  length, get_elem?, ok, arith, count_if, Bool-cases, inl, inr,
}
use glm5_3_flash_2x_dgx_spar.Number.{Float, IsOrdered, ◌*ᶠ◌, ◌/ᶠ◌, ◌≤ᶠ◌}
use glm5_3_flash_2x_dgx_spar.Number.Median.{sorted}
use glm5_3_flash_2x_dgx_spar.Number.Median.Majority.{
  IsFinite, IsAscending, sorted-IsAscending, count-at, count_if-sorted, All-sorted, at_index,
}
use glm5_3_flash_2x_dgx_spar.Number.Median.Defined.{get_elem?-some, length-sorted, median-some}
use glm5_3_flash_2x_dgx_spar.Power.Stats.{Stats, percentile, stats_of, series_stats}

module _ {F : Type 0} ⦃f : Float F⦄ where
  -- the value that a percentile picks
  percentile-at :
      (v : F) (vs : List F) (fraction : F) (c : ℕ)
      → f.ceil (fraction *ᶠ f.of_ℕ (length (v ∷ vs))) ≡ some c
      → (m : F) × ((get_elem? (sorted (v ∷ vs)) (min (length (v ∷ vs) - 1) (c - 1)) ≡ some m)
          × (percentile (v ∷ vs) fraction ≡ ok (some m)))
  unfolding percentile
  percentile-at v vs fraction c h =
      let i = min (length (v ∷ vs) - 1) (c - 1) in
      let (m, e) = get_elem?-some (sorted (v ∷ vs)) i (omega (arith, length-sorted (v ∷ vs))) in
      (m, (e, rw (h, e)))

  le_self : (laws : IsOrdered f) (m : F) → f.finite m ≡ true → (m ≤ᶠ m) ≡ true
  le_self laws m fin = elim (Bool-cases (m ≤ᶠ m)) [
    | inl e ↦ e
    | inr e ↦ laws.le_total m m fin fin e
  ]

  -- a float is below another: it is not at least as large
  none_below :
      (m : F) (xs : List F) → All (λ x. (m ≤ᶠ x) ≡ true) xs → count_if (λ x. not (m ≤ᶠ x)) xs ≤ 0
  none_below m [] h = omega arith
  none_below m (x ∷ xs) h = let e = h.0 in rw (e, count_if) (none_below m xs h.1)

  -- what stands at place `i` of an ascending list has `i` values at most below itself
  count-below :
      (xs : List F) (i : ℕ) (m : F)
      → IsAscending xs
      → get_elem? xs i ≡ some m
      → (m ≤ᶠ m) ≡ true
      → count_if (λ x. not (m ≤ᶠ x)) xs ≤ i
  count-below [] i m a e le = absurd (cc e)
  count-below (x ∷ xs) zero m a e le =
      let same : x ≡ m = cc e in
      none_below m (x ∷ xs) (
        subst (λ y. (m ≤ᶠ y) ≡ true) (sym same) le,
        subst (λ y. All (λ z. (y ≤ᶠ z) ≡ true) xs) same a.0,
      )
  count-below (x ∷ xs) (suc i) m a e le =
      let later = count-below xs i m a.1 e le in
      elim (Bool-cases (m ≤ᶠ x)) [
        | inl g ↦ rw (g, count_if) (omega (arith, later))
        | inr g ↦ rw (g, count_if) (omega (arith, later))
      ]

  -- The percentile of some finite values for which the rank `c` is asked exists and is the value of that
  -- rank: at least `c` of the values, or all, are at or below it, and fewer than `c`, or none where `c`
  -- is 0, and fewer than all are below it, for floats that are ordered as documented.
  pub percentile-count_if :
      (laws : IsOrdered f) (v : F) (vs : List F) (fraction : F) (c : ℕ)
      → IsFinite (v ∷ vs)
      → f.ceil (fraction *ᶠ f.of_ℕ (length (v ∷ vs))) ≡ some c
      → (m : F) × ((percentile (v ∷ vs) fraction ≡ ok (some m))
          × ((min c (length (v ∷ vs)) ≤ count_if (λ x. x ≤ᶠ m) (v ∷ vs))
              × ((count_if (λ x. not (m ≤ᶠ x)) (v ∷ vs) ≤ c - 1)
                  × (count_if (λ x. not (m ≤ᶠ x)) (v ∷ vs) < length (v ∷ vs)))))
  percentile-count_if laws v vs fraction c fin h =
      let i = min (length (v ∷ vs) - 1) (c - 1) in
      let xs = sorted (v ∷ vs) in
      let (m, (at, done)) = percentile-at v vs fraction c h in
      let finite_m =
        at_index laws (λ x. f.finite x ≡ true) xs i
          (All-sorted (λ x. f.finite x ≡ true) (v ∷ vs) fin) at in
      let asc = sorted-IsAscending laws (v ∷ vs) fin in
      let enough = count-at laws xs i m m asc at (le_self laws m finite_m) in
      let few = count-below xs i m asc at (le_self laws m finite_m) in
      let same = count_if-sorted (λ x. not (m ≤ᶠ x)) (v ∷ vs) in
      (
        m,
        (
          done,
          (
            omega (arith, enough, count_if-sorted (λ x. x ≤ᶠ m) (v ∷ vs)),
            (omega (arith, few, same), omega (arith, few, same)),
          ),
        ),
      )

  -- The statistics of any series are defined, with its length, where the rank of the 95th percentile is a number.
  pub series_stats-total :
      (vs : List F) (c : ℕ)
      → f.ceil (f.of_ℕ 95 /ᶠ f.of_ℕ 100 *ᶠ f.of_ℕ (length vs)) ≡ some c
      → (s : Stats F) × ((series_stats vs ≡ ok s) × (s.samples ≡ length vs))
  unfolding series_stats
  series_stats-total [] c h = (_, (refl, refl))
  series_stats-total (v ∷ vs) c h =
      let (middle, e) = median-some (v ∷ vs) (omega arith) in
      let (m, (at, g)) = percentile-at v vs (f.of_ℕ 95 /ᶠ f.of_ℕ 100) c h in
      (stats_of v vs middle (some m), (rw (e, g), refl))
