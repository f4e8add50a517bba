-- ===== src/Watchdog/Series/Windows.antt =====
-- What an analysis says of the two windows that it compares.
use glm5_3_flash_2x_dgx_spar.Prelude.{
  ℕ, zero, suc, ◌+◌, ◌-◌, ◌*◌, ◌≤◌, ◌<◌, ◌≡◌, ◌≢◌, ◌↔◌, inl, inr, sym, ap, subst, true, false, not,
  ◌&&◌, Option, none, some, List, [], ◌∷◌, length, take, drop, ltb, arith, length-take, length-drop,
  Bool-cases, List-cases, Result-cases, ok,
}
use glm5_3_flash_2x_dgx_spar.Number.{Float, IsOrdered, ◌-ᶠ◌, ◌*ᶠ◌, ◌≤ᶠ◌, ◌<ᶠ◌}
use glm5_3_flash_2x_dgx_spar.Number.Median.{median}
use glm5_3_flash_2x_dgx_spar.Number.Median.Majority.{IsPositive, median-le}
use glm5_3_flash_2x_dgx_spar.Number.Median.Defined.{median-some}
use glm5_3_flash_2x_dgx_spar.Watchdog.{degraded, insufficient, SeriesAnalysis}
use glm5_3_flash_2x_dgx_spar.Watchdog.Series.{
  clean, too_few, judge, median_of, compare_windows, recent_part, baseline_part, analyze_clean,
  analyze_series,
}

module _ {F : Type 0} ⦃f : Float F⦄ where
  clean-IsPositive : (vs : List (Option F)) → IsPositive (clean vs)
  unfolding clean
  clean-IsPositive [] = tt
  clean-IsPositive (none ∷ vs) = clean-IsPositive vs
  clean-IsPositive (some v ∷ vs) = elim (Bool-cases (f.finite v && f.of_ℕ 0 <ᶠ v)) [
    | inl e ↦ rw (e, clean) (e, clean-IsPositive vs)
    | inr e ↦ rw (e, clean) (clean-IsPositive vs)
  ]

  drop-IsPositive : (n : ℕ) (vs : List F) → IsPositive vs → IsPositive (drop n vs)
  drop-IsPositive zero vs h = h
  drop-IsPositive (suc n) [] h = tt
  drop-IsPositive (suc n) (v ∷ vs) h = drop-IsPositive n vs h.1

  median_of-eq-median : (vs : List F) {m : F} → median_of vs ≡ ok m → median vs ≡ some m
  unfolding median_of
  median_of-eq-median vs h = ground arith

  -- the parts of a comparison that returned
  compare_windows-ok :
      (n : ℕ) (bs rs : List F) (window : ℕ) (threshold : F) {a : SeriesAnalysis F}
      → compare_windows n bs rs window threshold ≡ ok a
      → (b : F) × ((r : F) × (median rs ≡ some r) × (judge n b r rs window threshold ≡ a))
  unfolding compare_windows
  compare_windows-ok n bs rs window threshold h = elim (Result-cases (median_of bs)) [
    | inr (x, e) ↦ absurd (cc (rw e at h))
    | inl (b, e) ↦ elim (Result-cases (median_of rs)) [
      | inr (x, g) ↦ absurd (cc (rw (e, g) at h))
      | inl (r, g) ↦ (b, (r, median_of-eq-median rs g, cc (rw (e, g) at h)))
    ]
  ]

  judge-status :
      (n : ℕ) (b r : F) (rs : List F) (window : ℕ) (threshold : F)
      → (judge n b r rs window threshold).status ≢ insufficient
  unfolding judge
  judge-status n b r rs window threshold h = ground arith

  judge-majority :
      (laws : IsOrdered f) (n : ℕ) (b r : F) (rs : List F) (window : ℕ) (threshold : F)
      → IsPositive rs
      → median rs ≡ some r
      → length rs ≡ window
      → (judge n b r rs window threshold).status ≡ degraded
      → window ≤ 2 * (judge n b r rs window threshold).recent_below_cutoff
  unfolding judge
  judge-majority laws n b r rs window threshold fin med len low =
      let cutoff = b *ᶠ (f.of_ℕ 1 -ᶠ threshold) in
      elim (Bool-cases (r ≤ᶠ cutoff)) [
        | inl e ↦ omega (arith, median-le laws rs r cutoff fin med e)
        | inr e ↦ absurd (cc (rw e at low))
      ]

  length-recent_part :
      (vs : List F) (window : ℕ) → window ≤ length vs → length (recent_part vs window) ≡ window
  length-recent_part vs window h = omega (arith, length-drop (length vs - window) vs)

  -- with enough values the baseline window is not empty
  length-baseline_part :
      (vs : List F) (window baseline_window : ℕ)
      → window < length vs
      → 1 ≤ baseline_window
      → 1 ≤ length (baseline_part vs window baseline_window)
  length-baseline_part vs window k h g =
      let older = take (length vs - window) vs in
      omega (arith, length-drop (length vs - window - k) older, length-take (length vs - window) vs)

  -- how an analysis of clean values came about
  data Analysed (vs : List F) (window : ℕ) (threshold : F) (a : SeriesAnalysis F) : Type 0 where
    few :
        length vs ≤ window
        → too_few (length vs) window threshold ≡ a
        → Analysed vs window threshold a
    judged :
        (b r : F)
        → window < length vs
        → median (recent_part vs window) ≡ some r
        → judge (length vs) b r (recent_part vs window) window threshold ≡ a
        → Analysed vs window threshold a

  analyze_clean-Analysed :
      (vs : List F) (window : ℕ) (threshold : F) (k : ℕ) {a : SeriesAnalysis F}
      → 1 ≤ k
      → analyze_clean vs window threshold k ≡ ok a
      → Analysed vs window threshold a
  unfolding analyze_clean
  analyze_clean-Analysed vs window threshold k pos h =
      elim (Bool-cases (ltb (length vs) (window + 1))) [
        | inl e ↦ few (ground arith) (cc (rw e at h))
        | inr e ↦
            let enough : window < length vs = ground arith in
            elim (List-cases (baseline_part vs window k)) [
              | inl g ↦
                  let some_old = length-baseline_part vs window k enough pos in
                  absurd (let none_old : 1 ≤ 0 = rw g at some_old in omega arith)
              | inr (b, (bs, g)) ↦
                  let (m, (r, med, same)) =
                    compare_windows-ok (length vs) (b ∷ bs) (recent_part vs window) window threshold
                      (rw (e, analyze_clean, g) at h) in
                  judged m r enough med same
            ]
      ]

  analyze_series-Analysed :
      (values : List (Option F)) (window : ℕ) (threshold : F) (k : ℕ) {a : SeriesAnalysis F}
      → analyze_series values window threshold k ≡ ok a
      → Analysed (clean values) window threshold a
  unfolding analyze_series
  analyze_series-Analysed values window threshold k h = elim (Bool-cases (ltb window 1)) [
    | inl e ↦ absurd (cc (rw e at h))
    | inr e ↦ elim (Bool-cases (ltb k 1)) [
      | inl g ↦ absurd (cc (rw (e, g) at h))
      | inr g ↦ elim (Bool-cases (not (f.of_ℕ 0 <ᶠ threshold && threshold <ᶠ f.of_ℕ 1))) [
        | inl t ↦ absurd (cc (rw (e, g, t) at h))
        | inr t ↦
            analyze_clean-Analysed (clean values) window threshold k (ground arith)
              (rw (e, g, t) at h)
      ]
    ]
  ]

  Analysed-insufficient :
      (vs : List F) (window : ℕ) (threshold : F) {a : SeriesAnalysis F}
      → Analysed vs window threshold a
      → (a.status ≡ insufficient) ↔ (length vs ≤ window)
  unfolding too_few
  Analysed-insufficient vs window threshold (few h e) = (λ s. h, λ s. sym (ap (λ c. c.status) e))
  Analysed-insufficient vs window threshold (judged b r h med e) =
      let rs = recent_part vs window in
      (
        λ s. absurd (judge-status (length vs) b r rs window threshold (rw (← e) at s)),
        λ s. absurd (omega arith),
      )

  Analysed-majority :
      (laws : IsOrdered f) (vs : List F) (window : ℕ) (threshold : F) {a : SeriesAnalysis F}
      → IsPositive vs
      → Analysed vs window threshold a
      → a.status ≡ degraded
      → window ≤ 2 * a.recent_below_cutoff
  unfolding too_few
  Analysed-majority laws vs window threshold fin (few h e) low = absurd (cc (rw (← e) at low))
  Analysed-majority laws vs window threshold fin (judged b r h med e) low =
      let rs = recent_part vs window in
      let fin_rs = drop-IsPositive (length vs - window) vs fin in
      let len = length-recent_part vs window (omega arith) in
      subst (λ c. window ≤ 2 * c.recent_below_cutoff) e
        (judge-majority laws (length vs) b r rs window threshold fin_rs med len (rw (← e) at low))

  -- An analysis that returns has the status "insufficient" exactly when no more than `window` of the
  -- values are finite and positive.
  pub analyze_series-insufficient :
      (values : List (Option F)) (window : ℕ) (threshold : F) (baseline_window : ℕ)
      {a : SeriesAnalysis F}
      → analyze_series values window threshold baseline_window ≡ ok a
      → (a.status ≡ insufficient) ↔ (length (clean values) ≤ window)
  analyze_series-insufficient values window threshold k h =
      Analysed-insufficient (clean values) window threshold
        (analyze_series-Analysed values window threshold k h)

  -- A series is called degraded only where at least half of the recent window is at or below the
  -- cutoff, for floats that are ordered as documented.
  pub analyze_series-majority :
      (laws : IsOrdered f) (values : List (Option F)) (window : ℕ) (threshold : F)
      (baseline_window : ℕ) {a : SeriesAnalysis F}
      → analyze_series values window threshold baseline_window ≡ ok a
      → a.status ≡ degraded
      → window ≤ 2 * a.recent_below_cutoff
  analyze_series-majority laws values window threshold k h =
      Analysed-majority laws (clean values) window threshold (clean-IsPositive values)
        (analyze_series-Analysed values window threshold k h)

  median_of-ok : (vs : List F) → 1 ≤ length vs → (m : F) × (median_of vs ≡ ok m)
  unfolding median_of
  median_of-ok vs h = let (m, e) = median-some vs h in (m, rw (e, median_of))

  compare_windows-total :
      (n : ℕ) (bs rs : List F) (window : ℕ) (threshold : F)
      → 1 ≤ length bs
      → 1 ≤ length rs
      → (a : SeriesAnalysis F) × (compare_windows n bs rs window threshold ≡ ok a)
  unfolding compare_windows
  compare_windows-total n bs rs window threshold hb hr =
      let (b, eb) = median_of-ok bs hb in
      let (r, er) = median_of-ok rs hr in
      (judge n b r rs window threshold, rw (eb, compare_windows, er))

  analyze_clean-total :
      (vs : List F) (window : ℕ) (threshold : F) (k : ℕ)
      → 1 ≤ window
      → (a : SeriesAnalysis F) × (analyze_clean vs window threshold k ≡ ok a)
  unfolding analyze_clean
  analyze_clean-total vs window threshold k pos =
      let few = too_few (length vs) window threshold in
      elim (Bool-cases (ltb (length vs) (window + 1))) [
        | inl e ↦ (few, rw e)
        | inr e ↦ elim (List-cases (baseline_part vs window k)) [
          | inl g ↦ (few, rw (e, analyze_clean, g))
          | inr (b, (bs, g)) ↦
              let rs = recent_part vs window in
              let len = length-recent_part vs window (ground arith) in
              let (a, done) =
                compare_windows-total (length vs) (b ∷ bs) rs window threshold (omega arith)
                  (omega arith) in
              (a, rw (e, analyze_clean, g) done)
        ]
      ]

  -- With options that `main` accepts the analysis of any series returns.
  pub analyze_series-total :
      (values : List (Option F)) (window : ℕ) (threshold : F) (baseline_window : ℕ)
      → 1 ≤ window
      → 1 ≤ baseline_window
      → (f.of_ℕ 0 <ᶠ threshold && threshold <ᶠ f.of_ℕ 1) ≡ true
      → (a : SeriesAnalysis F) × (analyze_series values window threshold baseline_window ≡ ok a)
  unfolding analyze_series
  analyze_series-total values window threshold k hw hk ht =
      let wide : ltb window 1 ≡ false = ground arith in
      let deep : ltb k 1 ≡ false = ground arith in
      let (a, e) = analyze_clean-total (clean values) window threshold k hw in
      (a, rw (wide, deep, ht) e)
