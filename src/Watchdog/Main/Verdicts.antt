-- ===== src/Watchdog/Main/Verdicts.antt =====
-- The exit code against the analyses and errors of the report, and what a run does not read.
use glm5_3_flash_2x_dgx_spar.Prelude.{
  ℕ, ◌≡◌, ◌↔◌, inl, inr, refl, subst, true, false, not, ◌||◌, List, [], ◌∷◌, any, keep_if, arith,
  is_some, Bool-cases, Result-cases, ok,
}
use glm5_3_flash_2x_dgx_spar.Number.{Float}
use glm5_3_flash_2x_dgx_spar.Text.{Text}
use glm5_3_flash_2x_dgx_spar.Watchdog.Sources.{
  analyze_log_file, collect_metrics_files, World, Scrape, SourceReport,
}
use glm5_3_flash_2x_dgx_spar.Watchdog.Main.{
  Args, Progress, Report, reported, is_degraded, is_healthy, is_insufficient, is_empty, status_of,
  result, is_refused, metrics_stage, log_stage, read_log, analyze_with, conclude, main,
}

module _ {F : Type 0} where
  usable_degraded :
      (rs : List (SourceReport F))
      → any (λ r. is_degraded (status_of r)) (keep_if (λ r. not (is_insufficient (status_of r))) rs)
        ≡ any (λ r. is_degraded (status_of r)) rs
  usable_degraded [] = refl
  usable_degraded (r ∷ rs) = ground (arith, usable_degraded rs)

  -- with no degraded analysis, the usable ones are the healthy ones
  usable_healthy :
      (rs : List (SourceReport F))
      → any (λ r. is_degraded (status_of r)) rs ≡ false
      → is_empty (keep_if (λ r. not (is_insufficient (status_of r))) rs)
        ≡ not (any (λ r. is_healthy (status_of r)) rs)
  usable_healthy [] h = refl
  usable_healthy (r ∷ rs) h = ground (arith, usable_healthy rs)

  degraded_usable :
      (rs : List (SourceReport F))
      → any (λ r. is_degraded (status_of r)) rs ≡ true
      → is_empty (keep_if (λ r. not (is_insufficient (status_of r))) rs) ≡ false
  degraded_usable [] h = cc
  degraded_usable (r ∷ rs) h = ground (arith, degraded_usable rs)

module _ {F : Type 0} ⦃f : Float F⦄ where
  conclude_degraded :
      (args : Args F) (w : World F) (p : Progress F)
      → ((conclude args w p).exit_code ≡ 2) ↔ (
          ((conclude args w p).errors ≡ [])
          × (any (λ r. is_degraded (status_of r)) (conclude args w p).analyses ≡ true))
  unfolding conclude result
  conclude_degraded args w p =
      ground (arith, usable_degraded p.analyses, degraded_usable p.analyses)

  conclude_healthy :
      (args : Args F) (w : World F) (p : Progress F)
      → ((conclude args w p).exit_code ≡ 0) ↔ (
          ((conclude args w p).errors ≡ [])
          × (any (λ r. is_degraded (status_of r)) (conclude args w p).analyses ≡ false)
          × (any (λ r. is_healthy (status_of r)) (conclude args w p).analyses ≡ true))
  unfolding conclude result
  conclude_healthy args w p =
      ground
        (arith, usable_degraded p.analyses, degraded_usable p.analyses, usable_healthy p.analyses)

  -- a report is the conclusion of the run
  main-conclude :
      (args : Args F) (w : World F) {r : Report F}
      → main args w ≡ ok (reported r)
      → (p : Progress F) × (conclude args w p ≡ r)
  unfolding main
  main-conclude args w h = elim (Bool-cases (is_refused args w)) [
    | inl e ↦ absurd (cc (rw e at h))
    | inr e ↦ elim (Result-cases (metrics_stage args w)) [
      | inr (x, g) ↦ absurd (cc (rw (e, g) at h))
      | inl (p, g) ↦ elim (Result-cases (log_stage args w p)) [
        | inr (x, g2) ↦ absurd (cc (rw (e, g, g2) at h))
        | inl (q, g2) ↦ (q, cc (rw (e, g, g2) at h))
      ]
    ]
  ]

  -- A run that reports ends with code 2 exactly when it met no error and some analysis of the report
  -- is degraded.
  pub main_degraded :
      (args : Args F) (w : World F) {r : Report F}
      → main args w ≡ ok (reported r)
      → (r.exit_code ≡ 2)
        ↔ ((r.errors ≡ []) × (any (λ a. is_degraded (status_of a)) r.analyses ≡ true))
  main_degraded args w h =
      let (p, same) = main-conclude args w h in
      subst
        (λ r.
          (r.exit_code ≡ 2)
          ↔ ((r.errors ≡ []) × (any (λ a. is_degraded (status_of a)) r.analyses ≡ true)))
        same (conclude_degraded args w p)

  -- A run that reports ends with code 0 exactly when it met no error, no analysis of the report is
  -- degraded and some analysis is healthy.
  pub main_healthy :
      (args : Args F) (w : World F) {r : Report F}
      → main args w ≡ ok (reported r)
      → (r.exit_code ≡ 0) ↔ (
          (r.errors ≡ [])
          × (any (λ a. is_degraded (status_of a)) r.analyses ≡ false)
          × (any (λ a. is_healthy (status_of a)) r.analyses ≡ true))
  main_healthy args w h =
      let (p, same) = main-conclude args w h in
      subst
        (λ r. (r.exit_code ≡ 0) ↔ (
          (r.errors ≡ [])
          × (any (λ a. is_degraded (status_of a)) r.analyses ≡ false)
          × (any (λ a. is_healthy (status_of a)) r.analyses ≡ true)))
        same (conclude_healthy args w p)

  -- Where a snapshot file or a log is named, a run does not depend on what the server answers.
  pub main_offline :
      (args : Args F) (w : World F) (other : Text → ℕ → Scrape F)
      → (not (is_empty args.metrics_file) || is_some args.log_file) ≡ true
      → main args (record w { scrape = other }) ≡ main args w
  unfolding main metrics_stage log_stage read_log analyze_with is_refused conclude analyze_log_file
      collect_metrics_files
  main_offline args w other h = elim (Bool-cases (is_empty args.metrics_file)) [
    | inr e ↦ rw e
    | inl e ↦ rw (e, rw e at h)
  ]
