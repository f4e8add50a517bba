-- ===== src/Watchdog/Main/Runs.antt =====
-- How a run ends, and what code 2 rests on.
use glm5_3_flash_2x_dgx_spar.Prelude.{
  ℕ, ◌*◌, ◌≤◌, ◌≡◌, ◌⊎◌, refl, Bool, true, false, not, ◌&&◌, ◌||◌, Option, List, [], ◌∷◌, any, All,
  All-append, arith, is_some, ltb, Bool-cases, Result, ok, err, inl, inr, Option-cases,
}
use glm5_3_flash_2x_dgx_spar.Number.{Float, IsOrdered, ◌<ᶠ◌}
use glm5_3_flash_2x_dgx_spar.Text.{Text}
use glm5_3_flash_2x_dgx_spar.Watchdog.{
  Status, healthy, degraded, insufficient, SeriesAnalysis, MetricsSnapshot,
}
use glm5_3_flash_2x_dgx_spar.Watchdog.Series.{analyze_series}
use glm5_3_flash_2x_dgx_spar.Watchdog.Series.Windows.{analyze_series-majority}
use glm5_3_flash_2x_dgx_spar.Watchdog.Sources.{
  Message, Raised, World, escaping, metrics_url, SourceReport, analysis_of,
}
use glm5_3_flash_2x_dgx_spar.Watchdog.Sources.Settled.{
  Settled, settled, caught, uncaught, Anything, bind-Settled, collect_metrics_files-Settled,
  collect_http_snapshots-Settled, metrics-Settled, log-Settled,
}
use glm5_3_flash_2x_dgx_spar.Watchdog.Main.{
  Args, Progress, Report, Outcome, Uncaught, of_scrape, reported, is_degraded, is_empty, status_of,
  is_refused, metrics_stage, log_stage, read_log, analyze_with, attempt, add_error, add_note,
  add_metrics, add_log, result, start, scrape_count, conclude, main,
}
use glm5_3_flash_2x_dgx_spar.Watchdog.Main.Verdicts.{main_degraded}

-- a run that went on, with a property of all its analyses so far, or ended by an exception where `E`
-- holds
data IsKept {F : Type 0} (E : Type 0) (Q : SourceReport F → Type 0)
    : Result Uncaught (Progress F) → Type 0 where
  kept : (p : Progress F) → All Q p.analyses → IsKept E Q (ok p)
  ended : E → IsKept E Q (err of_scrape)

module _ {F : Type 0} (E : Type 0) (Q : SourceReport F → Type 0) where
  kept_progress :
      (r : Result Uncaught (Progress F))
      → IsKept E Q r
      → ((p : Progress F) × ((r ≡ ok p) × All Q p.analyses)) ⊎ (E × (r ≡ err of_scrape))
  kept_progress _ (kept p h) = inl (p, (refl, h))
  kept_progress _ (ended e) = inr (e, refl)

  attempt_metrics :
      (r : Result Raised (SourceReport F)) (except : Message → Progress F → Progress F)
      (p : Progress F)
      → Settled E Q r
      → All Q p.analyses
      → ((m : Message) → All Q (except m p).analyses)
      → IsKept E Q (attempt r add_metrics except p)
  unfolding attempt add_metrics
  attempt_metrics _ except p (settled a q) h k = kept _ (All-append Q p.analyses (a ∷ []) h (q, tt))
  attempt_metrics _ except p (caught m) h k = kept _ (k m)
  attempt_metrics _ except p (uncaught e) h k = ended e

  attempt_log :
      (r : Result Raised (SourceReport F)) (p : Progress F)
      → Settled E Q r
      → All Q p.analyses
      → IsKept E Q (attempt r add_log add_error p)
  unfolding attempt add_log add_error
  attempt_log _ p (settled a q) h = kept _ (All-append Q p.analyses (a ∷ []) h (q, tt))
  attempt_log _ p (caught m) h = kept _ h
  attempt_log _ p (uncaught e) h = ended e

module _ {F : Type 0} ⦃f : Float F⦄ (args : Args F) (w : World F)
    (accepted : is_refused args w ≡ false) (E : Type 0)
    (escapes : is_empty args.metrics_file ≡ true
      → is_some args.log_file ≡ false
      → ((i : ℕ) × (w.scrape (metrics_url args.base_url) i ≡ escaping))
      → E)
    (Good : SeriesAnalysis F → Type 0)
    (good : (vs : List (Option F)) (a : SeriesAnalysis F)
      → analyze_series vs args.window args.threshold args.baseline_window ≡ ok a
      → Good a) where
  wide : 1 ≤ args.window
  unfolding is_refused
  wide = ground (arith, accepted)

  deep : 1 ≤ args.baseline_window
  unfolding is_refused
  deep = ground (arith, accepted)

  fraction : (f.of_ℕ 0 <ᶠ args.threshold && args.threshold <ᶠ f.of_ℕ 1) ≡ true
  unfolding is_refused
  fraction = ground (arith, accepted)

  abbrev Q : SourceReport F → Type 0
  Q r = Good (analysis_of r)

  analyze_with-Settled :
      (r : Result Raised (List (MetricsSnapshot F)))
      → Settled E Anything r
      → Settled E Q (analyze_with args w r)
  unfolding analyze_with
  analyze_with-Settled r h = bind-Settled E Anything Q r _ h λ snapshots e.
      metrics-Settled E args.window args.threshold args.baseline_window wide deep fraction Good good
        snapshots

  metrics_stage-IsKept : IsKept E Q (metrics_stage args w)
  unfolding metrics_stage add_error add_note
  metrics_stage-IsKept = elim (Bool-cases (is_empty args.metrics_file)) [
    | inr e ↦ rw e (
        attempt_metrics E Q _ add_error start
          (analyze_with-Settled _ (collect_metrics_files-Settled w E args.metrics_file)) tt λ m. tt)
    | inl e ↦ elim (Bool-cases (is_some args.log_file)) [
      | inr g ↦
          rw (e, g)
            (attempt_metrics E Q _ _ start
              (analyze_with-Settled _ (
                collect_http_snapshots-Settled w E args.base_url (λ i x. escapes e g (i, x))
                  (scrape_count args)))
              tt λ m. tt)
      | inl g ↦ rw (e, g) (kept start tt)
    ]
  ]

  read_log-IsKept :
      (path : Text) (p : Progress F) → All Q p.analyses → IsKept E Q (read_log args w path p)
  unfolding read_log add_error add_note
  read_log-IsKept path p h = elim (Bool-cases (w.is_file path)) [
    | inl e ↦ rw e (
        attempt_log E Q _ p
          (log-Settled E args.window args.threshold args.baseline_window wide deep fraction Good
            good w path args.tail_lines)
          h)
    | inr e ↦ elim (Bool-cases (is_some args.log_file)) [
      | inl g ↦ rw (e, g) (kept _ h)
      | inr g ↦ rw (e, g) (kept _ h)
    ]
  ]

  log_stage-IsKept : (p : Progress F) → All Q p.analyses → IsKept E Q (log_stage args w p)
  unfolding log_stage
  log_stage-IsKept p h = elim (Option-cases args.log_file) [
    | inr (path, e) ↦ rw (e, log_stage) (read_log-IsKept path p h)
    | inl e ↦
        elim (Bool-cases
          (is_empty args.metrics_file && (is_empty p.analyses || p.metrics_insufficient))) [
            | inl g ↦ rw (e, log_stage, g) (read_log-IsKept w.default_log p h)
            | inr g ↦ rw (e, log_stage, g) (kept p h)
          ]
  ]

  -- an accepted run reports the conclusion of its two stages
  stages-main :
      (p q : Progress F)
      → metrics_stage args w ≡ ok p
      → log_stage args w p ≡ ok q
      → main args w ≡ ok (reported (conclude args w q))
  unfolding main
  stages-main p q e d = rw (accepted, e, d)

  ended-main : metrics_stage args w ≡ err of_scrape → main args w ≡ err of_scrape
  unfolding main
  ended-main e = rw (accepted, e)

  late-main :
      (p : Progress F)
      → metrics_stage args w ≡ ok p
      → log_stage args w p ≡ err of_scrape
      → main args w ≡ err of_scrape
  unfolding main
  late-main p e d = rw (accepted, e, d)

  accepted_run :
      ((q : Progress F) × ((main args w ≡ ok (reported (conclude args w q))) × All Q q.analyses))
      ⊎ (E × (main args w ≡ err of_scrape))
  accepted_run = elim (kept_progress E Q (metrics_stage args w) metrics_stage-IsKept) [
    | inr (x, e) ↦ inr (x, ended-main e)
    | inl (p, (e, h)) ↦ elim (kept_progress E Q (log_stage args w p) (log_stage-IsKept p h)) [
      | inr (x, d) ↦ inr (x, late-main p e d)
      | inl (q, (d, k)) ↦ inl (q, (stages-main p q e d, k))
    ]
  ]

degraded_status : (s : Status) → is_degraded s ≡ true → s ≡ degraded
degraded_status healthy h = cc
degraded_status degraded h = refl
degraded_status insufficient h = cc

same_report :
    {F : Type 0} {o : Result Uncaught (Outcome F)} {r s : Report F}
    → o ≡ ok (reported r)
    → o ≡ ok (reported s)
    → r ≡ s
same_report h g = cc

module _ {F : Type 0} ⦃f : Float F⦄ where
  abbrev Scraped : Args F → World F → Type 0
  Scraped args w =
      ((is_empty args.metrics_file ≡ true) × (is_some args.log_file ≡ false))
      × ((i : ℕ) × (w.scrape (metrics_url args.base_url) i ≡ escaping))

  -- the recent window has a low median for a reason: half of it is low
  abbrev pub backed : ℕ → SourceReport F → Bool
  backed window r = not (ltb (2 * (analysis_of r).recent_below_cutoff) window)

  backed-any :
      (window : ℕ) (rs : List (SourceReport F))
      → All
          (λ r.
            (analysis_of r).status ≡ degraded → window ≤ 2 * (analysis_of r).recent_below_cutoff)
          rs
      → any (λ r. is_degraded (status_of r)) rs ≡ true
      → any (λ r. is_degraded (status_of r) && backed window r) rs ≡ true
  backed-any window [] h e = cc
  backed-any window (r ∷ rs) h e = elim (Bool-cases (is_degraded (status_of r))) [
    | inl d ↦
        let low = h.0 (degraded_status (status_of r) d) in
        let enough : backed window r ≡ true = ground (arith, low) in rw (d, enough)
    | inr d ↦ rw d (backed-any window rs h.1 (rw d at e))
  ]

  conclude-analyses :
      (args : Args F) (w : World F) (p : Progress F) → (conclude args w p).analyses ≡ p.analyses
  unfolding conclude result
  conclude-analyses args w p = ground arith

  -- A run ends with code 2 only where some degraded analysis of its report has at least half of the
  -- recent window at or below the cutoff, for floats that are ordered as documented.
  pub main-majority :
      (laws : IsOrdered f) (args : Args F) (w : World F) {r : Report F}
      → main args w ≡ ok (reported r)
      → r.exit_code ≡ 2
      → any (λ a. is_degraded (status_of a) && backed args.window a) r.analyses ≡ true
  unfolding main
  main-majority laws args w {r} h code = elim (Bool-cases (is_refused args w)) [
    | inl e ↦ absurd (cc (rw e at h))
    | inr e ↦
        elim (accepted_run args w e Unit (λ e g x. tt)
          (λ a. a.status ≡ degraded → args.window ≤ 2 * a.recent_below_cutoff)
          λ vs a d.
            analyze_series-majority laws vs args.window args.threshold args.baseline_window d) [
              | inr (x, ends) ↦ absurd cc
              | inl (q, (done, good)) ↦
                  let same : conclude args w q ≡ r = same_report done h in
                  let (clean, low) = (main_degraded args w h).0 code in
                  let all_low = rw (← same, conclude-analyses args w q) at low in
                  rw (← same, conclude-analyses args w q)
                    (backed-any args.window q.analyses good all_low)
            ]
  ]
