-- ===== src/Watchdog/Main.antt =====
-- `main`: which sources are read, and the report with its exit code.
-- Negative values of the integer options act as 0 does, but for `--samples`.
pub mod Verdicts
pub mod Runs
use glm5_3_flash_2x_dgx_spar.Prelude.{
  ℕ, ◌+◌, max, Bool, true, false, not, ◌&&◌, ◌||◌, Option, none, some, List, [], ◌∷◌, ◌++◌, map,
  ltb, any, keep_if, ◌==◌, if◌then◌else◌, Result, ok, err, ◌>>=◌, is_some,
}
use glm5_3_flash_2x_dgx_spar.Number.{Float, ◌≤ᶠ◌, ◌<ᶠ◌}
use glm5_3_flash_2x_dgx_spar.Number.Int.{ℤ, pos, negsuc}
use glm5_3_flash_2x_dgx_spar.Text.{Text}
use glm5_3_flash_2x_dgx_spar.Watchdog.{
  Status, healthy, degraded, insufficient, SeriesAnalysis, MetricsSnapshot,
}
use glm5_3_flash_2x_dgx_spar.Watchdog.Series.{SeriesError}
use glm5_3_flash_2x_dgx_spar.Watchdog.Sources.{
  Message, cannot_stat, cannot_read, cannot_scrape, log_not_found, metrics_unavailable,
  no_snapshot_files, bad_tail_lines, no_usable_samples, World, Raised, watchdog, value, escaped,
  SourceReport, metrics, log, analysis_of, collect_metrics_files, collect_http_snapshots,
  analyze_metrics_snapshots, analyze_log_file,
}

pub record Args (F : Type 0) : Type 0 where
  pub base_url : Text
  pub metrics_file : List Text
  pub log_file : Option Text
  pub tail_lines : ℕ
  pub window : ℕ
  pub threshold : F
  pub baseline_window : ℕ
  pub samples : ℤ
  pub interval : F

-- the lists that `main` fills
pub record Progress (F : Type 0) : Type 0 where
  pub analyses : List (SourceReport F)
  pub errors : List Message
  pub notes : List Message
  pub metrics_insufficient : Bool

pub data Verdict : Type 0 where
  error healthy_prefill degraded_prefill : Verdict

pub record Report (F : Type 0) : Type 0 where
  pub status : Verdict
  pub exit_code : ℕ
  pub sources : List (SourceReport F)
  pub analyses : List (SourceReport F)
  pub errors : List Message
  pub notes : List Message
  pub baseline_tok_s : Option F
  pub recent_tok_s : Option F
  pub drop_fraction : Option F
  pub cutoff_tok_s : Option F

-- options that `main` refuses end it with code 1 and no report
pub data Outcome (F : Type 0) : Type 0 where
  usage_error : Outcome F
  reported : Report F → Outcome F

-- the exceptions that end `main` with a traceback
pub data Uncaught : Type 0 where
  of_series : SeriesError → Uncaught
  of_scrape : Uncaught

abbrev pub exit_code_of : {F : Type 0} → Outcome F → ℕ
exit_code_of usage_error = 1
exit_code_of (reported r) = r.exit_code

abbrev pub is_degraded : Status → Bool
is_degraded degraded = true
is_degraded healthy = false
is_degraded insufficient = false

abbrev pub is_healthy : Status → Bool
is_healthy healthy = true
is_healthy degraded = false
is_healthy insufficient = false

abbrev pub is_insufficient : Status → Bool
is_insufficient insufficient = true
is_insufficient healthy = false
is_insufficient degraded = false

abbrev pub is_empty {ℓ} : {A : Type ℓ} → List A → Bool
is_empty [] = true
is_empty (x ∷ xs) = false

module _ {F : Type 0} where
  abbrev pub status_of : SourceReport F → Status
  status_of r = (analysis_of r).status

  add_error : Message → Progress F → Progress F
  add_error m p = record p { errors = p.errors ++ m ∷ [] }

  add_note : Message → Progress F → Progress F
  add_note m p = record p { notes = p.notes ++ m ∷ [] }

  add_metrics : SourceReport F → Progress F → Progress F
  add_metrics r p = record p {
    analyses = p.analyses ++ r ∷ [];
    metrics_insufficient = is_insufficient (status_of r);
  }

  add_log : SourceReport F → Progress F → Progress F
  add_log r p = record p { analyses = p.analyses ++ r ∷ [] }

  -- `try: ... except WatchdogError`
  attempt :
      Result Raised (SourceReport F)
      → (SourceReport F → Progress F → Progress F)
      → (Message → Progress F → Progress F)
      → Progress F
      → Result Uncaught (Progress F)
  attempt (ok r) store except p = ok (store r p)
  attempt (err (watchdog m)) store except p = ok (except m p)
  attempt (err (value e)) store except p = err (of_series e)
  attempt (err escaped) store except p = err of_scrape

  abbrev start : Progress F
  start = record { analyses = []; errors = []; notes = []; metrics_insufficient = false }

  -- `args.samples or (args.window + 4)`, and at least two
  scrape_count : Args F → ℕ
  scrape_count args = elim args.samples [
    | negsuc n ↦ 2
    | pos n ↦ max (if n == 0 then args.window + 4 else n) 2
  ]

  -- the first record that passes
  first_where : (SourceReport F → Bool) → List (SourceReport F) → Option (SourceReport F)
  first_where p [] = none
  first_where p (r ∷ rs) = elim (p r) [ true ↦ some r | false ↦ first_where p rs ]

  abbrev or_first : Option (SourceReport F) → Option (SourceReport F) → Option (SourceReport F)
  or_first (some r) q = some r
  or_first none q = q

  -- `primary_record`
  primary : List (SourceReport F) → Option (SourceReport F)
  unfolding first_where
  primary rs =
      or_first (first_where (λ r. is_degraded (status_of r)) rs)
        (or_first (first_where (λ r. is_healthy (status_of r)) rs) (first_where (λ r. true) rs))

module _ {F : Type 0} ⦃f : Float F⦄ where
  -- a figure of the primary analysis: `to_dict` rounds it, and `_result` again
  figure : (SeriesAnalysis F → Option F) → Option (SourceReport F) → Option F
  figure g none = none
  figure g (some r) = elim (g (analysis_of r)) [
    | none ↦ none
    | some v ↦ some (f.round (f.round v 4) 4)
  ]

  result :
      Verdict
      → ℕ
      → List (SourceReport F)
      → List (SourceReport F)
      → List Message
      → List Message
      → Report F
  unfolding figure primary
  result status code sources analyses errors notes = record {
    status = status;
    exit_code = code;
    sources = sources;
    analyses = analyses;
    errors = errors;
    notes = notes;
    baseline_tok_s = figure (λ a. a.baseline) (primary analyses);
    recent_tok_s = figure (λ a. a.recent) (primary analyses);
    drop_fraction = figure (λ a. a.drop_fraction) (primary analyses);
    cutoff_tok_s = figure (λ a. a.cutoff) (primary analyses);
  }

  module _ (args : Args F) (w : World F) where
    analyze_with : Result Raised (List (MetricsSnapshot F)) → Result Raised (SourceReport F)
    analyze_with snapshots =
        snapshots >>= analyze_metrics_snapshots args.window args.threshold args.baseline_window

    -- the snapshot files, or else the scrapes, or neither where only a log is given
    metrics_stage : Result Uncaught (Progress F)
    unfolding attempt add_metrics add_error add_note scrape_count analyze_with
    metrics_stage =
        if not (is_empty args.metrics_file)
        then attempt (analyze_with (collect_metrics_files w args.metrics_file)) add_metrics
            add_error start
        else if not (is_some args.log_file)
        then attempt (analyze_with (collect_http_snapshots w args.base_url (scrape_count args)))
            add_metrics (λ m. add_note (metrics_unavailable m)) start
        else ok start

    read_log : Text → Progress F → Result Uncaught (Progress F)
    unfolding attempt add_log add_error add_note
    read_log path p =
        if w.is_file path
        then attempt
            (analyze_log_file args.window args.threshold args.baseline_window w path
              args.tail_lines)
            add_log add_error p
        else if is_some args.log_file
        then ok (add_error (log_not_found path) p)
        else ok (add_note (log_not_found path) p)

    -- the log that is asked for, or the default one where the metrics say nothing
    log_stage : Progress F → Result Uncaught (Progress F)
    unfolding read_log
    log_stage p = elim args.log_file [
      | some path ↦ read_log path p
      | none ↦
          if is_empty args.metrics_file && (is_empty p.analyses || p.metrics_insufficient)
          then read_log w.default_log p
          else ok p
    ]

    conclude : Progress F → Report F
    unfolding result
    conclude p =
        let usable = keep_if (λ r. not (is_insufficient (status_of r))) p.analyses in
        if not (is_empty p.errors)
        then result error 1 p.analyses p.analyses p.errors p.notes
        else if is_empty usable
        then result error 1 p.analyses p.analyses (no_usable_samples ∷ []) p.notes
        else if any (λ r. is_degraded (status_of r)) usable
        then result degraded_prefill 2 usable p.analyses [] p.notes
        else result healthy_prefill 0 usable p.analyses [] p.notes

    is_refused : Bool
    is_refused =
        ltb args.window 1
        || ltb args.baseline_window 1
        || not (f.of_ℕ 0 <ᶠ args.threshold && args.threshold <ᶠ f.of_ℕ 1)
        || elim args.samples [ pos n ↦ false | negsuc n ↦ true ]
        || args.interval ≤ᶠ f.of_ℕ 0

    unfoldable pub main : Result Uncaught (Outcome F)
    unfolding is_refused metrics_stage log_stage conclude
    main =
        if is_refused
        then ok usage_error
        else metrics_stage >>= λ p. log_stage p >>= λ q. ok (reported (conclude q))
