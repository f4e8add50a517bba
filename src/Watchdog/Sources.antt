-- ===== src/Watchdog/Sources.antt =====
-- Where the watchdog reads, and the analysis of each source: snapshot files, HTTP scrapes, the log.
-- Files and the network are a `World` of answers.
pub mod Settled
use glm5_3_flash_2x_dgx_spar.Prelude.{
  ℕ, zero, suc, ◌+◌, ◌-◌, Bool, true, false, Option, none, some, List, [], ◌∷◌, map, length, ltb,
  is_some, any, if◌then◌else◌, Result, ok, err, ◌>>=◌, traverse, take, ◌++◌, ◌==◌,
}
use glm5_3_flash_2x_dgx_spar.Number.{Float}
use glm5_3_flash_2x_dgx_spar.Text.{Text, codes, rstrip, ends_with}
use glm5_3_flash_2x_dgx_spar.Watchdog.{MetricsSnapshot, Observation, SeriesAnalysis}
use glm5_3_flash_2x_dgx_spar.Watchdog.Metrics.{parse_metrics_text}
use glm5_3_flash_2x_dgx_spar.Watchdog.Observations.{observations_from_snapshots}
use glm5_3_flash_2x_dgx_spar.Watchdog.Series.{SeriesError, analyze_series}
use glm5_3_flash_2x_dgx_spar.Watchdog.Logs.{parse_log_values, read_tail}

-- `WatchdogError` by its message, and the notes and errors of `main`
pub data Message : Type 0 where
  cannot_stat cannot_read cannot_scrape log_not_found : Text → Message
  metrics_unavailable : Message → Message
  no_snapshot_files bad_tail_lines no_usable_samples : Message

-- what a scrape ends with: the body and the time, an exception that is caught, or one that is not: the
-- `ValueError` of `Request`, an `HTTPException`, and what `time.sleep` raises before it
pub data Scrape (F : Type 0) : Type 0 where
  scraped : Text → F → Scrape F
  unscraped escaping : Scrape F

pub record World (F : Type 0) : Type 0 where
  -- `DEFAULT_LOG_FILE`, `path.stat().st_mtime`, `path.read_text()`, the bytes of a file; `none` for an `OSError`
  pub default_log : Text
  pub mtime : Text → Option F
  pub read_text : Text → Option Text
  pub read_bytes : Text → Option (List ℕ)
  pub is_file : Text → Bool
  -- the n-th scrape of a URL, after the wait before it
  pub scrape : Text → ℕ → Scrape F
  -- UTF-8 with replacement
  pub decode : List ℕ → Text

-- an exception that is caught, or one that is not: the `ValueError` of `analyze_series`, or that of a scrape
pub data Raised : Type 0 where
  watchdog : Message → Raised
  value : SeriesError → Raised
  escaped : Raised

pub data Method : Type 0 where
  by_ttft_sum by_wall_time by_nothing : Method

-- the dictionaries of `analyze_metrics_snapshots` and `analyze_log_file`
pub record MetricsReport (F : Type 0) : Type 0 where
  pub scrapes : ℕ
  pub observations : ℕ
  pub values : List F
  pub ttft_values : List F
  pub analysis : SeriesAnalysis F
  pub method : Method

pub record LogReport (F : Type 0) : Type 0 where
  pub path : Text
  pub lines_read : ℕ
  pub values : List F
  pub zero_lines_skipped : ℕ
  pub analysis : SeriesAnalysis F

pub data SourceReport (F : Type 0) : Type 0 where
  metrics : MetricsReport F → SourceReport F
  log : LogReport F → SourceReport F

abbrev pub analysis_of : {F : Type 0} → SourceReport F → SeriesAnalysis F
analysis_of (metrics r) = r.analysis
analysis_of (log r) = r.analysis

-- `[x.v for x in xs if x.v is not None]`
abbrev pub present : {F A : Type 0} → (A → Option F) → List A → List F
present g [] = []
present g (x ∷ xs) = elim (g x) [ none ↦ present g xs | some v ↦ v ∷ present g xs ]

abbrev pub or_raise : {E A : Type 0} → Option A → E → Result E A
or_raise none e = err e
or_raise (some a) e = ok a

-- an uncaught exception of the analysis
lift : {A : Type 0} → Result SeriesError A → Result Raised A
lift (ok a) = ok a
lift (err e) = err (value e)

-- `root + "/metrics"`, where `root` has lost its slashes and a last `/v1`
unfoldable pub metrics_url : Text → Text
metrics_url base_url =
    let root = rstrip (λ c. c == b'/') base_url in
    (if ends_with root (codes "/v1") then take (length root - 3) root else root) ++ codes "/metrics"

module _ {F : Type 0} ⦃f : Float F⦄ (w : World F) where
  snapshot_from_file : Text → Result Raised (MetricsSnapshot F)
  snapshot_from_file path = or_raise (w.mtime path) (watchdog (cannot_stat path)) >>= λ ts.
      or_raise (w.read_text path) (watchdog (cannot_read path)) >>= λ body.
      ok (parse_metrics_text body path ts)

  unfoldable pub collect_metrics_files : List Text → Result Raised (List (MetricsSnapshot F))
  unfolding snapshot_from_file
  collect_metrics_files [] = err (watchdog no_snapshot_files)
  collect_metrics_files (p ∷ ps) = traverse snapshot_from_file (p ∷ ps)

  fetch_metrics_snapshot : Text → ℕ → Result Raised (MetricsSnapshot F)
  fetch_metrics_snapshot base_url index =
      let url = metrics_url base_url in
      elim (w.scrape url index) [
        | scraped body ts ↦ ok (parse_metrics_text body url ts)
        | unscraped ↦ err (watchdog (cannot_scrape url))
        | escaping ↦ err escaped
      ]

  -- scrapes number `index` and on
  scrape_from : Text → ℕ → ℕ → Result Raised (List (MetricsSnapshot F))
  unfolding fetch_metrics_snapshot
  scrape_from base_url zero index = ok []
  scrape_from base_url (suc samples) index = fetch_metrics_snapshot base_url index >>= λ s.
      scrape_from base_url samples (index + 1) >>= λ rest. ok (s ∷ rest)

  unfoldable pub collect_http_snapshots : Text → ℕ → Result Raised (List (MetricsSnapshot F))
  unfolding scrape_from
  collect_http_snapshots base_url samples = scrape_from base_url samples 0

module _ {F : Type 0} ⦃f : Float F⦄ (window : ℕ) (threshold : F) (baseline_window : ℕ) where
  -- `"method"`: what the values were divided by
  method_of : List (Observation F) → List F → Method
  method_of obs values =
      if any (λ o. is_some o.ttft_s) obs
      then by_ttft_sum
      else elim values [ [] ↦ by_nothing | v ∷ vs ↦ by_wall_time ]

  unfoldable pub analyze_metrics_snapshots :
      List (MetricsSnapshot F) → Result Raised (SourceReport F)
  unfolding method_of lift
  analyze_metrics_snapshots snapshots =
      let obs = observations_from_snapshots snapshots in
      let values = present (λ o. o.tok_s) obs in
      lift (analyze_series (map some values) window threshold baseline_window) >>= λ analysis. ok (
        metrics (record {
          scrapes = length snapshots;
          observations = length obs;
          values = map (λ v. f.round v 4) values;
          ttft_values = map (λ v. f.round v 6) (present (λ o. o.ttft_s) obs);
          analysis = analysis;
          method = method_of obs values;
        }))

  unfoldable pub analyze_log_file : World F → Text → ℕ → Result Raised (SourceReport F)
  unfolding lift
  analyze_log_file w path tail_lines =
      if ltb tail_lines 1
      then err (watchdog bad_tail_lines)
      else or_raise (w.read_bytes path) (watchdog (cannot_read path)) >>= λ bytes.
          let lines = read_tail w.decode bytes tail_lines in
          let (values, zero_lines) = parse_log_values lines in
          lift (analyze_series (map some values) window threshold baseline_window) >>= λ analysis.
          ok (
            log (record {
              path = path;
              lines_read = length lines;
              values = map (λ v. f.round v 4) values;
              zero_lines_skipped = zero_lines;
              analysis = analysis;
            }))
