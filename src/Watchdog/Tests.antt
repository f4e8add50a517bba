-- ===== src/Watchdog/Tests.antt =====
-- Runs of the watchdog on thousandths, and each theorem at an input that meets its hypotheses.
use glm5_3_flash_2x_dgx_spar.Prelude.{
  ℕ, zero, suc, ◌*◌, arith, ◌≡◌, ◌↔◌, refl, true, false, ◌&&◌, Option, none, some, List, [], ◌∷◌,
  any, if◌then◌else◌, Result, ok, err,
}
use glm5_3_flash_2x_dgx_spar.Number.Int.{ℤ, pos}
use glm5_3_flash_2x_dgx_spar.Number.Fixed.{fixed, fixed-IsOrdered}
use glm5_3_flash_2x_dgx_spar.Text.{Text, codes, text_eq, split_lines, strip}
use glm5_3_flash_2x_dgx_spar.Text.Regex.{match_start, search_text, group_of}
use glm5_3_flash_2x_dgx_spar.Watchdog.Patterns.{metric_re, boot_label_re, start_metric_re}
use glm5_3_flash_2x_dgx_spar.Number.Median.{median, sorted}
use glm5_3_flash_2x_dgx_spar.Watchdog.{MetricsSnapshot, SeriesAnalysis, degraded, insufficient}
use glm5_3_flash_2x_dgx_spar.Watchdog.Metrics.{parse_metrics_text}
use glm5_3_flash_2x_dgx_spar.Watchdog.Observations.{observations_from_snapshots}
use glm5_3_flash_2x_dgx_spar.Watchdog.Observations.Intervals.{IsReset, observations-IsReset}
use glm5_3_flash_2x_dgx_spar.Watchdog.Series.{SeriesError, analyze_series}
use glm5_3_flash_2x_dgx_spar.Watchdog.Series.Windows.{analyze_series-total}
use glm5_3_flash_2x_dgx_spar.Watchdog.Sources.{
  World, collect_http_snapshots, escaping, scraped, collect_metrics_files,
  analyze_metrics_snapshots,
}
use glm5_3_flash_2x_dgx_spar.Watchdog.Main.{
  Args, Report, error, Outcome, Uncaught, of_scrape, usage_error, reported, is_degraded, is_healthy,
  status_of, main,
}
use glm5_3_flash_2x_dgx_spar.Watchdog.Main.Verdicts.{main_degraded, main_healthy}
use glm5_3_flash_2x_dgx_spar.Watchdog.Main.Runs.{backed, main-majority}

abbrev snapshot : ℕ → ℕ → MetricsSnapshot ℤ
snapshot ts tokens = record {
  source = codes "test";
  ts = pos (ts * 1000);
  prompt_tokens = some (pos (tokens * 1000));
  ttft_sum = none;
  ttft_count = none;
  process_start = none;
  boot_label = none;
}

parse-test :
    parse_metrics_text
      (codes "# HELP\nvllm:prompt_tokens_total{engine=\"0\"} 7.5\n")
      (codes "x")
      (pos 0)
    ≡ record {
      source = codes "x";
      ts = pos 0;
      prompt_tokens = some (pos 7500);
      ttft_sum = none;
      ttft_count = none;
      process_start = none;
      boot_label = none;
    }
unfolding parse_metrics_text split_lines strip match_start metric_re group_of search_text
    boot_label_re
parse-test = refl

fell : IsReset (snapshot 3 400) (snapshot 4 20)
fell = record {
  before = pos 400000;
  after = pos 20000;
  known_before = refl;
  known_after = refl;
  fell = refl;
}

observations-IsReset_example :
    observations_from_snapshots
      (snapshot 1 100 ∷ snapshot 2 200 ∷ snapshot 3 400 ∷ snapshot 4 20 ∷ snapshot 5 90 ∷ [])
    ≡ observations_from_snapshots (snapshot 4 20 ∷ snapshot 5 90 ∷ [])
observations-IsReset_example =
    observations-IsReset (snapshot 1 100 ∷ snapshot 2 200 ∷ []) (snapshot 3 400) (snapshot 4 20)
      (snapshot 5 90 ∷ []) fell

abbrev speeds : List (Option ℤ)
speeds =
    some (pos 900000)
    ∷ none
    ∷ some (pos 1000000)
    ∷ some (pos 300000)
    ∷ some (pos 950000)
    ∷ some (pos 100000)
    ∷ []

abbrev quarter : ℤ
quarter = pos 250

abbrev returned : Result SeriesError (SeriesAnalysis ℤ) → SeriesAnalysis ℤ
returned (ok a) = a
returned (err e) = record {
  status = insufficient;
  n = 0;
  baseline = none;
  recent = none;
  drop_fraction = none;
  cutoff = none;
  recent_below_cutoff = 0;
  window = 0;
  threshold = pos 0;
}

speeds-degraded : (returned (analyze_series speeds 3 quarter 8)).status ≡ degraded
unfolding analyze_series median sorted
speeds-degraded = refl

speeds-ok : analyze_series speeds 3 quarter 8 ≡ ok (returned (analyze_series speeds 3 quarter 8))
unfolding analyze_series median sorted
speeds-ok = refl

analyze_series-total_example : (a : SeriesAnalysis ℤ) × (analyze_series speeds 3 quarter 8 ≡ ok a)
analyze_series-total_example =
    analyze_series-total speeds 3 quarter 8 (omega arith) (omega arith) refl

abbrev args : List Text → Args ℤ
args files = record {
  base_url = codes "http://localhost:8888/v1";
  metrics_file = files;
  log_file = none;
  tail_lines = 500;
  window = 1;
  threshold = quarter;
  baseline_window = 8;
  samples = pos 3;
  interval = pos 15000;
}

abbrev body : ℕ → Text
body zero = codes "vllm:prompt_tokens_total 100"
body (suc zero) = codes "vllm:prompt_tokens_total 1000"
body (suc (suc n)) = codes "vllm:prompt_tokens_total 1100"

abbrev world : World ℤ
world = record {
  default_log = codes "server.log";
  mtime = λ p. some (
      if text_eq p (codes "a")
      then pos 1000
      else if text_eq p (codes "b")
      then pos 2000
      else pos 3000);
  read_text = λ p.
      some (body (if text_eq p (codes "a") then 0 else if text_eq p (codes "b") then 1 else 2));
  read_bytes = λ p. none;
  is_file = λ p. false;
  scrape = λ url n. scraped (body n) (pos (n * 1000));
  decode = λ bytes. bytes;
}

abbrev blank : Report ℤ
blank = record {
  status = error;
  exit_code = 1;
  sources = [];
  analyses = [];
  errors = [];
  notes = [];
  baseline_tok_s = none;
  recent_tok_s = none;
  drop_fraction = none;
  cutoff_tok_s = none;
}

abbrev report_of : Result Uncaught (Outcome ℤ) → Report ℤ
report_of (ok (reported r)) = r
report_of (ok usage_error) = blank
report_of (err e) = blank

-- a second of 900 tokens and one of 100
abbrev falling : List Text
falling = codes "a" ∷ codes "b" ∷ codes "c" ∷ []

falling-ok : main (args falling) world ≡ ok (reported (report_of (main (args falling) world)))
unfolding main collect_metrics_files analyze_metrics_snapshots analyze_series
    observations_from_snapshots parse_metrics_text split_lines strip match_start metric_re group_of
    search_text boot_label_re start_metric_re median sorted
falling-ok = refl

falling-code : (report_of (main (args falling) world)).exit_code ≡ 2
unfolding main collect_metrics_files analyze_metrics_snapshots analyze_series
    observations_from_snapshots parse_metrics_text split_lines strip match_start metric_re group_of
    search_text boot_label_re start_metric_re median sorted
falling-code = refl

main_degraded_example : ((report_of (main (args falling) world)).exit_code ≡ 2) ↔ (
    ((report_of (main (args falling) world)).errors ≡ [])
    × (any (λ a. is_degraded (status_of a)) (report_of (main (args falling) world)).analyses
        ≡ true))
main_degraded_example = main_degraded (args falling) world falling-ok

main_healthy_example : ((report_of (main (args falling) world)).exit_code ≡ 0) ↔ (
    ((report_of (main (args falling) world)).errors ≡ [])
    × (any (λ a. is_degraded (status_of a)) (report_of (main (args falling) world)).analyses
        ≡ false)
    × (any (λ a. is_healthy (status_of a)) (report_of (main (args falling) world)).analyses ≡ true))
main_healthy_example = main_healthy (args falling) world falling-ok

main-majority_example :
    any
      (λ a. is_degraded (status_of a) && backed 1 a)
      (report_of (main (args falling) world)).analyses
    ≡ true
main-majority_example = main-majority fixed-IsOrdered (args falling) world falling-ok falling-code

-- an address that `Request` refuses
abbrev refusing : World ℤ
refusing = record world { scrape = λ url n. escaping }

main-escaped : main (args []) refusing ≡ err of_scrape
unfolding main collect_http_snapshots
main-escaped = refl
