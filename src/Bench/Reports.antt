-- ===== src/Bench/Reports.antt =====
-- A whole run in a small world, comparisons, and each theorem on reports at an input that meets its
-- hypotheses.
use glm5_3_flash_2x_dgx_spar.Prelude.{
  ◌≡◌, refl, Bool, true, false, none, some, List, [], ◌∷◌, All, keep_if, ok, err, Result,
}
use glm5_3_flash_2x_dgx_spar.Number.Int.{ℤ, pos}
use glm5_3_flash_2x_dgx_spar.Number.Fixed.{fixed}
use glm5_3_flash_2x_dgx_spar.Number.Median.{median, sorted}
use glm5_3_flash_2x_dgx_spar.Text.{Text, codes, strip}
use glm5_3_flash_2x_dgx_spar.Text.Regex.{match_start}
use glm5_3_flash_2x_dgx_spar.Bench.Env.{lookup, assign, merge_env}
use glm5_3_flash_2x_dgx_spar.Bench.Arms.{Arm, parse_arms, parse_arm, is_arm_name, is_env_key}
use glm5_3_flash_2x_dgx_spar.Bench.Json.{get_field, require_list, numbers_of, field_numbers}
use glm5_3_flash_2x_dgx_spar.Bench.Metrics.{extract_short_chat}
use glm5_3_flash_2x_dgx_spar.Bench.Urls.{api_root, chat_url}
use glm5_3_flash_2x_dgx_spar.Bench.Specs.{
  short_chat, extract_of, parse_bench_selection, validate_inputs,
}
use glm5_3_flash_2x_dgx_spar.Bench.Stats.{percentile, numeric_stats}
use glm5_3_flash_2x_dgx_spar.Bench.Results.{not_attempted, BenchRecord, ArmResult}
use glm5_3_flash_2x_dgx_spar.Bench.Http.{wait_for_health, warmup_request}
use glm5_3_flash_2x_dgx_spar.Bench.Probe.{probe_boot_id}
use glm5_3_flash_2x_dgx_spar.Bench.Commands.{benchmark_argv}
use glm5_3_flash_2x_dgx_spar.Bench.Clients.{run_benches}
use glm5_3_flash_2x_dgx_spar.Bench.Protocol.{Plan}
use glm5_3_flash_2x_dgx_spar.Bench.Run.{run_arm}
use glm5_3_flash_2x_dgx_spar.Bench.Comparison.{Comparison, build_comparison}
use glm5_3_flash_2x_dgx_spar.Bench.Comparison.Sound.{
  IsSoundRow, metrics_of, build_comparison-IsSoundRow, build_comparison-keep_if,
}
use glm5_3_flash_2x_dgx_spar.Bench.Planning.{MainArgs, Host, plan_of}
use glm5_3_flash_2x_dgx_spar.Bench.Main.{AbReport, status_of, prepare, main}
use glm5_3_flash_2x_dgx_spar.Bench.Main.Status.{IsFull, main-IsFull}
use glm5_3_flash_2x_dgx_spar.Bench.Scenarios.{quiet, run_args}

abbrev main_args : MainArgs ℤ
main_args = record {
  list_benches = false;
  dry_run = false;
  arm = codes "a" ∷ codes "b:K=1" ∷ [];
  bench = codes "short_chat" ∷ [];
  workdir = codes "/w";
  api_key = none;
  out = [];
  markdown = [];
  run = run_args;
}

abbrev spark : Host
spark = record {
  expand_user = λ path. path;
  is_absolute = λ path. true;
  parent = λ path. codes "/w/results";
  name = λ path. codes "ab.json";
  stem = λ path. codes "ab";
  suffix = λ path. codes ".json";
  with_suffix = λ path suffix. codes "/w/results/ab.md";
  cwd = codes "/";
  repo_root = codes "/w";
  python = codes "python3";
  environ = [];
  stamp = codes "20261126-000000";
  dirty = false;
  dirty_count = codes "0";
}

abbrev nothing : AbReport ℤ → Text
nothing r = []

succeeded : status_of (main quiet spark nothing nothing main_args 400 0).0 ≡ 0
unfolding main status_of prepare parse_arms parse_arm strip is_arm_name match_start is_env_key
    assign lookup parse_bench_selection validate_inputs plan_of build_comparison numeric_stats
    percentile median sorted run_arm wait_for_health api_root merge_env warmup_request chat_url
    get_field probe_boot_id run_benches benchmark_argv field_numbers extract_of extract_short_chat
    require_list numbers_of
succeeded = refl

main-IsFull_example :
    (arms : List Arm) × ((p : Plan ℤ) × ((prepare quiet spark main_args 400 0 ≡ ok (arms, p))
        × IsFull quiet spark nothing nothing p arms
            (main quiet spark nothing nothing main_args 400 0).0))
main-IsFull_example = main-IsFull quiet spark nothing nothing main_args 400 0 refl refl succeeded

-- one benchmark, with one sample
abbrev measured : ℤ → List (BenchRecord ℤ)
measured x =
    record {
      bench = short_chat;
      artifact = [];
      ok = true;
      exit_code = none;
      metrics = some (record { samples = (codes "ttft_s", x ∷ []) ∷ []; summary = []; notes = [] });
      error = none;
    }
    ∷ []

abbrev result : Text → Bool → ℤ → ArmResult ℤ
result name good x = record {
  index = 0;
  name = name;
  env = [];
  effective_env = [];
  restart = not_attempted;
  health = none;
  boot = none;
  boot_end = none;
  cache_reset = none;
  warmup = none;
  benches = measured x;
  warnings = [];
  error = none;
  ok = good;
}

-- the third arm failed
abbrev results : List (ArmResult ℤ)
results =
    result (codes "a") true (pos 2000)
    ∷ result (codes "b") true (pos 1000)
    ∷ result (codes "c") false (pos 500)
    ∷ []

abbrev value_or {ℓ κ} : {E : Type ℓ} {A : Type κ} → A → Result E A → A
value_or a (ok b) = b
value_or a (err e) = a

abbrev nothing_compared : Comparison ℤ
nothing_compared = record { baseline = none; baseline_ok = false; metrics = []; rows = [] }

compared : build_comparison results ≡ ok (value_or nothing_compared (build_comparison results))
unfolding build_comparison numeric_stats percentile median sorted lookup assign
compared = refl

build_comparison-IsSoundRow_example :
    let c = value_or nothing_compared (build_comparison results) in
    (c.baseline ≡ some (codes "a"))
    × ((c.baseline_ok ≡ true) × All (IsSoundRow (codes "a") true) c.rows)
build_comparison-IsSoundRow_example =
    build_comparison-IsSoundRow (result (codes "a") true (pos 2000))
      (result (codes "b") true (pos 1000) ∷ result (codes "c") false (pos 500) ∷ []) compared

build_comparison-keep_if_example :
    metrics_of (build_comparison results)
    ≡ metrics_of (build_comparison (keep_if (λ a. a.ok) results))
build_comparison-keep_if_example = build_comparison-keep_if results
