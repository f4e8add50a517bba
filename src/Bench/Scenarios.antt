-- ===== src/Bench/Scenarios.antt =====
-- A small world, and each theorem on runs at an input that meets its hypotheses.
use glm5_3_flash_2x_dgx_spar.Prelude.{
  ℕ, ◌+◌, max, ◌≡◌, refl, true, false, none, some, List, [], ◌∷◌, ◌++◌, All, is_some, ok,
  if◌then◌else◌,
}
use glm5_3_flash_2x_dgx_spar.Number.Int.{ℤ, pos, pos_part}
use glm5_3_flash_2x_dgx_spar.Number.Fixed.{fixed}
use glm5_3_flash_2x_dgx_spar.Text.{Text, codes, ends_with, strip}
use glm5_3_flash_2x_dgx_spar.Bench.Env.{lookup, merge_env}
use glm5_3_flash_2x_dgx_spar.Bench.Arms.{Arm}
use glm5_3_flash_2x_dgx_spar.Bench.Json.{
  null, bool, number, array, nil, cons, object, Fields, end, field, get_field, require_list,
  numbers_of, field_numbers, is_truthy,
}
use glm5_3_flash_2x_dgx_spar.Bench.Metrics.{BenchMetrics, extract_decode, extract_short_chat}
use glm5_3_flash_2x_dgx_spar.Bench.Urls.{api_root, chat_url, artifact_path}
use glm5_3_flash_2x_dgx_spar.Bench.Urls.Collisions.{artifact_path-append}
use glm5_3_flash_2x_dgx_spar.Bench.Probe.{probe_boot_id}
use glm5_3_flash_2x_dgx_spar.Bench.Clients.{run_benches}
use glm5_3_flash_2x_dgx_spar.Number.Median.{median, sorted}
use glm5_3_flash_2x_dgx_spar.Bench.Metrics.Finite.{IsUseful}
use glm5_3_flash_2x_dgx_spar.Bench.Specs.{
  decode_structured, prefix_cache, short_chat, Benchmark, BenchArgs, extract_of, validate_inputs,
}
use glm5_3_flash_2x_dgx_spar.Bench.Specs.Extracted.{extract_of-IsUseful}
use glm5_3_flash_2x_dgx_spar.Bench.System.{responded, exited, System}
use glm5_3_flash_2x_dgx_spar.Bench.Http.{wait_for_health, warmup_request}
use glm5_3_flash_2x_dgx_spar.Bench.Commands.{mode_flags, BenchContext, benchmark_argv}
use glm5_3_flash_2x_dgx_spar.Bench.Commands.Checked.{IsRunnable, validate_inputs-IsRunnable}
use glm5_3_flash_2x_dgx_spar.Bench.Protocol.{Plan}
use glm5_3_flash_2x_dgx_spar.Bench.Run.{run_arm}
use glm5_3_flash_2x_dgx_spar.Bench.Run.Stages.{IsComplete}
use glm5_3_flash_2x_dgx_spar.Bench.Run.Complete.{run_arm-IsComplete}

-- one client's artifact, with a sample that counts and one that does not
abbrev artifact : Fields ℤ
artifact =
    field (codes "runs")
      (array (
        cons (object (field (codes "tok_s") (number (pos 4000)) end))
          (cons (object (field (codes "tok_s") null end)) nil)))
      end

abbrev decoded : BenchMetrics ℤ
decoded = record {
  samples = (codes "decode_tok_s", pos 4000 ∷ []) ∷ (codes "ttft_s", []) ∷ [];
  summary =
      (codes "decode_tok_s_median", number (pos 4000))
      ∷ (codes "decode_tok_s_min", number (pos 4000))
      ∷ (codes "decode_tok_s_max", number (pos 4000))
      ∷ (codes "ttft_median_s", null)
      ∷ (codes "completion_tokens_median", null)
      ∷ (codes "any_nan", bool false)
      ∷ (codes "runs", number (pos 2000))
      ∷ [];
  notes = [];
}

abbrev no_text : {A : Type 0} → A → Text
no_text a = []

extracted : extract_of no_text decode_structured artifact ≡ ok decoded
unfolding extract_of extract_decode require_list get_field lookup numbers_of median sorted is_truthy
extracted = refl

extract_of-IsUseful_example : IsUseful decoded
extract_of-IsUseful_example = extract_of-IsUseful no_text decode_structured artifact extracted

-- a clock that a sleep moves on; every answer but that of /metrics is 200, and every file is there
abbrev pub quiet : System ℤ ℕ
quiet = record {
  send = λ r w. (responded (if ends_with r.url (codes "/metrics") then 404 else 200) [], w);
  monotonic = λ w. pos w;
  sleep = λ x w. w + max 1 (pos_part x);
  read_boot_id = λ w. some (codes "h1");
  is_file = λ name w. true;
  read_text = λ name w. none;
  write_text = λ name content w. (true, w);
  make_dirs = λ name w. (true, w);
  run = λ command w. (exited (pos 0) [] [], w);
  chat = λ prompt w.
      (record { ok = true; record_of = field (codes "ttft_s") (number (pos 100)) end }, w);
  loads = λ t. some (object (field (codes "choices") (array (cons null nil)) end));
  dumps = λ v. [];
  show = λ v. [];
  show_float = λ x. [];
  show_int = λ x. [];
  no_places = λ x. [];
  three_places = λ x. [];
  show_ℤ = λ n. [];
  shell_join = λ words. [];
}

abbrev pub run_args : BenchArgs ℤ
run_args = record {
  base_url = codes "http://h";
  model = codes "m";
  runs = 3;
  sessions = 4;
  ctx_tokens = 60000;
  timeout = pos 900000;
  health_timeout = pos 1800000;
  health_interval = pos 5000;
  restart_timeout = pos 7200000;
  settle = pos 0;
  cache_mode = codes "sessions";
  no_restart = false;
}

abbrev chosen : List Benchmark
chosen = prefix_cache ∷ short_chat ∷ []

abbrev context : BenchContext ℤ
context = record {
  args = run_args;
  artifact_path = codes "out/a.json";
  tests_dir = codes "tests";
  workdir = codes ".";
  api_key = [];
  python = codes "python3";
}

valid : validate_inputs run_args chosen (λ name. true) ≡ ok true
unfolding validate_inputs api_root
valid = refl

offered : is_some (mode_flags (codes "sessions")) ≡ true
unfolding mode_flags
offered = refl

validate_inputs-IsRunnable_example :
    All
      (λ b. IsRunnable quiet (λ name. true) b (codes "tests") (benchmark_argv quiet b context))
      chosen
validate_inputs-IsRunnable_example =
    validate_inputs-IsRunnable quiet (λ name. true) context chosen valid offered

abbrev plan : Plan ℤ
plan = record {
  args = run_args;
  benches = short_chat ∷ [];
  workdir = codes ".";
  tests_dir = codes "tests";
  out_dir = codes "out";
  api_key = [];
  python = codes "python3";
  environ = [];
  polls = 400;
}

abbrev arm : Arm
arm = record { name = codes "a"; env = []; spec = codes "a" }

ran : (run_arm quiet plan 0 arm 0).0.ok ≡ true
unfolding run_arm wait_for_health api_root lookup merge_env warmup_request chat_url get_field
    probe_boot_id strip run_benches benchmark_argv field_numbers extract_of extract_short_chat
    require_list numbers_of
ran = refl

run_arm-IsComplete_example : IsComplete quiet plan (run_arm quiet plan 0 arm 0).0
run_arm-IsComplete_example = run_arm-IsComplete quiet plan 0 arm 0 ran

artifact_path-append_example :
    artifact_path (codes "out") (codes "a" ++ b'-' ∷ []) (codes "short_chat")
    ≡ artifact_path (codes "out") (codes "a") (codes "short_chat")
artifact_path-append_example =
    artifact_path-append (codes "out") (codes "a") (codes "short_chat") b'-' refl
