-- ===== src/Bench/Clients.antt =====
-- Running one benchmark of an arm: its client or its own requests, its artifact, its record.
pub mod Records
use glm5_3_flash_2x_dgx_spar.Prelude.{
  ℕ, suc, max, Bool, true, false, not, ◌&&◌, Option, none, some, List, [], ◌∷◌, ◌++◌, ◌==◌, Result,
  ok, err, ◌>>=◌, if◌then◌else◌,
}
use glm5_3_flash_2x_dgx_spar.Number.{Float, ◌+ᶠ◌, ◌-ᶠ◌, ◌*ᶠ◌}
use glm5_3_flash_2x_dgx_spar.Number.Int.{ℤ, pos, negsuc}
use glm5_3_flash_2x_dgx_spar.Text.{Text, codes}
use glm5_3_flash_2x_dgx_spar.Bench.Env.{Env}
use glm5_3_flash_2x_dgx_spar.Bench.Json.{
  Json, text, array, Items, nil, cons, object, Fields, end, field, ExtractError, as_fields,
  field_numbers, median_json,
}
use glm5_3_flash_2x_dgx_spar.Bench.Metrics.{BenchMetrics, is_empty}
use glm5_3_flash_2x_dgx_spar.Bench.Specs.{Benchmark, name_of, extract_of}
use glm5_3_flash_2x_dgx_spar.Bench.Urls.{artifact_path, log_path}
use glm5_3_flash_2x_dgx_spar.Bench.Results.{
  BenchFailure, artifact_missing, artifact_unreadable, artifact_malformed, artifact_not_object,
  artifact_not_written, client_unstarted, chat_without_samples, bad_exit, bad_artifact, chat_failed,
  BenchRecord,
}
use glm5_3_flash_2x_dgx_spar.Bench.System.{Command, Ran, exited, timed_out, unstarted, System}
use glm5_3_flash_2x_dgx_spar.Bench.Http.{larger}
use glm5_3_flash_2x_dgx_spar.Bench.Secrets.{redact_text}
use glm5_3_flash_2x_dgx_spar.Bench.Commands.{BenchContext, benchmark_argv}

abbrev newline : Text
newline = 10 ∷ []

abbrev short_chat_prompts : List Text
short_chat_prompts =
    codes "Reply with exactly: OK"
    ∷ codes "What is 2 + 2? Answer with one digit."
    ∷ codes "Name the capital of France in one word."
    ∷ []

abbrev pub is_zero : ℤ → Bool
is_zero (pos n) = n == 0
is_zero (negsuc n) = false

abbrev or_fail : {A : Type 0} → Option A → BenchFailure → Result BenchFailure A
or_fail none e = err e
or_fail (some a) e = ok a

-- `record[key] = value` for a key that is not there
abbrev append_field : {F : Type 0} → Fields F → Text → Json F → Fields F
append_field end key v = field key v end
append_field (field k w fs) key v = field k w (append_field fs key v)

abbrev array_of : {F : Type 0} → List (Fields F) → Items F
array_of [] = nil
array_of (r ∷ rs) = cons (object r) (array_of rs)

abbrev as_bad_artifact :
    {F : Type 0} → Result ExtractError (BenchMetrics F) → Result BenchFailure (BenchMetrics F)
as_bad_artifact (ok m) = ok m
as_bad_artifact (err e) = err (bad_artifact e)

module _ {F W : Type 0} ⦃f : Float F⦄ (sys : System F W) where
  -- the exit code and the outputs, where the process was started; `what` is in the message of a timeout
  ending : Text → F → Ran → Option (ℤ × (Text × Text))
  ending what timeout (exited code out errors) = some (code, (out, errors))
  ending what timeout (timed_out out errors) = some (
    pos 124,
    (
      out,
      errors
          ++ (newline
              ++ (codes "[bench-ab] "
                  ++ (what
                      ++ (codes " exceeded "
                          ++ (sys.no_places timeout ++ (codes "s and was killed" ++ newline)))))),
    ),
  )
  ending what timeout unstarted = none

  log_text : Text → ℤ → F → Text → Text → Text
  log_text shown code duration out errors =
      codes "$ "
      ++ (shown
          ++ (newline
              ++ (codes "exit_code="
                  ++ (sys.show_ℤ code
                      ++ (codes " duration_s="
                          ++ (sys.three_places duration
                              ++ (newline
                                  ++ (newline
                                      ++ (codes "--- stdout ---"
                                          ++ (newline
                                              ++ (out
                                                  ++ (newline
                                                      ++ (codes "--- stderr ---"
                                                          ++ (newline
                                                            ++ (errors ++ newline)))))))))))))))

  -- `path.parent.mkdir(...)` and `path.write_text(...)`: whether both succeed
  write_in : Text → Text → Text → W → Bool × W
  write_in parent path content w =
      let (made, v) = sys.make_dirs parent w in
      if made then sys.write_text path content v else (false, v)

  -- `subprocess.run`, and its log; `none` where it raises
  unfoldable pub run_process : Text → Text → Command F → Text → Text → List Text → W → Option ℤ × W
  unfolding ending log_text write_in
  run_process what shown command parent log secrets w =
      let (ran, v) = sys.run command w in
      elim (ending what command.timeout ran) [
        | none ↦ (none, v)
        | some (code, (out, errors)) ↦
            let duration = sys.monotonic v -ᶠ sys.monotonic w in
            (
              some code,
              (write_in parent log (redact_text (log_text shown code duration out errors) secrets)
                  v).1,
            )
      ]

  unfoldable pub load_artifact : Text → W → Result BenchFailure (Fields F)
  load_artifact path w =
      if not (sys.is_file path w)
      then err artifact_missing
      else or_fail (sys.read_text path w) artifact_unreadable >>= λ content.
          or_fail (sys.loads content) artifact_malformed >>= λ v.
          or_fail (as_fields v) artifact_not_object

  write_artifact : Text → Text → Fields F → W → Bool × W
  unfolding write_in
  write_artifact parent path artifact w =
      write_in parent path (sys.dumps (object artifact) ++ newline) w

  -- the requests of `_short_chat_run`, from the one after `index`
  chat_requests : ℕ → List Text → W → Result BenchFailure (List (Fields F)) × W
  chat_requests index [] w = (ok [], w)
  chat_requests index (prompt ∷ prompts) w =
      let (c, v) = sys.chat prompt w in
      let (rest, u) = chat_requests (suc index) prompts v in
      if c.ok
      then (rest >>= (λ rs. ok (append_field c.record_of (codes "prompt") (text prompt) ∷ rs)), u)
      else (err (chat_failed (suc index)), v)

  -- without `created_at`, a clock time
  chat_artifact : BenchContext F → List (Fields F) → Result BenchFailure (Fields F)
  chat_artifact c requests =
      let ttft = field_numbers (codes "ttft_s") requests in
      let decode = field_numbers (codes "decode_tok_s") requests in
      if is_empty ttft && is_empty decode
      then err chat_without_samples
      else ok (
          field (codes "schema") (text (codes "glm53-exl3-short-chat/1")) (
            field (codes "base_url") (text c.args.base_url) (
              field (codes "model") (text c.args.model) (
                field (codes "requests") (array (array_of requests)) (
                  field (codes "ttft_median_s") (median_json ttft)
                    (field (codes "decode_tok_s_median") (median_json decode) end))))))

  short_chat_run : BenchContext F → W → Result BenchFailure (Fields F) × W
  unfolding chat_requests chat_artifact
  short_chat_run c w =
      let (requests, v) = chat_requests 0 short_chat_prompts w in
      (requests >>= λ rs. chat_artifact c rs, v)

  -- the exit code that is recorded, and the artifact
  abbrev Attempt : Type 0
  Attempt = (Option ℤ × Result BenchFailure (Fields F)) × W

  -- `max(60.0, timeout) * max(runs, 1) + 300.0`
  child_timeout : BenchContext F → F
  child_timeout c = larger (f.of_ℕ 60) c.args.timeout *ᶠ f.of_ℕ (max c.args.runs 1) +ᶠ f.of_ℕ 300

  client_attempt : Text → Option ℤ → W → Attempt
  unfolding load_artifact
  client_attempt path none w = ((none, err client_unstarted), w)
  client_attempt path (some code) w =
      ((some code, if is_zero code then load_artifact path w else err (bad_exit code)), w)

  direct_attempt : Text → Text → Result BenchFailure (Fields F) × W → Attempt
  unfolding write_artifact
  direct_attempt parent path (err e, w) = ((none, err e), w)
  direct_attempt parent path (ok artifact, w) =
      let (written, v) = write_artifact parent path artifact w in
      if written then ((some (pos 0), ok artifact), v) else ((none, err artifact_not_written), v)

  attempt : Text → Text → Env → List Text → Benchmark → BenchContext F → W → Attempt
  unfolding run_process short_chat_run child_timeout client_attempt direct_attempt
  attempt out_dir log env secrets b c w = elim (benchmark_argv sys b c) [
    | err e ↦ ((none, err e), w)
    | ok none ↦ direct_attempt out_dir c.artifact_path (short_chat_run c w)
    | ok (some argv) ↦
        let (code, v) =
          run_process (codes "benchmark") (sys.shell_join argv)
            (record { argv = argv; cwd = c.workdir; env = env; timeout = child_timeout c }) out_dir
            log secrets w in
        client_attempt c.artifact_path code v
  ]

  record_of : Benchmark → Text → Option ℤ → Result BenchFailure (BenchMetrics F) → BenchRecord F
  record_of b path code (ok m) = record {
    bench = b;
    artifact = path;
    ok = true;
    exit_code = code;
    metrics = some m;
    error = none;
  }
  record_of b path code (err e) = record {
    bench = b;
    artifact = path;
    ok = false;
    exit_code = code;
    metrics = none;
    error = some e;
  }

  -- one round of the loop over the benchmarks; `c` has the paths of the arm's name
  unfoldable pub run_bench :
      Text → Text → Env → List Text → BenchContext F → Benchmark → W → BenchRecord F × W
  unfolding attempt record_of
  run_bench out_dir arm_name env secrets c b w =
      let path = artifact_path out_dir arm_name (name_of b) in
      let ((code, artifact), v) =
        attempt out_dir (log_path out_dir arm_name (name_of b)) env secrets b
          (record c { artifact_path = path }) w in
      (record_of b path code (artifact >>= λ a. as_bad_artifact (extract_of sys.show b a)), v)

  unfoldable pub run_benches :
      Text → Text → Env → List Text → BenchContext F → List Benchmark → W → List (BenchRecord F) × W
  unfolding run_bench
  run_benches out_dir arm_name env secrets c [] w = ([], w)
  run_benches out_dir arm_name env secrets c (b ∷ bs) w =
      let (r, v) = run_bench out_dir arm_name env secrets c b w in
      let (rs, u) = run_benches out_dir arm_name env secrets c bs v in (r ∷ rs, u)
