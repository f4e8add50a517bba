-- ===== src/Bench/Main.antt =====
-- `main`: the options, the dry run, the arms in turn, the report and the exit status.
pub mod Status
use glm5_3_flash_2x_dgx_spar.Prelude.{
  ℕ, suc, Bool, true, false, not, ◌&&◌, ◌||◌, Option, none, some, List, [], ◌∷◌, ◌++◌, all, Result,
  ok, err, ◌>>=◌, if◌then◌else◌,
}
use glm5_3_flash_2x_dgx_spar.Number.{Float}
use glm5_3_flash_2x_dgx_spar.Text.{Text, codes}
use glm5_3_flash_2x_dgx_spar.Bench.Env.{Env, lookup}
use glm5_3_flash_2x_dgx_spar.Bench.Arms.{Arm, ArmSpecError, parse_arms}
use glm5_3_flash_2x_dgx_spar.Bench.Metrics.{is_empty}
use glm5_3_flash_2x_dgx_spar.Bench.Specs.{
  Benchmark, name_of, UsageError, BenchArgs, parse_bench_selection, validate_inputs,
}
use glm5_3_flash_2x_dgx_spar.Bench.Urls.{artifact_path}
use glm5_3_flash_2x_dgx_spar.Bench.Stats.{StatsError}
use glm5_3_flash_2x_dgx_spar.Bench.Results.{BenchFailure, ArmResult}
use glm5_3_flash_2x_dgx_spar.Bench.System.{System}
use glm5_3_flash_2x_dgx_spar.Bench.Commands.{BenchContext, join_path, benchmark_argv}
use glm5_3_flash_2x_dgx_spar.Bench.Protocol.{Plan}
use glm5_3_flash_2x_dgx_spar.Bench.Run.{run_arm}
use glm5_3_flash_2x_dgx_spar.Bench.Comparison.{Comparison, build_comparison}
use glm5_3_flash_2x_dgx_spar.Bench.Planning.{
  MainArgs, Host, Planned, resolve_workdir, out_path, markdown_path, plan_of, print_dry_run,
}
use glm5_3_flash_2x_dgx_spar.Bench.Messages.{report_warnings}

pub record AbReport (F : Type 0) : Type 0 where
  pub arms : List (ArmResult F)
  pub warnings : List Text
  pub comparison : Comparison F

-- the messages before anything runs
pub data MainError : Type 0 where
  arm_error : ArmSpecError → MainError
  option_error : UsageError → MainError

pub data MainOutcome (F : Type 0) : Type 0 where
  listed : MainOutcome F
  bad_options : MainError → MainOutcome F
  planned : List Planned → MainOutcome F
  plan_failed : BenchFailure → MainOutcome F
  no_start : MainOutcome F
  -- an exception that `main` does not catch
  crashed : StatsError → MainOutcome F
  unwritten : AbReport F → MainOutcome F
  reported : AbReport F → MainOutcome F

abbrev pub is_good : {F : Type 0} → AbReport F → Bool
is_good r = not (is_empty r.arms) && all (λ a. a.ok) r.arms && r.comparison.baseline_ok

-- the exit status
unfoldable pub status_of : {F : Type 0} → MainOutcome F → ℕ
status_of listed = 0
status_of (bad_options e) = 2
status_of (planned lines) = 0
status_of (plan_failed e) = 2
status_of no_start = 2
status_of (crashed e) = 1
status_of (unwritten r) = 1
status_of (reported r) = if is_good r then 0 else 1

abbrev as_option_error : {A : Type 0} → Result UsageError A → Result MainError A
as_option_error (ok a) = ok a
as_option_error (err e) = err (option_error e)

abbrev as_arm_error : {A : Type 0} → Result ArmSpecError A → Result MainError A
as_arm_error (ok a) = ok a
as_arm_error (err e) = err (arm_error e)

module _ {F W : Type 0} ⦃f : Float F⦄ (sys : System F W) where
  -- the loop over the arms, from the one at `index`
  run_arms : Plan F → ℕ → List Arm → W → List (ArmResult F) × W
  run_arms p index [] w = ([], w)
  run_arms p index (arm ∷ arms) w =
      let (r, v) = run_arm sys p index arm w in
      let (rs, u) = run_arms p (suc index) arms v in (r ∷ rs, u)

module _ {F W : Type 0} ⦃f : Float F⦄ (sys : System F W) (host : Host) where
  -- the arms and the plan of valid options
  unfoldable pub prepare : MainArgs F → ℕ → W → Result MainError (List Arm × Plan F)
  unfolding resolve_workdir
  prepare args polls w =
      let workdir = resolve_workdir sys host args.workdir w in
      as_arm_error (parse_arms args.arm) >>= λ arms.
      as_option_error (parse_bench_selection args.bench) >>= λ benches.
      as_option_error (
        validate_inputs args.run benches
          (λ name. sys.is_file (join_path (join_path workdir (codes "tests")) name) w))
      >>= λ valid. ok (arms, plan_of host args polls benches workdir)

  -- `json.dumps(report)` and `render_markdown(report)` are parameters
  module _ (report_text markdown_text : AbReport F → Text) where
    -- whether both files are written
    write_results : MainArgs F → Plan F → AbReport F → W → Bool × W
    unfolding out_path markdown_path
    write_results args p r w =
        let out = out_path host args p.workdir in
        let markdown = markdown_path host args out in
        let (made, w1) = sys.make_dirs (host.parent out) w in
        let (written, w2) = sys.write_text out (report_text r) w1 in
        let (made_too, w3) = sys.make_dirs (host.parent markdown) w2 in
        let (written_too, w4) = sys.write_text markdown (markdown_text r) w3 in
        if not made
        then (false, w1)
        else if not written
        then (false, w2)
        else if not made_too
        then (false, w3)
        else (written_too, w4)

    abbrev report_of : Plan F → List (ArmResult F) → Comparison F → AbReport F
    report_of p results comparison = record {
      arms = results;
      warnings =
          report_warnings results p.args.no_restart host.dirty host.dirty_count
            (not (is_empty p.api_key)) p.args.model p.benches comparison.baseline_ok;
      comparison = comparison;
    }

    after_write : AbReport F → Bool × W → MainOutcome F × W
    after_write r (true, w) = (reported r, w)
    after_write r (false, w) = (unwritten r, w)

    conclude_run : MainArgs F → Plan F → List (ArmResult F) → W → MainOutcome F × W
    unfolding write_results after_write
    conclude_run args p results w = elim (build_comparison results) [
      | err e ↦ (crashed e, w)
      | ok comparison ↦
          let r = report_of p results comparison in after_write r (write_results args p r w)
    ]

    -- what follows the checks of the options
    run_plan : MainArgs F → Plan F → List Arm → W → MainOutcome F × W
    unfolding print_dry_run run_arms conclude_run
    run_plan args p arms w =
        if args.dry_run
        then (
          elim (print_dry_run sys p arms) [ ok lines ↦ planned lines | err e ↦ plan_failed e ],
          w,
        )
        else if not p.args.no_restart
            && not (sys.is_file (join_path p.workdir (codes "start.sh")) w)
        then (no_start, w)
        else let (results, v) = run_arms sys p 0 arms w in conclude_run args p results v

    -- by `--list-benches`, and what the options give
    start : Bool → Result MainError (List Arm × Plan F) → MainArgs F → W → MainOutcome F × W
    unfolding run_plan
    start true prepared args w = (listed, w)
    start false (err e) args w = (bad_options e, w)
    start false (ok (arms, p)) args w = run_plan args p arms w

    unfoldable pub main : MainArgs F → ℕ → W → MainOutcome F × W
    unfolding start
    main args polls w = start args.list_benches (prepare args polls w) args w
