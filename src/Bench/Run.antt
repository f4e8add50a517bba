-- ===== src/Bench/Run.antt =====
-- `run_arm`: restart, health, boot, cache reset, warmup, benchmarks. A stage that fails ends the arm.
pub mod Complete
pub mod Stages
use glm5_3_flash_2x_dgx_spar.Prelude.{
  ℕ, Bool, true, false, not, ◌&&◌, ◌||◌, Option, none, some, List, [], ◌∷◌, ◌++◌, all, is_some,
  Result, ok, err, ◌>>=◌, if◌then◌else◌,
}
use glm5_3_flash_2x_dgx_spar.Number.{Float, ◌<ᶠ◌}
use glm5_3_flash_2x_dgx_spar.Number.Int.{ℤ}
use glm5_3_flash_2x_dgx_spar.Text.{Text, codes, text_eq}
use glm5_3_flash_2x_dgx_spar.Bench.Env.{
  Env, lookup, assign, merge_env, redact_env, filter_effective_env,
}
use glm5_3_flash_2x_dgx_spar.Bench.Arms.{Arm}
use glm5_3_flash_2x_dgx_spar.Bench.Boots.{
  BootSource, metrics_label, process_start, host_boot, unavailable, is_known_id, is_host,
}
use glm5_3_flash_2x_dgx_spar.Bench.Metrics.{is_empty}
use glm5_3_flash_2x_dgx_spar.Bench.Specs.{Benchmark, BenchArgs}
use glm5_3_flash_2x_dgx_spar.Bench.Urls.{slug}
use glm5_3_flash_2x_dgx_spar.Bench.Results.{
  ArmFailure, no_artifact_directory, no_start_script, restart_unstarted, health_options,
  health_unfinished, exception_raised, warmup_failed, restart_failed, unhealthy, reset_failed,
  overrides_not_applied, boot_unavailable, boot_of_host, reset_absent, boot_changed_during,
  boot_source_changed, ArmWarning, not_attempted, attempted, Health, Boot, CacheReset, skipped,
  reset, absent, failed, ArmResult,
}
use glm5_3_flash_2x_dgx_spar.Bench.System.{System}
use glm5_3_flash_2x_dgx_spar.Bench.Http.{
  HealthError, bad_health_timeout, bad_health_interval, polls_used_up, smaller, larger,
  wait_for_health, reset_prefix_cache, warmup_request,
}
use glm5_3_flash_2x_dgx_spar.Bench.Probe.{probe_boot_id}
use glm5_3_flash_2x_dgx_spar.Bench.Secrets.{secret_values}
use glm5_3_flash_2x_dgx_spar.Bench.Commands.{BenchContext, join_path}
use glm5_3_flash_2x_dgx_spar.Bench.Protocol.{
  Plan, Progress, arm_env, boot_warning, health_failure, BootEnd, same_or_unknown, other_boot,
  other_source, compare_boots,
}
use glm5_3_flash_2x_dgx_spar.Bench.Clients.{is_zero, run_process, run_benches}

module _ {F W : Type 0} ⦃f : Float F⦄ (sys : System F W) (p : Plan F) where
  abbrev pub Stage : Type 0
  Stage = Progress F W → Result (ArmFailure × Progress F W) (Progress F W)

  abbrev warn : List ArmWarning → ArmResult F → ArmResult F
  warn ws r = record r { warnings = r.warnings ++ ws }

  after_restart : Option ℤ → Stage
  after_restart none s = err (restart_unstarted, s)
  after_restart (some c) s =
      let next = record s { result = record s.result { restart = attempted c } } in
      if is_zero c then ok next else err (restart_failed c, next)

  -- the start script, run
  restarted : Env → Text → W → Option ℤ × W
  unfolding run_process
  restarted merged arm_name w =
      run_process sys (codes "start.sh restart") (codes "./start.sh restart")
        (record {
          argv = codes "./start.sh" ∷ codes "restart" ∷ [];
          cwd = p.workdir;
          env = merged;
          timeout = p.args.restart_timeout;
        })
        p.out_dir (join_path p.out_dir (codes "restart-" ++ (slug arm_name ++ codes ".log")))
        (secret_values merged p.api_key) w

  pub restart_stage : Env → Arm → Stage
  unfolding restarted after_restart
  restart_stage merged arm s =
      if p.args.no_restart
      then ok (
          if is_empty arm.env
          then s
          else record s { result = warn (overrides_not_applied ∷ []) s.result })
      else if not (sys.is_file (join_path p.workdir (codes "start.sh")) s.world)
      then err (no_start_script, s)
      else let (code, v) = restarted merged arm.name s.world in
        after_restart code (record s { world = v })

  after_health : Result HealthError Health × W → Stage
  unfolding health_failure
  after_health (err e, v) s = err (health_failure e, record s { world = v })
  after_health (ok h, v) s =
      let next = record s { result = record s.result { health = some h }; world = v } in
      if h.ok then ok next else err (unhealthy h.code, next)

  pub health_stage : Stage
  unfolding after_health
  health_stage s =
      after_health
        (wait_for_health sys p.polls p.args.base_url p.args.health_timeout p.args.health_interval
          p.api_key s.world)
        s

  after_boot : Option Boot × W → Stage
  unfolding boot_warning
  after_boot (none, v) s = err (exception_raised, record s { world = v })
  after_boot (some b, v) s =
      ok
        (record s { result = warn (boot_warning b) (record s.result { boot = some b }); world = v })

  pub boot_stage : Stage
  unfolding after_boot
  boot_stage s = after_boot (probe_boot_id sys p.args.base_url p.args.timeout p.api_key s.world) s

  after_reset : CacheReset → Stage
  after_reset skipped s = ok s
  after_reset reset s = ok s
  after_reset absent s = ok (record s { result = warn (reset_absent ∷ []) s.result })
  after_reset (failed code) s = err (reset_failed code, s)

  abbrev set_reset : CacheReset → Progress F W → Progress F W
  set_reset c s = record s { result = record s.result { cache_reset = some c } }

  after_reset_call : Option CacheReset → Stage
  unfolding after_reset
  after_reset_call none s = err (exception_raised, s)
  after_reset_call (some c) s = after_reset c (set_reset c s)

  -- by the value of `GLM53_EXPOSE_CACHE_RESET`
  reset_when : Option Text → Stage
  unfolding after_reset_call
  reset_when none s = ok (set_reset skipped s)
  reset_when (some value) s =
      let (c, v) = reset_prefix_cache sys p.args.base_url p.args.timeout p.api_key s.world in
      if text_eq value (codes "1")
      then after_reset_call c (record s { world = v })
      else ok (set_reset skipped s)

  pub reset_stage : Env → Stage
  unfolding reset_when
  reset_stage merged s = reset_when (lookup (codes "GLM53_EXPOSE_CACHE_RESET") merged) s

  after_warmup : Option Bool → Stage
  after_warmup none s = err (exception_raised, s)
  after_warmup (some warm) s =
      let next = record s { result = record s.result { warmup = some warm } } in
      if warm then ok next else err (warmup_failed, next)

  pub warmup_stage : Stage
  unfolding after_warmup
  warmup_stage s =
      let (warm, v) =
        warmup_request sys p.args.base_url p.args.model p.args.timeout p.api_key s.world in
      after_warmup warm (record s { world = v })

  settle : W → W
  settle w = if f.of_ℕ 0 <ᶠ p.args.settle then sys.sleep p.args.settle w else w

  pub bench_stage : Env → Arm → Stage
  unfolding settle
  bench_stage merged arm s =
      let context : BenchContext F = record {
        args = p.args;
        artifact_path = [];
        tests_dir = p.tests_dir;
        workdir = p.workdir;
        api_key = p.api_key;
        python = p.python;
      } in
      let (records, v) =
        run_benches sys p.out_dir arm.name merged (secret_values merged p.api_key) context p.benches
          (settle s.world) in
      ok (record s { result = record s.result { benches = records }; world = v })

  after_boot_end : BootEnd → Progress F W → Progress F W
  after_boot_end same_or_unknown s = s
  after_boot_end other_boot s = record s {
    result = warn (boot_changed_during ∷ []) s.result;
    boot_changed = true;
  }
  after_boot_end other_source s = record s { result = warn (boot_source_changed ∷ []) s.result }

  after_probe_end : Option Boot × W → Stage
  unfolding after_boot_end compare_boots
  after_probe_end (none, v) s = err (exception_raised, record s { world = v })
  after_probe_end (some b, v) s = ok (
      after_boot_end (compare_boots s.result.boot b)
        (record s { result = record s.result { boot_end = some b }; world = v }))

  pub boot_end_stage : Stage
  unfolding after_probe_end
  boot_end_stage s =
      after_probe_end
        (probe_boot_id sys p.args.base_url (smaller (larger p.args.timeout (f.of_ℕ 1)) (f.of_ℕ 30))
          p.api_key s.world)
        s

  stages : Arm → Stage
  unfolding restart_stage health_stage boot_stage reset_stage warmup_stage bench_stage
      boot_end_stage arm_env
  stages arm s =
      let merged = arm_env p arm in
      restart_stage merged arm s >>= λ s1. health_stage s1 >>= λ s2. boot_stage s2 >>= λ s3.
      reset_stage merged s3 >>= λ s4.
      warmup_stage s4 >>= λ s5. bench_stage merged arm s5 >>= λ s6. boot_end_stage s6

  -- `result["ok"]`
  arm_ok : ArmResult F → Bool → Bool
  arm_ok r boot_changed =
      not (is_some r.error)
      && not boot_changed
      && not (is_empty r.benches)
      && all (λ b. b.ok) r.benches

  conclude : Result (ArmFailure × Progress F W) (Progress F W) → ArmResult F × W
  unfolding arm_ok
  conclude (ok s) = (record s.result { ok = arm_ok s.result s.boot_changed }, s.world)
  conclude (err (e, s)) =
      let r = record s.result { error = some e } in
      (record r { ok = arm_ok r s.boot_changed }, s.world)

  abbrev no_result : ℕ → Arm → ArmResult F
  no_result index arm = record {
    index = index;
    name = arm.name;
    env = redact_env arm.env;
    effective_env = filter_effective_env (arm_env p arm);
    restart = not_attempted;
    health = none;
    boot = none;
    boot_end = none;
    cache_reset = none;
    warmup = none;
    benches = [];
    warnings = [];
    error = none;
    ok = false;
  }

  unfoldable pub run_arm : ℕ → Arm → W → ArmResult F × W
  unfolding stages conclude
  run_arm index arm w =
      let (made, v) = sys.make_dirs p.out_dir w in
      if made
      then conclude
          (stages arm (record { result = no_result index arm; boot_changed = false; world = v }))
      else (record (no_result index arm) { error = some no_artifact_directory }, v)
