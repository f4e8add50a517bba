-- ===== src/Bench/Run/Stages.antt =====
-- What each stage of an arm achieves where it does not end the arm.
use glm5_3_flash_2x_dgx_spar.Prelude.{
  ◌≡◌, refl, Bool, true, false, not, ◌&&◌, ◌||◌, Option, none, some, map, all, is_some, Bool-cases,
  inl, inr, Result, ok, err, Holds,
}
use glm5_3_flash_2x_dgx_spar.Number.{Float}
use glm5_3_flash_2x_dgx_spar.Number.Int.{ℤ}
use glm5_3_flash_2x_dgx_spar.Text.{Text, codes, text_eq}
use glm5_3_flash_2x_dgx_spar.Bench.Env.{Env, lookup}
use glm5_3_flash_2x_dgx_spar.Bench.Arms.{Arm}
use glm5_3_flash_2x_dgx_spar.Bench.Results.{
  Restart, Boot, not_attempted, attempted, Health, CacheReset, skipped, reset, absent, failed,
  ArmResult,
}
use glm5_3_flash_2x_dgx_spar.Bench.System.{System}
use glm5_3_flash_2x_dgx_spar.Bench.Http.{
  HealthError, wait_for_health, reset_prefix_cache, warmup_request,
}
use glm5_3_flash_2x_dgx_spar.Bench.Clients.{is_zero}
use glm5_3_flash_2x_dgx_spar.Bench.Clients.Records.{map-run_benches}
use glm5_3_flash_2x_dgx_spar.Bench.Commands.{join_path}
use glm5_3_flash_2x_dgx_spar.Bench.Protocol.{
  Plan, Progress, BootEnd, same_or_unknown, other_boot, other_source, compare_boots,
}
use glm5_3_flash_2x_dgx_spar.Bench.Run.{
  after_boot, after_reset_call, after_probe_end, after_restart, restarted, restart_stage,
  after_health, health_stage, boot_stage, set_reset, after_reset, reset_when, reset_stage,
  after_warmup, warmup_stage, bench_stage, after_boot_end, boot_end_stage,
}

abbrev has_restarted : Restart → Bool
has_restarted not_attempted = false
has_restarted (attempted c) = is_zero c

abbrev was_healthy : Option Health → Bool
was_healthy none = false
was_healthy (some h) = h.ok

abbrev has_reset : Option CacheReset → Bool
has_reset none = false
has_reset (some skipped) = true
has_reset (some reset) = true
has_reset (some absent) = true
has_reset (some (failed code)) = false

abbrev was_warm : Option Bool → Bool
was_warm none = false
was_warm (some w) = w

module _ {F W : Type 0} ⦃f : Float F⦄ (sys : System F W) (p : Plan F) where
  -- the milestones of an arm
  abbrev pub IsRestarted : ArmResult F → Type 0
  IsRestarted r = (p.args.no_restart || has_restarted r.restart) ≡ true

  abbrev pub IsHealthy : ArmResult F → Type 0
  IsHealthy r = IsRestarted r × (was_healthy r.health ≡ true)

  abbrev pub IsReset : ArmResult F → Type 0
  IsReset r = IsHealthy r × (has_reset r.cache_reset ≡ true)

  abbrev pub IsWarm : ArmResult F → Type 0
  IsWarm r = IsReset r × (was_warm r.warmup ≡ true)

  abbrev pub IsMeasured : ArmResult F → Type 0
  IsMeasured r = IsWarm r × (map (λ b. b.bench) r.benches ≡ p.benches)

  -- measured, without an error, each benchmark successful
  abbrev pub IsComplete : ArmResult F → Type 0
  IsComplete r = IsMeasured r × ((all (λ b. b.ok) r.benches && not (is_some r.error)) ≡ true)

  abbrev pub Reached : (ArmResult F → Type 0) → Progress F W → Type 0
  Reached P s = P s.result

  after_restart-lem :
      (code : Option ℤ) (s : Progress F W)
      → Holds (λ t. has_restarted t.result.restart ≡ true) (after_restart sys p code s)
  unfolding after_restart
  after_restart-lem none s = tt
  after_restart-lem (some c) s = elim (Bool-cases (is_zero c)) [
    | inl e ↦ rw (e, after_restart) e
    | inr e ↦ rw (e, after_restart) tt
  ]

  pub restart_stage-lem :
      (merged : Env) (arm : Arm) (s : Progress F W)
      → Holds (Reached IsRestarted) (restart_stage sys p merged arm s)
  unfolding restart_stage
  restart_stage-lem merged arm s = elim (Bool-cases p.args.no_restart) [
    | inl e ↦ rw e refl
    | inr e ↦ elim (Bool-cases (sys.is_file (join_path p.workdir (codes "start.sh")) s.world)) [
      | inl g ↦
          let (code, v) = restarted sys p merged arm.name s.world in
          rw (e, g) (after_restart-lem code (record s { world = v }))
      | inr g ↦ rw (e, g) tt
    ]
  ]

  after_health-lem :
      (r : Result HealthError Health × W) (s : Progress F W)
      → IsRestarted s.result
      → Holds (Reached IsHealthy) (after_health sys p r s)
  unfolding after_health
  after_health-lem (err e, v) s h = tt
  after_health-lem (ok a, v) s h = elim (Bool-cases a.ok) [
    | inl e ↦ rw e (h, refl)
    | inr e ↦ rw e tt
  ]

  after_reset-lem :
      (c : CacheReset) (s : Progress F W)
      → IsHealthy s.result
      → Holds (Reached IsReset) (after_reset sys p c (set_reset sys p c s))
  unfolding after_reset
  after_reset-lem skipped s h = (h, refl)
  after_reset-lem reset s h = (h, refl)
  after_reset-lem absent s h = (h, refl)
  after_reset-lem (failed code) s h = tt

  after_reset_call-lem :
      (c : Option CacheReset) (s : Progress F W)
      → IsHealthy s.result
      → Holds (Reached IsReset) (after_reset_call sys p c s)
  unfolding after_reset_call
  after_reset_call-lem none s h = tt
  after_reset_call-lem (some c) s h = after_reset-lem c s h

  reset_when-lem :
      (value : Option Text) (s : Progress F W)
      → IsHealthy s.result
      → Holds (Reached IsReset) (reset_when sys p value s)
  unfolding reset_when
  reset_when-lem none s h = (h, refl)
  reset_when-lem (some value) s h = elim (Bool-cases (text_eq value (codes "1"))) [
    | inl e ↦
        let (c, v) = reset_prefix_cache sys p.args.base_url p.args.timeout p.api_key s.world in
        rw e (after_reset_call-lem c (record s { world = v }) h)
    | inr e ↦ rw e (h, refl)
  ]

  after_warmup-lem :
      (warm : Option Bool) (s : Progress F W)
      → IsReset s.result
      → Holds (Reached IsWarm) (after_warmup sys p warm s)
  unfolding after_warmup
  after_warmup-lem none s h = tt
  after_warmup-lem (some true) s h = (h, refl)
  after_warmup-lem (some false) s h = tt

  after_boot_end-lem :
      (e : BootEnd) (s : Progress F W)
      → IsMeasured s.result
      → IsMeasured (after_boot_end sys p e s).result
  unfolding after_boot_end
  after_boot_end-lem same_or_unknown s h = h
  after_boot_end-lem other_boot s h = h
  after_boot_end-lem other_source s h = h

  pub health_stage-lem :
      (s : Progress F W) → IsRestarted s.result → Holds (Reached IsHealthy) (health_stage sys p s)
  unfolding health_stage
  health_stage-lem s h =
      after_health-lem
        (wait_for_health sys p.polls p.args.base_url p.args.health_timeout p.args.health_interval
          p.api_key s.world)
        s h

  after_boot-lem :
      (b : Option Boot × W) (s : Progress F W)
      → IsHealthy s.result
      → Holds (Reached IsHealthy) (after_boot sys p b s)
  unfolding after_boot
  after_boot-lem (none, v) s h = tt
  after_boot-lem (some b, v) s h = h

  pub boot_stage-lem :
      (s : Progress F W) → IsHealthy s.result → Holds (Reached IsHealthy) (boot_stage sys p s)
  unfolding boot_stage
  boot_stage-lem s h = after_boot-lem _ s h

  pub reset_stage-lem :
      (merged : Env) (s : Progress F W)
      → IsHealthy s.result
      → Holds (Reached IsReset) (reset_stage sys p merged s)
  unfolding reset_stage
  reset_stage-lem merged s h = reset_when-lem (lookup (codes "GLM53_EXPOSE_CACHE_RESET") merged) s h

  pub warmup_stage-lem :
      (s : Progress F W) → IsReset s.result → Holds (Reached IsWarm) (warmup_stage sys p s)
  unfolding warmup_stage
  warmup_stage-lem s h =
      let (warm, v) =
        warmup_request sys p.args.base_url p.args.model p.args.timeout p.api_key s.world in
      after_warmup-lem warm (record s { world = v }) h

  pub bench_stage-lem :
      (merged : Env) (arm : Arm) (s : Progress F W)
      → IsWarm s.result
      → Holds (Reached IsMeasured) (bench_stage sys p merged arm s)
  unfolding bench_stage
  bench_stage-lem merged arm s h =
      (h, map-run_benches sys p.out_dir arm.name merged _ _ p.benches _)

  after_probe_end-lem :
      (b : Option Boot × W) (s : Progress F W)
      → IsMeasured s.result
      → Holds (Reached IsMeasured) (after_probe_end sys p b s)
  unfolding after_probe_end
  after_probe_end-lem (none, v) s h = tt
  after_probe_end-lem (some b, v) s h =
      after_boot_end-lem (compare_boots s.result.boot b)
        (record s { result = record s.result { boot_end = some b }; world = v }) h

  pub boot_end_stage-lem :
      (s : Progress F W) → IsMeasured s.result → Holds (Reached IsMeasured) (boot_end_stage sys p s)
  unfolding boot_end_stage
  boot_end_stage-lem s h = after_probe_end-lem _ s h
