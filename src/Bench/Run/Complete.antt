-- ===== src/Bench/Run/Complete.antt =====
-- What the `ok` of an arm's result is worth.
use glm5_3_flash_2x_dgx_spar.Prelude.{
  ℕ, ◌≡◌, true, arith, Bool-cases, inl, inr, Result, ok, err, ◌>>=◌, Holds, Holds-chain,
}
use glm5_3_flash_2x_dgx_spar.Number.{Float}
use glm5_3_flash_2x_dgx_spar.Bench.Arms.{Arm}
use glm5_3_flash_2x_dgx_spar.Bench.Results.{ArmFailure}
use glm5_3_flash_2x_dgx_spar.Bench.System.{System}
use glm5_3_flash_2x_dgx_spar.Bench.Protocol.{Plan, Progress, arm_env}
use glm5_3_flash_2x_dgx_spar.Bench.Run.{
  Stage, restart_stage, health_stage, boot_stage, reset_stage, warmup_stage, bench_stage,
  boot_end_stage, stages, arm_ok, conclude, run_arm,
}
use glm5_3_flash_2x_dgx_spar.Bench.Run.Stages.{
  IsRestarted, IsHealthy, IsReset, IsWarm, IsMeasured, IsComplete, Reached, restart_stage-lem,
  health_stage-lem, boot_stage-lem, reset_stage-lem, warmup_stage-lem, bench_stage-lem,
  boot_end_stage-lem,
}

module _ {F W : Type 0} ⦃f : Float F⦄ (sys : System F W) (p : Plan F) where
  stages-lem :
      (arm : Arm) (s : Progress F W) → Holds (Reached sys p (IsMeasured sys p)) (stages sys p arm s)
  unfolding stages
  stages-lem arm s =
      let merged = arm_env p arm in
      let Last = Reached sys p (IsMeasured sys p) in
      let measure : Stage sys p =
        λ s5. bench_stage sys p merged arm s5 >>= λ s6. boot_end_stage sys p s6 in
      let warm : Stage sys p = λ s4. warmup_stage sys p s4 >>= measure in
      let clear : Stage sys p = λ s3. reset_stage sys p merged s3 >>= warm in
      let probe : Stage sys p = λ s2. boot_stage sys p s2 >>= clear in
      Holds-chain (Reached sys p (IsRestarted sys p)) Last (restart_stage sys p merged arm s) _
        (restart_stage-lem sys p merged arm s)
        (λ s1 h1.
          Holds-chain (Reached sys p (IsHealthy sys p)) Last (health_stage sys p s1) probe
            (health_stage-lem sys p s1 h1)
            (λ s2 h2.
              Holds-chain (Reached sys p (IsHealthy sys p)) Last (boot_stage sys p s2) clear
                (boot_stage-lem sys p s2 h2)
                (λ s3 h3.
                  Holds-chain (Reached sys p (IsReset sys p)) Last (reset_stage sys p merged s3)
                    warm (reset_stage-lem sys p merged s3 h3)
                    (λ s4 h4.
                      Holds-chain (Reached sys p (IsWarm sys p)) Last (warmup_stage sys p s4)
                        measure (warmup_stage-lem sys p s4 h4)
                        (λ s5 h5.
                          Holds-chain Last Last (bench_stage sys p merged arm s5)
                            (λ s6. boot_end_stage sys p s6) (bench_stage-lem sys p merged arm s5 h5)
                            (λ s6 h6. boot_end_stage-lem sys p s6 h6))))))

  conclude-lem :
      (r : Result (ArmFailure × Progress F W) (Progress F W))
      → Holds (Reached sys p (IsMeasured sys p)) r
      → (conclude sys p r).0.ok ≡ true
      → IsComplete sys p (conclude sys p r).0
  unfolding conclude arm_ok
  conclude-lem (ok s) h g = (h, ground (arith, g))
  conclude-lem (err (e, s)) h g = absurd (cc g)

  -- Where the result of an arm is `ok`, every stage of the protocol has succeeded: the restart unless it
  -- was not asked for, the wait for health, the cache reset unless it was skipped or its route absent,
  -- the warmup. The benchmarks recorded are exactly those selected, in order, all of them successful, and
  -- no error is recorded.
  pub run_arm-IsComplete :
      (index : ℕ) (arm : Arm) (w : W)
      → (run_arm sys p index arm w).0.ok ≡ true
      → IsComplete sys p (run_arm sys p index arm w).0
  unfolding run_arm
  run_arm-IsComplete index arm w h = elim (Bool-cases (sys.make_dirs p.out_dir w).0) [
    | inl e ↦ rw e (conclude-lem _ (stages-lem arm _) (rw e at h))
    | inr e ↦ absurd (cc (rw e at h))
  ]
