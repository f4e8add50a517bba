-- ===== src/Bench/Main/Status.antt =====
-- What the exit status 0 of a measuring run is worth.
use glm5_3_flash_2x_dgx_spar.Prelude.{
  ℕ, suc, ◌≡◌, refl, ap, Bool, true, false, not, ◌&&◌, List, [], ◌∷◌, all, length, All, arith,
  Bool-cases, Result-cases, inl, inr, Result, ok, err,
}
use glm5_3_flash_2x_dgx_spar.Number.{Float}
use glm5_3_flash_2x_dgx_spar.Text.{Text, codes}
use glm5_3_flash_2x_dgx_spar.Bench.Arms.{Arm}
use glm5_3_flash_2x_dgx_spar.Bench.Results.{ArmResult}
use glm5_3_flash_2x_dgx_spar.Bench.System.{System}
use glm5_3_flash_2x_dgx_spar.Bench.Commands.{join_path}
use glm5_3_flash_2x_dgx_spar.Bench.Protocol.{Plan}
use glm5_3_flash_2x_dgx_spar.Bench.Run.{run_arm}
use glm5_3_flash_2x_dgx_spar.Bench.Run.Stages.{IsComplete}
use glm5_3_flash_2x_dgx_spar.Bench.Run.Complete.{run_arm-IsComplete}
use glm5_3_flash_2x_dgx_spar.Bench.Comparison.{build_comparison}
use glm5_3_flash_2x_dgx_spar.Bench.Planning.{MainArgs, Host}
use glm5_3_flash_2x_dgx_spar.Bench.Main.{
  AbReport, MainOutcome, reported, status_of, is_good, run_arms, write_results, report_of,
  after_write, conclude_run, run_plan, MainError, prepare, start, main,
}

module _ {F W : Type 0} ⦃f : Float F⦄ (sys : System F W) where
  length-run_arms :
      (p : Plan F) (index : ℕ) (arms : List Arm) (w : W)
      → length (run_arms sys p index arms w).0 ≡ length arms
  unfolding run_arms
  length-run_arms p index [] w = refl
  length-run_arms p index (arm ∷ arms) w = ap suc (length-run_arms p (suc index) arms _)

  run_arms-IsComplete :
      (p : Plan F) (index : ℕ) (arms : List Arm) (w : W)
      → all (λ r. r.ok) (run_arms sys p index arms w).0 ≡ true
      → All (IsComplete sys p) (run_arms sys p index arms w).0
  unfolding run_arms
  run_arms-IsComplete p index [] w h = tt
  run_arms-IsComplete p index (arm ∷ arms) w h =
      let (r, v) = run_arm sys p index arm w in
      (
        run_arm-IsComplete sys p index arm w (ground (arith, h)),
        run_arms-IsComplete p (suc index) arms v (ground (arith, h)),
      )

module _ {F W : Type 0} ⦃f : Float F⦄ (sys : System F W) (host : Host)
    (report_text markdown_text : AbReport F → Text) where
  -- the outcome is a report of the arms that were asked for, complete in each
  abbrev pub IsFull : Plan F → List Arm → MainOutcome F → Type 0
  IsFull p arms outcome =
      (r : AbReport F) × ((outcome ≡ reported r)
        × ((length r.arms ≡ length arms)
            × ((r.comparison.baseline_ok ≡ true) × All (IsComplete sys p) r.arms)))

  after_write-IsFull :
      (p : Plan F) (arms : List Arm) (r : AbReport F) (written : Bool × W)
      → length r.arms ≡ length arms
      → (all (λ a. a.ok) r.arms ≡ true → All (IsComplete sys p) r.arms)
      → status_of (after_write sys host report_text markdown_text r written).0 ≡ 0
      → IsFull p arms (after_write sys host report_text markdown_text r written).0
  unfolding after_write status_of
  after_write-IsFull p arms r (false, w) same complete h = absurd (omega (arith, h))
  after_write-IsFull p arms r (true, w) same complete h =
      let good : is_good r ≡ true = ground (arith, h) in
      (r, (refl, (same, (ground (arith, good), complete (ground (arith, good))))))

  conclude_run-IsFull :
      (args : MainArgs F) (p : Plan F) (arms : List Arm) (results : List (ArmResult F)) (w : W)
      → length results ≡ length arms
      → (all (λ r. r.ok) results ≡ true → All (IsComplete sys p) results)
      → status_of (conclude_run sys host report_text markdown_text args p results w).0 ≡ 0
      → IsFull p arms (conclude_run sys host report_text markdown_text args p results w).0
  unfolding conclude_run status_of
  conclude_run-IsFull args p arms results w same complete h =
      elim (Result-cases (build_comparison results)) [
        | inr (e, g) ↦ absurd (cc (rw (conclude_run, g) at h))
        | inl (c, g) ↦
            let r = report_of sys host report_text markdown_text p results c in
            rw (conclude_run, g)
              (after_write-IsFull p arms r
                (write_results sys host report_text markdown_text args p r w) same complete
                (rw (conclude_run, g) at h))
      ]

  run_plan-IsFull :
      (args : MainArgs F) (p : Plan F) (arms : List Arm) (w : W)
      → args.dry_run ≡ false
      → status_of (run_plan sys host report_text markdown_text args p arms w).0 ≡ 0
      → IsFull p arms (run_plan sys host report_text markdown_text args p arms w).0
  unfolding run_plan status_of
  run_plan-IsFull args p arms w d h =
      elim (Bool-cases
        (not p.args.no_restart && not (sys.is_file (join_path p.workdir (codes "start.sh")) w))) [
          | inl e ↦ absurd (cc (rw (run_plan, d, e) at h))
          | inr e ↦
              let (results, v) = run_arms sys p 0 arms w in
              rw (run_plan, d, e)
                (conclude_run-IsFull args p arms results v (length-run_arms sys p 0 arms w)
                  (run_arms-IsComplete sys p 0 arms w) (rw (run_plan, d, e) at h))
        ]

  start-IsFull :
      (listing : Bool) (prepared : Result MainError (List Arm × Plan F)) (args : MainArgs F) (w : W)
      → listing ≡ false
      → args.dry_run ≡ false
      → status_of (start sys host report_text markdown_text listing prepared args w).0 ≡ 0
      → (arms : List Arm) × ((p : Plan F) × ((prepared ≡ ok (arms, p))
            × IsFull p arms (start sys host report_text markdown_text listing prepared args w).0))
  unfolding start status_of
  start-IsFull true prepared args w l d h = absurd (cc l)
  start-IsFull false (err e) args w l d h = absurd (omega (arith, h))
  start-IsFull false (ok (arms, p)) args w l d h =
      (arms, (p, (refl, run_plan-IsFull args p arms w d h)))

  -- Where `main` neither lists the benchmarks nor plans a dry run and its exit status is 0, its options
  -- were accepted and gave a list of arms and a plan, and it has written the report: with one result for
  -- each arm, a baseline that is ok, and each result complete for the plan, that is every stage of the
  -- protocol done and exactly the selected benchmarks recorded, all of them successful.
  pub main-IsFull :
      (args : MainArgs F) (polls : ℕ) (w : W)
      → args.list_benches ≡ false
      → args.dry_run ≡ false
      → status_of (main sys host report_text markdown_text args polls w).0 ≡ 0
      → (arms : List Arm) × ((p : Plan F) × ((prepare sys host args polls w ≡ ok (arms, p))
            × IsFull p arms (main sys host report_text markdown_text args polls w).0))
  unfolding main
  main-IsFull args polls w l d h =
      start-IsFull args.list_benches (prepare sys host args polls w) args w l d h
