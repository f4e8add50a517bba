-- ===== src/Power/Wrap/Returns.antt =====
-- That a run with a timeout returns or raises, if time passes.
use glm5_3_flash_2x_dgx_spar.Prelude.{
  ℕ, ◌≤◌, ◌<◌, ◌≡◌, refl, true, false, Option, none, some, is_some, List, Bool-cases, inl, inr,
  arith,
}
use glm5_3_flash_2x_dgx_spar.Number.{Float, ◌+ᶠ◌, ◌<ᶠ◌, ◌≤ᶠ◌}
use glm5_3_flash_2x_dgx_spar.Number.Int.{ℤ}
use glm5_3_flash_2x_dgx_spar.Text.{Text}
use glm5_3_flash_2x_dgx_spar.Power.Sampler.{
  Signal, PhaseName, idle_before, load, idle_after, Event, start, System, Proc, unspawned, running,
  ended, Run, Sampler, Step, emit_event, run_until,
}
use glm5_3_flash_2x_dgx_spar.Power.Sampler.Kept.{
  Ends, returns, raises, stops, Ends-map, Ends-both, written-Ends,
}
use glm5_3_flash_2x_dgx_spar.Power.Sampler.Passing.{
  Returns, Returns-bind, IsPassing, Later, run_until-Returns,
}
use glm5_3_flash_2x_dgx_spar.Power.Child.Returns.{poll_of-Later}
use glm5_3_flash_2x_dgx_spar.Power.Wrap.Stopped.{stopped, after_load-Returns, interrupt-Returns}
use glm5_3_flash_2x_dgx_spar.Power.Child.Variables.{variables}
use glm5_3_flash_2x_dgx_spar.Power.Wrap.Left.{is_over, close_run-Same}
use glm5_3_flash_2x_dgx_spar.Power.Wrap.Reaped.{IsAccounted, run_wrap-IsAccounted}
use glm5_3_flash_2x_dgx_spar.Power.Child.{poll}
use glm5_3_flash_2x_dgx_spar.Power.Wrap.{
  WrapArgs, load_end, finished_load, finished_at, after_load, interrupt, collect, set_exit,
  with_cleanup, reap_polled, reap_of, wrap_cleanup, idle, last_idle, leave_load, timeout_at,
  after_spawn, spawn_stage, wrap_body, fresh, run_wrap,
}

module _ {F W : Type 0} ⦃f : Float F⦄ (sys : System F W) (p : IsPassing sys) (fuel : ℕ)
    (enough : p.most (f.of_ℕ 5) < fuel) where
  module _ (c : Sampler F) where
    emit_event-Returns : (e : Event) (s : Run F W) → Returns (emit_event sys c e s)
    emit_event-Returns e s = written-Ends {P = λ r. 0 ≤ 0} _ s (omega arith)

    reap_polled-Returns : (x : Option ℤ × Run F W) → Returns (reap_polled sys c fuel x)
    unfolding reap_polled
    reap_polled-Returns (some code, s) = returns s (omega arith)
    reap_polled-Returns (none, s) = stopped sys p fuel enough s (λ r. r.1)

    reap_of-Returns : (q : Proc) (s : Run F W) → Returns (reap_of sys c fuel q s)
    unfolding reap_of
    reap_of-Returns unspawned s = returns s (omega arith)
    reap_of-Returns running s = reap_polled-Returns (poll sys s)
    reap_of-Returns (ended code) s = reap_polled-Returns (poll sys s)

    wrap_cleanup-Returns : (s : Run F W) → Returns (wrap_cleanup sys c fuel s)
    unfolding wrap_cleanup
    wrap_cleanup-Returns s =
        Returns-bind (reap_of sys c fuel s.proc s) _ (reap_of-Returns s.proc s) (λ r.
          Ends-map _ (λ q k. omega arith) (λ q k. omega arith)
            (close_run-Same sys c (some r.exit_code) r))

    with_cleanup-Returns :
        (x : Step F W) → Returns x → Returns (with_cleanup sys (wrap_cleanup sys c fuel) x)
    unfolding with_cleanup
    with_cleanup-Returns x (returns s h) = wrap_cleanup-Returns s
    with_cleanup-Returns x (raises s h) =
        Returns-bind (wrap_cleanup sys c fuel s) _ (wrap_cleanup-Returns s)
          (λ r. raises r (omega arith))
    with_cleanup-Returns x (stops h) = stops h

    module _ (decode : List ℕ → Text) (args : WrapArgs F)
        (window : p.most args.idle_window < fuel) where
      finished_at-goes_on :
          (d : F) (r : Run F W)
          → is_some (finished_at sys (some d) r).0 ≡ false
          → 1 ≤ p.left d r.world
      finished_at-goes_on d r h = elim (Bool-cases (d ≤ᶠ sys.monotonic r.world)) [
        | inl e ↦ absurd (cc (rw e at h))
        | inr e ↦ p.over d r.world e
      ]

      idle-Returns :
          (phase : PhaseName) (s : Run F W)
          → Returns (idle sys c decode fuel phase args.idle_window s)
      unfolding idle
      idle-Returns phase s = elim (Bool-cases (f.of_ℕ 0 <ᶠ args.idle_window)) [
        | inr e ↦ rw (idle, e) (returns s (omega arith))
        | inl e ↦
            let d = sys.monotonic s.world +ᶠ args.idle_window in
            let span = p.within args.idle_window s.world in
            rw (idle, e)
              (Returns-bind (run_until sys c decode (finished_at sys (some d)) fuel phase s) _
                (run_until-Returns sys p c decode (finished_at sys (some d)) d (λ r. omega arith)
                  (finished_at-goes_on d) fuel phase s (omega (arith, span, window)))
                (λ r. returns _ (omega arith)))
      ]

      last_idle-Returns :
          (sig : Option Signal) (s : Run F W) → Returns (last_idle sys c decode fuel args sig s)
      unfolding last_idle
      last_idle-Returns (some sig) s = returns s (omega arith)
      last_idle-Returns none s = idle-Returns idle_after s

      leave_load-Returns : (s : Run F W) → Returns (leave_load sys c decode fuel args s)
      unfolding leave_load
      leave_load-Returns s =
          Returns-bind (interrupt sys fuel (sys.signal s.world) s) _
            (interrupt-Returns sys p fuel enough (sys.signal s.world) s)
            (λ s1.
              Returns-bind _ _ (emit_event-Returns _ (collect sys s1.child_returncode s1))
                (λ s3. last_idle-Returns (sys.signal s3.world) (set_exit sys s3)))

      load_end-goes_on :
          (d : F) (x : Option ℤ × Run F W)
          → is_some (load_end sys (some d) x).0 ≡ false
          → 1 ≤ p.left d (load_end sys (some d) x).1.world
      unfolding load_end
      load_end-goes_on d (some code, r) h = absurd (cc h)
      load_end-goes_on d (none, r) h = elim (Bool-cases (d ≤ᶠ sys.monotonic r.world)) [
        | inl e ↦ absurd (cc (rw e at h))
        | inr e ↦ p.over d r.world e
      ]

      load_end-world :
          (t : Option F) (x : Option ℤ × Run F W) → (load_end sys t x).1.world ≡ x.1.world
      unfolding load_end
      load_end-world t (some code, r) = refl
      load_end-world t (none, r) = refl

      finished_load-Later : (d : F) (r : Run F W) → Later sys p d r (finished_load sys (some d) r).1
      unfolding finished_load
      finished_load-Later d r =
          let polled_at = poll_of-Later sys p d r.proc r in
          rw (load_end-world (some d) (poll sys r)) polled_at

      module _ (limited : (f.of_ℕ 0 <ᶠ args.timeout) ≡ true)
          (time : p.most args.timeout < fuel) where
        load-Returns :
            (s : Run F W)
            → Returns (
                run_until sys c decode
                  (finished_load sys (timeout_at sys c decode args s))
                  fuel
                  load
                  s)
        unfolding timeout_at finished_load
        load-Returns s =
            let d = sys.monotonic s.world +ᶠ args.timeout in
            let span = p.within args.timeout s.world in
            rw (timeout_at, limited)
              (run_until-Returns sys p c decode (finished_load sys (some d)) d
                (finished_load-Later d) (λ r h. load_end-goes_on d (poll sys r) h) fuel load s
                (omega (arith, span, time)))

        after_spawn-Returns :
            (x : Option Text × W) (s : Run F W) → Returns (after_spawn sys c decode fuel args x s)
        unfolding after_spawn
        after_spawn-Returns (some message, w) s =
            Returns-bind _ _ (emit_event-Returns _ _) (λ r. returns _ (omega arith))
        after_spawn-Returns (none, w) s =
            Returns-bind _ _ (load-Returns (record s { world = w; proc = running })) (λ r.
              Returns-bind (after_load sys fuel r) _ (after_load-Returns sys p fuel enough r)
                (λ s2. leave_load-Returns s2))

        spawn_stage-Returns :
            (sig : Option Signal) (s : Run F W) → Returns (spawn_stage sys c decode fuel args sig s)
        unfolding spawn_stage
        spawn_stage-Returns (some sig) s = returns _ (omega arith)
        spawn_stage-Returns none s = after_spawn-Returns (sys.spawn args.command s.world) s

        ends : (w : W) → Returns (run_wrap sys c decode fuel args w)
        unfolding run_wrap wrap_body
        ends w = with_cleanup-Returns _ (
            Returns-bind (emit_event sys c start (fresh sys c decode w)) _
              (emit_event-Returns start _)
              (λ s.
                Returns-bind (idle sys c decode fuel idle_before args.idle_window s) _
                  (idle-Returns idle_before s) (λ r. spawn_stage-Returns (sys.signal r.world) r)))

        -- If time passes and the command has a timeout, a run returns or raises, within as many rounds of
        -- each loop as pass in the idle window, in the timeout, or in the five seconds of grace. Then the
        -- child does not run any more, and where the run returns, its return code is recorded and the
        -- exit code accounted for.
        pub run_wrap-Returns :
            (w : W)
            → Ends
                (λ s. IsAccounted (variables s))
                (λ s. is_over s.proc ≡ true)
                (1 ≤ 0)
                (run_wrap sys c decode fuel args w)
        run_wrap-Returns w = Ends-both _ (run_wrap-IsAccounted sys c decode fuel args w) (ends w)
