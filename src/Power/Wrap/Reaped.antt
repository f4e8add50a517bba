-- ===== src/Power/Wrap/Reaped.antt =====
-- That no child outlives a run, and what is recorded of it.
use glm5_3_flash_2x_dgx_spar.Prelude.{
  ℕ, ◌≤◌, ◌≡◌, refl, sym, ap, ◌∙◌, subst, Bool, true, false, Option, none, some, List, Result,
  ◌>>=◌, Bool-cases, inl, inr, ◌⊎◌, arith,
}
use glm5_3_flash_2x_dgx_spar.Number.{Float, ◌<ᶠ◌}
use glm5_3_flash_2x_dgx_spar.Number.Int.{ℤ}
use glm5_3_flash_2x_dgx_spar.Text.{Text}
use glm5_3_flash_2x_dgx_spar.Power.Sampler.{
  Signal, PhaseName, idle_before, idle_after, load, Event, start, System, Proc, unspawned, running,
  ended, Run, Sampler, Halt, Step, emit_event, run_until,
}
use glm5_3_flash_2x_dgx_spar.Power.Sampler.Kept.{Ends, returns, Ends-bind, Ends-map}
use glm5_3_flash_2x_dgx_spar.Power.Sampler.Rounds.{run_until-Ends}
use glm5_3_flash_2x_dgx_spar.Power.Child.Variables.{Rest, rest_of, variables, Same, Same-IsStable}
use glm5_3_flash_2x_dgx_spar.Power.Wrap.Left.{is_over, IsLeft, emit_event-Same, with_cleanup-IsLeft}
use glm5_3_flash_2x_dgx_spar.Power.Wrap.Load.{
  untouched, IsLoaded, IsRecorded, IsAfter, finished_load-Loaded, after_load-IsAfter,
  interrupt-IsStopped, collect-IsRecorded,
}
use glm5_3_flash_2x_dgx_spar.Power.Wrap.{
  WrapArgs, signal_code, code_of, finished_load, after_load, interrupt, collect, last_idle,
  spawn_stage, exit_of, set_exit, idle, leave_load, timeout_at, after_spawn, wrap_body, fresh,
  run_wrap,
}

-- the exit code: 124 where time was over, and else that of a signal or of the child
abbrev pub IsExit : Bool → ℤ → ℕ → Type 0
IsExit true code exit = exit ≡ 124
IsExit false code exit = ((sig : Signal) × (exit ≡ signal_code sig)) ⊎ (exit ≡ code_of code)

-- where the child was not started
abbrev pub IsUnstarted : Option Text → ℕ → Type 0
IsUnstarted none exit = (sig : Signal) × (exit ≡ signal_code sig)
IsUnstarted (some message) exit = exit ≡ 2

abbrev pub IsAccounted : Proc × Rest → Type 0
IsAccounted (running, r) = 1 ≤ 0
IsAccounted (unspawned, (known, (late, (error, exit)))) =
    (known ≡ none) × ((late ≡ false) × IsUnstarted error exit)
IsAccounted (ended code, (known, (late, (error, exit)))) =
    (known ≡ some code) × ((error ≡ none) × IsExit late code exit)

exit_of-IsExit :
    (late : Bool) (sig : Option Signal) (code : ℤ)
    → IsExit late code (exit_of late sig (some code) 0)
exit_of-IsExit true sig code = refl
exit_of-IsExit false (some sig) code = inl (sig, refl)
exit_of-IsExit false none code = inr refl

module _ {F W : Type 0} ⦃f : Float F⦄ (sys : System F W) (c : Sampler F) where
  keeps-IsAccounted :
      (s r : Run F W) → IsAccounted (variables s) → IsLeft sys c s r → IsAccounted (variables r)
  keeps-IsAccounted s r h (over, same) = subst IsAccounted (sym (same (over_of s.proc refl))) h
    where
      over_of : (p : Proc) → s.proc ≡ p → is_over s.proc ≡ true
      over_of running e =
          let no : 1 ≤ 0 = subst (λ q. IsAccounted (q, rest_of s)) e h in absurd (omega (arith, no))
      over_of unspawned e = ap is_over e
      over_of (ended code) e = ap is_over e

  set_exit-IsAccounted : (s : Run F W) → IsRecorded sys s → IsAccounted (variables (set_exit sys s))
  unfolding set_exit
  set_exit-IsAccounted s (code, (late, h)) =
      subst IsAccounted
        (sym (
          ap
            (λ v. (
              v.0,
              (v.1.0, (v.1.1.0, (v.1.1.1.0, exit_of v.1.1.0 (sys.signal s.world) v.1.0 v.1.1.1.1))),
            ))
            h))
        (refl, (refl, exit_of-IsExit late (sys.signal s.world) code))

  module _ (decode : List ℕ → Text) (fuel : ℕ) where
    waits-Same :
        (x : F) (n : ℕ) (s : Run F W)
        → Same s (record s { world = sys.wait x s.world; late_ticks = n })
    waits-Same x n s = refl

    idle-Same :
        (phase : PhaseName) (window : F) (s : Run F W)
        → Ends (Same s) (λ r. 0 ≤ 0) (0 ≤ 0) (idle sys c decode fuel phase window s)
    unfolding idle
    idle-Same phase window s = elim (Bool-cases (f.of_ℕ 0 <ᶠ window)) [
      | inr e ↦ rw (idle, e) (returns s refl)
      | inl e ↦
          rw (idle, e)
            (Ends-bind (run_until sys c decode _ fuel phase s) _
              (run_until-Ends sys c decode _ (Same-IsStable sys c) waits-Same
                {Out = λ r. Same s r.1} (λ r h g. h) (λ r h g. h) fuel phase)
              (λ r h. returns r.1 h))
    ]

    -- what is reached at the end of the `try` statement
    abbrev IsDone : Step F W → Type 0
    IsDone x = Ends (λ s. IsAccounted (variables s)) (λ s. 0 ≤ 0) (0 ≤ 0) x

    -- a call that changes no variable
    emitted :
        {A : Type 0} {Q : A → Type 0} (e : Event) (s : Run F W)
        (next : Run F W → Result (Halt F W) A)
        → ((r : Run F W) → Same s r → Ends Q (λ q. 0 ≤ 0) (0 ≤ 0) (next r))
        → Ends Q (λ q. 0 ≤ 0) (0 ≤ 0) (emit_event sys c e s >>= next)
    emitted e s next rest =
        Ends-bind (emit_event sys c e s) next
          (Ends-map _ (λ r h. h) (λ r h. omega arith) (emit_event-Same sys c e s)) rest

    last_idle-IsDone :
        (args : WrapArgs F) (sig : Option Signal) (s : Run F W)
        → IsAccounted (variables s)
        → IsDone (last_idle sys c decode fuel args sig s)
    unfolding last_idle
    last_idle-IsDone args (some sig) s h = returns s h
    last_idle-IsDone args none s h =
        Ends-map _ (λ r k. subst IsAccounted (sym k) h) (λ r k. k)
          (idle-Same idle_after args.idle_window s)

    leave_load-IsDone :
        (args : WrapArgs F) (s : Run F W)
        → IsAfter sys s
        → IsDone (leave_load sys c decode fuel args s)
    unfolding leave_load
    leave_load-IsDone args s h =
        Ends-bind (interrupt sys fuel (sys.signal s.world) s) _
          (interrupt-IsStopped sys (λ r. 0 ≤ 0) fuel (sys.signal s.world) s refl h)
          (λ s1 k.
            let (code, (late, known)) = collect-IsRecorded sys s1.child_returncode s1 refl k in
            emitted _ (collect sys s1.child_returncode s1) _ (λ s3 e.
              last_idle-IsDone args _ _ (set_exit-IsAccounted s3 (code, (late, e ∙ known)))))

    after_spawn-IsDone :
        (args : WrapArgs F) (x : Option Text × W) (s : Run F W)
        → variables s ≡ (unspawned, untouched)
        → IsDone (after_spawn sys c decode fuel args x s)
    unfolding after_spawn
    after_spawn-IsDone args (some message, w) s h = emitted _ _ _ (λ r k. returns _ (
        subst IsAccounted
          (sym (
            ap (λ v. (v.0, (v.1.0, (v.1.1.0, (v.1.1.1.0, 2)))))
              (k ∙ ap (λ v. (v.0, (v.1.0, (v.1.1.0, (some message, v.1.1.1.1))))) h)))
          (refl, (refl, refl))))
    after_spawn-IsDone args (none, w) s h =
        let s1 : Run F W = record s { world = w; proc = running } in
        let t = timeout_at sys c decode args s1 in
        Ends-bind (run_until sys c decode (finished_load sys t) fuel load s1) _
          (run_until-Ends sys c decode (finished_load sys t) (Same-IsStable sys c) waits-Same
            {Out = IsLoaded sys}
            (λ r k e. (finished_load-Loaded sys t r (k ∙ ap (λ v. (running, v.1)) h)).0 e)
            (λ r k e.
              (finished_load-Loaded sys t r (k ∙ ap (λ v. (running, v.1)) h)).1 e
              ∙ sym (ap (λ v. (running, v.1)) h))
            fuel load)
          (λ r k.
            Ends-bind (after_load sys fuel r) _ (after_load-IsAfter sys (λ q. 0 ≤ 0) fuel r k)
              (λ s2 e. leave_load-IsDone args s2 e))

    spawn_stage-IsDone :
        (args : WrapArgs F) (sig : Option Signal) (s : Run F W)
        → variables s ≡ (unspawned, untouched)
        → IsDone (spawn_stage sys c decode fuel args sig s)
    unfolding spawn_stage
    spawn_stage-IsDone args (some sig) s h = returns _ (
        subst IsAccounted
          (sym (ap (λ v. (v.0, (v.1.0, (v.1.1.0, (v.1.1.1.0, signal_code sig))))) h))
          (refl, (refl, (sig, refl))))
    spawn_stage-IsDone args none s h = after_spawn-IsDone args (sys.spawn args.command s.world) s h

    wrap_body-IsDone :
        (args : WrapArgs F) (w : W)
        → IsDone (wrap_body sys c decode fuel args (fresh sys c decode w))
    unfolding wrap_body
    wrap_body-IsDone args w = emitted start _ _ (λ s h.
        Ends-bind (idle sys c decode fuel idle_before args.idle_window s) _
          (idle-Same idle_before args.idle_window s)
          (λ r k. spawn_stage-IsDone args (sys.signal r.world) r (k ∙ h)))

    -- However a run ends, by an exception too, its child does not run any more. Where it returns, a child
    -- that was started has its return code recorded, and the exit code is 124 if time was over, and else
    -- that of a signal or of the child; where none was, it is that of a signal, or 2 after an error.
    -- Nothing is said of a run that has not ended within its rounds.
    pub run_wrap-IsAccounted :
        (args : WrapArgs F) (w : W)
        → Ends
            (λ s. IsAccounted (variables s))
            (λ s. is_over s.proc ≡ true)
            (0 ≤ 0)
            (run_wrap sys c decode fuel args w)
    unfolding run_wrap
    run_wrap-IsAccounted args w =
        with_cleanup-IsLeft sys c fuel _ keeps-IsAccounted (wrap_body-IsDone args w)
