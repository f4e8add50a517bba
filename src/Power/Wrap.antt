-- ===== src/Power/Wrap.antt =====
-- tools/bench-power.py: `run_wrap` and `run_watch` from the first event to the last.
pub mod Load
pub mod Left
pub mod Reaped
pub mod Stopped
pub mod Returns
use glm5_3_flash_2x_dgx_spar.Prelude.{
  ℕ, zero, suc, ◌+◌, Bool, true, false, not, ◌&&◌, Option, none, some, is_some, List, [], ◌∷◌,
  if◌then◌else◌, Result, ok, err, ◌>>=◌,
}
use glm5_3_flash_2x_dgx_spar.Number.{Float, ◌+ᶠ◌, ◌/ᶠ◌, ◌≤ᶠ◌, ◌<ᶠ◌}
use glm5_3_flash_2x_dgx_spar.Number.Int.{ℤ, pos, negsuc}
use glm5_3_flash_2x_dgx_spar.Text.{Text}
use glm5_3_flash_2x_dgx_spar.Power.Sampler.{
  Signal, sigint, sigterm, terminate, kill, PhaseName, idle_before, load, idle_after, watch,
  child_spawn_error, child_exit, start, stop, System, Proc, unspawned, running, ended, Run, Sampler,
  Halt, raised, unfinished, Step, written, emit_event, run_until,
}
use glm5_3_flash_2x_dgx_spar.Power.Child.{poll_of, poll, stop_child}

-- the options of a run
pub record WrapArgs (F : Type 0) : Type 0 where
  pub command : List Text
  pub idle_window : F
  pub timeout : F

-- what `finished` says of the child: its return code, or that the time is over
pub data LoadEnd : Type 0 where
  exited : ℤ → LoadEnd
  overtime : LoadEnd

abbrev pub signal_code : Signal → ℕ
signal_code sigint = 128 + 2
signal_code sigterm = 128 + 15

-- of a return code, which is negative after a signal
abbrev pub code_of : ℤ → ℕ
code_of (pos n) = n
code_of (negsuc n) = 128 + suc n

-- by whether time was over, the signal and the code, and what it was before
abbrev pub exit_of : Bool → Option Signal → Option ℤ → ℕ → ℕ
exit_of true sig code before = 124
exit_of false (some sig) code before = signal_code sig
exit_of false none (some code) before = code_of code
exit_of false none none before = before

module _ {F W : Type 0} ⦃f : Float F⦄ (sys : System F W) where
  -- `finished` of the load, `timeout_at` being where there is one
  abbrev pub is_reached : Option F → Run F W → Bool
  is_reached none s = false
  is_reached (some t) s = t ≤ᶠ sys.monotonic s.world

  pub load_end : Option F → Option ℤ × Run F W → Option LoadEnd × Run F W
  load_end timeout_at (some code, s) = (some (exited code), s)
  load_end timeout_at (none, s) = (if is_reached timeout_at s then some overtime else none, s)

  pub finished_load : Option F → Run F W → Option LoadEnd × Run F W
  unfolding poll_of load_end
  finished_load timeout_at s = load_end timeout_at (poll sys s)

  -- `(time.monotonic() >= deadline) or None`
  abbrev pub finished_at : Option F → Run F W → Option Bool × Run F W
  finished_at deadline s = (if is_reached deadline s then some true else none, s)

  abbrev pub set_code : ℤ × Run F W → Run F W
  set_code (code, s) = record s { child_returncode = some code }

  -- the load, once it is over
  pub after_load : ℕ → Option LoadEnd × Run F W → Step F W
  unfolding stop_child
  after_load fuel (none, s) = ok s
  after_load fuel (some (exited code), s) = ok (set_code (code, s))
  after_load fuel (some overtime, s) =
      stop_child sys fuel (record s { child_returncode = some (negsuc 0); timed_out = true })
      >>= λ r. ok (set_code r)

  pub stop_running : ℕ → Option ℤ × Run F W → Step F W
  unfolding stop_child
  stop_running fuel (some code, s) = ok s
  stop_running fuel (none, s) = stop_child sys fuel s >>= λ r. ok (set_code r)

  -- a child that still runs after a signal
  pub interrupt : ℕ → Option Signal → Run F W → Step F W
  unfolding stop_running poll_of
  interrupt fuel none s = ok s
  interrupt fuel (some sig) s = stop_running fuel (poll sys s)

  abbrev pub set_known : Option ℤ × Run F W → Run F W
  set_known (code, s) = record s { child_returncode = code }

  -- the return code, where it is not known yet
  pub collect : Option ℤ → Run F W → Run F W
  unfolding poll_of
  collect (some code) s = s
  collect none s = set_known (poll sys s)

  pub set_exit : Run F W → Run F W
  set_exit s = record s {
    exit_code = exit_of s.timed_out (sys.signal s.world) s.child_returncode s.exit_code;
  }

  pub close_all : List ℕ → Run F W → Step F W
  close_all [] s = ok s
  close_all (k ∷ ks) s = written (sys.close k s.world) s >>= λ s1. close_all ks s1

  -- the `finally` clause, which an exception passes as well
  pub with_cleanup : (Run F W → Step F W) → Step F W → Step F W
  with_cleanup cleanup (ok s) = cleanup s
  with_cleanup cleanup (err (raised s)) = cleanup s >>= λ s1. err (raised s1)
  with_cleanup cleanup (err unfinished) = err unfinished

  module _ (c : Sampler F) where
    pub close_run : Option ℕ → Run F W → Step F W
    unfolding close_all
    close_run exit_code s = emit_event sys c (stop exit_code) s >>= λ s1.
        written (sys.close_writer s1.world) s1 >>= λ s2. close_all c.collectors s2

    pub reap_polled : ℕ → Option ℤ × Run F W → Step F W
    unfolding stop_child
    reap_polled fuel (some code, s) = ok s
    reap_polled fuel (none, s) = stop_child sys fuel s >>= λ r. ok r.1

    pub reap_of : ℕ → Proc → Run F W → Step F W
    unfolding reap_polled poll_of
    reap_of fuel unspawned s = ok s
    reap_of fuel p s = reap_polled fuel (poll sys s)

    pub wrap_cleanup : ℕ → Run F W → Step F W
    unfolding reap_of close_run
    wrap_cleanup fuel s = reap_of fuel s.proc s >>= λ s1. close_run (some s1.exit_code) s1

    -- the sampling of a window of so many seconds, if there are any
    module _ (decode : List ℕ → Text) where
      pub idle : ℕ → PhaseName → F → Run F W → Step F W
      unfolding run_until
      idle fuel phase window s = elim (f.of_ℕ 0 <ᶠ window) [
        | false ↦ ok s
        | true ↦
            let deadline = sys.monotonic s.world +ᶠ window in
            run_until sys c decode (finished_at (some deadline)) fuel phase s >>= λ r. ok r.1
      ]

      pub last_idle : ℕ → WrapArgs F → Option Signal → Run F W → Step F W
      unfolding idle
      last_idle fuel args (some sig) s = ok s
      last_idle fuel args none s = idle fuel idle_after args.idle_window s

      -- from the end of the load to the last window
      pub leave_load : ℕ → WrapArgs F → Run F W → Step F W
      unfolding interrupt collect set_exit last_idle
      leave_load fuel args s = interrupt fuel (sys.signal s.world) s >>= λ s1.
          let s2 = collect s1.child_returncode s1 in
          emit_event sys c (child_exit s2.child_returncode s2.timed_out (sys.signal s2.world)) s2
          >>= λ s3. last_idle fuel args (sys.signal s3.world) (set_exit s3)

      pub timeout_at : WrapArgs F → Run F W → Option F
      timeout_at args s =
          if f.of_ℕ 0 <ᶠ args.timeout then some (sys.monotonic s.world +ᶠ args.timeout) else none

      pub after_spawn : ℕ → WrapArgs F → Option Text × W → Run F W → Step F W
      unfolding run_until finished_load timeout_at after_load leave_load
      after_spawn fuel args (some message, w) s =
          emit_event sys c (child_spawn_error message)
            (record s { world = w; spawn_error = some message })
          >>= λ s1. ok (record s1 { exit_code = 2 })
      after_spawn fuel args (none, w) s =
          let s1 = record s { world = w; proc = running } in
          run_until sys c decode (finished_load (timeout_at args s1)) fuel load s1 >>= λ r.
          after_load fuel r >>= λ s2. leave_load fuel args s2

      pub spawn_stage : ℕ → WrapArgs F → Option Signal → Run F W → Step F W
      unfolding after_spawn
      spawn_stage fuel args (some sig) s = ok (record s { exit_code = signal_code sig })
      spawn_stage fuel args none s = after_spawn fuel args (sys.spawn args.command s.world) s

      -- what the `try` statement does
      pub wrap_body : ℕ → WrapArgs F → Run F W → Step F W
      unfolding idle spawn_stage
      wrap_body fuel args s = emit_event sys c start s >>= λ s1.
          idle fuel idle_before args.idle_window s1 >>= λ s2.
          spawn_stage fuel args (sys.signal s2.world) s2

      -- the run at its start
      abbrev pub fresh : W → Run F W
      fresh w = record {
        world = w;
        markers_offset = 0;
        drops = 0;
        late_ticks = 0;
        records = [];
        proc = unspawned;
        child_returncode = none;
        timed_out = false;
        spawn_error = none;
        exit_code = 0;
      }

      -- up to `_finalize`; a loop makes `fuel` rounds at most
      unfoldable pub run_wrap : ℕ → WrapArgs F → W → Step F W
      unfolding with_cleanup wrap_cleanup wrap_body
      run_wrap fuel args w = with_cleanup (wrap_cleanup fuel) (wrap_body fuel args (fresh w))

      unfoldable pub run_watch : ℕ → F → W → Step F W
      unfolding with_cleanup close_run run_until
      run_watch fuel duration w = with_cleanup (close_run none) (
          emit_event sys c start (fresh w) >>= λ s.
          let deadline =
            if f.of_ℕ 0 <ᶠ duration then some (sys.monotonic s.world +ᶠ duration) else none in
          run_until sys c decode (finished_at deadline) fuel watch s >>= λ r. ok r.1)
