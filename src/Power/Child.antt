-- ===== src/Power/Child.antt =====
-- tools/bench-power.py: the child of a wrapped run, polled, waited for, and ended by `_terminate_group`.
pub mod Variables
pub mod Returns
use glm5_3_flash_2x_dgx_spar.Prelude.{
  ℕ, zero, suc, ◌+◌, Bool, true, false, not, ◌&&◌, Option, none, some, is_some, List, [], ◌∷◌,
  if◌then◌else◌, Result, ok, err, ◌>>=◌,
}
use glm5_3_flash_2x_dgx_spar.Number.{Float, ◌+ᶠ◌, ◌/ᶠ◌, ◌≤ᶠ◌, ◌<ᶠ◌}
use glm5_3_flash_2x_dgx_spar.Number.Int.{ℤ, pos, negsuc}
use glm5_3_flash_2x_dgx_spar.Text.{Text}
use glm5_3_flash_2x_dgx_spar.Power.Sampler.{
  Signal, sigint, sigterm, terminate, kill, PhaseName, idle_before, load, idle_after, watch,
  child_spawn_error, child_exit, start, stop, System, Proc, unspawned, running, ended, Run, Sampler,
  Halt, raised, unfinished, Step, written, emit_event, run_until,
}

module _ {F W : Type 0} ⦃f : Float F⦄ (sys : System F W) where
  pub polled : Option ℤ × W → Run F W → Option ℤ × Run F W
  polled (none, w) s = (none, record s { world = w })
  polled (some code, w) s = (some code, record s { world = w; proc = ended code })

  -- `Popen.poll`, and `Popen.wait` with a timeout of 0
  unfoldable pub poll_of : Proc → Run F W → Option ℤ × Run F W
  unfolding polled
  poll_of unspawned s = (none, s)
  poll_of running s = polled (sys.waitpid s.world) s
  poll_of (ended code) s = (some code, s)

  abbrev pub poll : Run F W → Option ℤ × Run F W
  poll s = poll_of s.proc s

  -- `Popen.wait`
  waited : Option ℤ × W → Run F W → Result (Halt F W) (ℤ × Run F W)
  waited (none, w) s = err unfinished
  waited (some code, w) s = ok (code, record s { world = w; proc = ended code })

  pub wait_of : Proc → Run F W → Result (Halt F W) (ℤ × Run F W)
  unfolding waited
  wait_of (ended code) s = ok (code, s)
  wait_of p s = waited (sys.wait_child s.world) s

  -- while there is time and the child runs
  pub grace : ℕ → F → Run F W → Step F W
  unfolding poll_of
  grace zero deadline s = err unfinished
  grace (suc fuel) deadline s = elim (sys.monotonic s.world <ᶠ deadline) [
    | false ↦ ok s
    | true ↦
        let (code, s1) = poll s in
        elim (is_some code) [
          | true ↦ ok s1
          | false ↦
              grace fuel deadline
                (record s1 { world = sys.sleep (f.of_ℕ 5 /ᶠ f.of_ℕ 100) s1.world })
        ]
  ]

  pub terminate_group : ℕ → Run F W → Step F W
  unfolding grace poll_of
  terminate_group fuel s =
      let s1 = record s { world = sys.killpg terminate s.world } in
      grace fuel (sys.monotonic s1.world +ᶠ f.of_ℕ 5) s1 >>= λ s2.
      let (code, s3) = poll s2 in
      if is_some code then ok s3 else ok (record s3 { world = sys.killpg kill s3.world })

  -- `_terminate_group(proc)`, then `proc.wait()`
  unfoldable pub stop_child : ℕ → Run F W → Result (Halt F W) (ℤ × Run F W)
  unfolding terminate_group wait_of
  stop_child fuel s = terminate_group fuel s >>= λ s1. wait_of s1.proc s1
