-- ===== src/Power/Sampler.antt =====
-- tools/bench-power.py: `Sampler`, the loop that samples the collectors and the file of markers. The
-- outside is a `System`, operations on a world `W`; a signal arrives within any of them.
pub mod Kept
pub mod Rounds
pub mod Passing
use glm5_3_flash_2x_dgx_spar.Prelude.{
  ℕ, zero, suc, ◌+◌, Bool, true, false, not, ◌||◌, Option, none, some, is_some, List, [], ◌∷◌, ◌++◌,
  if◌then◌else◌, Result, ok, err, ◌>>=◌,
}
use glm5_3_flash_2x_dgx_spar.Number.{Float, ◌+ᶠ◌, ◌-ᶠ◌, ◌<ᶠ◌}
use glm5_3_flash_2x_dgx_spar.Number.Int.{ℤ}
use glm5_3_flash_2x_dgx_spar.Text.{Text}
use glm5_3_flash_2x_dgx_spar.Power.Markers.{MarkerFile, read_marker_lines}
use glm5_3_flash_2x_dgx_spar.Power.Samples.{Device, Sample}

-- those that are handled, and that `stop_signal` names
pub data Signal : Type 0 where
  sigint sigterm : Signal

-- those that are sent
pub data KillSignal : Type 0 where
  terminate kill : KillSignal

pub data PhaseName : Type 0 where
  idle_before load idle_after watch : PhaseName

-- `emit_event`; `stop` has no exit code in watch mode
pub data Event : Type 0 where
  start : Event
  child_spawn_error : Text → Event
  child_exit : Option ℤ → Bool → Option Signal → Event
  stop : Option ℕ → Event

-- a record of the stream, without its time of day
pub data Line (F : Type 0) : Type 0 where
  sampled : PhaseName → Sample F → Line F
  marked : PhaseName → F → Text → Line F
  happened : F → Event → Line F

-- `none` of `sample` is a `None` or an exception; `write`, `close_writer` and `close` say whether they
-- return, and not raise; `write` does nothing where there is no stream
pub record System (F W : Type 0) : Type 0 where
  pub monotonic : W → F
  -- `stop_signal`, which is set together with `stop`
  pub signal : W → Option Signal
  pub sample : ℕ → W → Option (List (Device F)) × W
  pub look : W → MarkerFile × W
  pub write : Line F → W → Bool × W
  -- `Event.wait` on `stop`, and `time.sleep`
  pub wait : F → W → W
  pub sleep : F → W → W
  -- the message of the `OSError`, if there is one
  pub spawn : List Text → W → Option Text × W
  -- of the child, as long as its return code is not known
  pub waitpid : W → Option ℤ × W
  -- `none` where it blocks for ever
  pub wait_child : W → Option ℤ × W
  pub killpg : KillSignal → W → W
  pub close_writer : W → Bool × W
  pub close : ℕ → W → Bool × W

-- the child, with its return code once it is known
pub data Proc : Type 0 where
  unspawned running : Proc
  ended : ℤ → Proc

-- what changes in a run: the world, the sampler's fields, the list of records, `run_wrap`'s variables
pub record Run (F W : Type 0) : Type 0 where
  pub world : W
  pub markers_offset : ℕ
  pub drops : ℕ
  pub late_ticks : ℕ
  pub records : List (Line F)
  pub proc : Proc
  pub child_returncode : Option ℤ
  pub timed_out : Bool
  pub spawn_error : Option Text
  pub exit_code : ℕ

-- the sampler's other fields; a collector is its number
pub record Sampler (F : Type 0) : Type 0 where
  pub collectors : List ℕ
  pub interval : F
  pub has_markers : Bool
  pub t0_monotonic : F

-- why a call does not return: it raised, or the rounds that it may take are used up or it blocks for ever
pub data Halt (F W : Type 0) : Type 0 where
  raised : Run F W → Halt F W
  unfinished : Halt F W

-- a call that leaves a run behind
abbrev pub Step : Type 0 → Type 0 → Type 0
Step F W = Result (Halt F W) (Run F W)

module _ {F : Type 0} where
  abbrev pub or_empty : Option (List (Device F)) → List (Device F)
  or_empty none = []
  or_empty (some devices) = devices

module _ {F W : Type 0} where
  abbrev pub written : Bool × W → Run F W → Step F W
  written (true, w) s = ok (record s { world = w })
  written (false, w) s = err (raised (record s { world = w }))

  abbrev pub after_batch : Option (List (Device F)) × W → Run F W → Run F W
  after_batch (none, w) s = record s { world = w; drops = s.drops + 1 }
  after_batch (some batch, w) s = record s { world = w }

module _ {F W : Type 0} ⦃f : Float F⦄ (sys : System F W) (c : Sampler F) where
  -- `Sampler.t`, rounded
  abbrev pub time : Run F W → F
  time s = f.round (sys.monotonic s.world -ᶠ c.t0_monotonic) 3

  abbrev pub emit : Line F → Run F W → Step F W
  emit line s = written (sys.write line s.world) s

  abbrev pub emit_event : Event → Run F W → Step F W
  emit_event e s = emit (happened (time s) e) s

  -- `sink.append`, then `emit`
  abbrev pub keep_line : Line F → Run F W → Step F W
  keep_line line s = emit line (record s { records = s.records ++ line ∷ [] })

  -- the devices of the collectors that answer
  pub read_collectors : List ℕ → Run F W → List (Device F) × Run F W
  read_collectors [] s = ([], s)
  read_collectors (k ∷ ks) s =
      let batch = sys.sample k s.world in
      let (devices, later) = read_collectors ks (after_batch batch s) in
      (or_empty batch.0 ++ devices, later)

  pub mark_all : PhaseName → List Text → Run F W → Step F W
  mark_all phase [] s = ok s
  mark_all phase (label ∷ labels) s =
      keep_line (marked phase (time s) label) s >>= λ s1. mark_all phase labels s1

  -- `result` and the tick, after the wait for the tick that is due
  wait_tick : F → Run F W → F × Run F W
  wait_tick tick s =
      let now = sys.monotonic s.world in
      let delay = tick -ᶠ now in
      if delay <ᶠ f.of_ℕ 0
      then (now, record s { world = sys.wait (f.of_ℕ 0) s.world; late_ticks = s.late_ticks + 1 })
      else (tick, record s { world = sys.wait delay s.world })

  -- `decode` is UTF-8 with replacement
  module _ (decode : List ℕ → Text) where
    pub poll_markers : PhaseName → Run F W → Step F W
    unfolding mark_all
    poll_markers phase s = elim c.has_markers [
      | false ↦ ok s
      | true ↦
          let (file, w) = sys.look s.world in
          let (lines, offset) = read_marker_lines decode file s.markers_offset in
          mark_all phase lines (record s { world = w; markers_offset = offset })
    ]

    pub one_sample : PhaseName → Run F W → Step F W
    unfolding read_collectors poll_markers
    one_sample phase s =
        let (devices, s1) = read_collectors c.collectors s in
        keep_line (sampled phase (record { t = time s1; devices = devices })) s1 >>= λ s2.
        poll_markers phase s2

    -- what `finished` returns, after each sample
    module _ {R : Type 0} (finished : Run F W → Option R × Run F W) where
      pub rounds : ℕ → PhaseName → F → Run F W → Result (Halt F W) (Option R × Run F W)
      unfolding one_sample wait_tick
      rounds zero phase tick s = err unfinished
      rounds (suc fuel) phase tick s = one_sample phase s >>= λ s1.
          let (result, s2) = finished s1 in
          elim (is_some result || is_some (sys.signal s2.world)) [
            | true ↦ ok (result, s2)
            | false ↦
                let (next, s3) = wait_tick (tick +ᶠ c.interval) s2 in rounds fuel phase next s3
          ]

      unfoldable pub run_until : ℕ → PhaseName → Run F W → Result (Halt F W) (Option R × Run F W)
      unfolding rounds
      run_until fuel phase s = rounds fuel phase (sys.monotonic s.world) s
