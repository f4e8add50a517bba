-- ===== src/Power/Sampler/Passing.antt =====
-- That the loop of the sampler ends, if it asks for a deadline and time passes.
use glm5_3_flash_2x_dgx_spar.Prelude.{
  ℕ, zero, suc, ◌-◌, ◌≤◌, ◌<◌, ◌≡◌, true, false, Option, none, some, is_some, List, Result, ◌>>=◌,
  Bool-cases, inl, inr, arith,
}
use glm5_3_flash_2x_dgx_spar.Number.{Float, ◌+ᶠ◌, ◌-ᶠ◌, ◌<ᶠ◌, ◌≤ᶠ◌}
use glm5_3_flash_2x_dgx_spar.Text.{Text}
use glm5_3_flash_2x_dgx_spar.Power.Samples.{Device}
use glm5_3_flash_2x_dgx_spar.Power.Sampler.{
  kill, Line, PhaseName, System, Run, Sampler, Halt, after_batch, wait_tick, one_sample, rounds,
  run_until,
}
use glm5_3_flash_2x_dgx_spar.Power.Sampler.Kept.{
  Ends, returns, stops, Ends-bind, Ends-map, IsStable, one_sample-Ends,
}
use glm5_3_flash_2x_dgx_spar.Power.Sampler.Rounds.{is_last}

-- A call that returns or raises.
abbrev pub Returns : {F W A : Type 0} → Result (Halt F W) A → Type 0
Returns x = Ends (λ a. 0 ≤ 0) (λ s. 0 ≤ 0) (1 ≤ 0) x

module _ {F W : Type 0} where
  pub Returns-bind :
      {A B : Type 0} (x : Result (Halt F W) A) (next : A → Result (Halt F W) B)
      → Returns x
      → ((a : A) → Returns (next a))
      → Returns (x >>= next)
  Returns-bind x next h rest = Ends-bind x next h (λ a k. rest a)

module _ {F W : Type 0} ⦃f : Float F⦄ (sys : System F W) where
  -- Time passes: a number of rounds is left before a deadline, none at the deadline and one fewer after
  -- a wait or a sleep, however short, and nothing else turns the clock back. A span of time has a
  -- number of rounds in which it passes.
  pub record IsPassing : Type 0 where
    pub left : F → W → ℕ
    pub most : F → ℕ
    pub within : (x : F) (w : W) → left (sys.monotonic w +ᶠ x) w ≤ most x
    pub over : (d : F) (w : W) → (d ≤ᶠ sys.monotonic w) ≡ false → 1 ≤ left d w
    pub before : (d : F) (w : W) → (sys.monotonic w <ᶠ d) ≡ true → 1 ≤ left d w
    pub waits : (d x : F) (w : W) → left d (sys.wait x w) ≤ left d w - 1
    pub sleeps : (d x : F) (w : W) → left d (sys.sleep x w) ≤ left d w - 1
    pub samples : (d : F) (k : ℕ) (w : W) → left d (sys.sample k w).1 ≤ left d w
    pub looks : (d : F) (w : W) → left d (sys.look w).1 ≤ left d w
    pub writes : (d : F) (l : Line F) (w : W) → left d (sys.write l w).1 ≤ left d w
    -- where SIGKILL was sent, the wait for the child returns
    pub killed : (w : W) → is_some (sys.wait_child (sys.killpg kill w)).0 ≡ true
    pub polls : (d : F) (w : W) → left d (sys.waitpid w).1 ≤ left d w

  module _ (p : IsPassing) where
    -- no more rounds are left later
    abbrev pub Later : F → Run F W → Run F W → Type 0
    Later d s r = p.left d r.world ≤ p.left d s.world

    after_batch-Later :
        (d : F) (b : Option (List (Device F)) × W) (s : Run F W)
        → p.left d b.1 ≤ p.left d s.world
        → Later d s (after_batch b s)
    after_batch-Later d (none, w) s h = h
    after_batch-Later d (some x, w) s h = h

    Later-IsStable : (c : Sampler F) (d : F) → IsStable sys c (Later d)
    Later-IsStable c d = record {
      same = λ s. omega arith;
      trans = λ h k. omega (arith, h, k);
      samples = λ k s. after_batch-Later d (sys.sample k s.world) s (p.samples d k s.world);
      looks = λ s o. p.looks d s.world;
      lines = λ l s. p.writes d l s.world;
    }

    wait_tick-less :
        (c : Sampler F) (d tick : F) (r : Run F W)
        → p.left d (wait_tick sys c tick r).1.world ≤ p.left d r.world - 1
    unfolding wait_tick
    wait_tick-less c d tick r = elim (Bool-cases ((tick -ᶠ sys.monotonic r.world) <ᶠ f.of_ℕ 0)) [
      | inl e ↦ rw (wait_tick, e) (p.waits d _ r.world)
      | inr e ↦ rw (wait_tick, e) (p.waits d _ r.world)
    ]

    -- a loop that asks for a deadline
    module _ {R : Type 0} (c : Sampler F) (decode : List ℕ → Text)
        (finished : Run F W → Option R × Run F W) (d : F)
        (asks : (r : Run F W) → Later d r (finished r).1)
        (goes_on : (r : Run F W)
          → is_some (finished r).0 ≡ false
          → 1 ≤ p.left d (finished r).1.world) where
      rounds-Returns :
          (fuel : ℕ) (phase : PhaseName) (tick : F) (r : Run F W)
          → p.left d r.world < fuel
          → Returns (rounds sys c decode finished fuel phase tick r)
      unfolding rounds
      rounds-Returns zero phase tick r h = stops (omega (arith, h))
      rounds-Returns (suc fuel) phase tick r h =
          Ends-bind (one_sample sys c decode phase r) _
            (Ends-map _ (λ q k. k) (λ q k. omega arith)
              (one_sample-Ends sys c (Later-IsStable c d) decode phase r))
            (λ q k. elim (Bool-cases (is_last sys (finished q))) [
              | inl e ↦ rw e (returns _ (omega arith))
              | inr e ↦
                  let asked = asks q in
                  let more = goes_on q (ground (arith, e)) in
                  let less = wait_tick-less c d (tick +ᶠ c.interval) (finished q).1 in
                  rw e (rounds-Returns fuel phase _ _ (omega (arith, h, k, asked, more, less)))
            ])

      pub run_until-Returns :
          (fuel : ℕ) (phase : PhaseName) (s : Run F W)
          → p.left d s.world < fuel
          → Returns (run_until sys c decode finished fuel phase s)
      unfolding run_until
      run_until-Returns fuel phase s h = rounds-Returns fuel phase _ s h
