-- ===== src/Power/Sampler/Rounds.antt =====
-- What holds when the loop of the sampler ends, and that it ends.
use glm5_3_flash_2x_dgx_spar.Prelude.{
  ℕ, zero, suc, ◌≤◌, ◌≡◌, Bool, true, false, ◌||◌, Option, is_some, List, Bool-cases, inl, inr,
  arith,
}
use glm5_3_flash_2x_dgx_spar.Number.{Float, ◌-ᶠ◌, ◌<ᶠ◌}
use glm5_3_flash_2x_dgx_spar.Text.{Text}
use glm5_3_flash_2x_dgx_spar.Power.Sampler.{
  PhaseName, System, Run, Sampler, wait_tick, one_sample, rounds, run_until,
}
use glm5_3_flash_2x_dgx_spar.Power.Sampler.Kept.{
  Ends, returns, stops, Ends-bind, Ends-map, IsStable, one_sample-Ends,
}

module _ {F W : Type 0} ⦃f : Float F⦄ (sys : System F W) where
  -- the test that ends the loop
  abbrev pub is_last : {R : Type 0} → Option R × Run F W → Bool
  is_last r = is_some r.0 || is_some (sys.signal r.1.world)

  wait_tick-Rel :
      (c : Sampler F) {Rel : Run F W → Run F W → Type 0} (stable : IsStable sys c Rel)
      → ((x : F) (n : ℕ) (s : Run F W)
          → Rel s (record s { world = sys.wait x s.world; late_ticks = n }))
      → {s : Run F W} (tick : F) (r : Run F W) → Rel s r
      → Rel s (wait_tick sys c tick r).1
  unfolding wait_tick
  wait_tick-Rel c stable waits tick r h =
      elim (Bool-cases ((tick -ᶠ sys.monotonic r.world) <ᶠ f.of_ℕ 0)) [
        | inl e ↦ rw e (stable.trans h (waits _ _ r))
        | inr e ↦ rw e (stable.trans h (waits _ r.late_ticks r))
      ]

  module _ {R : Type 0} (c : Sampler F) (decode : List ℕ → Text)
      (finished : Run F W → Option R × Run F W) {Rel : Run F W → Run F W → Type 0}
      (stable : IsStable sys c Rel)
      (waits : (x : F) (n : ℕ) (s : Run F W)
        → Rel s (record s { world = sys.wait x s.world; late_ticks = n }))
      {s : Run F W} {Out : Option R × Run F W → Type 0}
      (last : (r : Run F W) → Rel s r → is_last (finished r) ≡ true → Out (finished r))
      (next : (r : Run F W) → Rel s r → is_last (finished r) ≡ false → Rel s (finished r).1) where
    rounds-Ends :
        (fuel : ℕ) (phase : PhaseName) (tick : F) (r : Run F W)
        → Rel s r
        → Ends Out (λ q. 0 ≤ 0) (0 ≤ 0) (rounds sys c decode finished fuel phase tick r)
    unfolding rounds
    rounds-Ends zero phase tick r h = stops (omega arith)
    rounds-Ends (suc fuel) phase tick r h =
        Ends-bind (one_sample sys c decode phase r) _
          (Ends-map _ (λ q k. k) (λ q k. omega arith) (one_sample-Ends sys c stable decode phase r))
          (λ q k.
            let all_of = stable.trans h k in
            elim (Bool-cases (is_last (finished q))) [
              | inl e ↦ rw e (returns _ (last q all_of e))
              | inr e ↦
                  rw e (
                    rounds-Ends fuel phase _ _ (wait_tick-Rel c stable waits _ _ (next q all_of e)))
            ])

    pub run_until-Ends :
        (fuel : ℕ) (phase : PhaseName)
        → Ends Out (λ q. 0 ≤ 0) (0 ≤ 0) (run_until sys c decode finished fuel phase s)
    unfolding run_until
    run_until-Ends fuel phase = rounds-Ends fuel phase _ s (stable.same s)
