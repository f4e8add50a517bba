-- ===== src/Power/Child/Returns.antt =====
-- That stopping the child returns, if time passes.
use glm5_3_flash_2x_dgx_spar.Prelude.{
  ℕ, zero, suc, ◌≡◌, refl, sym, subst, true, ◌≤◌, ◌<◌, Option, none, some, is_some, Bool-cases, inl,
  inr, arith,
}
use glm5_3_flash_2x_dgx_spar.Number.{Float, ◌/ᶠ◌, ◌<ᶠ◌}
use glm5_3_flash_2x_dgx_spar.Number.Int.{ℤ}
use glm5_3_flash_2x_dgx_spar.Power.Sampler.{
  System, Proc, unspawned, running, ended, Run, terminate, kill,
}
use glm5_3_flash_2x_dgx_spar.Power.Sampler.Kept.{Ends, Ends-bind, returns, stops}
use glm5_3_flash_2x_dgx_spar.Power.Sampler.Passing.{Returns, IsPassing, Later}
use glm5_3_flash_2x_dgx_spar.Power.Child.{
  polled, poll_of, poll, waited, wait_of, grace, terminate_group, stop_child,
}

module _ {F W : Type 0} ⦃f : Float F⦄ (sys : System F W) (p : IsPassing sys) where
  polled-Later :
      (d : F) (b : Option ℤ × W) (s : Run F W)
      → p.left d b.1 ≤ p.left d s.world
      → Later sys p d s (polled sys b s).1
  unfolding polled
  polled-Later d (none, w) s h = h
  polled-Later d (some code, w) s h = h

  pub poll_of-Later : (d : F) (q : Proc) (s : Run F W) → Later sys p d s (poll_of sys q s).1
  unfolding poll_of
  poll_of-Later d unspawned s = omega arith
  poll_of-Later d running s = polled-Later d (sys.waitpid s.world) s (p.polls d s.world)
  poll_of-Later d (ended code) s = omega arith

  grace-Returns :
      (fuel : ℕ) (d : F) (s : Run F W) → p.left d s.world < fuel → Returns (grace sys fuel d s)
  unfolding grace
  grace-Returns zero d s h = stops (omega (arith, h))
  grace-Returns (suc fuel) d s h = elim (Bool-cases (sys.monotonic s.world <ᶠ d)) [
    | inr e ↦ rw (grace, e) (returns s (omega arith))
    | inl e ↦ elim (Bool-cases (is_some (poll sys s).0)) [
      | inl g ↦ rw (grace, e, g) (returns _ (omega arith))
      | inr g ↦
          let more = p.before d s.world e in
          let polled_at = poll_of-Later d s.proc s in
          let less = p.sleeps d (f.of_ℕ 5 /ᶠ f.of_ℕ 100) (poll sys s).1.world in
          rw (grace, e, g) (grace-Returns fuel d _ (omega (arith, h, more, polled_at, less)))
    ]
  ]

  -- the wait for the child returns
  abbrev Waits : Run F W → Type 0
  Waits s = Returns (wait_of sys s.proc s)

  waited-Returns : (b : Option ℤ × W) (s : Run F W) → is_some b.0 ≡ true → Returns (waited sys b s)
  unfolding waited
  waited-Returns (none, w) s h = absurd (cc h)
  waited-Returns (some code, w) s h = returns _ (omega arith)

  wait_of-killed :
      (q : Proc) (s : Run F W)
      → Returns (wait_of sys q (record s { world = sys.killpg kill s.world }))
  unfolding wait_of
  wait_of-killed unspawned s = waited-Returns _ _ (p.killed s.world)
  wait_of-killed running s = waited-Returns _ _ (p.killed s.world)
  wait_of-killed (ended code) s = returns _ (omega arith)

  -- what has been polled has ended
  polled-Waits :
      (b : Option ℤ × W) (s : Run F W)
      → is_some (polled sys b s).0 ≡ true
      → Waits (polled sys b s).1
  unfolding polled wait_of
  polled-Waits (none, w) s h = absurd (cc h)
  polled-Waits (some code, w) s h = returns _ (omega arith)

  poll_of-Waits :
      (q : Proc) (s : Run F W)
      → s.proc ≡ q
      → is_some (poll_of sys q s).0 ≡ true
      → Waits (poll_of sys q s).1
  unfolding poll_of wait_of
  poll_of-Waits unspawned s e h = absurd (cc h)
  poll_of-Waits running s e h = polled-Waits (sys.waitpid s.world) s h
  poll_of-Waits (ended code) s e h =
      subst (λ q. Returns (wait_of sys q s)) (sym e) (returns _ (omega arith))

  -- `enough` rounds for the time between the two signals
  module _ (fuel : ℕ) (enough : p.most (f.of_ℕ 5) < fuel) where
    terminate_group-Waits :
        (s : Run F W) → Ends Waits (λ r. 0 ≤ 0) (1 ≤ 0) (terminate_group sys fuel s)
    unfolding terminate_group
    terminate_group-Waits s =
        let w = sys.killpg terminate s.world in
        let span = p.within (f.of_ℕ 5) w in
        Ends-bind (grace sys fuel _ _) _
          (grace-Returns fuel _ (record s { world = w }) (omega (arith, span, enough)))
          (λ r k. elim (Bool-cases (is_some (poll sys r).0)) [
            | inl e ↦ rw e (returns _ (poll_of-Waits r.proc r refl e))
            | inr e ↦ rw e (returns _ (wait_of-killed (poll sys r).1.proc (poll sys r).1))
          ])

    pub stop_child-Returns : (s : Run F W) → Returns (stop_child sys fuel s)
    unfolding stop_child
    stop_child-Returns s =
        Ends-bind (terminate_group sys fuel s) _ (terminate_group-Waits s) (λ r k. k)
