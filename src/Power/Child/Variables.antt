-- ===== src/Power/Child/Variables.antt =====
-- The variables of `run_wrap`, and what happens to them where the child is polled and stopped.
use glm5_3_flash_2x_dgx_spar.Prelude.{
  ℕ, zero, suc, ◌≤◌, ◌≡◌, refl, ap, ◌∙◌, Bool, Option, none, some, is_some, Bool-cases, inl, inr,
  arith,
}
use glm5_3_flash_2x_dgx_spar.Number.{Float, ◌<ᶠ◌}
use glm5_3_flash_2x_dgx_spar.Number.Int.{ℤ}
use glm5_3_flash_2x_dgx_spar.Text.{Text}
use glm5_3_flash_2x_dgx_spar.Power.Sampler.{
  System, Proc, unspawned, running, ended, Run, Sampler, after_batch,
}
use glm5_3_flash_2x_dgx_spar.Power.Sampler.Kept.{
  Ends, returns, stops, Ends-bind, Ends-map, IsStable,
}
use glm5_3_flash_2x_dgx_spar.Power.Child.{
  polled, poll_of, poll, waited, wait_of, grace, terminate_group, stop_child,
}

-- those beside the child: its return code, whether time was over, the error of its start, the exit code
abbrev pub Rest : Type 0
Rest = Option ℤ × (Bool × (Option Text × ℕ))

module _ {F W : Type 0} where
  abbrev pub rest_of : Run F W → Rest
  rest_of s = (s.child_returncode, (s.timed_out, (s.spawn_error, s.exit_code)))

  abbrev pub variables : Run F W → Proc × Rest
  variables s = (s.proc, rest_of s)

  abbrev pub Same : Run F W → Run F W → Type 0
  Same s r = variables r ≡ variables s

module _ {F W : Type 0} ⦃f : Float F⦄ (sys : System F W) where
  after_batch-Same : (b : Option _ × W) (s : Run F W) → Same s (after_batch b s)
  after_batch-Same (none, w) s = refl
  after_batch-Same (some d, w) s = refl

  pub Same-IsStable : (c : Sampler F) → IsStable sys c Same
  Same-IsStable c = record {
    same = λ s. refl;
    trans = λ h k. k ∙ h;
    samples = λ k s. after_batch-Same (sys.sample k s.world) s;
    looks = λ s o. refl;
    lines = λ l s. refl;
  }

  -- a poll gives nothing and changes no variable, or the code of a child that has ended
  abbrev pub IsPolled : Run F W → Option ℤ × Run F W → Type 0
  IsPolled s (none, r) = Same s r
  IsPolled s (some code, r) = variables r ≡ (ended code, rest_of s)

  polled-IsPolled : (b : Option ℤ × W) (s : Run F W) → IsPolled s (polled sys b s)
  unfolding polled
  polled-IsPolled (none, w) s = refl
  polled-IsPolled (some code, w) s = refl

  poll_of-IsPolled : (p : Proc) (s : Run F W) → s.proc ≡ p → IsPolled s (poll_of sys p s)
  unfolding poll_of
  poll_of-IsPolled unspawned s h = refl
  poll_of-IsPolled running s h = polled-IsPolled (sys.waitpid s.world) s
  poll_of-IsPolled (ended code) s h = ap (λ p. (p, rest_of s)) h

  pub poll-IsPolled : (s : Run F W) → IsPolled s (poll sys s)
  poll-IsPolled s = poll_of-IsPolled s.proc s refl

  pub poll-ended : (code : ℤ) (s : Run F W) → s.proc ≡ ended code → poll sys s ≡ (some code, s)
  unfolding poll_of
  poll-ended code s h = ap (λ p. poll_of sys p s) h

  polled-rest_of : (s : Run F W) (r : Option ℤ × Run F W) → IsPolled s r → rest_of r.1 ≡ rest_of s
  polled-rest_of s (none, r) h = ap (λ v. v.1) h
  polled-rest_of s (some code, r) h = ap (λ v. v.1) h

  poll-rest_of : (s : Run F W) → rest_of (poll sys s).1 ≡ rest_of s
  poll-rest_of s = polled-rest_of s (poll sys s) (poll-IsPolled s)

  grace-rest_of :
      {E : Run F W → Type 0} (fuel : ℕ) (deadline : F) (s : Run F W)
      → Ends (λ r. rest_of r ≡ rest_of s) E (0 ≤ 0) (grace sys fuel deadline s)
  unfolding grace
  grace-rest_of zero deadline s = stops (omega arith)
  grace-rest_of (suc fuel) deadline s = elim (Bool-cases (sys.monotonic s.world <ᶠ deadline)) [
    | inr e ↦ rw (grace, e) (returns s refl)
    | inl e ↦ elim (Bool-cases (is_some (poll sys s).0)) [
      | inl g ↦ rw (grace, e, g) (returns _ (poll-rest_of s))
      | inr g ↦
          rw (grace, e, g)
            (Ends-map _ (λ r k. k ∙ poll-rest_of s) (λ r k. k) (grace-rest_of fuel deadline _))
    ]
  ]

  terminate_group-rest_of :
      {E : Run F W → Type 0} (fuel : ℕ) (s : Run F W)
      → Ends (λ r. rest_of r ≡ rest_of s) E (0 ≤ 0) (terminate_group sys fuel s)
  unfolding terminate_group
  terminate_group-rest_of fuel s = Ends-bind (grace sys fuel _ _) _ (grace-rest_of fuel _ _) (λ r k.
      elim (Bool-cases (is_some (poll sys r).0)) [
        | inl e ↦ rw e (returns _ (poll-rest_of r ∙ k))
        | inr e ↦ rw e (returns _ (poll-rest_of r ∙ k))
      ])

  waited-variables :
      {E : Run F W → Type 0} (b : Option ℤ × W) (s : Run F W)
      → Ends (λ r. variables r.1 ≡ (ended r.0, rest_of s)) E (0 ≤ 0) (waited sys b s)
  unfolding waited
  waited-variables (none, w) s = stops (omega arith)
  waited-variables (some code, w) s = returns _ refl

  wait_of-variables :
      {E : Run F W → Type 0} (p : Proc) (s : Run F W)
      → s.proc ≡ p
      → Ends (λ r. variables r.1 ≡ (ended r.0, rest_of s)) E (0 ≤ 0) (wait_of sys p s)
  unfolding wait_of
  wait_of-variables unspawned s h = waited-variables (sys.wait_child s.world) s
  wait_of-variables running s h = waited-variables (sys.wait_child s.world) s
  wait_of-variables (ended code) s h = returns _ (ap (λ p. (p, rest_of s)) h)

  pub stop_child-variables :
      {E : Run F W → Type 0} (fuel : ℕ) (s : Run F W)
      → Ends (λ r. variables r.1 ≡ (ended r.0, rest_of s)) E (0 ≤ 0) (stop_child sys fuel s)
  unfolding stop_child
  stop_child-variables fuel s =
      Ends-bind (terminate_group sys fuel s) _ (terminate_group-rest_of fuel s) (λ r k.
        Ends-map _ (λ q e. e ∙ ap (λ v. (ended q.0, v)) k) (λ q e. e)
          (wait_of-variables r.proc r refl))
