-- ===== src/Power/Wrap/Left.antt =====
-- That the `finally` clause leaves no child that runs.
use glm5_3_flash_2x_dgx_spar.Prelude.{
  ℕ, ◌≤◌, ◌≡◌, refl, ap, ◌∙◌, Bool, true, false, Option, none, some, List, [], ◌∷◌,
}
use glm5_3_flash_2x_dgx_spar.Number.{Float}
use glm5_3_flash_2x_dgx_spar.Number.Int.{ℤ}
use glm5_3_flash_2x_dgx_spar.Power.Sampler.{
  Event, stop, System, Proc, unspawned, running, ended, Run, Sampler, Step, written, emit_event,
}
use glm5_3_flash_2x_dgx_spar.Power.Sampler.Kept.{
  Ends, returns, raises, stops, Ends-bind, Ends-map, written-Ends,
}
use glm5_3_flash_2x_dgx_spar.Power.Child.Variables.{
  Same, IsPolled, poll-IsPolled, poll-ended, stop_child-variables,
}
use glm5_3_flash_2x_dgx_spar.Power.Child.{poll, stop_child}
use glm5_3_flash_2x_dgx_spar.Power.Wrap.{
  close_all, with_cleanup, close_run, reap_polled, reap_of, wrap_cleanup,
}

abbrev pub is_over : Proc → Bool
is_over running = false
is_over unspawned = true
is_over (ended code) = true

module _ {F W : Type 0} ⦃f : Float F⦄ (sys : System F W) (c : Sampler F) where
  pub emit_event-Same :
      {U : Type 0} (e : Event) (s : Run F W) → Ends (Same s) (Same s) U (emit_event sys c e s)
  emit_event-Same e s = written-Ends _ s refl

  -- the child has ended, and nothing else is changed where it had before
  abbrev pub IsLeft : Run F W → Run F W → Type 0
  IsLeft s r = (is_over r.proc ≡ true) × (is_over s.proc ≡ true → Same s r)

  close_all-Same :
      {U : Type 0} (ks : List ℕ) (s : Run F W) → Ends (Same s) (Same s) U (close_all sys ks s)
  unfolding close_all
  close_all-Same [] s = returns s refl
  close_all-Same (k ∷ ks) s =
      Ends-bind (written (sys.close k s.world) s) _ (written-Ends {P = Same s} _ s refl)
        (λ r h. Ends-map _ (λ q e. e ∙ h) (λ q e. e ∙ h) (close_all-Same ks r))

  pub close_run-Same :
      {U : Type 0} (code : Option ℕ) (s : Run F W)
      → Ends (Same s) (Same s) U (close_run sys c code s)
  unfolding close_run
  close_run-Same code s = Ends-bind (emit_event sys c (stop code) s) _ (emit_event-Same _ s) (λ r h.
      Ends-bind (written (sys.close_writer r.world) r) _ (written-Ends {P = Same s} _ r h)
        (λ q k. Ends-map _ (λ p e. e ∙ k) (λ p e. e ∙ k) (close_all-Same c.collectors q)))

  reap_polled-IsLeft :
      {E : Run F W → Type 0} (fuel : ℕ) (s : Run F W) (x : Option ℤ × Run F W)
      → x ≡ poll sys s
      → IsPolled sys s x
      → s.proc ≡ running
      → Ends (IsLeft s) E (0 ≤ 0) (reap_polled sys c fuel x)
  unfolding reap_polled
  reap_polled-IsLeft fuel s (some code, r) e h p =
      returns r (ap (λ v. is_over v.0) h, (λ k. absurd (cc (ap is_over p, k))))
  reap_polled-IsLeft fuel s (none, r) e h p =
      Ends-bind (stop_child sys fuel r) _ (stop_child-variables sys fuel r)
        (λ q k. returns q.1 (ap (λ v. is_over v.0) k, (λ g. absurd (cc (ap is_over p, g)))))

  reap_of-IsLeft :
      {E : Run F W → Type 0} (fuel : ℕ) (p : Proc) (s : Run F W)
      → s.proc ≡ p
      → Ends (IsLeft s) E (0 ≤ 0) (reap_of sys c fuel p s)
  unfolding reap_of reap_polled
  reap_of-IsLeft fuel unspawned s h = returns s (ap is_over h, (λ k. refl))
  reap_of-IsLeft fuel running s h =
      reap_polled-IsLeft fuel s (poll sys s) refl (poll-IsPolled sys s) h
  reap_of-IsLeft fuel (ended code) s h =
      rw (poll-ended sys code s h) (returns s (ap is_over h, (λ k. refl)))

  wrap_cleanup-IsLeft :
      (fuel : ℕ) (s : Run F W) → Ends (IsLeft s) (IsLeft s) (0 ≤ 0) (wrap_cleanup sys c fuel s)
  unfolding wrap_cleanup
  wrap_cleanup-IsLeft fuel s =
      Ends-bind (reap_of sys c fuel s.proc s) _ (reap_of-IsLeft fuel s.proc s refl) (λ r h.
        let left : (q : Run F W) → Same r q → IsLeft s q =
          λ q k. (ap (λ v. is_over v.0) k ∙ h.0, (λ g. k ∙ h.1 g)) in
        Ends-map _ left left (close_run-Same (some r.exit_code) r))

  -- whatever the `try` statement did
  pub with_cleanup-IsLeft :
      {P : Run F W → Type 0} (fuel : ℕ) (x : Step F W)
      → ((s r : Run F W) → P s → IsLeft s r → P r)
      → Ends P (λ s. 0 ≤ 0) (0 ≤ 0) x
      → Ends P (λ s. is_over s.proc ≡ true) (0 ≤ 0) (with_cleanup sys (wrap_cleanup sys c fuel) x)
  unfolding with_cleanup
  with_cleanup-IsLeft fuel x keeps (returns s h) =
      Ends-map _ (λ r k. keeps s r h k) (λ r k. k.0) (wrap_cleanup-IsLeft fuel s)
  with_cleanup-IsLeft fuel x keeps (raises s h) =
      Ends-bind (wrap_cleanup sys c fuel s) _
        (Ends-map _ (λ r k. k) (λ r k. k.0) (wrap_cleanup-IsLeft fuel s)) (λ r k. raises r k.0)
  with_cleanup-IsLeft fuel x keeps (stops h) = stops h
