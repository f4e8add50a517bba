-- ===== src/Power/Wrap/Load.antt =====
-- That the child has ended when a load is left, with its return code recorded.
use glm5_3_flash_2x_dgx_spar.Prelude.{
  ℕ, ◌≤◌, ◌≡◌, ap, ◌∙◌, Bool, true, false, Option, none, some, is_some, inl, inr, ◌⊎◌,
  if◌then◌else◌,
}
use glm5_3_flash_2x_dgx_spar.Number.{Float}
use glm5_3_flash_2x_dgx_spar.Number.Int.{ℤ}
use glm5_3_flash_2x_dgx_spar.Power.Sampler.{Signal, System, running, ended, Run}
use glm5_3_flash_2x_dgx_spar.Power.Sampler.Kept.{Ends, returns, Ends-bind}
use glm5_3_flash_2x_dgx_spar.Power.Sampler.Rounds.{is_last}
use glm5_3_flash_2x_dgx_spar.Power.Child.Variables.{
  Rest, variables, IsPolled, poll-IsPolled, poll-ended, stop_child-variables,
}
use glm5_3_flash_2x_dgx_spar.Power.Child.{poll, stop_child}
use glm5_3_flash_2x_dgx_spar.Power.Wrap.{
  LoadEnd, exited, overtime, is_reached, load_end, finished_load, stop_running, after_load,
  interrupt, set_known, collect,
}

-- the variables of a load that is not left yet
abbrev pub untouched : Rest
untouched = (none, (false, (none, 0)))

module _ {F W : Type 0} ⦃f : Float F⦄ (sys : System F W) where
  -- the load as its loop ends: the child runs and a signal has come, or time is over, or the child ended
  abbrev pub IsLoaded : Option LoadEnd × Run F W → Type 0
  IsLoaded (none, r) = (variables r ≡ (running, untouched)) × (is_some (sys.signal r.world) ≡ true)
  IsLoaded (some overtime, r) = variables r ≡ (running, untouched)
  IsLoaded (some (exited code), r) = variables r ≡ (ended code, untouched)

  -- the first statement holds where the loop ends, the second where it goes on
  abbrev pub Loaded : Option LoadEnd × Run F W → Type 0
  Loaded x =
      (is_last sys x ≡ true → IsLoaded x)
      × (is_last sys x ≡ false → variables x.1 ≡ (running, untouched))

  overtime_or :
      (b : Bool) (q : Run F W)
      → variables q ≡ (running, untouched)
      → Loaded ((if b then some overtime else none), q)
  overtime_or true q same = ((λ e. same), (λ e. same))
  overtime_or false q same = ((λ e. (same, e)), (λ e. same))

  load_end-Loaded :
      (t : Option F) (r : Run F W) (p : Option ℤ × Run F W)
      → variables r ≡ (running, untouched)
      → IsPolled sys r p
      → Loaded (load_end sys t p)
  unfolding load_end
  load_end-Loaded t r (some code, q) h k =
      ((λ e. k ∙ ap (λ v. (ended code, v.1)) h), (λ e. absurd (cc e)))
  load_end-Loaded t r (none, q) h k = overtime_or (is_reached sys t q) q (k ∙ h)

  pub finished_load-Loaded :
      (t : Option F) (r : Run F W)
      → variables r ≡ (running, untouched)
      → Loaded (finished_load sys t r)
  unfolding finished_load
  finished_load-Loaded t r h = load_end-Loaded t r (poll sys r) h (poll-IsPolled sys r)

  -- of a load that ended, the code may not be recorded yet
  abbrev pub IsStopped : Run F W → Type 0
  IsStopped r =
      (code : ℤ) × ((variables r ≡ (ended code, untouched))
        ⊎ ((late : Bool) × (variables r ≡ (ended code, (some code, (late, (none, 0)))))))

  abbrev pub IsRecorded : Run F W → Type 0
  IsRecorded r =
      (code : ℤ) × ((late : Bool) × (variables r ≡ (ended code, (some code, (late, (none, 0))))))

  -- after a load: the child runs and a signal has come, or it has ended
  abbrev pub IsAfter : Run F W → Type 0
  IsAfter r =
      ((variables r ≡ (running, untouched)) × (is_some (sys.signal r.world) ≡ true)) ⊎ IsRecorded r

  module _ (E : Run F W → Type 0) where
    pub after_load-IsAfter :
        (fuel : ℕ) (x : Option LoadEnd × Run F W)
        → IsLoaded x
        → Ends IsAfter E (0 ≤ 0) (after_load sys fuel x)
    unfolding after_load
    after_load-IsAfter fuel (none, s) h = returns s (inl h)
    after_load-IsAfter fuel (some (exited code), s) h =
        returns _ (inr (code, (false, ap (λ v. (v.0, (some code, v.1.1))) h)))
    after_load-IsAfter fuel (some overtime, s) h =
        Ends-bind (stop_child sys fuel _) _ (stop_child-variables sys fuel _) (λ r k. returns _ (
          inr (
            r.0,
            (
              true,
              ap (λ v. (v.0, (some r.0, v.1.1))) k
                  ∙ ap (λ v. (ended r.0, (some r.0, (true, v.1.1.1)))) h,
            ),
          )))

    stop_running-IsStopped :
        (fuel : ℕ) (s : Run F W) (x : Option ℤ × Run F W)
        → variables s ≡ (running, untouched)
        → IsPolled sys s x
        → Ends IsStopped E (0 ≤ 0) (stop_running sys fuel x)
    unfolding stop_running
    stop_running-IsStopped fuel s (some code, r) h k =
        returns r (code, inl (k ∙ ap (λ v. (ended code, v.1)) h))
    stop_running-IsStopped fuel s (none, r) h k =
        Ends-bind (stop_child sys fuel r) _ (stop_child-variables sys fuel r) (λ q e. returns _ (
          q.0,
          inr (
            false,
            ap (λ v. (v.0, (some q.0, v.1.1))) e ∙ ap (λ v. (ended q.0, (some q.0, v.1.1))) (k ∙ h),
          ),
        ))

    pub interrupt-IsStopped :
        (fuel : ℕ) (sig : Option Signal) (s : Run F W)
        → sys.signal s.world ≡ sig
        → IsAfter s
        → Ends IsStopped E (0 ≤ 0) (interrupt sys fuel sig s)
    unfolding interrupt stop_running
    interrupt-IsStopped fuel none s e (inl (h, k)) = absurd (cc (rw e at k))
    interrupt-IsStopped fuel none s e (inr (code, (late, h))) = returns s (code, inr (late, h))
    interrupt-IsStopped fuel (some sig) s e (inl (h, k)) =
        stop_running-IsStopped fuel s (poll sys s) h (poll-IsPolled sys s)
    interrupt-IsStopped fuel (some sig) s e (inr (code, (late, h))) =
        rw (poll-ended sys code s (ap (λ v. v.0) h)) (returns s (code, inr (late, h)))

  pub collect-IsRecorded :
      (known : Option ℤ) (s : Run F W)
      → s.child_returncode ≡ known
      → IsStopped s
      → IsRecorded (collect sys known s)
  unfolding collect
  collect-IsRecorded none s e (code, inl h) = (
    code,
    (
      false,
      ap (λ p. variables (set_known sys p)) (poll-ended sys code s (ap (λ v. v.0) h))
          ∙ ap (λ v. (v.0, (some code, v.1.1))) h,
    ),
  )
  collect-IsRecorded none s e (code, inr (late, h)) = absurd (cc (ap (λ v. v.1.0) h, e))
  collect-IsRecorded (some k) s e (code, inl h) = absurd (cc (ap (λ v. v.1.0) h, e))
  collect-IsRecorded (some k) s e (code, inr (late, h)) = (code, (late, h))
