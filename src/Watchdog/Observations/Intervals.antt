-- ===== src/Watchdog/Observations/Intervals.antt =====
-- Restarts cut the series, and every observation carries a prefill signal.
use glm5_3_flash_2x_dgx_spar.Prelude.{
  ◌≡◌, inl, inr, refl, true, false, ◌||◌, some, List, [], ◌∷◌, ◌++◌, All, All-append, arith,
  Bool-cases, Option-cases,
}
use glm5_3_flash_2x_dgx_spar.Number.{Float, ◌-ᶠ◌, ◌≤ᶠ◌, ◌<ᶠ◌}
use glm5_3_flash_2x_dgx_spar.Watchdog.{MetricsSnapshot, Observation}
use glm5_3_flash_2x_dgx_spar.Watchdog.Observations.{
  delta, restarted, is_negative, observation, advance, step, steps, observations_from_snapshots,
}

module _ {F : Type 0} ⦃f : Float F⦄ where
  -- the engine restarted between two snapshots that both have a prompt counter: another process
  -- start, or a counter that fell
  pub record IsReset (previous current : MetricsSnapshot F) : Type 0 where
    pub before : F
    pub after : F
    pub known_before : previous.prompt_tokens ≡ some before
    pub known_after : current.prompt_tokens ≡ some after
    pub fell :
        (restarted previous.process_start current.process_start
          || (after -ᶠ before <ᶠ f.of_ℕ 0)
          || is_negative (delta previous.ttft_sum current.ttft_sum))
        ≡ true

  step-IsReset :
      (obs : List (Observation F)) (p c : MetricsSnapshot F) → IsReset p c → step obs p c ≡ []
  unfolding step advance
  step-IsReset obs p c r = rw (r.known_before, r.known_after) (ground (arith, r.fell))

  steps-IsReset :
      (pre : List (MetricsSnapshot F)) (obs : List (Observation F)) (p c : MetricsSnapshot F)
      (rest : List (MetricsSnapshot F))
      → IsReset p c
      → steps obs (pre ++ (p ∷ c ∷ rest)) ≡ steps [] (c ∷ rest)
  unfolding steps
  steps-IsReset [] obs p c rest r = rw (step-IsReset obs p c r)
  steps-IsReset (s ∷ []) obs p c rest r = rw (step-IsReset (step obs s p) p c r)
  steps-IsReset (s ∷ t ∷ pre) obs p c rest r = steps-IsReset (t ∷ pre) (step obs s t) p c rest r

  -- What was scraped before a restart of the engine leaves no observation: the result is that of the
  -- snapshots from the first one after the restart.
  pub observations-IsReset :
      (pre : List (MetricsSnapshot F)) (p c : MetricsSnapshot F) (rest : List (MetricsSnapshot F))
      → IsReset p c
      → observations_from_snapshots (pre ++ (p ∷ c ∷ rest)) ≡ observations_from_snapshots (c ∷ rest)
  unfolding observations_from_snapshots
  observations-IsReset pre p c rest r = steps-IsReset pre [] p c rest r

  -- prompt tokens were counted in the interval, and the counters did not fall
  pub record IsSignal (o : Observation F) : Type 0 where
    pub tokens : F
    pub counted : o.prompt_tokens ≡ some tokens
    pub grown : (tokens ≤ᶠ f.of_ℕ 0) ≡ false

  advance-IsSignal :
      (obs : List (Observation F)) (p c : MetricsSnapshot F) (d : F)
      → All IsSignal obs
      → All IsSignal (advance obs p c d)
  unfolding advance observation
  advance-IsSignal obs p c d h = elim (Bool-cases (restarted p.process_start c.process_start)) [
    | inl e ↦ rw e tt
    | inr e ↦ elim (Bool-cases ((d <ᶠ f.of_ℕ 0) || is_negative (delta p.ttft_sum c.ttft_sum))) [
      | inl g ↦ rw (e, g) tt
      | inr g ↦ elim (Bool-cases (d ≤ᶠ f.of_ℕ 0)) [
        | inl z ↦ rw (e, g, z) h
        | inr z ↦
            rw (e, g, z)
              (All-append IsSignal obs _ h (record { tokens = d; counted = refl; grown = z }, tt))
      ]
    ]
  ]

  step-IsSignal :
      (obs : List (Observation F)) (p c : MetricsSnapshot F)
      → All IsSignal obs
      → All IsSignal (step obs p c)
  unfolding step
  step-IsSignal obs p c h = elim (Option-cases (delta p.prompt_tokens c.prompt_tokens)) [
    | inl e ↦ rw (e, step) h
    | inr (d, e) ↦ rw (e, step) (advance-IsSignal obs p c d h)
  ]

  steps-IsSignal :
      (obs : List (Observation F)) (snapshots : List (MetricsSnapshot F))
      → All IsSignal obs
      → All IsSignal (steps obs snapshots)
  unfolding steps
  steps-IsSignal obs [] h = h
  steps-IsSignal obs (s ∷ []) h = h
  steps-IsSignal obs (s ∷ t ∷ rest) h =
      steps-IsSignal (step obs s t) (t ∷ rest) (step-IsSignal obs s t h)

  -- Every observation comes from an interval in which prompt tokens were counted: idle intervals and
  -- falling counters give none.
  pub observations-IsSignal :
      (snapshots : List (MetricsSnapshot F)) → All IsSignal (observations_from_snapshots snapshots)
  unfolding observations_from_snapshots
  observations-IsSignal snapshots = steps-IsSignal [] snapshots tt
