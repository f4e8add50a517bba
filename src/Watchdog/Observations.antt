-- ===== src/Watchdog/Observations.antt =====
-- `observations_from_snapshots`: cumulative counters into observations of single intervals.
pub mod Intervals
use glm5_3_flash_2x_dgx_spar.Prelude.{
  ℕ, Bool, true, false, not, ◌&&◌, ◌||◌, Option, none, some, List, [], ◌∷◌, ◌++◌, is_some,
  if◌then◌else◌,
}
use glm5_3_flash_2x_dgx_spar.Number.{Float, ◌-ᶠ◌, ◌/ᶠ◌, ◌≤ᶠ◌, ◌<ᶠ◌, ◌==ᶠ◌}
use glm5_3_flash_2x_dgx_spar.Watchdog.{MetricsSnapshot, Observation}

module _ {F : Type 0} ⦃f : Float F⦄ where
  -- `current.x - previous.x` where both are there
  abbrev pub delta : Option F → Option F → Option F
  delta (some a) (some b) = some (b -ᶠ a)
  delta (some a) none = none
  delta none b = none

  -- both process starts are known and differ
  abbrev pub restarted : Option F → Option F → Bool
  restarted (some a) (some b) = not (a ==ᶠ b)
  restarted (some a) none = false
  restarted none b = false

  abbrev pub is_negative : Option F → Bool
  is_negative none = false
  is_negative (some d) = d <ᶠ f.of_ℕ 0

  abbrev pub is_positive : Option F → Bool
  is_positive none = false
  is_positive (some d) = f.of_ℕ 0 <ᶠ d

  -- the quotient where the divisor is positive
  abbrev rate : Option F → Option F → Option F
  rate (some a) (some b) = if f.of_ℕ 0 <ᶠ b then some (a /ᶠ b) else none
  rate (some a) none = none
  rate none b = none

  abbrev first_of_two : Option F → Option F → Option F
  first_of_two (some a) b = some a
  first_of_two none b = b

  elapsed : MetricsSnapshot F → MetricsSnapshot F → Option F
  elapsed previous current =
      if previous.ts <ᶠ current.ts then some (current.ts -ᶠ previous.ts) else none

  observation : MetricsSnapshot F → MetricsSnapshot F → F → Observation F
  unfolding elapsed
  observation previous current d_prompt =
      let d_ttft_sum = delta previous.ttft_sum current.ttft_sum in
      let d_ttft_count = delta previous.ttft_count current.ttft_count in
      let dt = elapsed previous current in
      record {
        tok_s = first_of_two (rate (some d_prompt) d_ttft_sum) (rate (some d_prompt) dt);
        ttft_s = rate d_ttft_sum d_ttft_count;
        prompt_tokens = some d_prompt;
        dt_s = dt;
      }

  -- the round of the loop for two snapshots whose prompt counters are known
  advance : List (Observation F) → MetricsSnapshot F → MetricsSnapshot F → F → List (Observation F)
  unfolding observation
  advance obs previous current d_prompt =
      if restarted previous.process_start current.process_start
      then []
      else if d_prompt <ᶠ f.of_ℕ 0 || is_negative (delta previous.ttft_sum current.ttft_sum)
      then []
      else if d_prompt ≤ᶠ f.of_ℕ 0
      then obs
      else obs ++ observation previous current d_prompt ∷ []

  step : List (Observation F) → MetricsSnapshot F → MetricsSnapshot F → List (Observation F)
  unfolding advance
  step obs previous current = elim (delta previous.prompt_tokens current.prompt_tokens) [
    | none ↦ obs
    | some d_prompt ↦ advance obs previous current d_prompt
  ]

  -- the `for` over neighbours
  steps : List (Observation F) → List (MetricsSnapshot F) → List (Observation F)
  unfolding step
  steps obs [] = obs
  steps obs (s ∷ []) = obs
  steps obs (previous ∷ current ∷ rest) = steps (step obs previous current) (current ∷ rest)

  unfoldable pub observations_from_snapshots : List (MetricsSnapshot F) → List (Observation F)
  unfolding steps
  observations_from_snapshots snapshots = steps [] snapshots
