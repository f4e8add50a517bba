-- ===== src/Bench/Http/Polls.antt =====
-- That `wait_for_health` returns, and what its answer says.
use glm5_3_flash_2x_dgx_spar.Prelude.{ℕ, ◌≤◌, ◌<◌, ◌≡◌, false, ◌==◌, Result, ok, err}
use glm5_3_flash_2x_dgx_spar.Number.{Float, ◌-ᶠ◌, ◌≤ᶠ◌}
use glm5_3_flash_2x_dgx_spar.Text.{Text}
use glm5_3_flash_2x_dgx_spar.Bench.System.{Request, System}
use glm5_3_flash_2x_dgx_spar.Bench.Results.{Health}
use glm5_3_flash_2x_dgx_spar.Bench.Http.{HealthError, request_raised, smaller}

module _ {F W : Type 0} ⦃f : Float F⦄ (sys : System F W) where
  -- Time passes: a number of rounds is left before a deadline, and a request followed by the sleep of
  -- the loop uses up one or more of them. (`time.sleep` suspends for at least the time it is given.)
  pub record Passes (interval : F) : Type 0 where
    pub rounds : F → W → ℕ
    pub fewer :
        (deadline : F) (r : Request F) (w : W)
        → ((deadline -ᶠ sys.monotonic (sys.send r w).1) ≤ᶠ f.of_ℕ 0) ≡ false
        → rounds deadline (
            sys.sleep
              (smaller interval (deadline -ᶠ sys.monotonic (sys.send r w).1))
              (sys.send r w).1)
          < rounds deadline w

  -- an answer: healthy where the last status is 200, after so many requests at most; or a request raised
  abbrev pub IsAnswer : ℕ → ℕ → Result HealthError Health × W → Type 0
  IsAnswer least most (err e, v) = e ≡ request_raised
  IsAnswer least most (ok h, v) =
      (h.ok ≡ (h.code == 200)) × ((least ≤ h.attempts) × (h.attempts ≤ most))
