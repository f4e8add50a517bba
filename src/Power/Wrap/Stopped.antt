-- ===== src/Power/Wrap/Stopped.antt =====
-- That a load is left, if time passes.
use glm5_3_flash_2x_dgx_spar.Prelude.{ℕ, ◌<◌, Option, none, some, ok, ◌>>=◌, arith}
use glm5_3_flash_2x_dgx_spar.Number.{Float}
use glm5_3_flash_2x_dgx_spar.Number.Int.{ℤ}
use glm5_3_flash_2x_dgx_spar.Power.Sampler.{Signal, System, Run}
use glm5_3_flash_2x_dgx_spar.Power.Sampler.Kept.{returns}
use glm5_3_flash_2x_dgx_spar.Power.Sampler.Passing.{Returns, Returns-bind, IsPassing}
use glm5_3_flash_2x_dgx_spar.Power.Child.{poll, stop_child}
use glm5_3_flash_2x_dgx_spar.Power.Child.Returns.{stop_child-Returns}
use glm5_3_flash_2x_dgx_spar.Power.Wrap.{
  LoadEnd, exited, overtime, set_code, after_load, stop_running, interrupt,
}

module _ {F W : Type 0} ⦃f : Float F⦄ (sys : System F W) (p : IsPassing sys) (fuel : ℕ)
    (enough : p.most (f.of_ℕ 5) < fuel) where
  pub stopped :
      (s : Run F W) (next : ℤ × Run F W → Run F W)
      → Returns (stop_child sys fuel s >>= λ r. ok (next r))
  stopped s next =
      Returns-bind (stop_child sys fuel s) _ (stop_child-Returns sys p fuel enough s)
        (λ r. returns _ (omega arith))

  pub after_load-Returns : (x : Option LoadEnd × Run F W) → Returns (after_load sys fuel x)
  unfolding after_load
  after_load-Returns (none, s) = returns s (omega arith)
  after_load-Returns (some (exited code), s) = returns _ (omega arith)
  after_load-Returns (some overtime, s) = stopped _ (set_code sys)

  stop_running-Returns : (x : Option ℤ × Run F W) → Returns (stop_running sys fuel x)
  unfolding stop_running
  stop_running-Returns (some code, s) = returns s (omega arith)
  stop_running-Returns (none, s) = stopped s (set_code sys)

  pub interrupt-Returns : (sig : Option Signal) (s : Run F W) → Returns (interrupt sys fuel sig s)
  unfolding interrupt
  interrupt-Returns none s = returns s (omega arith)
  interrupt-Returns (some sig) s = stop_running-Returns (poll sys s)
