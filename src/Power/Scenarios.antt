-- ===== src/Power/Scenarios.antt =====
-- Runs of the sampler on a clock that counts thousandths of a second, and each theorem at such a run.
use glm5_3_flash_2x_dgx_spar.Prelude.{
  ℕ, ◌+◌, ◌-◌, ◌≤◌, ◌≡◌, refl, Bool, true, false, Option, none, some, List, [], ◌∷◌, length, ltb,
  leb, if◌then◌else◌, ok, err, arith,
}
use glm5_3_flash_2x_dgx_spar.Number.Int.{ℤ, pos, negsuc, pos_part}
use glm5_3_flash_2x_dgx_spar.Number.Fixed.{fixed}
use glm5_3_flash_2x_dgx_spar.Text.{Text, codes}
use glm5_3_flash_2x_dgx_spar.Power.Sampler.{System, Sampler, Step, run_until}
use glm5_3_flash_2x_dgx_spar.Power.Sampler.Kept.{Ends}
use glm5_3_flash_2x_dgx_spar.Power.Sampler.Passing.{IsPassing}
use glm5_3_flash_2x_dgx_spar.Power.Child.Variables.{variables}
use glm5_3_flash_2x_dgx_spar.Power.Wrap.Left.{is_over}
use glm5_3_flash_2x_dgx_spar.Power.Wrap.Reaped.{IsAccounted, run_wrap-IsAccounted}
use glm5_3_flash_2x_dgx_spar.Power.Wrap.Returns.{run_wrap-Returns}
use glm5_3_flash_2x_dgx_spar.Power.Wrap.{WrapArgs, run_wrap}

-- the time; when the child ends by itself; whether it was told to end; how much can still be written
record Clock : Type 0 where
  now : ℕ
  ends_at : ℕ
  is_told : Bool
  space : ℕ

abbrev pass : ℤ → Clock → Clock
pass x w = record w { now = w.now + 1 + pos_part x }

abbrev has_ended : Clock → Bool
has_ended w = leb w.ends_at w.now

abbrev system : System ℤ Clock
system = record {
  monotonic = λ w. pos w.now;
  signal = λ w. none;
  sample = λ k w. (some [], w);
  look = λ w. (record { size = none; content = none }, w);
  write = λ l w. (ltb 0 w.space, record w { space = w.space - 1 });
  wait = pass;
  sleep = pass;
  spawn = λ argv w. (none, w);
  waitpid =
      λ w. (if has_ended w then some (pos 3) else if w.is_told then some (negsuc 14) else none, w);
  wait_child =
      λ w. (if has_ended w then some (pos 3) else if w.is_told then some (negsuc 14) else none, w);
  killpg = λ sig w. record w { is_told = true };
  close_writer = λ w. (true, w);
  close = λ k w. (true, w);
}

abbrev left : ℤ → Clock → ℕ
left d w = pos_part d - w.now

abbrev system-IsPassing : IsPassing system
system-IsPassing = record {
  left = left;
  most = pos_part;
  within = λ x w. ground arith;
  over = λ d w h. ground (arith, h);
  before = λ d w h. ground (arith, h);
  waits = λ d x w. omega arith;
  sleeps = λ d x w. omega arith;
  samples = λ d k w. omega arith;
  looks = λ d w. omega arith;
  writes = λ d l w. omega arith;
  killed = λ w. ground arith;
  polls = λ d w. omega arith;
}

abbrev sampler : Sampler ℤ
sampler = record {
  collectors = 0 ∷ [];
  interval = pos 1000;
  has_markers = false;
  t0_monotonic = pos 0;
}

abbrev args : WrapArgs ℤ
args = record { command = codes "bench" ∷ []; idle_window = pos 2000; timeout = pos 5000 }

abbrev decode : List ℕ → Text
decode bytes = bytes

abbrev clock : ℕ → ℕ → Clock
clock ends_at space = record { now = 0; ends_at = ends_at; is_told = false; space = space }

-- how a run ends: its exit code and the number of its records, where it returns
abbrev result : Step ℤ Clock → Option (ℕ × ℕ)
result (ok s) = some (s.exit_code, length s.records)
result (err e) = none

-- the command ends with 3 in its third second
in_time : result (run_wrap system sampler decode 9 args (clock 4500 99)) ≡ some (3, 10)
unfolding run_wrap run_until
in_time = refl

too_late : result (run_wrap system sampler decode 9 args (clock 9000 99)) ≡ some (124, 12)
unfolding run_wrap run_until
too_late = refl

run_wrap-IsAccounted_example :
    Ends
      (λ s. IsAccounted (variables s))
      (λ s. is_over s.proc ≡ true)
      (0 ≤ 0)
      (run_wrap system sampler decode 9 args (clock 4500 5))
run_wrap-IsAccounted_example = run_wrap-IsAccounted system sampler decode 9 args (clock 4500 5)

run_wrap-Returns_example :
    Ends
      (λ s. IsAccounted (variables s))
      (λ s. is_over s.proc ≡ true)
      (1 ≤ 0)
      (run_wrap system sampler decode 9000 args (clock 9000 99))
run_wrap-Returns_example =
    run_wrap-Returns system system-IsPassing 9000 (omega arith) sampler decode args (omega arith)
      refl (omega arith) (clock 9000 99)
