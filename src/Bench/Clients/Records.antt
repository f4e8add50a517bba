-- ===== src/Bench/Clients/Records.antt =====
-- What the records of an arm's benchmarks say.
use glm5_3_flash_2x_dgx_spar.Prelude.{◌≡◌, refl, ap₂, Option, Result, ok, err, List, [], ◌∷◌, map}
use glm5_3_flash_2x_dgx_spar.Number.{Float}
use glm5_3_flash_2x_dgx_spar.Text.{Text}
use glm5_3_flash_2x_dgx_spar.Bench.Env.{Env}
use glm5_3_flash_2x_dgx_spar.Bench.Specs.{Benchmark}
use glm5_3_flash_2x_dgx_spar.Bench.Metrics.{BenchMetrics}
use glm5_3_flash_2x_dgx_spar.Number.Int.{ℤ}
use glm5_3_flash_2x_dgx_spar.Bench.Results.{BenchFailure}
use glm5_3_flash_2x_dgx_spar.Bench.System.{System}
use glm5_3_flash_2x_dgx_spar.Bench.Commands.{BenchContext}
use glm5_3_flash_2x_dgx_spar.Bench.Clients.{record_of, run_bench, run_benches}

module _ {F W : Type 0} ⦃f : Float F⦄ (sys : System F W) where
  record_of-bench :
      (b : Benchmark) (path : Text) (code : Option ℤ) (r : Result BenchFailure (BenchMetrics F))
      → (record_of sys b path code r).bench ≡ b
  unfolding record_of
  record_of-bench b path code (ok m) = refl
  record_of-bench b path code (err e) = refl

  run_bench-bench :
      (out_dir arm_name : Text) (env : Env) (secrets : List Text) (c : BenchContext F)
      (b : Benchmark) (w : W)
      → (run_bench sys out_dir arm_name env secrets c b w).0.bench ≡ b
  unfolding run_bench record_of
  run_bench-bench out_dir arm_name env secrets c b w = record_of-bench b _ _ _

  pub map-run_benches :
      (out_dir arm_name : Text) (env : Env) (secrets : List Text) (c : BenchContext F)
      (bs : List Benchmark) (w : W)
      → map (λ r. r.bench) (run_benches sys out_dir arm_name env secrets c bs w).0 ≡ bs
  unfolding run_benches
  map-run_benches out_dir arm_name env secrets c [] w = refl
  map-run_benches out_dir arm_name env secrets c (b ∷ bs) w =
      ap₂ ◌∷◌ (run_bench-bench out_dir arm_name env secrets c b w)
        (map-run_benches out_dir arm_name env secrets c bs _)
