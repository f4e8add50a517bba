-- ===== src/Bench/Results.antt =====
-- What a run of an arm records, without clock times and the texts of logs.
use glm5_3_flash_2x_dgx_spar.Prelude.{ℕ, Bool, Option, List}
use glm5_3_flash_2x_dgx_spar.Number.Int.{ℤ}
use glm5_3_flash_2x_dgx_spar.Text.{Text}
use glm5_3_flash_2x_dgx_spar.Bench.Env.{Env}
use glm5_3_flash_2x_dgx_spar.Bench.Boots.{BootSource}
use glm5_3_flash_2x_dgx_spar.Bench.Json.{ExtractError}
use glm5_3_flash_2x_dgx_spar.Bench.Metrics.{BenchMetrics}
use glm5_3_flash_2x_dgx_spar.Bench.Specs.{Benchmark}

-- why a benchmark of an arm failed
pub data BenchFailure : Type 0 where
  needs_default_url artifact_missing artifact_unreadable artifact_malformed artifact_not_object
        artifact_not_written client_unstarted chat_without_samples :
      BenchFailure
  unknown_cache_mode : Text → BenchFailure
  bad_exit : ℤ → BenchFailure
  bad_artifact : ExtractError → BenchFailure
  chat_failed : ℕ → BenchFailure

pub record BenchRecord (F : Type 0) : Type 0 where
  pub bench : Benchmark
  pub artifact : Text
  pub ok : Bool
  pub exit_code : Option ℤ
  pub metrics : Option (BenchMetrics F)
  pub error : Option BenchFailure

-- why an arm was given up
pub data ArmFailure : Type 0 where
  no_artifact_directory no_start_script restart_unstarted health_options health_unfinished
        warmup_failed exception_raised :
      ArmFailure
  restart_failed : ℤ → ArmFailure
  unhealthy reset_failed : ℕ → ArmFailure

pub data ArmWarning : Type 0 where
  overrides_not_applied boot_unavailable boot_of_host reset_absent boot_changed_during
        boot_source_changed :
      ArmWarning

pub data Restart : Type 0 where
  not_attempted : Restart
  attempted : ℤ → Restart

-- the dictionary of `wait_for_health`
pub record Health : Type 0 where
  pub ok : Bool
  pub code : ℕ
  pub attempts : ℕ

pub record Boot : Type 0 where
  pub id : Option Text
  pub source : BootSource

pub data CacheReset : Type 0 where
  skipped reset absent : CacheReset
  failed : ℕ → CacheReset

pub record ArmResult (F : Type 0) : Type 0 where
  pub index : ℕ
  pub name : Text
  pub env : Env
  pub effective_env : Env
  pub restart : Restart
  pub health : Option Health
  pub boot : Option Boot
  pub boot_end : Option Boot
  pub cache_reset : Option CacheReset
  pub warmup : Option Bool
  pub benches : List (BenchRecord F)
  pub warnings : List ArmWarning
  pub error : Option ArmFailure
  pub ok : Bool
