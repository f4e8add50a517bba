-- ===== src/Watchdog.antt =====
-- vllm-exl3/scripts/prefill-watchdog.py: the data that its steps pass on, and its patterns.
pub mod Patterns
pub mod Metrics
pub mod Observations
pub mod Series
pub mod Logs
pub mod Sources
pub mod Main
mod Tests
use glm5_3_flash_2x_dgx_spar.Prelude.{ℕ, String, Bool, Option}
use glm5_3_flash_2x_dgx_spar.Text.{Text}

pub record MetricsSnapshot (F : Type 0) : Type 0 where
  pub source : Text
  pub ts : F
  pub prompt_tokens : Option F
  pub ttft_sum : Option F
  pub ttft_count : Option F
  pub process_start : Option F
  pub boot_label : Option Text

pub record Observation (F : Type 0) : Type 0 where
  pub tok_s : Option F
  pub ttft_s : Option F
  pub prompt_tokens : Option F
  pub dt_s : Option F

pub data Status : Type 0 where
  healthy degraded insufficient : Status

pub record SeriesAnalysis (F : Type 0) : Type 0 where
  pub status : Status
  pub n : ℕ
  pub baseline : Option F
  pub recent : Option F
  pub drop_fraction : Option F
  pub cutoff : Option F
  pub recent_below_cutoff : ℕ
  pub window : ℕ
  pub threshold : F
