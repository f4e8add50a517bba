-- ===== src/Bench/Protocol.antt =====
-- What the stages of `run_arm` share: the plan, the progress of an arm, the environment, boots.
use glm5_3_flash_2x_dgx_spar.Prelude.{
  ℕ, Bool, not, ◌&&◌, Option, none, some, List, [], ◌∷◌, if◌then◌else◌,
}
use glm5_3_flash_2x_dgx_spar.Text.{Text, codes, text_eq}
use glm5_3_flash_2x_dgx_spar.Bench.Env.{Env, assign, merge_env}
use glm5_3_flash_2x_dgx_spar.Bench.Arms.{Arm}
use glm5_3_flash_2x_dgx_spar.Bench.Boots.{
  BootSource, metrics_label, process_start, host_boot, unavailable, is_known_id, is_host,
}
use glm5_3_flash_2x_dgx_spar.Bench.Metrics.{is_empty}
use glm5_3_flash_2x_dgx_spar.Bench.Specs.{Benchmark, BenchArgs}
use glm5_3_flash_2x_dgx_spar.Bench.Results.{
  ArmFailure, health_options, health_unfinished, exception_raised, ArmWarning, boot_unavailable,
  boot_of_host, Boot, ArmResult,
}
use glm5_3_flash_2x_dgx_spar.Bench.Http.{
  HealthError, bad_health_timeout, bad_health_interval, request_raised, polls_used_up,
}

-- what the arms of a run share; `polls` bounds the requests of a wait for health
pub record Plan (F : Type 0) : Type 0 where
  pub args : BenchArgs F
  pub benches : List Benchmark
  pub workdir : Text
  pub tests_dir : Text
  pub out_dir : Text
  pub api_key : Text
  pub python : Text
  -- `os.environ`
  pub environ : Env
  pub polls : ℕ

-- the result so far, whether `boot_changed`, and the world
pub record Progress (F W : Type 0) : Type 0 where
  pub result : ArmResult F
  pub boot_changed : Bool
  pub world : W

-- `merged`
unfoldable pub arm_env : {F : Type 0} → Plan F → Arm → Env
arm_env p arm =
    let merged = merge_env p.environ arm.env in
    if is_empty p.api_key
    then merged
    else assign (codes "API_KEY") p.api_key (assign (codes "VLLM_API_KEY") p.api_key merged)

source_name : BootSource → Text
source_name metrics_label = codes "metrics-label"
source_name process_start = codes "metrics-process-start"
source_name host_boot = codes "host-boot"
source_name unavailable = codes "unavailable"

unfoldable pub boot_warning : Boot → List ArmWarning
boot_warning b =
    if not (is_known_id b.id)
    then boot_unavailable ∷ []
    else if is_host b.source
    then boot_of_host ∷ []
    else []

unfoldable pub health_failure : HealthError → ArmFailure
health_failure bad_health_timeout = health_options
health_failure bad_health_interval = health_options
health_failure polls_used_up = health_unfinished
health_failure request_raised = exception_raised

abbrev is_empty_id : Option Text → Text
is_empty_id none = []
is_empty_id (some t) = t

-- how the boot at the end compares with that at the start
pub data BootEnd : Type 0 where
  same_or_unknown other_boot other_source : BootEnd

unfoldable pub compare_boots : Option Boot → Boot → BootEnd
unfolding source_name
compare_boots none end = same_or_unknown
compare_boots (some start) end =
    if is_known_id start.id
      && is_known_id end.id
      && not (text_eq (is_empty_id start.id) (is_empty_id end.id))
    then if text_eq (source_name start.source) (source_name end.source)
      then other_boot
      else other_source
    else same_or_unknown
