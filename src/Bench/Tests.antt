-- ===== src/Bench/Tests.antt =====
-- Runs on small inputs, and each theorem at an input that meets its hypotheses.
use glm5_3_flash_2x_dgx_spar.Prelude.{◌≡◌, refl, true, map, keep_if, List, [], ◌∷◌, length, All, ok}
use glm5_3_flash_2x_dgx_spar.Text.{codes, strip}
use glm5_3_flash_2x_dgx_spar.Text.Regex.{match_start, search_text}
use glm5_3_flash_2x_dgx_spar.Bench.Env.{
  Env, lookup, assign, is_sensitive_key, is_relevant, redacted, redact_env, filter_effective_env,
}
use glm5_3_flash_2x_dgx_spar.Bench.Env.Redacted.{
  is_presentable, filter_effective_env-is_presentable,
}
use glm5_3_flash_2x_dgx_spar.Bench.Arms.{
  Arm, is_arm_name, is_env_key, or_baseline, parse_arm, parse_arms,
}
use glm5_3_flash_2x_dgx_spar.Bench.Arms.Valid.{all_distinct, parse_arms-all_distinct}
use glm5_3_flash_2x_dgx_spar.Prelude.{some}
use glm5_3_flash_2x_dgx_spar.Bench.Boots.{process_start, ArmBoot, same_boot, boot_warnings}

abbrev base : Env
base =
    (codes "MODEL", codes "glm")
    ∷ (codes "HF_TOKEN", codes "hf_123")
    ∷ (codes "VLLM_API_KEY", codes "key")
    ∷ []

abbrev overrides : Env
overrides = (codes "GLM53_K", codes "7") ∷ (codes "MODEL", codes "other") ∷ []

shown :
    filter_effective_env base ≡ (codes "MODEL", codes "glm") ∷ (codes "VLLM_API_KEY", redacted) ∷ []
unfolding filter_effective_env redact_env is_relevant is_sensitive_key search_text
shown = refl

filter_effective_env-is_presentable_example :
    (map (λ p. p.0) (filter_effective_env base) ≡ keep_if is_relevant (map (λ p. p.0) base))
    × All (λ p. is_presentable p ≡ true) (filter_effective_env base)
filter_effective_env-is_presentable_example = filter_effective_env-is_presentable base

abbrev arm : Arm
arm = record {
  name = codes "fast";
  env = (codes "K", codes "7") ∷ (codes "M", codes "a=b") ∷ [];
  spec = codes "fast:K=7, M=a=b";
}

parsed : parse_arm (codes " fast:K=7, M=a=b") ≡ ok arm
unfolding parse_arm strip is_arm_name is_env_key match_start lookup assign
parsed = refl

abbrev arms : List Arm
arms =
    record { name = codes "a"; env = []; spec = codes "a" }
    ∷ record { name = codes "b"; env = []; spec = codes "b" }
    ∷ []

both : parse_arms (codes "a" ∷ codes "b" ∷ []) ≡ ok arms
unfolding parse_arms parse_arm strip is_arm_name is_env_key match_start lookup assign
both = refl

parse_arms-all_distinct_example :
    (all_distinct arms ≡ true) × (length arms ≡ length (or_baseline (codes "a" ∷ codes "b" ∷ [])))
parse_arms-all_distinct_example = parse_arms-all_distinct (codes "a" ∷ codes "b" ∷ []) both

-- the second arm ran on the boot of the first
abbrev boots : List ArmBoot
boots =
    record { name = codes "a"; id = some (codes "process-start:1"); source = process_start }
    ∷ record { name = codes "b"; id = some (codes "process-start:1"); source = process_start }
    ∷ []

warned : boot_warnings boots true ≡ same_boot (codes "process-start:1") ∷ []
unfolding boot_warnings
warned = refl
