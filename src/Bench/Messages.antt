-- ===== src/Bench/Messages.antt =====
-- The warnings of a report, as `main`, `run_arm` and `boot_warnings` word them, and `_dedupe`.
use glm5_3_flash_2x_dgx_spar.Prelude.{
  Bool, not, ◌&&◌, none, some, List, [], ◌∷◌, ◌++◌, map, any, keep_if, if◌then◌else◌,
}
use glm5_3_flash_2x_dgx_spar.Text.{Text, codes, text_eq}
use glm5_3_flash_2x_dgx_spar.Bench.Boots.{
  Warning, no_boot_id, host_boot_only, same_boot, not_restarted, boot_changed, ArmBoot, unavailable,
  boot_warnings,
}
use glm5_3_flash_2x_dgx_spar.Bench.Specs.{Benchmark, name_of, is_decode}
use glm5_3_flash_2x_dgx_spar.Bench.Results.{
  ArmWarning, overrides_not_applied, boot_unavailable, boot_of_host, reset_absent,
  boot_changed_during, boot_source_changed, BenchRecord, ArmResult,
}

abbrev pub default_model : Text
default_model = codes "GLM-5.3-Flash-EXL3"

-- `", ".join(names)`
join_names : List Text → Text
join_names [] = []
join_names (n ∷ []) = n
join_names (n ∷ m ∷ ns) = n ++ (codes ", " ++ join_names (m ∷ ns))

boot_message : Warning → Text
unfolding join_names
boot_message (no_boot_id names) =
    codes "engine boot id unavailable for arm(s) "
    ++ (join_names names ++ codes "; cannot prove each arm used a distinct restart")
boot_message (host_boot_only names) =
    codes "only host boot id available for arm(s) "
    ++ (join_names names ++ codes "; an engine restart inside the same host boot is invisible")
boot_message (same_boot id) =
    codes "all arms report the same boot identity ("
    ++ (id ++ codes "); the restart protocol may not have taken effect")
boot_message not_restarted =
    codes
      "--no-restart: arm environment overrides are not applied by the harness; measurements are only valid if the server was provisioned externally"
boot_message boot_changed =
    codes "--no-restart: the engine boot changed between arms outside harness control"

arm_message : ArmWarning → Text
arm_message overrides_not_applied = codes "environment overrides were not applied (--no-restart)"
arm_message boot_unavailable = codes "engine boot id unavailable"
arm_message boot_of_host = codes "engine boot id fell back to host boot id"
arm_message reset_absent = codes "endpoint absent (404); cold measurements rely on unique prompts"
arm_message boot_changed_during =
    codes "engine boot changed during the arm; measurements mix boot states"
arm_message boot_source_changed =
    codes "boot identity source changed during the arm; cannot prove a stable boot"

-- `_dedupe`, where `seen` holds what `out` holds
dedupe_into : List Text → List Text → List Text
dedupe_into out [] = out
dedupe_into out (item ∷ items) =
    dedupe_into (if any (text_eq item) out then out else out ++ item ∷ []) items

unfoldable pub dedupe : List Text → List Text
unfolding dedupe_into
dedupe items = dedupe_into [] items

failure_message : Text → List Text → Text
unfolding join_names
failure_message name [] = codes "arm " ++ (name ++ codes " failed")
failure_message name (b ∷ bs) =
    codes "arm " ++ (name ++ (codes " failed benchmarks: " ++ join_names (b ∷ bs)))

module _ {F : Type 0} where
  failed_benches : List (BenchRecord F) → List Text
  failed_benches bs = map (λ b. name_of b.bench) (keep_if (λ b. not b.ok) bs)

  arm_messages : ArmResult F → List Text
  unfolding failed_benches failure_message arm_message
  arm_messages arm =
      (if arm.ok then [] else failure_message arm.name (failed_benches arm.benches) ∷ [])
      ++ map (λ w. codes "arm " ++ (arm.name ++ (codes ": " ++ arm_message w))) arm.warnings

  all_arm_messages : List (ArmResult F) → List Text
  unfolding arm_messages
  all_arm_messages [] = []
  all_arm_messages (a ∷ arms) = arm_messages a ++ all_arm_messages arms

  -- what `boot_warnings` reads of an arm
  arm_boot : ArmResult F → ArmBoot
  arm_boot arm = elim arm.boot [
    | none ↦ record { name = arm.name; id = none; source = unavailable }
    | some b ↦ record { name = arm.name; id = b.id; source = b.source }
  ]

  -- `dirty_count` is that of `git_info()`, shown
  unfoldable pub report_warnings :
      List (ArmResult F) → Bool → Bool → Text → Bool → Text → List Benchmark → Bool → List Text
  unfolding boot_message all_arm_messages arm_boot
  report_warnings arms no_restart dirty dirty_count with_key model benches baseline_ok =
      let decode = any is_decode benches in
      dedupe (
        map boot_message (boot_warnings (map arm_boot arms) (not no_restart))
        ++ ((if dirty
              then (codes "git tree is dirty ("
                  ++ (dirty_count
                      ++ codes
                          " entries); record the exact working-tree state before publishing results"))
                ∷ []
              else [])
            ++ ((if with_key && decode
                  then codes
                      "bench_decode.py does not send an Authorization header; decode arms may fail against a server that requires VLLM_API_KEY"
                    ∷ []
                  else [])
                ++ ((if not (text_eq model default_model) && decode
                      then (codes "bench_decode.py hardcodes model '"
                          ++ (default_model
                              ++ (codes "'; --model '"
                                  ++ (model ++ codes "' does not affect decode benches"))))
                        ∷ []
                      else [])
                    ++ (all_arm_messages arms
                        ++ (if baseline_ok
                            then []
                            else codes "baseline arm failed; candidate deltas were suppressed"
                              ∷ []))))))
