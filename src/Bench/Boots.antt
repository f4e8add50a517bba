-- ===== src/Bench/Boots.antt =====
-- `boot_warnings`: whether the arms of a benchmark ran on different boots of the engine.
pub mod Quiet
use glm5_3_flash_2x_dgx_spar.Prelude.{
  Bool, true, false, not, ◌&&◌, ◌||◌, Option, none, some, List, [], ◌∷◌, ◌++◌, map, any, all,
  keep_if, if◌then◌else◌,
}
use glm5_3_flash_2x_dgx_spar.Text.{Text, text_eq}

-- `boot["source"]`
pub data BootSource : Type 0 where
  metrics_label process_start host_boot unavailable : BootSource

pub record ArmBoot : Type 0 where
  pub name : Text
  pub id : Option Text
  pub source : BootSource

-- the messages, by what they name
pub data Warning : Type 0 where
  no_boot_id host_boot_only : List Text → Warning
  same_boot : Text → Warning
  not_restarted boot_changed : Warning

-- `if not boot_id`, for an identity that may be missing or empty
abbrev pub is_known_id : Option Text → Bool
is_known_id none = false
is_known_id (some []) = false
is_known_id (some (c ∷ cs)) = true

abbrev pub is_host : BootSource → Bool
is_host host_boot = true
is_host metrics_label = false
is_host process_start = false
is_host unavailable = false

abbrev pub has_id : ArmBoot → Bool
has_id b = is_known_id b.id

-- a warning that names some arms, if there are any
name_arms : (List Text → Warning) → List ArmBoot → List Warning
name_arms w [] = []
name_arms w (b ∷ bs) = w (map (λ a. a.name) (b ∷ bs)) ∷ []

abbrev pub known_ids : List ArmBoot → List Text
known_ids [] = []
known_ids (b ∷ bs) = elim b.id [
  | none ↦ known_ids bs
  | some [] ↦ known_ids bs
  | some (c ∷ cs) ↦ (c ∷ cs) ∷ known_ids bs
]

-- `len(ids) >= 2 and len(set(ids)) == 1`
abbrev pub is_same_boot : List Text → Bool
is_same_boot [] = false
is_same_boot (i ∷ []) = false
is_same_boot (i ∷ j ∷ ids) = all (text_eq i) (j ∷ ids)

-- `len(set(ids)) > 1`
abbrev pub is_changed_boot : List Text → Bool
is_changed_boot [] = false
is_changed_boot (i ∷ ids) = not (all (text_eq i) ids)

first_id : List Text → Text
first_id [] = []
first_id (i ∷ ids) = i

unfoldable pub boot_warnings : List ArmBoot → Bool → List Warning
unfolding name_arms first_id
boot_warnings boots restart_required =
    let ids = known_ids boots in
    if restart_required
    then name_arms no_boot_id (keep_if (λ b. not (has_id b)) boots)
      ++ (name_arms host_boot_only (keep_if (λ b. has_id b && is_host b.source) boots)
          ++ (if is_same_boot ids then same_boot (first_id ids) ∷ [] else []))
    else not_restarted ∷ (if is_changed_boot ids then boot_changed ∷ [] else [])
