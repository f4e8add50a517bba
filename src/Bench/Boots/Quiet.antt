-- ===== src/Bench/Boots/Quiet.antt =====
-- When a run with restarts has no warning.
use glm5_3_flash_2x_dgx_spar.Prelude.{
  ◌≡◌, ◌↔◌, refl, ap, Bool, true, false, not, ◌&&◌, List, [], ◌∷◌, ◌++◌, all, keep_if,
  if◌then◌else◌, arith,
}
use glm5_3_flash_2x_dgx_spar.Text.{Text}
use glm5_3_flash_2x_dgx_spar.Bench.Boots.{
  ArmBoot, Warning, no_boot_id, host_boot_only, same_boot, has_id, is_host, name_arms, known_ids,
  is_same_boot, first_id, boot_warnings,
}

-- the boot of the engine is known, and not only that of the host
abbrev pub is_proven : ArmBoot → Bool
is_proven b = has_id b && not (is_host b.source)

abbrev is_none : {A : Type 0} → List A → Bool
is_none [] = true
is_none (x ∷ xs) = false

none-eq : {A : Type 0} (xs : List A) → is_none xs ≡ true → xs ≡ []
none-eq [] h = refl
none-eq (x ∷ xs) h = cc

all-is_proven :
    (bs : List ArmBoot)
    → all is_proven bs ≡ (
        is_none (keep_if (λ b. not (has_id b)) bs)
        && is_none (keep_if (λ b. has_id b && is_host b.source) bs))
all-is_proven [] = refl
all-is_proven (b ∷ bs) = ground (arith, all-is_proven bs)

name_arms-is_none :
    (w : List Text → Warning) (bs : List ArmBoot) → is_none (name_arms w bs) ≡ is_none bs
unfolding name_arms
name_arms-is_none w [] = refl
name_arms-is_none w (b ∷ bs) = refl

is_none-append : {A : Type 0} (xs ys : List A) → is_none (xs ++ ys) ≡ (is_none xs && is_none ys)
is_none-append [] ys = refl
is_none-append (x ∷ xs) ys = refl

is_none-boot_warnings :
    (boots : List ArmBoot)
    → is_none (boot_warnings boots true)
      ≡ (all is_proven boots && not (is_same_boot (known_ids boots)))
unfolding boot_warnings
is_none-boot_warnings boots =
    let missing = name_arms no_boot_id (keep_if (λ b. not (has_id b)) boots) in
    let host = name_arms host_boot_only (keep_if (λ b. has_id b && is_host b.source) boots) in
    let same : List Warning =
      if is_same_boot (known_ids boots) then same_boot (first_id (known_ids boots)) ∷ [] else [] in
    rw
      (
        is_none-append missing (host ++ same),
        is_none-append host same,
        name_arms-is_none no_boot_id (keep_if (λ b. not (has_id b)) boots),
        name_arms-is_none host_boot_only (keep_if (λ b. has_id b && is_host b.source) boots),
        all-is_proven boots,
      )
      (ground arith)

-- A run with restarts has no warning exactly where the boot of the engine is known for every arm, and
-- there are not two or more arms with known boots that are all the same.
pub boot_warnings-is_proven :
    (boots : List ArmBoot)
    → (boot_warnings boots true ≡ [])
      ↔ ((all is_proven boots ≡ true) × (is_same_boot (known_ids boots) ≡ false))
boot_warnings-is_proven boots =
    let both = is_none-boot_warnings boots in
    (
      λ h. (ground (arith, both, ap is_none h), ground (arith, both, ap is_none h)),
      λ h. none-eq (boot_warnings boots true) (ground (arith, both, h.0, h.1)),
    )
