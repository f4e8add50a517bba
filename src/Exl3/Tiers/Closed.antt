-- ===== src/Exl3/Tiers/Closed.antt =====
-- What the resolved tier has of the checkpoint and of the image.
use glm5_3_flash_2x_dgx_spar.Prelude.{
  ◌≡◌, refl, Bool, true, false, ◌&&◌, String, Dict, List, Result, ok, err, arith, if◌then◌else◌, ℕ,
  ◌≤◌,
}
use glm5_3_flash_2x_dgx_spar.Exl3.Tiers.{
  Tier, legacy, sorted, batched, kernel, Reason, configured_fat_tier, Symbols, missing_symbols,
  resolve_kernel, resolve_shared, resolve_unshared, resolve_exl3_fat_tier,
}

abbrev pub rank : Tier → ℕ
rank legacy = 0
rank sorted = 1
rank batched = 2
rank kernel = 3

-- what the resolution asks for a tier: of the checkpoint, and of the image's symbols. The two that the
-- kernel needs beside these with `EXL3_FAT_PIPELINE` on are not looked at.
abbrev pub has_symbols : Bool → Symbols → Tier → Bool
has_symbols shared_suh s legacy = true
has_symbols shared_suh s sorted = true
has_symbols shared_suh s batched = shared_suh
has_symbols shared_suh s kernel = shared_suh && s.fat_gemm && s.fat_gemm_scatter

-- a tier with its symbols that is not above the requested one, or else the kernel was requested, the
-- checkpoint allows it, and the image lacks a symbol
abbrev pub IsResolved : Tier → Bool → Symbols → Result (List String) (Tier × Reason) → Type 0
IsResolved wanted shared_suh s (ok (tier, reason)) =
    (has_symbols shared_suh s tier ≡ true) × (rank tier ≤ rank wanted)
IsResolved wanted shared_suh s (err missing) =
    (wanted ≡ kernel) × ((shared_suh ≡ true) × ((s.fat_gemm && s.fat_gemm_scatter) ≡ false))

resolve_kernel-IsResolved :
    (gemm scatter moe : Bool)
    → let s : Symbols = record { moe = moe; fat_gemm = gemm; fat_gemm_scatter = scatter } in
      IsResolved kernel true s (resolve_kernel (missing_symbols s))
unfolding resolve_kernel missing_symbols
resolve_kernel-IsResolved true true moe = (refl, omega arith)
resolve_kernel-IsResolved true false moe = (refl, (refl, refl))
resolve_kernel-IsResolved false true moe = (refl, (refl, refl))
resolve_kernel-IsResolved false false moe = (refl, (refl, refl))

resolve-IsResolved :
    (wanted : Tier) (shared_suh : Bool) (s : Symbols)
    → IsResolved wanted shared_suh s
        (if shared_suh then resolve_shared wanted s else resolve_unshared wanted)
unfolding resolve_shared resolve_unshared
resolve-IsResolved legacy true s = (refl, omega arith)
resolve-IsResolved legacy false s = (refl, omega arith)
resolve-IsResolved sorted true s = (refl, omega arith)
resolve-IsResolved sorted false s = (refl, omega arith)
resolve-IsResolved batched true s = (refl, omega arith)
resolve-IsResolved batched false s = (refl, omega arith)
resolve-IsResolved kernel true s = resolve_kernel-IsResolved s.fat_gemm s.fat_gemm_scatter s.moe
resolve-IsResolved kernel false s = (refl, omega arith)

-- The resolved tier is never above the one that the environment requests; it is batched or the kernel
-- only where the checkpoint shares its input sign vectors, and the kernel only where the image has the
-- symbols `exl3_fat_gemm` and `exl3_fat_gemm_scatter`. It is refused only where the kernel is
-- requested, the checkpoint allows it, and the image lacks one of these two.
pub resolve_exl3_fat_tier-IsResolved :
    (env : Dict String) (shared_suh : Bool) (s : Symbols)
    → IsResolved (configured_fat_tier env) shared_suh s (resolve_exl3_fat_tier env shared_suh s)
unfolding resolve_exl3_fat_tier
resolve_exl3_fat_tier-IsResolved env shared_suh s =
    resolve-IsResolved (configured_fat_tier env) shared_suh s
