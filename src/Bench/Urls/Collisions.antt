-- ===== src/Bench/Urls/Collisions.antt =====
-- Names of arms that share their files.
use glm5_3_flash_2x_dgx_spar.Prelude.{
  ℕ, ◌≡◌, refl, ap, Bool, true, false, [], ◌∷◌, ◌++◌, Bool-cases, inl, inr, arith,
}
use glm5_3_flash_2x_dgx_spar.Text.{Text, lstrip, rstrip}
use glm5_3_flash_2x_dgx_spar.Bench.Urls.{
  is_plain, is_edge, replace_runs, trim_edges, slug, artifact_path,
}

replace_runs-append :
    (inside : Bool) (s : Text) (c : ℕ)
    → is_plain c ≡ true
    → replace_runs inside (s ++ c ∷ []) ≡ replace_runs inside s ++ c ∷ []
unfolding replace_runs
replace_runs-append inside [] c h = rw (h, replace_runs) refl
replace_runs-append true (d ∷ s) c h = elim (Bool-cases (is_plain d)) [
  | inl e ↦ rw (e, replace_runs) (ap (◌∷◌ d) (replace_runs-append false s c h))
  | inr e ↦ rw (e, replace_runs) (replace_runs-append true s c h)
]
replace_runs-append false (d ∷ s) c h = elim (Bool-cases (is_plain d)) [
  | inl e ↦ rw (e, replace_runs) (ap (◌∷◌ d) (replace_runs-append false s c h))
  | inr e ↦ rw (e, replace_runs) (ap (◌∷◌ b'_') (replace_runs-append true s c h))
]

rstrip-append : (p : ℕ → Bool) (s : Text) (c : ℕ) → p c ≡ true → rstrip p (s ++ c ∷ []) ≡ rstrip p s
rstrip-append p [] c h = rw (h, rstrip) refl
rstrip-append p (d ∷ s) c h = rw (rstrip-append p s c h, rstrip) refl

strip-append :
    (p : ℕ → Bool) (s : Text) (c : ℕ)
    → p c ≡ true
    → rstrip p (lstrip p (s ++ c ∷ [])) ≡ rstrip p (lstrip p s)
strip-append p [] c h = rw (h, lstrip) refl
strip-append p (d ∷ s) c h = elim (Bool-cases (p d)) [
  | inl e ↦ rw (e, lstrip) (strip-append p s c h)
  | inr e ↦ rw (e, lstrip) (rstrip-append p (d ∷ s) c h)
]

-- A dot, an underscore or a dash at the end of an arm's name does not count in the names of its files:
-- the arm without it has the same artifact for each benchmark.
pub artifact_path-append :
    (out_dir name bench : Text) (c : ℕ)
    → is_edge c ≡ true
    → artifact_path out_dir (name ++ c ∷ []) bench ≡ artifact_path out_dir name bench
unfolding artifact_path slug trim_edges
artifact_path-append out_dir name bench c h =
    rw
      (
        replace_runs-append false name c (ground (arith, h)),
        strip-append is_edge (replace_runs false name) c h,
      )
      refl
