-- ===== src/Power/Summary/Methods.antt =====
-- Every device of a phase is given an energy, whether or not it was measured.
use glm5_3_flash_2x_dgx_spar.Prelude.{
  ◌≤◌, ◌≡◌, refl, sym, ap, subst, Bool, true, Option, none, some, is_some, List, [], ◌∷◌, map, all,
  All, keep_if, length, ltb, Result, ok, ok_chain, traverse, traverse-cons, arith, Bool-cases, inl,
  inr,
}
use glm5_3_flash_2x_dgx_spar.Number.{Float}
use glm5_3_flash_2x_dgx_spar.Power.Stats.{Stats, series_stats}
use glm5_3_flash_2x_dgx_spar.Power.Energy.{counter_energy}
use glm5_3_flash_2x_dgx_spar.Power.Samples.{Sample, Column, readings, column, pairs_for}
use glm5_3_flash_2x_dgx_spar.Power.Samples.Seen.{Seen, column-Seen, length-pairs_for}
use glm5_3_flash_2x_dgx_spar.Power.Summary.{
  Entry, Phase, is_gpu, is_known, numbers, method_of, entry, total_series, gaps, last_sample, phase,
  summarize_phase,
}

ok_value : {E A : Type 0} {a b : A} → ◌≡◌ {A = Result E A} (ok a) (ok b) → a ≡ b
ok_value h = cc

-- what holds of the results of calls that all returned
traverse-All {ℓ} :
    {E A B : Type 0} (g : A → Result E B) (P : A → Type ℓ) (Q : B → Type ℓ)
    (each : (a : A) (b : B) → P a → g a ≡ ok b → Q b) (xs : List A) {ys : List B}
    → All P xs
    → traverse g xs ≡ ok ys
    → All Q ys
traverse-All g P Q each [] {ys} h e = let same : [] ≡ ys = cc e in subst (All Q) same tt
traverse-All g P Q each (x ∷ xs) {ys} h e =
    let (y, (zs, first, later, same)) = traverse-cons g x xs e in
    let all_good : All Q (y ∷ zs) = (each x y h.0 first, traverse-All g P Q each xs h.1 later) in
    subst (All Q) (sym same) all_good

module _ {F : Type 0} ⦃f : Float F⦄ where
  abbrev pub IsKnown : Entry F → Type 0
  IsKnown e = is_known e.method ≡ true

  method_of-is_known :
      (counted : Option F) (points : List (F × Option F))
      → 1 ≤ length points
      → is_known (method_of counted points) ≡ true
  unfolding method_of
  method_of-is_known (some j) points h = refl
  method_of-is_known none [] h = absurd (omega arith)
  method_of-is_known none (p ∷ ps) h = refl

  entry-IsKnown :
      (samples : List (Sample F)) (max_gap : F) (c : Column F) (e : Entry F)
      → Seen (readings samples) c
      → entry samples max_gap c ≡ ok e
      → IsKnown e
  unfolding entry
  entry-IsKnown samples max_gap c e seen h =
      let (stats, (first, rest)) = ok_chain (series_stats (numbers c.w)) _ h in
      let points = (pairs_for samples c.key).0 in
      let counted = counter_energy (numbers (map (λ p. p.1) (pairs_for samples c.key).1)) in
      subst (λ m. is_known m ≡ true) (ap (λ x. x.method) (ok_value rest))
        (method_of-is_known counted points (length-pairs_for samples c seen))

  column-IsKnown :
      (samples : List (Sample F)) (max_gap : F) {es : List (Entry F)}
      → traverse (entry samples max_gap) (column samples) ≡ ok es
      → All IsKnown es
  column-IsKnown samples max_gap h =
      traverse-All (entry samples max_gap) (Seen (readings samples)) IsKnown
        (entry-IsKnown samples max_gap) (column samples) (column-Seen samples) h

  keep_if-IsKnown :
      (p : Entry F → Bool) (es : List (Entry F)) → All IsKnown es → All IsKnown (keep_if p es)
  keep_if-IsKnown p [] h = tt
  keep_if-IsKnown p (e ∷ es) h = elim (Bool-cases (p e)) [
    | inl g ↦ rw (g, keep_if) (h.0, keep_if-IsKnown p es h.1)
    | inr g ↦ rw (g, keep_if) (keep_if-IsKnown p es h.1)
  ]

  all-IsKnown : (es : List (Entry F)) → All IsKnown es → all (λ e. is_known e.method) es ≡ true
  all-IsKnown [] h = refl
  all-IsKnown (e ∷ es) h = rw (h.0, all-IsKnown es h.1)

  phase-IsKnown :
      (first last : Sample F) (between : List F) (es : List (Entry F)) (totals : Stats F)
      → All IsKnown es
      → (All IsKnown (phase first last between es totals).gpus)
        × (is_some (phase first last between es totals).total_energy_j
            ≡ ltb 0 (phase first last between es totals).total.samples)
  unfolding phase
  phase-IsKnown first last between es totals h =
      (keep_if-IsKnown (λ e. is_gpu e.group) es h, ground (arith, all-IsKnown es h))

  -- In the summary of a phase no GPU has the energy method "none", though it be without a reading of
  -- its power, and the total energy is given exactly where the totals have samples.
  pub summarize_phase-IsKnown :
      (samples : List (Sample F)) (max_gap : F) {p : Phase F}
      → summarize_phase samples max_gap ≡ ok (some p)
      → (All IsKnown p.gpus) × (is_some p.total_energy_j ≡ ltb 0 p.total.samples)
  unfolding summarize_phase
  summarize_phase-IsKnown [] max_gap h = absurd (cc h)
  summarize_phase-IsKnown (s ∷ []) max_gap h = absurd (cc h)
  summarize_phase-IsKnown (s ∷ r ∷ rest) max_gap {p} h =
      let samples = s ∷ r ∷ rest in
      let (es, (first, next)) = ok_chain (traverse (entry samples max_gap) (column samples)) _ h in
      let (totals, (second, done)) = ok_chain (series_stats (total_series samples)) _ next in
      let same : phase s (last_sample r rest) (gaps samples) es totals ≡ p = cc done in
      subst (λ q. (All IsKnown q.gpus) × (is_some q.total_energy_j ≡ ltb 0 q.total.samples)) same
        (phase-IsKnown s (last_sample r rest) (gaps samples) es totals
          (column-IsKnown samples max_gap first))
