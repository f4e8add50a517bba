-- ===== src/AdaptiveK/Apply/Outcomes.antt =====
-- What one call of `apply` or `batch_k` does, in every outcome.
use glm5_3_flash_2x_dgx_spar.Prelude.{
  ℕ, ◌≤◌, ◌%◌, String, ◌≡◌, inl, inr, refl, sym, ap, ◌∙◌, subst, Bool, true, false, ◌||◌, not,
  Option, some, List, [], ◌∷◌, map, min, arith, ltb, ltb→lt, ◌==◌, length, take, length-take, All,
  All-map, ok, err, Result-cases, Bool-cases,
}
use glm5_3_flash_2x_dgx_spar.Number.{Float}
use glm5_3_flash_2x_dgx_spar.AdaptiveK.{
  Error, Policy, Batch, contains, all_known, any_structured, count, longest, width, trim_all,
}
use glm5_3_flash_2x_dgx_spar.AdaptiveK.Sound.{IsSound, positive_of}
use glm5_3_flash_2x_dgx_spar.AdaptiveK.Reload.{OverrideFile}
use glm5_3_flash_2x_dgx_spar.AdaptiveK.Reload.Sizes.{reload-IsSound, boot_set-reload}
use glm5_3_flash_2x_dgx_spar.AdaptiveK.Apply.{choices, refresh, is_empty, trimmed, apply}
use glm5_3_flash_2x_dgx_spar.AdaptiveK.Apply.Rows.{
  rows, owners, rows-trim_all, owners-trim_all, trim_all-id, longest-le,
}
use glm5_3_flash_2x_dgx_spar.AdaptiveK.Apply.Widths.{
  choices_structured, choices-pos, width_structured, width-le, width-pos,
}

-- The batch after a call is the batch before, each row cut to `n` tokens.
pub record CutTo (n : ℕ) (reqs reqs' : Batch) : Type 0 where
  pub cut : rows reqs' ≡ map (take n) (rows reqs)
  pub owned : owners reqs' ≡ owners reqs
  pub kept : min 1 (longest reqs) ≤ n

trim_all-CutTo : (n : ℕ) (reqs : Batch) → min 1 (longest reqs) ≤ n → CutTo n reqs (trim_all n reqs)
trim_all-CutTo n reqs h = record {
  cut = rows-trim_all n reqs;
  owned = owners-trim_all n reqs;
  kept = h;
}

CutTo-longest : (reqs : Batch) → CutTo (longest reqs) reqs reqs
CutTo-longest reqs =
    subst (CutTo (longest reqs) reqs) (trim_all-id (longest reqs) reqs (longest-le reqs))
      (trim_all-CutTo (longest reqs) reqs (omega arith))

module _ {F : Type 0} ⦃f : Float F⦄ (file : OverrideFile F) (p : Policy F) where
  pub refresh-IsSound : IsSound p → IsSound (refresh file p)
  unfolding refresh
  refresh-IsSound h = elim (Bool-cases ((p.steps % 50) == 0)) [
    | inl e ↦ rw e (reload-IsSound file p h)
    | inr e ↦ rw e h
  ]

  pub boot_set-refresh : (refresh file p).boot_set ≡ p.boot_set
  unfolding refresh
  boot_set-refresh = ground (arith, boot_set-reload file p)

-- a call left the batch alone, or cut it to the width of its choices
data Outcome {F : Type 0} ⦃f : Float F⦄ (q : Policy F) (reqs reqs' : Batch) : Type 0 where
  left : reqs ≡ reqs' → Outcome q reqs reqs'
  cut_to :
      (picks : List (Option ℕ))
      → choices q reqs ≡ ok picks
      → trim_all (width q reqs picks) reqs ≡ reqs'
      → Outcome q reqs reqs'

empty-trim_all : (n : ℕ) (reqs : Batch) → is_empty reqs ≡ true → trim_all n reqs ≡ reqs
unfolding trim_all
empty-trim_all n [] h = refl
empty-trim_all n (x ∷ reqs) h = cc

width-min :
    {F : Type 0} (q : Policy F) (reqs : Batch) (picks : List (Option ℕ))
    → (1 ≤ longest reqs → 1 ≤ width q reqs picks)
    → min 1 (longest reqs) ≤ width q reqs picks
width-min q reqs picks h = elim (Bool-cases (ltb 0 (longest reqs))) [
  | inl e ↦ let pos = h (ltb→lt 0 _ e) in omega arith
  | inr e ↦ ground arith
]

module _ {F : Type 0} ⦃f : Float F⦄ where
  trimmed-Outcome :
      (q : Policy F) (reqs : Batch) (live_ids : List String) {reqs' : Batch}
      → (trimmed q reqs live_ids).0 ≡ ok reqs'
      → Outcome q reqs reqs'
  unfolding trimmed
  trimmed-Outcome q reqs live_ids h = elim (Result-cases (choices q reqs)) [
    | inl (picks, e) ↦ cut_to picks e (cc (rw (e, trimmed) at h))
    | inr (x, e) ↦ absurd (cc (rw (e, trimmed) at h))
  ]

  apply-Outcome :
      (file : OverrideFile F) (p : Policy F) (reqs : Batch) (live_ids : List String) {reqs' : Batch}
      → (apply file p reqs live_ids).0 ≡ ok reqs'
      → Outcome (refresh file p) reqs reqs'
  unfolding apply
  apply-Outcome file p reqs live_ids h =
      elim (Bool-cases (not (refresh file p).enabled || is_empty reqs)) [
        | inl e ↦ left (cc (rw e at h))
        | inr e ↦ trimmed-Outcome (refresh file p) reqs live_ids (rw e at h)
      ]

  apply-eq-trim_all :
      (file : OverrideFile F) (p : Policy F) (reqs : Batch) (live_ids : List String) {reqs' : Batch}
      (picks : List (Option ℕ))
      → (refresh file p).enabled ≡ true
      → choices (refresh file p) reqs ≡ ok picks
      → (apply file p reqs live_ids).0 ≡ ok reqs'
      → reqs' ≡ trim_all (width (refresh file p) reqs picks) reqs
  unfolding apply trimmed
  apply-eq-trim_all file p reqs live_ids {reqs'} picks on c h =
      let w = width (refresh file p) reqs picks in
      elim (Bool-cases (is_empty reqs)) [
        | inl e ↦
            let same : reqs ≡ reqs' = cc (rw (on, e) at h) in
            sym same ∙ sym (empty-trim_all w reqs e)
        | inr e ↦ cc (rw (on, e, trimmed, c) at h)
      ]

  structured-Outcome :
      (q : Policy F) (reqs : Batch) {reqs' : Batch}
      → any_structured reqs ≡ true
      → Outcome q reqs reqs'
      → reqs' ≡ reqs
  structured-Outcome q reqs s (left e) = sym e
  structured-Outcome q reqs s (cut_to picks c e) =
      let w = width_structured q reqs picks s (choices_structured q reqs s c) in
      sym e ∙ ap (λ n. trim_all n reqs) w ∙ trim_all-id (longest reqs) reqs (longest-le reqs)

  cut-Outcome :
      (q : Policy F) (reqs : Batch) {reqs' : Batch}
      → All (λ v. 1 ≤ v) q.k_set
      → Outcome q reqs reqs'
      → (n : ℕ) × CutTo n reqs reqs'
  cut-Outcome q reqs ks (left e) =
      (longest reqs, subst (CutTo (longest reqs) reqs) e (CutTo-longest reqs))
  cut-Outcome q reqs ks (cut_to picks c e) =
      let n = width q reqs picks in
      let kept = width-min q reqs picks (width-pos q reqs picks ks (choices-pos q reqs c)) in
      (n, subst (CutTo n reqs) e (trim_all-CutTo n reqs kept))

  positive_sizes :
      (q : Policy F) → IsSound q → contains q.boot_set 0 ≡ false → All (λ v. 1 ≤ v) q.k_set
  positive_sizes q h z = positive_of q.k_set (zero_absent (contains q.k_set 0) (h.sizes 0) z)
    where
      zero_absent :
          (b : Bool)
          → (b ≡ true → contains q.boot_set 0 ≡ true)
          → contains q.boot_set 0 ≡ false
          → b ≡ false
      zero_absent false k z = refl
      zero_absent true k z = absurd (cc (k refl))

rows-le : (n v : ℕ) (reqs : Batch) → n ≤ v → All (λ row. length row ≤ v) (map (take n) (rows reqs))
rows-le n v [] h = tt
rows-le n v ((r, s) ∷ reqs) h = (omega (arith, length-take n r.spec_token_ids), rows-le n v reqs h)

uniform :
    {F : Type 0} (q : Policy F) (reqs : Batch) (picks : List (Option ℕ)) (l : List ℕ)
    → all_known picks ≡ some l
    → All (λ v. All (λ row. length row ≤ v) (rows (trim_all (width q reqs picks) reqs))) l
uniform q reqs picks l k =
    let n = width q reqs picks in
    rw (rows-trim_all n reqs)
      (All-map (λ v. n ≤ v) _ l (λ v h. rows-le n v reqs h) (width-le q reqs picks l k))

module _ {F : Type 0} ⦃f : Float F⦄ (file : OverrideFile F) (p : Policy F) (reqs : Batch)
    (live_ids : List String) where
  -- `apply` of a sound policy whose sizes do not include 0 cuts every row of the batch to one common
  -- length, keeps the requests and their order, and leaves a token in the batch if there was one.
  pub apply-CutTo :
      {reqs' : Batch}
      → IsSound p
      → contains p.boot_set 0 ≡ false
      → (apply file p reqs live_ids).0 ≡ ok reqs'
      → (n : ℕ) × CutTo n reqs reqs'
  apply-CutTo h z e =
      let q = refresh file p in
      cut-Outcome q reqs
        (positive_sizes q (refresh-IsSound file p h) (rw (boot_set-refresh file p) z))
        (apply-Outcome file p reqs live_ids e)

  -- `apply` leaves a batch that holds a structured request as it was.
  pub apply_structured :
      {reqs' : Batch}
      → any_structured reqs ≡ true
      → (apply file p reqs live_ids).0 ≡ ok reqs'
      → reqs' ≡ reqs
  apply_structured s e =
      structured-Outcome (refresh file p) reqs s (apply-Outcome file p reqs live_ids e)

  -- Where every request of the batch has a choice, no row is longer than any of the choices after
  -- `apply` of an enabled policy.
  pub apply-le_choice :
      {reqs' : Batch} (picks : List (Option ℕ)) (l : List ℕ)
      → (refresh file p).enabled ≡ true
      → choices (refresh file p) reqs ≡ ok picks
      → all_known picks ≡ some l
      → (apply file p reqs live_ids).0 ≡ ok reqs'
      → All (λ v. All (λ row. length row ≤ v) (rows reqs')) l
  apply-le_choice picks l on c k e =
      let q = refresh file p in
      let short = uniform q reqs picks l k in
      subst (λ b. All (λ v. All (λ row. length row ≤ v) (rows b)) l)
        (sym (apply-eq-trim_all file p reqs live_ids picks on c e)) short

  -- A call of `apply` that raises has done no more to the policy than look at the override file.
  pub apply_raised :
      {e : Error}
      → (apply file p reqs live_ids).0 ≡ err e
      → (apply file p reqs live_ids).1 ≡ refresh file p
  unfolding apply trimmed count
  apply_raised h = ground arith
