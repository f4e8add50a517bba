-- ===== src/Overlay/TailSlots/Clamped.antt =====
-- That the clamp keeps every slot within the row, and changes nothing where nothing overruns it.
use glm5_3_flash_2x_dgx_spar.Prelude.{
  ◌&&◌, ℕ, zero, suc, ◌+◌, ◌-◌, ◌*◌, ◌/◌, ◌≤◌, ◌<◌, min, ◌≡◌, refl, subst, ◌∙◌, ◌||◌, Bool, true,
  false, List, [], ◌∷◌, count_if, any, all, length, leb, ltb, ◌==◌, arith, Bool-cases, inl, inr,
  Result, ok, err,
}
use native.Mathlib.Nat.{mod-lt}
use glm5_3_flash_2x_dgx_spar.Overlay.TailSlots.{
  SlotError, past_stride, count_overruns, block_at, slot, slot_of, slots, circular_slot_ids,
}

-- a slot of some block of the row
abbrev pub is_within : List ℕ → ℕ → ℕ → Bool
is_within row block_size s =
    any (λ b. leb (b * block_size) s && ltb s (b * block_size + block_size)) row

any-get_elem :
    (p : ℕ → Bool) (row : List ℕ) (i : ℕ)
    → i < length row
    → p (block_at row i) ≡ true
    → any p row ≡ true
any-get_elem p [] i h g = absurd (omega (arith, h))
any-get_elem p (b ∷ row) zero h g = rw g refl
any-get_elem p (b ∷ row) (suc i) h g =
    let later = any-get_elem p row i (omega (arith, h)) g in ground (arith, later)

slot-is_within :
    (row : List ℕ) (block_size p i : ℕ)
    → 1 ≤ block_size
    → i < length row
    → is_within row block_size (slot row block_size p i) ≡ true
slot-is_within row block_size p i h g =
    let low = mod-lt p {m = block_size} (omega (arith, h)) in
    any-get_elem _ row i g (ground (arith, low))

module _ (b : ℕ) (row : List ℕ) (block_size : ℕ) (positive : 1 ≤ block_size) where
  -- the clamped slots exist and are within the row
  slots-is_within :
      (ps : List ℕ)
      → (out : List ℕ) × ((slots (b ∷ row) block_size true ps ≡ ok out)
          × (all (is_within (b ∷ row) block_size) out ≡ true))
  unfolding slots slot_of
  slots-is_within [] = ([], (refl, refl))
  slots-is_within (p ∷ ps) =
      let (out, (e, h)) = slots-is_within ps in
      let i = min (p / block_size) (length (b ∷ row) - 1) in
      let here = slot-is_within (b ∷ row) block_size p i positive (omega arith) in
      (slot (b ∷ row) block_size p i ∷ out, (rw e refl, ground (arith, here, h)))

  abbrev overruns : ℕ → Bool
  overruns p = leb (length (b ∷ row)) (p / block_size)

  slots-no_overrun :
      (ps : List ℕ)
      → count_if overruns ps ≡ 0
      → slots (b ∷ row) block_size false ps ≡ slots (b ∷ row) block_size true ps
  unfolding slots slot_of
  slots-no_overrun [] h = refl
  slots-no_overrun (p ∷ ps) h =
      let fits : overruns p ≡ false = ground (arith, h) in
      let rest : count_if overruns ps ≡ 0 = ground (arith, h) in
      let same : min (p / block_size) (length (b ∷ row) - 1) ≡ p / block_size =
        ground (arith, fits) in
      rw (fits, same, slots-no_overrun ps rest) refl

  slots-overrun :
      (ps : List ℕ) (n : ℕ)
      → count_if overruns ps ≡ suc n
      → (e : SlotError) × (slots (b ∷ row) block_size false ps ≡ err e)
  unfolding slots slot_of
  slots-overrun [] n h = absurd (omega (arith, h))
  slots-overrun (p ∷ ps) n h = elim (Bool-cases (overruns p)) [
    | inl o ↦ (past_stride p (p / block_size), rw o refl)
    | inr o ↦ let (e, later) = slots-overrun ps n (ground (arith, o, h)) in (e, rw (o, later) refl)
  ]

  -- without overruns the clamp changes nothing, and with some the unclamped mapping raises
  abbrev pub IsAgreed : ℕ → List ℕ → Result SlotError (List ℕ) → Type 0
  IsAgreed zero out unclamped = unclamped ≡ ok out
  IsAgreed (suc n) out unclamped = (e : SlotError) × (unclamped ≡ err e)

  slots-IsAgreed :
      (ps : List ℕ) (n : ℕ) (out : List ℕ)
      → count_if overruns ps ≡ n
      → slots (b ∷ row) block_size true ps ≡ ok out
      → IsAgreed n out (slots (b ∷ row) block_size false ps)
  slots-IsAgreed ps zero out h e = slots-no_overrun ps h ∙ e
  slots-IsAgreed ps (suc n) out h e = slots-overrun ps n h

  -- For a row of blocks and a positive block size, the clamped mapping gives every position a slot of a
  -- block of the row. Where no position is counted as an overrun, the mapping without the clamp gives
  -- the same slots; where some is, it raises.
  pub circular_slot_ids-IsAgreed :
      (positions : List ℕ) {n : ℕ}
      → count_overruns positions block_size (length (b ∷ row)) ≡ ok n
      → (out : List ℕ) × ((circular_slot_ids positions (b ∷ row) block_size true ≡ ok out)
          × ((all (is_within (b ∷ row) block_size) out ≡ true)
              × IsAgreed n out (circular_slot_ids positions (b ∷ row) block_size false)))
  unfolding circular_slot_ids count_overruns
  circular_slot_ids-IsAgreed [] {n = n} h =
      let sizes : (ltb block_size 1 || ltb (length (b ∷ row)) 1) ≡ false =
        ground (arith, positive) in
      let none_over : 0 ≡ n = cc (rw sizes at h) in
      ([], (refl, (refl, subst (λ k. IsAgreed k [] (ok [])) none_over refl)))
  circular_slot_ids-IsAgreed (p ∷ ps) {n = n} h =
      let sizes : (ltb block_size 1 || ltb (length (b ∷ row)) 1) ≡ false =
        ground (arith, positive) in
      let counted : count_if overruns (p ∷ ps) ≡ n = cc (rw sizes at h) in
      let nonzero : (block_size == 0) ≡ false = ground (arith, positive) in
      let (out, (e, within)) = slots-is_within (p ∷ ps) in
      (out, (rw nonzero e, (within, rw nonzero (slots-IsAgreed (p ∷ ps) n out counted e))))
