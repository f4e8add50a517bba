-- ===== src/Power/Samples/Seen.antt =====
-- Every column comes from a reading of its device.
use glm5_3_flash_2x_dgx_spar.Prelude.{
  suc, ◌≤◌, ◌≡◌, refl, ap, subst, Bool, true, ◌||◌, Option, List, [], ◌∷◌, ◌++◌, map, any, All,
  length, arith, Bool-cases, inl, inr, append_assoc, append-nil,
}
use glm5_3_flash_2x_dgx_spar.Text.{Text, text_eq}
use glm5_3_flash_2x_dgx_spar.Text.Equality.{text_eq_refl}
use glm5_3_flash_2x_dgx_spar.Power.Samples.{
  Device, Sample, Column, readings, first_reading, add_reading, columns_from, column, of_key,
  pairs_for,
}

length-map {ℓ κ} :
    {A : Type ℓ} {B : Type κ} (g : A → B) (xs : List A) → length (map g xs) ≡ length xs
length-map g [] = refl
length-map g (x ∷ xs) = ap suc (length-map g xs)

any-append {ℓ} :
    {A : Type ℓ} (p : A → Bool) (xs ys : List A) → any p (xs ++ ys) ≡ (any p xs || any p ys)
any-append p [] ys = refl
any-append p (x ∷ xs) ys = ground (arith, any-append p xs ys)

module _ {F : Type 0} where
  -- the device `key` is among the readings
  abbrev has_key : Text → List (F × Device F) → Bool
  has_key key = any (λ r. text_eq r.1.key key)

  abbrev pub Seen : List (F × Device F) → Column F → Type 0
  Seen rs c = has_key c.key rs ≡ true

  Seen-append : (rs more : List (F × Device F)) (c : Column F) → Seen rs c → Seen (rs ++ more) c
  Seen-append rs more c h = ground (arith, h, any-append (λ r. text_eq r.1.key c.key) rs more)

  still_Seen :
      (rs more : List (F × Device F)) (cs : List (Column F))
      → All (Seen rs) cs
      → All (Seen (rs ++ more)) cs
  still_Seen rs more [] h = tt
  still_Seen rs more (c ∷ cs) h = (Seen-append rs more c h.0, still_Seen rs more cs h.1)

  Seen-last :
      (rs : List (F × Device F)) (t : F) (d : Device F) → Seen (rs ++ (t, d) ∷ []) (first_reading d)
  Seen-last rs t d =
      ground (arith, text_eq_refl d.key, any-append (λ r. text_eq r.1.key d.key) rs ((t, d) ∷ []))

  add_reading-Seen :
      (rs : List (F × Device F)) (t : F) (d : Device F) (cs : List (Column F))
      → All (Seen rs) cs
      → All (Seen (rs ++ (t, d) ∷ [])) (add_reading d cs)
  unfolding add_reading
  add_reading-Seen rs t d [] h = (Seen-last rs t d, tt)
  add_reading-Seen rs t d (c ∷ cs) h =
      let more : List (F × Device F) = (t, d) ∷ [] in
      let here : Seen (rs ++ more) c = Seen-append rs more c h.0 in
      elim (Bool-cases (text_eq c.key d.key)) [
        | inl e ↦ rw (e, add_reading) (here, still_Seen rs more cs h.1)
        | inr e ↦ rw (e, add_reading) (here, add_reading-Seen rs t d cs h.1)
      ]

  columns_from-Seen :
      (seen rs : List (F × Device F)) (cs : List (Column F))
      → All (Seen seen) cs
      → All (Seen (seen ++ rs)) (columns_from cs rs)
  unfolding columns_from
  columns_from-Seen seen [] cs h = rw (append-nil seen) h
  columns_from-Seen seen ((t, d) ∷ rs) cs h =
      let later =
        columns_from-Seen (seen ++ (t, d) ∷ []) rs (add_reading d cs)
          (add_reading-Seen seen t d cs h) in
      subst (λ all_seen. All (Seen all_seen) (columns_from (add_reading d cs) rs))
        (append_assoc seen ((t, d) ∷ []) rs) later

  of_key-some :
      (key : Text) (rs : List (F × Device F)) → has_key key rs ≡ true → 1 ≤ length (of_key key rs)
  unfolding of_key
  of_key-some key [] h = absurd (cc h)
  of_key-some key ((t, d) ∷ rs) h = elim (Bool-cases (text_eq d.key key)) [
    | inl e ↦ rw (e, of_key) (omega arith)
    | inr e ↦ rw (e, of_key) (of_key-some key rs (rw e at h))
  ]

  pub column-Seen : (samples : List (Sample F)) → All (Seen (readings samples)) (column samples)
  unfolding column
  column-Seen samples = columns_from-Seen [] (readings samples) [] tt

  -- a device that was seen has points
  pub length-pairs_for :
      (samples : List (Sample F)) (c : Column F)
      → Seen (readings samples) c
      → 1 ≤ length (pairs_for samples c.key).0
  unfolding pairs_for
  length-pairs_for samples c h =
      let rs = of_key c.key (readings samples) in
      omega (
        arith,
        of_key-some c.key (readings samples) h,
        length-map {B = F × Option F} (λ r. (r.0, r.1.w)) rs,
      )
