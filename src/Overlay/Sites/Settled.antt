-- ===== src/Overlay/Sites/Settled.antt =====
-- That a run of a patch leaves a file that a second run leaves alone.
use glm5_3_flash_2x_dgx_spar.Prelude.{
  ◌≤◌, ◌≡◌, ◌⊎◌, refl, sym, Bool, true, false, not, ◌||◌, List, [], ◌∷◌, length, ltb, ◌==◌, arith,
  Bool-cases, inl, inr, Result, ok, err, ok_chain, past_guard,
}
use glm5_3_flash_2x_dgx_spar.Text.{Text, text_eq}
use glm5_3_flash_2x_dgx_spar.Text.Equality.{text_eq_refl, eq-text_eq}
use glm5_3_flash_2x_dgx_spar.Overlay.Edits.{count}
use glm5_3_flash_2x_dgx_spar.Overlay.Sites.{
  Site, Action, already_present, PrepareError, is_verified, verified_state, marks_of, apply_sites,
  verify_applied, prepare, Target, absent, unreadable, holding, Ending, done, missing, unread,
  refused, no_python, disk_error, Ran, Disk, write_file, settle, settle_prepared, main,
}

marks_of-verified :
    (sites : List Site) (text : Text)
    → verified_state sites text ≡ true
    → marks_of sites text ≡ length sites
unfolding marks_of is_verified
marks_of-verified [] text h = refl
marks_of-verified (s ∷ sites) text h =
    let one : count s.mark text ≡ 1 = ground (arith, h) in
    let rest : verified_state sites text ≡ true = ground (arith, h) in
    omega (arith, one, marks_of-verified sites text rest)

-- a text that is verified is present
prepare-verified :
    (sites : List Site) (text : Text)
    → 1 ≤ length sites
    → verified_state sites text ≡ true
    → prepare sites text ≡ ok (text, already_present)
unfolding prepare
prepare-verified sites text some_site h =
    let marks = marks_of-verified sites text h in
    let positive : ltb 0 (marks_of sites text) ≡ true = ground (arith, marks, some_site) in
    let same : (marks_of sites text == length sites) ≡ true = ground (arith, marks) in
    rw (positive, same, h) refl

verified_state-verify_applied :
    (sites : List Site) (text out : Text) (action : Action)
    → verify_applied sites text ≡ ok (out, action)
    → verified_state sites out ≡ true
unfolding verify_applied
verified_state-verify_applied sites text out action h =
    elim (Bool-cases (verified_state sites text)) [
      | inl g ↦ let same : text ≡ out = cc (rw g at h) in rw (sym same) g
      | inr g ↦ absurd (cc (rw g at h))
    ]

-- what is prepared is verified
verified_state-prepare :
    (sites : List Site) (text out : Text) (action : Action)
    → prepare sites text ≡ ok (out, action)
    → verified_state sites out ≡ true
unfolding prepare
verified_state-prepare sites text out action h = elim (Bool-cases (ltb 0 (marks_of sites text))) [
  | inl e ↦
      let (whole, kept) =
        past_guard (not (marks_of sites text == length sites) || not (verified_state sites text)) _
          (rw e at h) in
      let same : text ≡ out = cc kept in rw (sym same) (ground (arith, whole))
  | inr e ↦
      let (_, (_, rest)) = ok_chain (apply_sites sites text) _ (rw e at h) in
      verified_state-verify_applied sites _ out action rest
]

module _ (parses : Text → Bool) (sites : List Site) (later : Disk) where
  abbrev pub IsUntouched : Target → Ran → Type 0
  IsUntouched file r = (r.file ≡ file) × (r.wrote ≡ false)

  -- the next run, whatever the disk does then, finds all present and writes nothing
  abbrev pub IsPresent : Ran → Type 0
  IsPresent r =
      main parses later false sites r.file
      ≡ record { ending = done already_present; file = r.file; wrote = false }

  -- what a run with the given ending leaves
  abbrev pub IsSettled : Bool → Target → Ran → Ending → Type 0
  IsSettled true file r ending = IsUntouched file r
  IsSettled false file r (done action) = IsPresent r
  IsSettled false file r disk_error = IsUntouched file r ⊎ (IsPresent r × (r.wrote ≡ true))
  IsSettled false file r missing = IsUntouched file r
  IsSettled false file r unread = IsUntouched file r
  IsSettled false file r (refused e) = IsUntouched file r
  IsSettled false file r no_python = IsUntouched file r

  main-present :
      (text : Text)
      → 1 ≤ length sites
      → verified_state sites text ≡ true
      → parses text ≡ true
      → main parses later false sites (holding text)
        ≡ record { ending = done already_present; file = holding text; wrote = false }
  unfolding main settle_prepared settle
  main-present text some_site verified python =
      rw (prepare-verified sites text some_site verified, python, text_eq_refl text) refl

  write_file-IsSettled :
      (replaces returns : Bool) (source out : Text) (action : Action)
      → main parses later false sites (holding out)
        ≡ record { ending = done already_present; file = holding out; wrote = false }
      → let r = write_file (record { replaces = replaces; returns = returns }) action source out in
        IsSettled false (holding source) r r.ending
  write_file-IsSettled false returns source out action h = inl (refl, refl)
  write_file-IsSettled true false source out action h = inr (h, refl)
  write_file-IsSettled true true source out action h = h

  module _ (disk : Disk) where
    settle-IsSettled :
        (preflight_only : Bool) (source out : Text) (action : Action)
        → 1 ≤ length sites
        → verified_state sites out ≡ true
        → let r = settle parses disk preflight_only source (out, action) in
          IsSettled preflight_only (holding source) r r.ending
    unfolding settle
    settle-IsSettled true source out action some_site verified = elim (Bool-cases (parses out)) [
      | inl e ↦ rw e (refl, refl)
      | inr e ↦ rw e (refl, refl)
    ]
    settle-IsSettled false source out action some_site verified = elim (Bool-cases (parses out)) [
      | inr e ↦ rw e (refl, refl)
      | inl e ↦ elim (Bool-cases (text_eq out source)) [
        | inr g ↦
            rw (e, g)
              (write_file-IsSettled disk.replaces disk.returns source out action
                (main-present out some_site verified e))
        | inl g ↦
            let same : out ≡ source = eq-text_eq out source g in
            rw (e, g) (main-present source some_site (rw (sym same) verified) (rw (sym same) e))
      ]
    ]

    settle_prepared-IsSettled :
        (preflight_only : Bool) (source : Text) (p : Result PrepareError (Text × Action))
        → 1 ≤ length sites
        → prepare sites source ≡ p
        → let r = settle_prepared parses disk preflight_only source p in
          IsSettled preflight_only (holding source) r r.ending
    unfolding settle_prepared
    settle_prepared-IsSettled preflight_only source (ok (out, action)) some_site h =
        settle-IsSettled preflight_only source out action some_site
          (verified_state-prepare sites source out action h)
    settle_prepared-IsSettled true source (err e) some_site h = (refl, refl)
    settle_prepared-IsSettled false source (err e) some_site h = (refl, refl)

    -- A preflight, and a run that ends by an exception other than a disk error, leave the file as it
    -- was. After a run that is done, the next run, whatever the disk does then, finds every site
    -- present and writes nothing. A disk error leaves the file as it was, or in that state.
    pub main-IsSettled :
        (preflight_only : Bool) (file : Target)
        → 1 ≤ length sites
        → let r = main parses disk preflight_only sites file in
          IsSettled preflight_only file r r.ending
    unfolding main
    main-IsSettled true absent some_site = (refl, refl)
    main-IsSettled false absent some_site = (refl, refl)
    main-IsSettled true unreadable some_site = (refl, refl)
    main-IsSettled false unreadable some_site = (refl, refl)
    main-IsSettled preflight_only (holding source) some_site =
        settle_prepared-IsSettled preflight_only source (prepare sites source) some_site refl
