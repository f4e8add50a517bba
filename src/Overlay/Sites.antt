-- ===== src/Overlay/Sites.antt =====
-- vllm-exl3/overlay/patch_indexer_workspace.py: `verified_state`, `prepare` and `main`, for any list of
-- `SITES`. The file is its text, and whether Python parses a text is a parameter.
pub mod Settled
use glm5_3_flash_2x_dgx_spar.Prelude.{
  ℕ, ◌+◌, Bool, true, false, not, ◌&&◌, ◌||◌, List, [], ◌∷◌, all, length, ltb, ◌==◌, if◌then◌else◌,
  Result, ok, err, ◌>>=◌,
}
use glm5_3_flash_2x_dgx_spar.Text.{Text, text_eq}
use glm5_3_flash_2x_dgx_spar.Overlay.Edits.{count, replace_first}

pub record Site : Type 0 where
  pub name : Text
  pub mark : Text
  pub anchor : Text
  pub patched : Text

pub data Action : Type 0 where
  already_present applied : Action

-- the `ValueError`s
pub data PrepareError : Type 0 where
  partial_patch : ℕ → PrepareError
  drifted : Text → ℕ → PrepareError
  unverified : PrepareError

unfoldable pub is_verified : Text → Site → Bool
is_verified text s =
    count s.mark text == 1
    && count s.patched text == 1
    && count s.anchor text == count s.anchor s.patched

abbrev verified_state : List Site → Text → Bool
verified_state sites text = all (λ s. is_verified text s) sites

marks_of : List Site → Text → ℕ
marks_of [] source = 0
marks_of (s ∷ sites) source = count s.mark source + marks_of sites source

-- each anchor in its turn, as long as there is exactly one
apply_sites : List Site → Text → Result PrepareError Text
apply_sites [] out = ok out
apply_sites (s ∷ sites) out =
    let rest = apply_sites sites (replace_first s.anchor s.patched out) in
    if count s.anchor out == 1 then rest else err (drifted s.name (count s.anchor out))

verify_applied : List Site → Text → Result PrepareError (Text × Action)
verify_applied sites out = if verified_state sites out then ok (out, applied) else err unverified

unfoldable pub prepare : List Site → Text → Result PrepareError (Text × Action)
unfolding marks_of apply_sites verify_applied
prepare sites source =
    let marks = marks_of sites source in
    if ltb 0 marks
    then if not (marks == length sites) || not (verified_state sites source)
      then err (partial_patch marks)
      else ok (source, already_present)
    else apply_sites sites source >>= λ out. verify_applied sites out

-- the file of the patch, as `main` finds it
pub data Target : Type 0 where
  absent unreadable : Target
  holding : Text → Target

-- how `main` ends: all but the first by an exception, `SystemExit`, that of `read_text`, the `SyntaxError` of
-- `compile`, that of `replace_file` or `clear_pyc`
pub data Ending : Type 0 where
  done : Action → Ending
  missing : Ending
  unread : Ending
  refused : PrepareError → Ending
  no_python : Ending
  disk_error : Ending

pub record Ran : Type 0 where
  pub ending : Ending
  pub file : Target
  pub wrote : Bool

-- what the disk does: whether `os.replace` is reached and done, which puts the new text into the file at
-- once, and whether `replace_file` and `clear_pyc` return then
pub record Disk : Type 0 where
  pub replaces : Bool
  pub returns : Bool

abbrev pub write_file : Disk → Action → Text → Text → Ran
write_file disk action source patched =
    if not disk.replaces
    then record { ending = disk_error; file = holding source; wrote = false }
    else if not disk.returns
    then record { ending = disk_error; file = holding patched; wrote = true }
    else record { ending = done action; file = holding patched; wrote = true }

module _ (parses : Text → Bool) (disk : Disk) where
  -- a text that is ready, for the file that has `source`
  settle : Bool → Text → Text × Action → Ran
  settle preflight_only source (patched, action) =
      if not (parses patched)
      then record { ending = no_python; file = holding source; wrote = false }
      else if preflight_only || text_eq patched source
      then record { ending = done action; file = holding source; wrote = false }
      else write_file disk action source patched

  settle_prepared : Bool → Text → Result PrepareError (Text × Action) → Ran
  unfolding settle
  settle_prepared preflight_only source (ok p) = settle preflight_only source p
  settle_prepared preflight_only source (err e) = record {
    ending = refused e;
    file = holding source;
    wrote = false;
  }

  unfoldable pub main : Bool → List Site → Target → Ran
  unfolding settle_prepared
  main preflight_only sites absent = record { ending = missing; file = absent; wrote = false }
  main preflight_only sites unreadable = record {
    ending = unread;
    file = unreadable;
    wrote = false;
  }
  main preflight_only sites (holding source) =
      settle_prepared preflight_only source (prepare sites source)
