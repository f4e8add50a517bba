-- ===== src/Overlay/Edits.antt =====
-- How the patches rewrite a text: `str.count`, `str.replace` once, and `in`.
use glm5_3_flash_2x_dgx_spar.Prelude.{
  ℕ, zero, suc, ◌-◌, Bool, [], ◌∷◌, ◌++◌, length, drop, ltb, if◌then◌else◌,
}
use glm5_3_flash_2x_dgx_spar.Text.{Text, starts_with}

-- the occurrences that do not overlap, where `skip` more characters belong to the last one
count_from : ℕ → Text → Text → ℕ
count_from skip needle [] = 0
count_from (suc skip) needle (c ∷ cs) = count_from skip needle cs
count_from zero needle (c ∷ cs) =
    let after = count_from (length needle - 1) needle cs in
    let later = count_from 0 needle cs in if starts_with (c ∷ cs) needle then suc after else later

-- `text.count(needle)`
unfoldable pub count : Text → Text → ℕ
unfolding count_from
count [] text = suc (length text)
count (n ∷ ns) text = count_from 0 (n ∷ ns) text

-- `needle in text`
abbrev pub contains : Text → Text → Bool
contains needle text = ltb 0 (count needle text)

-- `text.replace(old, new, 1)`
unfoldable pub replace_first : Text → Text → Text → Text
replace_first old new [] = if starts_with [] old then new else []
replace_first old new (c ∷ cs) =
    let later = replace_first old new cs in
    if starts_with (c ∷ cs) old then new ++ drop (length old) (c ∷ cs) else c ∷ later
