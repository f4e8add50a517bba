-- ===== src/Text/Integers.antt =====
-- `int(s)` of a text: a sign and ASCII digits, within white space.
use glm5_3_flash_2x_dgx_spar.Prelude.{
  ℕ, ◌+◌, ◌-◌, ◌*◌, Option, none, some, [], ◌∷◌, all, ◌==◌, if◌then◌else◌,
}
use glm5_3_flash_2x_dgx_spar.Number.Int.{ℤ, pos, sub_ℕ}
use glm5_3_flash_2x_dgx_spar.Text.{Text, is_digit, strip}

digits_value : ℕ → Text → ℕ
digits_value acc [] = acc
digits_value acc (c ∷ cs) = digits_value (acc * 10 + (c - 48)) cs

digits : Text → Option ℕ
unfolding digits_value
digits [] = none
digits (c ∷ cs) = if all is_digit (c ∷ cs) then some (digits_value 0 (c ∷ cs)) else none

-- by the sign
signed : Text → Option ℤ
unfolding digits
signed [] = none
signed (c ∷ cs) =
    if c == 45
    then elim (digits cs) [ none ↦ none | some n ↦ some (sub_ℕ 0 n) ]
    else elim (digits (if c == 43 then cs else c ∷ cs)) [ none ↦ none | some n ↦ some (pos n) ]

unfoldable pub parse_int : Text → Option ℤ
unfolding signed
parse_int s = signed (strip s)
