-- ===== src/Text.antt =====
-- Python texts as lists of code points, and the string methods that the programs call.
-- `\d`, `\w` and the letter cases are those of ASCII.
pub mod Regex
pub mod Lines
pub mod Equality
pub mod Integers
use Prim.Native.Char.{code}
use Prim.Native.String.{String}
use glm5_3_flash_2x_dgx_spar.Prelude.{
  ℕ, zero, suc, ◌+◌, ◌-◌, Bool, true, false, ◌&&◌, ◌||◌, List, [], ◌∷◌, ◌++◌, leb, ◌==◌,
  if◌then◌else◌, take, drop, length, any,
}

abbrev pub Text : Type 0
Text = List ℕ

abbrev pub codes : String → Text
codes String.[] = []
codes (String.◌∷◌ ch rest) = code ch ∷ codes rest

abbrev pub is_digit : ℕ → Bool
is_digit c = leb b'0' c && leb c b'9'

abbrev pub is_upper : ℕ → Bool
is_upper c = leb b'A' c && leb c b'Z'

abbrev pub is_lower : ℕ → Bool
is_lower c = leb b'a' c && leb c b'z'

abbrev pub is_letter : ℕ → Bool
is_letter c = is_upper c || is_lower c

-- `\w`
abbrev pub is_word : ℕ → Bool
is_word c = is_letter c || is_digit c || c == b'_'

-- `str.isspace` of one character, and `\s`
abbrev pub is_space : ℕ → Bool
is_space c =
    leb 9 c && leb c 13
    || leb 28 c && leb c 32
    || c == 0x85
    || c == 0xa0
    || c == 0x1680
    || leb 0x2000 c && leb c 0x200a
    || any (λ s. c == s) (0x2028 ∷ 0x2029 ∷ 0x202f ∷ 0x205f ∷ 0x3000 ∷ [])

abbrev pub lower : ℕ → ℕ
lower c = if is_upper c then c + 32 else c

-- `str.lstrip()`, of the characters that pass the test
abbrev pub lstrip : (ℕ → Bool) → Text → Text
lstrip p [] = []
lstrip p (c ∷ cs) = elim (p c) [ true ↦ lstrip p cs | false ↦ c ∷ cs ]

-- whether every character passes
abbrev pub rstrip : (ℕ → Bool) → Text → Text
rstrip p [] = []
rstrip p (c ∷ cs) = elim (rstrip p cs) [
  | [] ↦ elim (p c) [ true ↦ [] | false ↦ c ∷ [] ]
  | d ∷ ds ↦ c ∷ d ∷ ds
]

-- `str.strip()`
unfoldable pub strip : Text → Text
strip s = rstrip is_space (lstrip is_space s)

-- where `str.splitlines` ends a line, `\r\n` aside
abbrev pub is_line_end : ℕ → Bool
is_line_end c =
    leb 10 c && leb c 13 || leb 28 c && leb c 30 || c == 0x85 || c == 0x2028 || c == 0x2029

-- the lines that are left, of which `line` is the start of the first
pub split_from : (ℕ → Bool) → Text → Text → List Text
split_from p [] [] = []
split_from p (c ∷ cs) [] = (c ∷ cs) ∷ []
split_from p line (c ∷ cs) = elim (p c) [
  | true ↦ line ∷ split_from p [] cs
  | false ↦ split_from p (line ++ c ∷ []) cs
]

-- `\r\n` is one line end
join_crlf : Text → Text
join_crlf [] = []
join_crlf (c ∷ []) = c ∷ []
join_crlf (c ∷ d ∷ cs) =
    let rest = join_crlf (d ∷ cs) in if c == 13 && d == 10 then rest else c ∷ rest

-- `str.splitlines()`
unfoldable pub split_lines : Text → List Text
unfolding split_from join_crlf
split_lines s = split_from is_line_end [] (join_crlf s)

abbrev pub is_byte_line_end : ℕ → Bool
is_byte_line_end c = c == 10 || c == 13

-- `bytes.splitlines()`
unfoldable pub split_bytes : List ℕ → List (List ℕ)
unfolding split_from join_crlf
split_bytes s = split_from is_byte_line_end [] (join_crlf s)

abbrev pub text_eq : Text → Text → Bool
text_eq [] [] = true
text_eq (a ∷ s) (b ∷ t) = a == b && text_eq s t
text_eq [] (b ∷ t) = false
text_eq (a ∷ s) [] = false

-- `s.startswith(p)`
abbrev pub starts_with : Text → Text → Bool
starts_with s [] = true
starts_with [] (p ∷ ps) = false
starts_with (c ∷ s) (p ∷ ps) = c == p && starts_with s ps

-- `s.endswith(p)`
abbrev pub ends_with : Text → Text → Bool
ends_with s p = leb (length p) (length s) && text_eq (drop (length s - length p) s) p
