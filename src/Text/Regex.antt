-- ===== src/Text/Regex.antt =====
-- The regular expressions of Python's `re` that the programs use: a backtracking matcher that takes
-- the alternatives in the same order, so that groups hold the same texts.
pub mod Words
use glm5_3_flash_2x_dgx_spar.Prelude.{
  ℕ, zero, suc, ◌-◌, Bool, true, false, not, ◌&&◌, ◌||◌, Option, none, some, List, [], ◌∷◌, ltb,
  ◌==◌, if◌then◌else◌, take, length,
}
use glm5_3_flash_2x_dgx_spar.Text.{Text, is_word, lower, is_digit}

pub data Regex : Type 0 where
  empty boundary at_end : Regex
  char : (ℕ → Bool) → Regex
  seq alt : Regex → Regex → Regex
  -- `r*`
  star : Regex → Regex
  -- `r{0,n}?`
  lazy : ℕ → Regex → Regex
  -- `(r)`, by its number
  group : ℕ → Regex → Regex

-- where the matcher stands: the character before, the text ahead, the groups so far, newest first
pub record Cursor : Type 0 where
  pub before : Option ℕ
  pub ahead : Text
  pub groups : List (ℕ × Text)

abbrev Then : Type 0
Then = Cursor → Option Cursor

word_before : Option ℕ → Bool
word_before none = false
word_before (some c) = is_word c

word_ahead : Text → Bool
word_ahead [] = false
word_ahead (c ∷ cs) = is_word c

is_boundary : Cursor → Bool
unfolding word_before word_ahead
is_boundary c =
    word_before c.before && not (word_ahead c.ahead)
    || not (word_before c.before) && word_ahead c.ahead

-- `$`: at the end, or before a last newline
is_end : Text → Bool
is_end [] = true
is_end (c ∷ []) = c == 10
is_end (c ∷ d ∷ cs) = false

-- `r*`, a round at a time; a round that consumes nothing ends the loop
star_loop : (Cursor → Then → Option Cursor) → ℕ → Cursor → Then → Option Cursor
star_loop m zero c k = k c
star_loop m (suc n) c k =
    elim (m c (λ d. elim (ltb (length d.ahead) (length c.ahead)) [
      | true ↦ star_loop m n d k
      | false ↦ none
    ])) [ some d ↦ some d | none ↦ k c ]

lazy_loop : (Cursor → Then → Option Cursor) → ℕ → Cursor → Then → Option Cursor
lazy_loop m zero c k = k c
lazy_loop m (suc n) c k = elim (k c) [ some d ↦ some d | none ↦ m c (λ d. lazy_loop m n d k) ]

match_one : (ℕ → Bool) → Text → Cursor → Then → Option Cursor
match_one p [] c k = none
match_one p (x ∷ xs) c k = elim (p x) [
  | true ↦ k (record c { before = some x; ahead = xs })
  | false ↦ none
]

match_at : Regex → Cursor → Then → Option Cursor
match_at empty c k = k c
match_at boundary c k = elim (is_boundary c) [ true ↦ k c | false ↦ none ]
match_at at_end c k = elim (is_end c.ahead) [ true ↦ k c | false ↦ none ]
match_at (char p) c k = match_one p c.ahead c k
match_at (seq r q) c k = match_at r c (λ d. match_at q d k)
match_at (alt r q) c k = elim (match_at r c k) [ some d ↦ some d | none ↦ match_at q c k ]
match_at (star r) c k = star_loop (match_at r) (length c.ahead) c k
match_at (lazy n r) c k = lazy_loop (match_at r) n c k
match_at (group g r) c k =
    match_at r c (λ d.
      k (record d { groups = (g, take (length c.ahead - length d.ahead) c.ahead) ∷ d.groups }))

-- `pattern.match(s)`
unfoldable pub match_start : Regex → Text → Option Cursor
unfolding match_at match_one star_loop lazy_loop is_boundary is_end
match_start r s = match_at r (record { before = none; ahead = s; groups = [] }) some

search_from : Regex → Option ℕ → Text → Option Cursor
search_from r b [] = match_at r (record { before = b; ahead = []; groups = [] }) some
search_from r b (x ∷ xs) =
    elim (match_at r (record { before = b; ahead = x ∷ xs; groups = [] }) some) [
      | some d ↦ some d
      | none ↦ search_from r (some x) xs
    ]

-- `pattern.search(s)`
unfoldable pub search_text : Regex → Text → Option Cursor
unfolding match_at match_one star_loop lazy_loop is_boundary is_end search_from
search_text r s = search_from r none s

-- the text of a group, if it took part
unfoldable pub group_of : ℕ → List (ℕ × Text) → Option Text
group_of g [] = none
group_of g ((i, s) ∷ gs) = if i == g then some s else group_of g gs

abbrev pub literal : Text → Regex
literal [] = empty
literal (c ∷ cs) = seq (char (λ x. x == c)) (literal cs)

-- under `re.I`
abbrev pub literal_i : Text → Regex
literal_i [] = empty
literal_i (c ∷ cs) = seq (char (λ x. lower x == lower c)) (literal_i cs)

abbrev pub plus : Regex → Regex
plus r = seq r (star r)

abbrev pub opt : Regex → Regex
opt r = alt r empty

-- `\d+`
abbrev pub digits : Regex
digits = plus (char is_digit)

abbrev pub then_all : List Regex → Regex
then_all [] = empty
then_all (r ∷ rs) = seq r (then_all rs)

abbrev pub one_of : Regex → List Regex → Regex
one_of r [] = r
one_of r (q ∷ qs) = alt r (one_of q qs)
