-- ===== src/Text/Regex/Words.antt =====
-- A search for one of some words, in either case, finds what a plain scan of the text finds.
use glm5_3_flash_2x_dgx_spar.Prelude.{
  ℕ, ◌≡◌, refl, Bool, true, false, ◌&&◌, ◌||◌, Option, none, some, is_some, List, [], ◌∷◌, map, any,
  ◌==◌, arith, Bool-cases, Option-cases, inl, inr,
}
use glm5_3_flash_2x_dgx_spar.Text.{Text, lower}
use glm5_3_flash_2x_dgx_spar.Text.Regex.{
  Cursor, match_at, match_one, search_from, search_text, literal_i, one_of,
}

-- the text starts with the word, in either case
abbrev pub starts_i : Text → Text → Bool
starts_i [] s = true
starts_i (c ∷ w) [] = false
starts_i (c ∷ w) (x ∷ s) = (lower x == lower c) && starts_i w s

-- one of the words stands somewhere in the text, in either case
abbrev pub has_word : List Text → Text → Bool
has_word words [] = any (λ w. starts_i w []) words
has_word words (x ∷ s) = any (λ w. starts_i w (x ∷ s)) words || has_word words s

abbrev cursor : Option ℕ → Text → List (ℕ × Text) → Cursor
cursor b s g = record { before = b; ahead = s; groups = g }

literal_i-starts :
    (w s : Text) (b : Option ℕ) (g : List (ℕ × Text))
    → is_some (match_at (literal_i w) (cursor b s g) some) ≡ starts_i w s
unfolding match_at match_one
literal_i-starts [] s b g = refl
literal_i-starts (c ∷ w) [] b g = refl
literal_i-starts (c ∷ w) (x ∷ s) b g = elim (Bool-cases (lower x == lower c)) [
  | inl e ↦ rw (match_one, e) (literal_i-starts w s (some x) g)
  | inr e ↦ rw (match_one, e) refl
]

one_of-starts :
    (v : Text) (ws : List Text) (s : Text) (b : Option ℕ)
    → is_some (match_at (one_of (literal_i v) (map (λ w. literal_i w) ws)) (cursor b s []) some)
      ≡ any (λ w. starts_i w s) (v ∷ ws)
unfolding match_at
one_of-starts v [] s b = ground (arith, literal_i-starts v s b [])
one_of-starts v (w ∷ ws) s b =
    let first = literal_i-starts v s b [] in
    elim (Option-cases (match_at (literal_i v) (cursor b s []) some)) [
      | inl e ↦ rw (match_at, e) (ground (arith, one_of-starts w ws s b, rw e at first))
      | inr (d, e) ↦ rw (match_at, e) (ground (arith, rw e at first))
    ]

search_from-has_word :
    (v : Text) (ws : List Text) (s : Text) (b : Option ℕ)
    → is_some (search_from (one_of (literal_i v) (map (λ w. literal_i w) ws)) b s)
      ≡ has_word (v ∷ ws) s
unfolding search_from
search_from-has_word v ws [] b = one_of-starts v ws [] b
search_from-has_word v ws (x ∷ s) b =
    let here = one_of-starts v ws (x ∷ s) b in
    elim (Option-cases
      (match_at (one_of (literal_i v) (map (λ w. literal_i w) ws)) (cursor b (x ∷ s) []) some)) [
        | inl e ↦
            rw (search_from, e) (ground (arith, search_from-has_word v ws s (some x), rw e at here))
        | inr (d, e) ↦ rw (search_from, e) (ground (arith, rw e at here))
      ]

pub search_text-has_word :
    (v : Text) (ws : List Text) (s : Text)
    → is_some (search_text (one_of (literal_i v) (map (λ w. literal_i w) ws)) s)
      ≡ has_word (v ∷ ws) s
unfolding search_text
search_text-has_word v ws s = search_from-has_word v ws s none
