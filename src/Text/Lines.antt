-- ===== src/Text/Lines.antt =====
-- The lines of bytes that are put together at a line end.
use glm5_3_flash_2x_dgx_spar.Prelude.{
  ℕ, ◌≡◌, refl, ap, Bool, true, ◌&&◌, ◌==◌, List, [], ◌∷◌, ◌++◌, Bool-cases, inl, inr,
  if◌then◌else◌,
}
use glm5_3_flash_2x_dgx_spar.Text.{Text, split_from, join_crlf, split_bytes, is_byte_line_end}

split_from-append :
    (p : ℕ → Bool) (line a b : Text)
    → p 10 ≡ true
    → split_from p line (a ++ 10 ∷ b) ≡ split_from p line (a ++ 10 ∷ []) ++ split_from p [] b
unfolding split_from
split_from-append p [] [] b h = rw h
split_from-append p (c ∷ cs) [] b h = rw h
split_from-append p line (d ∷ ds) b h = elim (Bool-cases (p d)) [
  | inl e ↦ rw (e, split_from, split_from-append p [] ds b h)
  | inr e ↦ rw (e, split_from, split_from-append p (line ++ d ∷ []) ds b h)
]

-- what stands before a line end, after `join_crlf`
before_end : Text → Text
before_end [] = []
before_end (c ∷ []) = if c == 13 then [] else c ∷ []
before_end (c ∷ d ∷ a) =
    let rest = before_end (d ∷ a) in if c == 13 && d == 10 then rest else c ∷ rest

join_crlf-before_end : (a b : Text) → join_crlf (a ++ 10 ∷ b) ≡ before_end a ++ 10 ∷ join_crlf b
unfolding join_crlf before_end
join_crlf-before_end [] [] = refl
join_crlf-before_end [] (d ∷ b) = refl
join_crlf-before_end (c ∷ []) b = elim (Bool-cases (c == 13)) [
  | inl e ↦ rw e (join_crlf-before_end [] b)
  | inr e ↦ rw e (ap (λ t. c ∷ t) (join_crlf-before_end [] b))
]
join_crlf-before_end (c ∷ d ∷ a) b = elim (Bool-cases (c == 13 && d == 10)) [
  | inl e ↦ rw e (join_crlf-before_end (d ∷ a) b)
  | inr e ↦ rw e (ap (λ t. c ∷ t) (join_crlf-before_end (d ∷ a) b))
]

pub split_bytes-append :
    (a b : List ℕ) → split_bytes (a ++ 10 ∷ b) ≡ split_bytes (a ++ 10 ∷ []) ++ split_bytes b
unfolding split_bytes join_crlf
split_bytes-append a b =
    rw (join_crlf-before_end a b, join_crlf-before_end a [])
      (split_from-append is_byte_line_end [] (before_end a) (join_crlf b) refl)
