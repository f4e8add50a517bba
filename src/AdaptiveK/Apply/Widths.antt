-- ===== src/AdaptiveK/Apply/Widths.antt =====
-- The uniform width of a batch, against the choices of its requests.
use glm5_3_flash_2x_dgx_spar.Prelude.{
  ℕ, ◌≤◌, String, ◌≡◌, inl, inr, refl, ap, ◌∙◌, subst, true, false, Option, none, some, List, [],
  ◌∷◌, min, arith, length, All, All-map, ok, traverse-cons, Option-cases, List-cases,
}
use glm5_3_flash_2x_dgx_spar.Number.{Float}
use glm5_3_flash_2x_dgx_spar.AdaptiveK.{
  Policy, Batch, min_of, choose, all_known, known, any_structured, margin_width, pos_width, or_else,
  floor, longest, width,
}
use glm5_3_flash_2x_dgx_spar.AdaptiveK.Choices.{choose-IsWidth, min_of-le}
use glm5_3_flash_2x_dgx_spar.AdaptiveK.Apply.{choice_of, choices}

known-pos :
    {picks : List (Option ℕ)} (y : Option ℕ) (ys : List (Option ℕ))
    → picks ≡ y ∷ ys
    → ((n : ℕ) → y ≡ some n → 1 ≤ n)
    → All (λ v. 1 ≤ v) (known ys)
    → All (λ v. 1 ≤ v) (known picks)
known-pos none ys e h rest = rw e rest
known-pos (some v) ys e h rest = rw e (h v refl, rest)

module _ {F : Type 0} ⦃f : Float F⦄ where
  choose_structured : (p : Policy F) (req_id : String) (k : ℕ) → choose p req_id k true ≡ ok none
  unfolding choose
  choose_structured p req_id k = ground arith

  -- a structured request has no choice, so not all are known
  pub choices_structured :
      (p : Policy F) (reqs : Batch) {picks : List (Option ℕ)}
      → any_structured reqs ≡ true
      → choices p reqs ≡ ok picks
      → all_known picks ≡ none
  unfolding choices
  choices_structured p [] h c = cc
  choices_structured p ((r, true) ∷ reqs) h c =
      let (y, (ys, first, later, e)) = traverse-cons (choice_of p) (r, true) reqs c in
      ground (arith, choose_structured p r.request_id (length r.spec_token_ids))
  choices_structured p ((r, false) ∷ reqs) h c =
      let (y, (ys, first, later, e)) = traverse-cons (choice_of p) (r, false) reqs c in
      ground (arith, choices_structured p reqs h later)

  -- Each known choice lies between 1 and the length of its row.
  pub choices-pos :
      (p : Policy F) (reqs : Batch) {picks : List (Option ℕ)}
      → choices p reqs ≡ ok picks
      → All (λ v. 1 ≤ v) (known picks)
  unfolding choices
  choices-pos p [] {picks} c =
      let e : [] ≡ picks = cc c in subst (λ ps. All (λ v. 1 ≤ v) (known ps)) e tt
  choices-pos p ((r, s) ∷ reqs) c =
      let (y, (ys, first, later, e)) = traverse-cons (choice_of p) (r, s) reqs c in
      known-pos y ys e
        (λ n q.
          (choose-IsWidth p r.request_id (length r.spec_token_ids) s (first ∙ ap ok q)).0.at_least)
        (choices-pos p reqs later)

pub min_of-pos : (x : ℕ) (xs : List ℕ) → 1 ≤ x → All (λ v. 1 ≤ v) xs → 1 ≤ min_of x xs
min_of-pos x [] h hs = h
min_of-pos x (y ∷ ys) h hs = min_of-pos (min x y) ys (omega arith) hs.1

known-all_known :
    (picks : List (Option ℕ)) {l : List ℕ} → all_known picks ≡ some l → known picks ≡ l
known-all_known [] h = cc
known-all_known (none ∷ ps) h = cc
known-all_known (some v ∷ ps) h = elim (Option-cases (all_known ps)) [
  | inl e ↦ absurd (cc (rw e at h))
  | inr (l, e) ↦ let tail = known-all_known ps e in cc (rw e at h)
]

floor-pos : (k_set : List ℕ) (n : ℕ) → All (λ v. 1 ≤ v) k_set → 1 ≤ n → 1 ≤ floor k_set n
floor-pos [] n h pos = pos
floor-pos (x ∷ xs) n h pos = min_of-pos x xs h.0 h.1

All-le : (a b : ℕ) (xs : List ℕ) → a ≤ b → All (λ v. b ≤ v) xs → All (λ v. a ≤ v) xs
All-le a b xs h = All-map (λ v. b ≤ v) (λ v. a ≤ v) xs (λ x p. omega arith)

module _ {F : Type 0} (p : Policy F) (reqs : Batch) where
  width_known :
      (picks : List (Option ℕ)) (v : ℕ) (vs : List ℕ)
      → all_known picks ≡ some (v ∷ vs)
      → width p reqs picks ≡ or_else (pos_width p reqs picks (min_of v vs)) (min_of v vs)
  unfolding width
  width_known picks v vs e = rw (e, width)

  width_unknown :
      (picks : List (Option ℕ))
      → all_known picks ≡ none
      → width p reqs picks ≡ or_else (margin_width p reqs picks) (longest reqs)
  unfolding width
  width_unknown picks e = rw (e, width)

  width_empty :
      (picks : List (Option ℕ))
      → all_known picks ≡ some []
      → width p reqs picks ≡ or_else (margin_width p reqs picks) (longest reqs)
  unfolding width
  width_empty picks e = rw (e, width)

  -- a structured request without a choice keeps the batch at its longest row
  pub width_structured :
      (picks : List (Option ℕ))
      → any_structured reqs ≡ true
      → all_known picks ≡ none
      → width p reqs picks ≡ longest reqs
  unfolding margin_width or_else
  width_structured picks s e =
      width_unknown picks e ∙ ap (λ o. or_else o (longest reqs)) (stays picks)
    where
      stays : (qs : List (Option ℕ)) → margin_width p reqs qs ≡ none
      stays qs = rw (s, margin_width) (ground arith)

  pos_width-le : (picks : List (Option ℕ)) (n : ℕ) → or_else (pos_width p reqs picks n) n ≤ n
  unfolding pos_width or_else
  pos_width-le picks n = ground arith

  pos_width-pos :
      (picks : List (Option ℕ)) (n : ℕ)
      → All (λ v. 1 ≤ v) p.k_set
      → 1 ≤ n
      → 1 ≤ or_else (pos_width p reqs picks n) n
  unfolding pos_width or_else
  pos_width-pos picks n h pos = ground (arith, floor-pos p.k_set n)

  margin_width-pos :
      (picks : List (Option ℕ)) (n : ℕ)
      → All (λ v. 1 ≤ v) (known picks)
      → 1 ≤ n
      → 1 ≤ or_else (margin_width p reqs picks) n
  unfolding margin_width or_else
  margin_width-pos picks n h pos = elim (List-cases (known picks)) [
    | inl e ↦ rw (e, margin_width) (ground arith)
    | inr (v, (vs, e)) ↦
        let both = subst (All (λ v. 1 ≤ v)) e h in
        rw (e, margin_width) (ground (arith, min_of-pos v vs both.0 both.1))
  ]

  -- where all choices are known, no row is wider than any of them
  pub width-le :
      (picks : List (Option ℕ)) (l : List ℕ)
      → all_known picks ≡ some l
      → All (λ v. width p reqs picks ≤ v) l
  width-le picks [] e = tt
  width-le picks (v ∷ vs) e =
      let n = min_of v vs in
      let (lo, rest) = min_of-le v vs in
      let narrow : width p reqs picks ≤ n = rw (width_known picks v vs e) (pos_width-le picks n) in
      (omega arith, All-le (width p reqs picks) n vs narrow rest)

  -- a batch that has a row to verify keeps at least one token of it
  pub width-pos :
      (picks : List (Option ℕ))
      → All (λ v. 1 ≤ v) p.k_set
      → All (λ v. 1 ≤ v) (known picks)
      → 1 ≤ longest reqs
      → 1 ≤ width p reqs picks
  width-pos picks ks h pos = elim (Option-cases (all_known picks)) [
    | inl e ↦ rw (width_unknown picks e) (margin_width-pos picks (longest reqs) h pos)
    | inr (l, e) ↦ known_case l e
  ]
    where
      known_case : (l : List ℕ) → all_known picks ≡ some l → 1 ≤ width p reqs picks
      known_case [] e = rw (width_empty picks e) (margin_width-pos picks (longest reqs) h pos)
      known_case (v ∷ vs) e =
          let both = subst (All (λ v. 1 ≤ v)) (known-all_known picks e) h in
          rw (width_known picks v vs e)
            (pos_width-pos picks (min_of v vs) ks (min_of-pos v vs both.0 both.1))
