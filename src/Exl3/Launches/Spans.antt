-- ===== src/Exl3/Launches/Spans.antt =====
-- The rows of each expert in the sorted buffer, whole and in bands, and how they join.
use glm5_3_flash_2x_dgx_spar.Prelude.{
  ℕ, zero, suc, ◌+◌, ◌-◌, ◌≤◌, min, ◌≡◌, refl, ap, ap₂, ◌∙◌, sym, List, [], ◌∷◌, ◌++◌, map,
  append-nil, take, drop, drop-append, length, leb, All, arith, Bool-cases, inl, inr,
}
use glm5_3_flash_2x_dgx_spar.Exl3.Launches.{span, sum_of, tile_counts, tile_rows}

pub length-span : (a n : ℕ) → length (span a n) ≡ n
length-span a zero = refl
length-span a (suc n) = ap suc (length-span (suc a) n)

span_join : (a k b m total : ℕ) → b ≡ a + k → k + m ≡ total → span a k ++ span b m ≡ span a total
span_join a zero b m total h e = ap₂ span (omega (arith, h)) (omega (arith, e))
span_join a (suc k) b m zero h e = absurd (omega (arith, e))
span_join a (suc k) b m (suc total) h e =
    ap (◌∷◌ a) (span_join (suc a) k b m total (omega (arith, h)) (omega (arith, e)))

-- expert by expert
abbrev pub join : List (List ℕ) → List (List ℕ) → List (List ℕ)
join [] ys = []
join (x ∷ xs) [] = []
join (x ∷ xs) (y ∷ ys) = (x ++ y) ∷ join xs ys

-- the rows of each expert, the first of which starts at `start`
abbrev pub slices : ℕ → List ℕ → List (List ℕ)
slices start [] = []
slices start (n ∷ counts) = span start n ∷ slices (start + n) counts

-- of each expert at most `width` rows from its row number `row0` on
abbrev pub bands : ℕ → ℕ → ℕ → List ℕ → List (List ℕ)
bands row0 width start [] = []
bands row0 width start (n ∷ counts) =
    span (start + row0) (min width (n - row0)) ∷ bands row0 width (start + n) counts

abbrev pub no_rows : List ℕ → List (List ℕ)
no_rows counts = map (λ n. []) counts

band_join :
    (s r w v n : ℕ)
    → span (s + r) (min w (n - r)) ++ span (s + (r + w)) (min v (n - (r + w)))
      ≡ span (s + r) (min (w + v) (n - r))
band_join s r w v n = elim (Bool-cases (leb w (n - r))) [
  | inl e ↦
      let full : w ≤ n - r = ground (arith, e) in
      span_join (s + r) (min w (n - r)) _ _ _ (omega (arith, full)) (omega (arith, full))
  | inr e ↦
      let none_left : min v (n - (r + w)) ≡ 0 = ground (arith, e) in
      let same : min w (n - r) ≡ min (w + v) (n - r) = ground (arith, e) in
      rw none_left (append-nil _ ∙ ap (span (s + r)) same)
]

pub join-bands :
    (r w v s : ℕ) (c : List ℕ) → join (bands r w s c) (bands (r + w) v s c) ≡ bands r (w + v) s c
join-bands r w v s [] = refl
join-bands r w v s (n ∷ c) = ap₂ ◌∷◌ (band_join s r w v n) (join-bands r w v (s + n) c)

-- a band in which no expert has a row
pub join_empty :
    (r w s : ℕ) (c : List ℕ) (q v : ℕ)
    → sum_of (tile_counts r w c) ≡ 0
    → join (bands r w s c) (bands q v s c) ≡ bands q v s c
join_empty r w s [] q v h = refl
join_empty r w s (n ∷ c) q v h =
    let none_here : min w (n - r) ≡ 0 = omega (arith, h) in
    ap₂ ◌∷◌ (rw none_here refl) (join_empty r w (s + n) c q v (omega (arith, h)))

pub bands-none : (r w s : ℕ) (c : List ℕ) → w ≡ 0 → bands r w s c ≡ no_rows c
bands-none r w s [] h = refl
bands-none r w s (n ∷ c) h =
    let none_here : min w (n - r) ≡ 0 = omega (arith, h) in
    ap₂ ◌∷◌ (rw none_here refl) (bands-none r w (s + n) c h)

pub bands-slices : (w s : ℕ) (c : List ℕ) → All (λ n. n ≤ w) c → bands 0 w s c ≡ slices s c
bands-slices w s [] h = refl
bands-slices w s (n ∷ c) h =
    ap₂ ◌∷◌ (ap₂ span (omega arith) (omega (arith, h.0))) (bands-slices w (s + n) c h.1)

pub join-no_rows : (s : ℕ) (c : List ℕ) → join (slices s c) (no_rows c) ≡ slices s c
join-no_rows s [] = refl
join-no_rows s (n ∷ c) = ap₂ ◌∷◌ (append-nil (span s n)) (join-no_rows (s + n) c)

-- what a launch takes for the rows of each expert: as many as its count, one expert after another
abbrev pub split : List ℕ → List ℕ → List (List ℕ)
split [] rows = []
split (n ∷ counts) rows = take n rows ∷ split counts (drop n rows)

take-append : (n : ℕ) (xs ys : List ℕ) → length xs ≡ n → take n (xs ++ ys) ≡ xs
take-append zero [] ys h = refl
take-append zero (x ∷ xs) ys h = absurd (omega (arith, h))
take-append (suc n) [] ys h = absurd (omega (arith, h))
take-append (suc n) (x ∷ xs) ys h = ap (◌∷◌ x) (take-append n xs ys (omega (arith, h)))

split_first :
    (a n : ℕ) (c rows : List ℕ) → split (n ∷ c) (span a n ++ rows) ≡ span a n ∷ split c rows
split_first a n c rows =
    ap₂ ◌∷◌ (take-append n (span a n) rows (length-span a n))
      (ap (split c) (drop-append n (span a n) rows (length-span a n)))

pub split-tile :
    (r w s : ℕ) (c : List ℕ) → split (tile_counts r w c) (tile_rows r w s c) ≡ bands r w s c
split-tile r w s [] = refl
split-tile r w s (n ∷ c) =
    split_first (s + r) (min w (n - r)) (tile_counts r w c) (tile_rows r w (s + n) c)
    ∙ ap (◌∷◌ (span (s + r) (min w (n - r)))) (split-tile r w (s + n) c)

pub split-span : (s : ℕ) (c : List ℕ) → split c (span s (sum_of c)) ≡ slices s c
split-span s [] = refl
split-span s (n ∷ c) =
    ap (split (n ∷ c)) (sym (span_join s n (s + n) (sum_of c) _ refl refl))
    ∙ split_first s n c (span (s + n) (sum_of c))
    ∙ ap (◌∷◌ (span s n)) (split-span (s + n) c)
