-- ===== src/Number/Median/Majority.antt =====
-- A median that is at most a bound has half of the values at most that bound.
use glm5_3_flash_2x_dgx_spar.Prelude.{
  ℕ, zero, suc, ◌+◌, ◌-◌, ◌*◌, ◌/◌, ◌%◌, ◌≤◌, ◌≡◌, refl, subst, Bool, true, false, ◌&&◌, some, List,
  [], ◌∷◌, arith, ◌==◌, length, get_elem?, count_if, All, All-map, Bool-cases, Option-cases, inl,
  inr,
}
use glm5_3_flash_2x_dgx_spar.Number.{Float, IsOrdered, ◌+ᶠ◌, ◌/ᶠ◌, ◌≤ᶠ◌, ◌<ᶠ◌}
use glm5_3_flash_2x_dgx_spar.Number.Median.{insert_sorted, sorted, middle, median}

odd_half : (n : ℕ) → ((n % 2) == 1) ≡ true → n ≡ 2 * (n / 2) + 1
odd_half n h = ground arith

even_half : (n : ℕ) → (n == 0) ≡ false → ((n % 2) == 1) ≡ false → (n ≡ 2 * (n / 2)) × (1 ≤ n / 2)
even_half n h g = ground arith

module _ {F : Type 0} ⦃f : Float F⦄ where
  -- finite and positive, as `clean` keeps them
  abbrev pub Usable : F → Type 0
  Usable x = (f.finite x && f.of_ℕ 0 <ᶠ x) ≡ true

  abbrev pub IsPositive : List F → Type 0
  IsPositive = All Usable

  abbrev pub IsFinite : List F → Type 0
  IsFinite = All (λ x. f.finite x ≡ true)

  Usable-finite : (x : F) → Usable x → f.finite x ≡ true
  Usable-finite x h = ground arith

  Usable-positive : (x : F) → Usable x → (f.of_ℕ 0 <ᶠ x) ≡ true
  Usable-positive x h = ground arith

  abbrev pub IsAscending : List F → Type 0
  IsAscending [] = Unit
  IsAscending (x ∷ xs) = All (λ y. (x ≤ᶠ y) ≡ true) xs × IsAscending xs

  count_if-insert_sorted :
      (p : F → Bool) (x : F) (ys : List F) → count_if p (insert_sorted x ys) ≡ count_if p (x ∷ ys)
  unfolding insert_sorted
  count_if-insert_sorted p x [] = refl
  count_if-insert_sorted p x (y ∷ ys) = ground (arith, count_if-insert_sorted p x ys)

  pub count_if-sorted : (p : F → Bool) (xs : List F) → count_if p (sorted xs) ≡ count_if p xs
  unfolding sorted
  count_if-sorted p [] = refl
  count_if-sorted p (x ∷ xs) =
      ground (arith, count_if-insert_sorted p x (sorted xs), count_if-sorted p xs)

  module _ {κ} (P : F → Type κ) where
    All-insert_sorted : (x : F) (ys : List F) → P x → All P ys → All P (insert_sorted x ys)
    unfolding insert_sorted
    All-insert_sorted x [] h hs = (h, tt)
    All-insert_sorted x (y ∷ ys) h hs = elim (Bool-cases (x ≤ᶠ y)) [
      | inl e ↦ rw (e, insert_sorted) (h, hs)
      | inr e ↦ rw (e, insert_sorted) (hs.0, All-insert_sorted x ys h hs.1)
    ]

    pub All-sorted : (xs : List F) → All P xs → All P (sorted xs)
    unfolding sorted
    All-sorted [] h = tt
    All-sorted (x ∷ xs) h = All-insert_sorted x (sorted xs) h.0 (All-sorted xs h.1)

  module _ (laws : IsOrdered f) where
    insert_sorted-IsAscending :
        (x : F) (ys : List F)
        → f.finite x ≡ true
        → IsFinite ys
        → IsAscending ys
        → IsAscending (insert_sorted x ys)
    unfolding insert_sorted
    insert_sorted-IsAscending x [] h hs a = (tt, tt)
    insert_sorted-IsAscending x (y ∷ ys) h hs a = elim (Bool-cases (x ≤ᶠ y)) [
      | inl e ↦ rw (e, insert_sorted) ((e, All-map _ _ ys (λ z q. laws.le_trans x y z e q) a.0), a)
      | inr e ↦
          rw (e, insert_sorted)
            (
              All-insert_sorted (λ z. (y ≤ᶠ z) ≡ true) x ys (laws.le_total x y h hs.0 e) a.0,
              insert_sorted-IsAscending x ys h hs.1 a.1,
            )
    ]

    pub sorted-IsAscending : (xs : List F) → IsFinite xs → IsAscending (sorted xs)
    unfolding sorted
    sorted-IsAscending [] h = tt
    sorted-IsAscending (x ∷ xs) h =
        insert_sorted-IsAscending x (sorted xs) h.0 (All-sorted (λ y. f.finite y ≡ true) xs h.1)
          (sorted-IsAscending xs h.1)

    pub at_index :
        (P : F → Type 0) (xs : List F) (i : ℕ) {m : F} → All P xs → get_elem? xs i ≡ some m → P m
    at_index P [] i h e = absurd (cc e)
    at_index P (x ∷ xs) zero {m} h e = let same : x ≡ m = cc e in subst P same h.0
    at_index P (x ∷ xs) (suc i) h e = at_index P xs i h.1 e

    -- what stands at place `i` of an ascending list has `i + 1` values at most itself
    pub count-at :
        (xs : List F) (i : ℕ) (m c : F)
        → IsAscending xs
        → get_elem? xs i ≡ some m
        → (m ≤ᶠ c) ≡ true
        → suc i ≤ count_if (λ x. x ≤ᶠ c) xs
    count-at [] i m c a e le = absurd (cc e)
    count-at (x ∷ xs) zero m c a e le =
        let same : x ≡ m = cc e in
        let below : (x ≤ᶠ c) ≡ true = rw same le in rw (below, count_if) (omega arith)
    count-at (x ∷ xs) (suc i) m c a e le =
        let first = at_index (λ y. (x ≤ᶠ y) ≡ true) xs i a.0 e in
        let below : (x ≤ᶠ c) ≡ true = laws.le_trans x m c first le in
        rw (below, count_if) (omega (arith, count-at xs i m c a.1 e le))

    neighbours :
        (xs : List F) (i : ℕ) (a b : F)
        → IsAscending xs
        → get_elem? xs i ≡ some a
        → get_elem? xs (suc i) ≡ some b
        → (a ≤ᶠ b) ≡ true
    neighbours [] i a b asc e g = absurd (cc e)
    neighbours (x ∷ xs) zero a b asc e g =
        let same : x ≡ a = cc e in
        subst (λ y. (y ≤ᶠ b) ≡ true) same (at_index (λ y. (x ≤ᶠ y) ≡ true) xs zero asc.0 g)
    neighbours (x ∷ xs) (suc i) a b asc e g = neighbours xs i a b asc.1 e g

    middle-le :
        (data' : List F) (k : ℕ) (m c : F)
        → IsAscending data'
        → IsPositive data'
        → middle (get_elem? data' k) (get_elem? data' (suc k)) ≡ some m
        → (m ≤ᶠ c) ≡ true
        → suc k ≤ count_if (λ x. x ≤ᶠ c) data'
    middle-le data' k m c asc fin e le = elim (Option-cases (get_elem? data' k)) [
      | inl g ↦ absurd (cc (rw (g, middle) at e))
      | inr (a, g) ↦ elim (Option-cases (get_elem? data' (suc k))) [
        | inl h ↦ absurd (cc (rw (g, h, middle) at e))
        | inr (b, h) ↦
            let same : (a +ᶠ b) /ᶠ f.of_ℕ 2 ≡ m = cc (rw (g, h, middle) at e) in
            let usable_a = at_index Usable data' k fin g in
            let usable_b = at_index Usable data' (suc k) fin h in
            let low =
              laws.le_midpoint a b (Usable-finite a usable_a) (Usable-finite b usable_b)
                (Usable-positive a usable_a) (neighbours data' k a b asc g h) in
            let to_m : (a ≤ᶠ m) ≡ true = rw (← same) low in
            count-at data' k a c asc g (laws.le_trans a m c to_m le)
      ]
    ]

    -- at least half of the values are at most `c`, if their median is
    pub median-le :
        (xs : List F) (m c : F)
        → IsPositive xs
        → median xs ≡ some m
        → (m ≤ᶠ c) ≡ true
        → length xs ≤ 2 * count_if (λ x. x ≤ᶠ c) xs
    unfolding median
    median-le xs m c fin e le =
        let asc = sorted-IsAscending xs (All-map Usable _ xs Usable-finite fin) in
        let fin' = All-sorted Usable xs fin in
        let n = length xs in
        rw (← count_if-sorted (λ x. x ≤ᶠ c) xs) (elim (Bool-cases (n == 0)) [
          | inl z ↦ ground arith
          | inr z ↦ elim (Bool-cases ((n % 2) == 1)) [
            | inl odd ↦
                omega (
                  arith,
                  odd_half n odd,
                  count-at (sorted xs) (n / 2) m c asc (rw (z, odd) at e) le,
                )
            | inr even ↦
                let k = n / 2 - 1 in
                let next : n / 2 ≡ suc k = ground (arith, even_half n z even) in
                let e' : middle (get_elem? (sorted xs) k) (get_elem? (sorted xs) (n / 2)) ≡ some m =
                  rw (z, even) at e in
                omega (
                  arith,
                  even_half n z even,
                  middle-le (sorted xs) k m c asc fin'
                      (subst
                        (λ j. middle (get_elem? (sorted xs) k) (get_elem? (sorted xs) j) ≡ some m)
                        next e')
                      le,
                )
          ]
        ])
