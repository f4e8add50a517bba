-- ===== src/AdaptiveK/Choices.antt =====
-- What `choose` returns, over all its branches.
use glm5_3_flash_2x_dgx_spar.Prelude.{
  ℕ, ◌≤◌, ltb, String, not, subst, ◌≡◌, ◌⊎◌, inl, inr, refl, Bool, true, false, ◌||◌, some, List,
  [], ◌∷◌, min, max, arith, leb, ◌==◌, keep_if, All, ok, err, ok_chain, Bool-cases, Option-cases,
  Result-cases, get,
}
use glm5_3_flash_2x_dgx_spar.Number.{Float, ◌+ᶠ◌}
use glm5_3_flash_2x_dgx_spar.AdaptiveK.{
  Error, empty_min, Track, Policy, min_of, max_of, contains, least, select, pick, choose,
}

pub min_of-le : (x : ℕ) (xs : List ℕ) → (min_of x xs ≤ x) × All (λ v. min_of x xs ≤ v) xs
min_of-le x [] = (omega arith, tt)
min_of-le x (y ∷ ys) = let (lo, rest) = min_of-le (min x y) ys in (omega arith, (omega arith, rest))

pub min_of-mem : (x : ℕ) (xs : List ℕ) → contains (x ∷ xs) (min_of x xs) ≡ true
min_of-mem x [] = ground arith
min_of-mem x (y ∷ ys) = ground (arith, min_of-mem (min x y) ys)

pub max_of-mem : (x : ℕ) (xs : List ℕ) → contains (x ∷ xs) (max_of x xs) ≡ true
max_of-mem x [] = ground arith
max_of-mem x (y ∷ ys) = ground (arith, max_of-mem (max x y) ys)

pub contains-keep_if :
    (p : ℕ → Bool) (xs : List ℕ) (v : ℕ) → contains (keep_if p xs) v ≡ true → contains xs v ≡ true
contains-keep_if p [] v h = h
contains-keep_if p (x ∷ xs) v h = ground (arith, contains-keep_if p xs v)

pub keep_if-holds :
    (p : ℕ → Bool) (xs : List ℕ) (v : ℕ) → contains (keep_if p xs) v ≡ true → p v ≡ true
keep_if-holds p [] v h = cc
keep_if-holds p (x ∷ xs) v h = ground (arith, keep_if-holds p xs v)

select-mem :
    (k_set cands : List ℕ) {m : ℕ}
    → ((v : ℕ) → contains cands v ≡ true → contains k_set v ≡ true)
    → select k_set cands ≡ ok m
    → contains k_set m ≡ true
unfolding select least
select-mem [] [] sub h = cc
select-mem (x ∷ xs) [] sub h = ground (arith, min_of-mem x xs)
select-mem k_set (c ∷ cs) sub h = ground (arith, max_of-mem c cs, sub (max_of c cs))

pub select_raises : (k_set cands : List ℕ) {e : Error} → select k_set cands ≡ err e → k_set ≡ []
unfolding select least
select_raises [] cands h = refl
select_raises (x ∷ xs) [] h = cc
select_raises (x ∷ xs) (c ∷ cs) h = cc

-- a width between 1 and `k` that is a size of the set, or is cut to `k`, or raised to 1
pub record IsWidth (k_set : List ℕ) (k n : ℕ) : Type 0 where
  pub at_least : 1 ≤ n
  pub at_most : n ≤ k
  pub listed : (contains k_set n ≡ true) ⊎ ((n ≡ k) ⊎ (n ≡ 1))

clip_cases : (m k : ℕ) → (max 1 (min m k) ≡ m) ⊎ ((max 1 (min m k) ≡ k) ⊎ (max 1 (min m k) ≡ 1))
clip_cases m k = grind arith

clip-IsWidth :
    (k_set : List ℕ) (k m : ℕ) → 1 ≤ k → contains k_set m ≡ true → IsWidth k_set k (max 1 (min m k))
clip-IsWidth k_set k m pos h = record {
  at_least = omega arith;
  at_most = omega arith;
  listed = elim (clip_cases m k) [ inl e ↦ inl (rw e h) | inr e ↦ inr e ];
}

module _ {F : Type 0} ⦃f : Float F⦄ where
  pick-IsWidth :
      (p : Policy F) (k : ℕ) (st : Track F) {n : ℕ}
      → 1 ≤ k
      → pick p k st ≡ ok (some n)
      → IsWidth p.k_set k n
  unfolding pick
  pick-IsWidth p k st pos h = elim (Option-cases (f.ceil (st.ema +ᶠ p.margin))) [
    | inl e ↦ absurd (cc (rw (e, pick) at h))
    | inr (target, e) ↦
        let cands = keep_if (λ v. leb v (min target k)) p.k_set in
        let (m, (sel, fin)) = ok_chain (select p.k_set cands) _ (rw (e, pick) at h) in
        let mem = select-mem p.k_set cands (contains-keep_if _ p.k_set) sel in
        let w = clip-IsWidth p.k_set k m pos mem in subst (IsWidth p.k_set k) (cc fin) w
  ]

  -- `choose` returns no length, or one between 1 and `k` that is a size of the set unless it was cut
  -- to `k` or raised to 1; and it returns none for a structured request and for one that has fewer
  -- than `min_steps` observed steps.
  pub choose-IsWidth :
      (p : Policy F) (req_id : String) (k : ℕ) (structured : Bool) {n : ℕ}
      → choose p req_id k structured ≡ ok (some n)
      → IsWidth p.k_set k n
        × (structured ≡ false)
        × ((st : Track F) × (get req_id p.state ≡ some st) × (p.min_steps ≤ st.observed))
  unfolding choose
  choose-IsWidth p req_id k structured h =
      elim (Bool-cases (not p.enabled || structured || k == 0)) [
        | inl e ↦ absurd (cc (rw e at h))
        | inr e ↦ elim (Option-cases (get req_id p.state)) [
          | inl g ↦ absurd (cc (rw (e, g) at h))
          | inr (st, g) ↦ elim (Bool-cases (ltb st.observed p.min_steps)) [
            | inl w ↦ absurd (cc (rw (e, g, w) at h))
            | inr w ↦ (
              pick-IsWidth p k st (ground arith) (rw (e, g, w) at h),
              ground arith,
              (st, g, ground arith),
            )
          ]
        ]
      ]

  pick_raises : (p : Policy F) (k : ℕ) (st : Track F) → pick p k st ≡ err empty_min → p.k_set ≡ []
  unfolding pick
  pick_raises p k st h = elim (Option-cases (f.ceil (st.ema +ᶠ p.margin))) [
    | inl e ↦ absurd (cc (rw (e, pick) at h))
    | inr (target, e) ↦
        let cands = keep_if (λ v. leb v (min target k)) p.k_set in
        elim (Result-cases (select p.k_set cands)) [
          | inl (m, sel) ↦ absurd (cc (rw (e, pick, sel) at h))
          | inr (x, sel) ↦ select_raises p.k_set cands sel
        ]
  ]

  -- The `min()` of `choose` raises only where the set of sizes is empty.
  pub choose_raises :
      (p : Policy F) (req_id : String) (k : ℕ) (structured : Bool)
      → choose p req_id k structured ≡ err empty_min
      → p.k_set ≡ []
  unfolding choose
  choose_raises p req_id k structured h =
      elim (Bool-cases (not p.enabled || structured || k == 0)) [
        | inl e ↦ absurd (cc (rw e at h))
        | inr e ↦ elim (Option-cases (get req_id p.state)) [
          | inl g ↦ absurd (cc (rw (e, g) at h))
          | inr (st, g) ↦ elim (Bool-cases (ltb st.observed p.min_steps)) [
            | inl w ↦ absurd (cc (rw (e, g, w) at h))
            | inr w ↦ pick_raises p k st (rw (e, g, w) at h)
          ]
        ]
      ]
