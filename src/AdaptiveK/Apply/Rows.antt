-- ===== src/AdaptiveK/Apply/Rows.antt =====
-- What trimming to a width does to the rows of a batch.
use glm5_3_flash_2x_dgx_spar.Prelude.{
  ℕ, ◌≤◌, String, ◌≡◌, inl, inr, refl, sym, ap₂, Bool, List, [], ◌∷◌, map, max, arith, ltb, length,
  take, take_all, All, Bool-cases,
}
use glm5_3_flash_2x_dgx_spar.AdaptiveK.{Request, Batch, max_of, longest, trim, trim_all}

-- the rows of a batch, and who they belong to
abbrev pub rows : Batch → List (List ℕ)
rows = map (λ q. q.0.spec_token_ids)

abbrev pub owners : Batch → List (String × Bool)
owners = map (λ q. (q.0.request_id, q.1))

row-trim : (n : ℕ) (r : Request) → (trim n r).spec_token_ids ≡ take n r.spec_token_ids
unfolding trim
row-trim n r = elim (Bool-cases (ltb n (length r.spec_token_ids))) [
  | inl e ↦ rw e
  | inr e ↦ rw e (sym (take_all n r.spec_token_ids (ground arith)))
]

pub rows-trim_all : (n : ℕ) (reqs : Batch) → rows (trim_all n reqs) ≡ map (take n) (rows reqs)
unfolding trim_all
rows-trim_all n [] = refl
rows-trim_all n ((r, s) ∷ reqs) = ap₂ ◌∷◌ (row-trim n r) (rows-trim_all n reqs)

pub owners-trim_all : (n : ℕ) (reqs : Batch) → owners (trim_all n reqs) ≡ owners reqs
unfolding trim_all
owners-trim_all n [] = refl
owners-trim_all n ((r, s) ∷ reqs) = ground (arith, owners-trim_all n reqs)

-- a width that no row exceeds changes nothing
pub trim_all-id :
    (n : ℕ) (reqs : Batch) → All (λ q. length q.0.spec_token_ids ≤ n) reqs → trim_all n reqs ≡ reqs
unfolding trim_all
trim_all-id n [] h = refl
trim_all-id n ((r, s) ∷ reqs) h = ground (arith, trim_all-id n reqs h.1)

max_of-le : (x : ℕ) (xs : List ℕ) → (x ≤ max_of x xs) × All (λ v. v ≤ max_of x xs) xs
max_of-le x [] = (omega arith, tt)
max_of-le x (y ∷ ys) = let (lo, rest) = max_of-le (max x y) ys in (omega arith, (omega arith, rest))

lengths-le :
    (m : ℕ) (reqs : Batch)
    → All (λ v. v ≤ m) (map (λ q. length q.0.spec_token_ids) reqs)
    → All (λ q. length q.0.spec_token_ids ≤ m) reqs
lengths-le m [] h = tt
lengths-le m (q ∷ reqs) h = (h.0, lengths-le m reqs h.1)

pub longest-le : (reqs : Batch) → All (λ q. length q.0.spec_token_ids ≤ longest reqs) reqs
longest-le [] = tt
longest-le ((r, s) ∷ reqs) =
    let (lo, rest) =
      max_of-le (length r.spec_token_ids) (map (λ q. length q.0.spec_token_ids) reqs) in
    (lo, lengths-le _ reqs rest)
