-- ===== src/Exl3/Shards/Joined.antt =====
-- That the shards of all ranks, joined in order, are the tensor.
use glm5_3_flash_2x_dgx_spar.Prelude.{
  ℕ, zero, suc, ◌+◌, ◌*◌, ◌/◌, ◌%◌, ◌≤◌, ◌≡◌, refl, sym, ap, ap₂, subst, ◌∙◌, true, false, List,
  drop-drop, drop_all, [], ◌∷◌, ◌++◌, map, drop, length, take-append-drop, All, leb, ◌==◌, Result,
  ok, ◌>>=◌, arith,
}
use native.Mathlib.Nat.{div-add-mod'}
use glm5_3_flash_2x_dgx_spar.Exl3.Shards.{
  Dim, dim0, dim1, NotDivisible, Tensor, shape, slice, narrow, narrow_tp,
}

slice-append-drop :
    {B : Type 0} (c r : ℕ) (xs : List B)
    → slice (c * r) c xs ++ drop (c * suc r) xs ≡ drop (c * r) xs
slice-append-drop c r xs =
    ap (λ n. slice (c * r) c xs ++ drop n xs) (omega arith)
    ∙ (ap (λ rest. slice (c * r) c xs ++ rest) (sym (drop-drop (c * r) c xs))
        ∙ take-append-drop c (drop (c * r) xs))

module _ {A : Type 0} where
  -- tensors side by side
  abbrev pub beside : Dim → Tensor A → Tensor A → Tensor A
  beside dim0 t u = t ++ u
  beside dim1 [] u = []
  beside dim1 (row ∷ t) [] = row ∷ t
  beside dim1 (row ∷ t) (row' ∷ u) = (row ++ row') ∷ beside dim1 t u

  -- as the tensor along the dimension, but of size 0
  abbrev pub nothing_of : Dim → Tensor A → Tensor A
  nothing_of dim0 t = []
  nothing_of dim1 t = map (λ row. []) t

  -- the shards of the ranks from `r`, `n` of them, joined
  abbrev pub gather :
      Dim → Tensor A → (ℕ → Result NotDivisible (Tensor A)) → ℕ → ℕ → Result NotDivisible (Tensor A)
  gather dim t shard zero r = ok (nothing_of dim t)
  gather dim t shard (suc n) r =
      shard r >>= λ part. gather dim t shard n (suc r) >>= λ rest. ok (beside dim part rest)

  -- what is left of the tensor from the rank `r`
  abbrev rest_of : Dim → ℕ → Tensor A → Tensor A
  rest_of dim0 start t = drop start t
  rest_of dim1 start t = map (λ row. drop start row) t

  -- the size along the dimension, in each row
  abbrev pub HasSize : Dim → ℕ → Tensor A → Type 0
  HasSize dim0 size t = length t ≡ size
  HasSize dim1 size t = All (λ row. length row ≡ size) t

  rest_of-nothing :
      (dim : Dim) (size : ℕ) (t : Tensor A)
      → HasSize dim size t
      → rest_of dim size t ≡ nothing_of dim t
  rest_of-nothing dim0 size t h = drop_all size t (omega (arith, h))
  rest_of-nothing dim1 size [] h = refl
  rest_of-nothing dim1 size (row ∷ t) h =
      ap₂ ◌∷◌ (drop_all size row (omega (arith, h.0))) (rest_of-nothing dim1 size t h.1)

  narrow-beside :
      (dim : Dim) (c r : ℕ) (t : Tensor A)
      → beside dim (narrow dim (c * r) c t) (rest_of dim (c * suc r) t) ≡ rest_of dim (c * r) t
  unfolding narrow
  narrow-beside dim0 c r t = slice-append-drop c r t
  narrow-beside dim1 c r [] = refl
  narrow-beside dim1 c r (row ∷ t) = ap₂ ◌∷◌ (slice-append-drop c r row) (narrow-beside dim1 c r t)

  gather-rest_of :
      (dim : Dim) (c : ℕ) (t : Tensor A) (shard : ℕ → Result NotDivisible (Tensor A)) (n r : ℕ)
      → ((i : ℕ) → shard i ≡ ok (narrow dim (c * i) c t))
      → HasSize dim (c * (r + n)) t
      → gather dim t shard n r ≡ ok (rest_of dim (c * r) t)
  gather-rest_of dim c t shard zero r each h =
      let e : c * (r + 0) ≡ c * r = omega arith in
      ap ok (sym (rest_of-nothing dim (c * r) t (subst (λ k. HasSize dim k t) e h)))
  gather-rest_of dim c t shard (suc n) r each h =
      let e : c * (r + suc n) ≡ c * (suc r + n) = omega arith in
      rw
        (
          each r,
          gather-rest_of dim c t shard n (suc r) each (subst (λ k. HasSize dim k t) e h),
          narrow-beside dim c r t,
        )
        refl

  rest_of-zero : (dim : Dim) (t : Tensor A) → rest_of dim 0 t ≡ t
  rest_of-zero dim0 t = refl
  rest_of-zero dim1 [] = refl
  rest_of-zero dim1 (row ∷ t) = ap (◌∷◌ row) (rest_of-zero dim1 t)

  -- Where a number of ranks above one divides the size of a tensor along a dimension, which is that of
  -- its shape in each row, each rank gets its shard, and the shards joined in the order of the ranks are
  -- the tensor.
  pub narrow_tp-gather :
      (dim : Dim) (t : Tensor A) (tp_size : ℕ)
      → 2 ≤ tp_size
      → shape dim t % tp_size ≡ 0
      → HasSize dim (shape dim t) t
      → gather dim t (λ r. narrow_tp t dim r tp_size) tp_size 0 ≡ ok t
  unfolding narrow_tp
  narrow_tp-gather dim t tp_size many divides sized =
      let c = shape dim t / tp_size in
      let more : leb tp_size 1 ≡ false = ground arith in
      let whole : (shape dim t % tp_size == 0) ≡ true = ground (arith, divides) in
      let each : (r : ℕ) → narrow_tp t dim r tp_size ≡ ok (narrow dim (c * r) c t) =
        λ r. rw (more, whole) refl in
      let size : shape dim t ≡ c * (0 + tp_size) =
        omega (arith, div-add-mod' (shape dim t) tp_size, divides) in
      let start : c * 0 ≡ 0 = omega arith in
      gather-rest_of dim c t (λ r. narrow_tp t dim r tp_size) tp_size 0 each
        (subst (λ k. HasSize dim k t) size sized)
      ∙ ap ok (ap (λ k. rest_of dim k t) start ∙ rest_of-zero dim t)
