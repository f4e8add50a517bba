-- ===== src/Exl3/Shards.antt =====
-- `_narrow_tp`, `shard_exl3_col` and `shard_exl3_row`: the part of a tensor that a rank holds.
-- A tensor is a list of rows; one of one dimension has rows of one element.
pub mod Joined
use glm5_3_flash_2x_dgx_spar.Prelude.{
  ℕ, ◌*◌, ◌/◌, ◌%◌, Bool, true, false, not, List, [], ◌∷◌, map, take, drop, length, leb, ◌==◌,
  Result, ok, err, if◌then◌else◌,
}

pub data Suffix : Type 0 where
  trellis suh svh other : Suffix

pub data Dim : Type 0 where
  dim0 dim1 : Dim

-- the `ValueError` of a size that the ranks do not divide
pub record NotDivisible : Type 0 where
  pub dim : Dim
  pub size : ℕ

abbrev pub Tensor {ℓ} : Type ℓ → Type ℓ
Tensor A = List (List A)

-- `xs[start : start + chunk]`
abbrev pub slice : {B : Type 0} → ℕ → ℕ → List B → List B
slice start chunk xs = take chunk (drop start xs)

module _ {A : Type 0} where
  -- `tensor.shape[dim]`
  abbrev pub shape : Dim → Tensor A → ℕ
  shape dim0 t = length t
  shape dim1 [] = 0
  shape dim1 (row ∷ rows) = length row

  -- `tensor.narrow(dim, start, chunk)`
  narrow : Dim → ℕ → ℕ → Tensor A → Tensor A
  narrow dim0 start chunk t = slice start chunk t
  narrow dim1 start chunk t = map (λ row. slice start chunk row) t

  unfoldable pub narrow_tp : Tensor A → Dim → ℕ → ℕ → Result NotDivisible (Tensor A)
  unfolding narrow
  narrow_tp t dim tp_rank tp_size =
      let size = shape dim t in
      if leb tp_size 1
      then ok t
      else if size % tp_size == 0
      then ok (narrow dim (size / tp_size * tp_rank) (size / tp_size) t)
      else err (record { dim = dim; size = size })

  -- gate and up
  unfoldable pub shard_exl3_col : Tensor A → Suffix → ℕ → ℕ → Result NotDivisible (Tensor A)
  shard_exl3_col t trellis tp_rank tp_size = narrow_tp t dim1 tp_rank tp_size
  shard_exl3_col t svh tp_rank tp_size = narrow_tp t dim0 tp_rank tp_size
  shard_exl3_col t suh tp_rank tp_size = ok t
  shard_exl3_col t other tp_rank tp_size = ok t

  -- down
  unfoldable pub shard_exl3_row : Tensor A → Suffix → ℕ → ℕ → Result NotDivisible (Tensor A)
  shard_exl3_row t trellis tp_rank tp_size = narrow_tp t dim0 tp_rank tp_size
  shard_exl3_row t suh tp_rank tp_size = narrow_tp t dim0 tp_rank tp_size
  shard_exl3_row t svh tp_rank tp_size = ok t
  shard_exl3_row t other tp_rank tp_size = ok t
