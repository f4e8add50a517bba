-- ===== src/Power/Markers.antt =====
-- `read_marker_lines`: the markers that another process appends to a file.
pub mod Polls
use glm5_3_flash_2x_dgx_spar.Prelude.{
  ℕ, zero, suc, ◌+◌, ◌-◌, Bool, true, false, Option, none, some, List, [], ◌∷◌, ◌++◌, length, take,
  drop, ltb, ◌==◌, if◌then◌else◌,
}
use glm5_3_flash_2x_dgx_spar.Text.{Text, strip, split_bytes}

-- one look at the file: `path.stat()`, then what `open` finds, which may be more; `none` for an `OSError`
pub record MarkerFile : Type 0 where
  pub size : Option ℕ
  pub content : Option (List ℕ)

-- `chunk.rfind(b"\n")`, `none` for -1
rfind_newline : List ℕ → Option ℕ
rfind_newline [] = none
rfind_newline (b ∷ bs) = elim (rfind_newline bs) [
  | some i ↦ some (suc i)
  | none ↦ if b == 10 then some 0 else none
]

-- `chunk.endswith(b"\n")`
ends_newline : List ℕ → Bool
ends_newline [] = false
ends_newline (b ∷ []) = b == 10
ends_newline (b ∷ c ∷ bs) = ends_newline (c ∷ bs)

-- the labels that are kept, cut to 200 characters; `decode` is UTF-8 with replacement
module _ (decode : List ℕ → Text) where
  add_label : Text → List Text → List Text
  add_label [] labels = labels
  add_label (c ∷ cs) labels = take 200 (c ∷ cs) ∷ labels

  pub labels_of : List (List ℕ) → List Text
  unfolding add_label
  labels_of [] = []
  labels_of (raw ∷ raws) = add_label (strip (decode raw)) (labels_of raws)

  -- a chunk with a partial line at its end, the last line end being at `cut`
  cut_chunk : List ℕ → ℕ → Option ℕ → List Text × ℕ
  unfolding labels_of
  cut_chunk chunk offset none = ([], offset)
  cut_chunk chunk offset (some cut) =
      let carry = drop (cut + 1) chunk in
      let whole = take (cut + 1) chunk in
      (labels_of (split_bytes (carry ++ whole)), offset + cut + 1)

  -- the bytes from `offset` on
  read_chunk : List ℕ → ℕ → List Text × ℕ
  unfolding rfind_newline ends_newline labels_of cut_chunk
  read_chunk chunk offset =
      if ends_newline chunk
      then (labels_of (split_bytes chunk), offset + length chunk)
      else cut_chunk chunk offset (rfind_newline chunk)

  -- from an offset that the file still has
  read_from : MarkerFile → ℕ → ℕ → List Text × ℕ
  unfolding read_chunk
  read_from file size offset = if size == offset then ([], offset) else elim file.content [
    | none ↦ ([], offset)
    | some bytes ↦ read_chunk (drop offset bytes) offset
  ]

  pub read_marker_lines : MarkerFile → ℕ → List Text × ℕ
  unfolding read_from
  read_marker_lines file offset = elim file.size [
    | none ↦ ([], offset)
    | some size ↦ read_from file size (if ltb size offset then 0 else offset)
  ]

  -- `_poll_markers`, once for each look at the file
  unfoldable pub polls : ℕ → List MarkerFile → List Text × ℕ
  unfolding read_marker_lines
  polls offset [] = ([], offset)
  polls offset (file ∷ files) =
      let (lines, next) = read_marker_lines file offset in
      let (later, last) = polls next files in (lines ++ later, last)
