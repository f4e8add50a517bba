-- ===== src/Overlay/Workspace/Pieces.antt =====
-- What the splitter's chunks hold: all query tokens, within the bounds of the workspace.
use glm5_3_flash_2x_dgx_spar.Prelude.{
  ℕ, ◌<◌, ◌+◌, ◌-◌, ◌*◌, ◌≤◌, ◌≡◌, List, [], ◌∷◌, length, take, drop, ◌⊎◌,
}
use glm5_3_flash_2x_dgx_spar.Overlay.Workspace.{Request, Chunk, Grown}
use glm5_3_flash_2x_dgx_spar.Overlay.Workspace.Legal.{sum_of, tokens_of}

-- the query tokens of a chunk, by their place among those of all requests
abbrev pub place : List Request → Chunk → ℕ × ℕ
place rows ((start, stop), (from, to)) =
    (tokens_of (take start rows) + from, tokens_of (take start rows) + to)

-- ranges that are not empty, each from where the one before ends, from `a` up to `b`
abbrev pub IsTiling : ℕ → ℕ → List (ℕ × ℕ) → Type 0
IsTiling a b [] = a ≡ b
IsTiling a b ((x, y) ∷ rs) = (x ≡ a) × ((x < y) × IsTiling y b rs)

-- what a chunk takes and what it leaves
IsTaken : ℕ → ℕ → List Request → Grown → Type 0
IsTaken m n rows g =
    (g.count + length g.left ≡ length rows)
    × ((g.left ≡ drop g.count rows)
        × ((g.chunk_m + tokens_of g.left ≡ m + tokens_of rows)
            × (g.chunk_n ≡ n + sum_of (take g.count rows))))

-- of the requests `rows` of a step, the chunk's share of the logits is within the limit, or it is a single
-- query token, and its sequences fit the workspace, or it is a single request
abbrev pub IsBounded : ℕ → ℕ → List Request → Chunk → Type 0
IsBounded workspace_size lim rows ((start, stop), (from, to)) =
    let size = sum_of (take (stop - start) (drop start rows)) in
    (((to - from) * size ≤ lim) ⊎ (to - from ≤ 1)) × ((size ≤ workspace_size) ⊎ (stop - start ≡ 1))

-- a chunk of the slice `r`, not wider than `max_q`
abbrev IsNarrow : ℕ → ℕ × ℕ → Chunk → Type 0
IsNarrow max_q r c = (c.0 ≡ r) × (c.1.1 - c.1.0 ≤ max_q)
