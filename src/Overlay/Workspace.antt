-- ===== src/Overlay/Workspace.antt =====
-- vllm-exl3/overlay/patch_indexer_workspace.py: the sizing helpers that it inserts, the function that
-- calls them, the check of the builder, and the splitter that consumes the workspace.
pub mod Legal
pub mod Pieces
use glm5_3_flash_2x_dgx_spar.Prelude.{
  ℕ, zero, suc, ◌+◌, ◌-◌, ◌*◌, ◌/◌, min, max, Bool, true, false, not, ◌&&◌, Option, none, some,
  String, str_eq, List, [], ◌∷◌, ◌++◌, map, length, ltb, leb, ◌==◌, if◌then◌else◌, Result, ok, err,
  ◌>>=◌,
}
use glm5_3_flash_2x_dgx_spar.Number.Int.{ℤ, pos, negsuc}

pub data Mode : Type 0 where
  stock rightsize : Mode

-- what the helpers read of vLLM's configuration; `index_kpool` is `int(raw or 1)`, `none` where the
-- attribute is missing or the conversion raises
pub record VllmConfig : Type 0 where
  pub max_model_len : ℕ
  pub index_kpool : Option ℤ
  pub max_num_seqs : ℕ
  pub max_num_batched_tokens : ℕ
  pub num_speculative_tokens : ℕ

-- the `ValueError`s
pub data WorkspaceError : Type 0 where
  bad_mode : String → WorkspaceError
  ratio_disagreement : ℕ → ℕ → WorkspaceError
  below_legal_maximum : ℕ → ℕ → WorkspaceError

-- by the value of `GLM53_INDEXER_WORKSPACE`
workspace_mode : Option String → Result WorkspaceError Mode
workspace_mode none = ok stock
workspace_mode (some raw) =
    if str_eq raw "stock"
    then ok stock
    else if str_eq raw "rightsize"
    then ok rightsize
    else err (bad_mode raw)

abbrev pub stock_workspace_entries : ℕ → ℕ
stock_workspace_entries max_model_len = max_model_len * 40

abbrev pub ratio_of : Option ℤ → ℕ
ratio_of none = 1
ratio_of (some (negsuc n)) = 1
ratio_of (some (pos n)) = if ltb 1 n then n else 1

abbrev pub indexer_compress_ratio : VllmConfig → ℕ
indexer_compress_ratio c = ratio_of c.index_kpool

-- `-(-span // ratio)`
abbrev pub cdiv : ℕ → ℕ → ℕ
cdiv span ratio = (span + ratio - 1) / ratio

-- the longest sequence of a step, in tokens
abbrev pub span_of : VllmConfig → ℕ
span_of c = c.max_model_len + c.num_speculative_tokens

abbrev max_prefill_reqs : VllmConfig → ℕ
max_prefill_reqs c = max 1 (min c.max_num_seqs c.max_num_batched_tokens)

rightsized_workspace_entries : VllmConfig → ℕ
rightsized_workspace_entries c =
    let most = stock_workspace_entries c.max_model_len in
    let ratio = indexer_compress_ratio c in
    if leb ratio 1 then most else min (cdiv (span_of c) ratio * max_prefill_reqs c) most

-- by the mode
buffer_size : Mode → VllmConfig → ℕ
unfolding rightsized_workspace_entries
buffer_size stock c = stock_workspace_entries c.max_model_len
buffer_size rightsize c =
    let most = stock_workspace_entries c.max_model_len in
    let entries = rightsized_workspace_entries c in if leb most entries then most else entries

unfoldable pub get_max_prefill_buffer_size : Option String → VllmConfig → Result WorkspaceError ℕ
unfolding workspace_mode buffer_size
get_max_prefill_buffer_size env c = workspace_mode env >>= λ mode. ok (buffer_size mode c)

-- in rightsize mode, of the ratio that the runtime divides by
check_ratio : VllmConfig → ℕ → ℕ → Result WorkspaceError ℕ
unfolding rightsized_workspace_entries
check_ratio c compress_ratio size =
    let ratio = indexer_compress_ratio c in
    let need = rightsized_workspace_entries c in
    if not (ratio == compress_ratio)
    then err (ratio_disagreement ratio compress_ratio)
    else if ltb size (min need (stock_workspace_entries c.max_model_len))
    then err (below_legal_maximum size need)
    else ok size

check_mode : Mode → VllmConfig → ℕ → ℕ → Result WorkspaceError ℕ
unfolding check_ratio
check_mode stock c compress_ratio size = ok size
check_mode rightsize c compress_ratio size = check_ratio c compress_ratio size

-- the builder at its start: its workspace, or what it refuses to serve on
unfoldable pub build_workspace : Option String → VllmConfig → ℕ → Result WorkspaceError ℕ
unfolding check_mode workspace_mode
build_workspace env c compress_ratio = get_max_prefill_buffer_size env c >>= λ size.
    workspace_mode env >>= λ mode. check_mode mode c compress_ratio size

-- a request of a step: its query length and its compressed sequence length
abbrev pub Request : Type 0
Request = ℕ × ℕ

-- how far the inner loop gets: how many more requests, the lengths of the chunk, what is left
pub record Grown : Type 0 where
  pub count : ℕ
  pub chunk_m : ℕ
  pub chunk_n : ℕ
  pub left : List Request

abbrev pub fits : ℕ → ℕ → ℕ → ℕ → Bool
fits workspace_size max_logits_elems m n = leb n workspace_size && leb (m * n) max_logits_elems

pub grow : ℕ → ℕ → ℕ → ℕ → List Request → Grown
grow workspace_size max_logits_elems m n [] = record {
  count = 0;
  chunk_m = m;
  chunk_n = n;
  left = [];
}
grow workspace_size max_logits_elems m n ((q, s) ∷ rows) =
    let more = grow workspace_size max_logits_elems (m + q) (n + s) rows in
    if fits workspace_size max_logits_elems (m + q) (n + s)
    then record more { count = suc more.count }
    else record { count = 0; chunk_m = m; chunk_n = n; left = (q, s) ∷ rows }

-- one round of the outer loop: a chunk of at least one request
next_chunk : ℕ → ℕ → Request → List Request → Grown
unfolding grow
next_chunk workspace_size max_logits_elems (q, s) rows =
    let grown = grow workspace_size max_logits_elems 0 0 ((q, s) ∷ rows) in
    if grown.count == 0 then record { count = 1; chunk_m = q; chunk_n = s; left = rows } else grown

-- `((start, stop), (q_off, q_off + sub_m))`
abbrev pub Chunk : Type 0
Chunk = (ℕ × ℕ) × (ℕ × ℕ)

-- `range(0, chunk_m, max_q)` from `q_off` on, of at most `fuel` elements
sub_chunks : ℕ → ℕ → ℕ → ℕ → ℕ × ℕ → List Chunk
sub_chunks zero q_off chunk_m max_q req_slice = []
sub_chunks (suc fuel) q_off chunk_m max_q req_slice =
    let rest = sub_chunks fuel (q_off + max_q) chunk_m max_q req_slice in
    if ltb q_off chunk_m
    then (req_slice, (q_off, q_off + min max_q (chunk_m - q_off))) ∷ rest
    else []

max_q_of : ℕ → ℕ → ℕ → ℕ
max_q_of max_logits_elems chunk_m chunk_n =
    if ltb 0 chunk_n then max 1 (max_logits_elems / chunk_n) else max 1 chunk_m

abbrev pieces : ℕ → ℕ → Grown → List Chunk
pieces max_logits_elems start g =
    sub_chunks g.chunk_m 0 g.chunk_m (max_q_of max_logits_elems g.chunk_m g.chunk_n)
      (start, start + g.count)

split_from : ℕ → ℕ → ℕ → ℕ → List Request → List Chunk
unfolding next_chunk sub_chunks max_q_of
split_from zero workspace_size max_logits_elems start rows = []
split_from (suc fuel) workspace_size max_logits_elems start [] = []
split_from (suc fuel) workspace_size max_logits_elems start (r ∷ rows) =
    let g = next_chunk workspace_size max_logits_elems r rows in
    pieces max_logits_elems start g
    ++ split_from fuel workspace_size max_logits_elems (start + g.count) g.left

-- each round takes a request, so there are no more rounds than requests
unfoldable pub split_prefill_chunks : List Request → ℕ → ℕ → List Chunk
unfolding split_from
split_prefill_chunks rows workspace_size max_logits_bytes =
    split_from (length rows) workspace_size (max_logits_bytes / 4) 0 rows
