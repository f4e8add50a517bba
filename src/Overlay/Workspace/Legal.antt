-- ===== src/Overlay/Workspace/Legal.antt =====
-- That a right-sized workspace splits every legal step as the stock one does.
use glm5_3_flash_2x_dgx_spar.Prelude.{
  ℕ, zero, suc, ◌+◌, ◌-◌, ◌*◌, ◌/◌, ◌≤◌, min, ◌≡◌, refl, sym, ap, true, ◌&&◌, Option, String, List,
  [], ◌∷◌, map, length, leb, ◌==◌, All, arith, Bool-cases, ◌⊎◌, inl, inr, ok, ok_chain, past_guard,
  ltb, not, subst, ◌==◌,
}
use native.Mathlib.Nat.{le-div_iff_mul-le, div-mul-le_self, mul-le-mul_right}
use glm5_3_flash_2x_dgx_spar.Overlay.Workspace.{
  check_mode, check_ratio, build_workspace, ratio_disagreement, below_legal_maximum, Mode, stock,
  rightsize, VllmConfig, workspace_mode, stock_workspace_entries, indexer_compress_ratio, cdiv,
  span_of, max_prefill_reqs, rightsized_workspace_entries, buffer_size, get_max_prefill_buffer_size,
  Request, grow, next_chunk, split_from, split_prefill_chunks,
}

-- the compressed lengths together
abbrev pub sum_of : List Request → ℕ
sum_of [] = 0
sum_of ((q, s) ∷ rows) = s + sum_of rows

-- a workspace that holds all the requests does not bind
grow-same :
    (a b lim m n : ℕ) (rows : List Request)
    → n + sum_of rows ≤ a
    → n + sum_of rows ≤ b
    → grow a lim m n rows ≡ grow b lim m n rows
unfolding grow
grow-same a b lim m n [] h g = refl
grow-same a b lim m n ((q, s) ∷ rows) h g =
    let ha : leb (n + s) a ≡ true = ground (arith, h) in
    let hb : leb (n + s) b ≡ true = ground (arith, g) in
    rw (ha, hb, grow-same a b lim (m + q) (n + s) rows (omega (arith, h)) (omega (arith, g))) refl

grow-left : (a lim m n : ℕ) (rows : List Request) → sum_of (grow a lim m n rows).left ≤ sum_of rows
unfolding grow
grow-left a lim m n [] = omega arith
grow-left a lim m n ((q, s) ∷ rows) =
    elim (Bool-cases (leb (n + s) a && leb ((m + q) * (n + s)) lim)) [
      | inl e ↦ rw e (omega (arith, grow-left a lim (m + q) (n + s) rows))
      | inr e ↦ rw e (omega arith)
    ]

next_chunk-same :
    (a b lim : ℕ) (r : Request) (rows : List Request)
    → sum_of (r ∷ rows) ≤ a
    → sum_of (r ∷ rows) ≤ b
    → next_chunk a lim r rows ≡ next_chunk b lim r rows
unfolding next_chunk
next_chunk-same a b lim (q, s) rows h g =
    rw (grow-same a b lim 0 0 ((q, s) ∷ rows) (omega (arith, h)) (omega (arith, g))) refl

next_chunk-left :
    (a lim : ℕ) (r : Request) (rows : List Request)
    → sum_of (next_chunk a lim r rows).left ≤ sum_of (r ∷ rows)
unfolding next_chunk
next_chunk-left a lim (q, s) rows =
    elim (Bool-cases ((grow a lim 0 0 ((q, s) ∷ rows)).count == 0)) [
      | inl e ↦ rw e (omega arith)
      | inr e ↦ rw e (grow-left a lim 0 0 ((q, s) ∷ rows))
    ]

split_from-same :
    (fuel a b lim start : ℕ) (rows : List Request)
    → sum_of rows ≤ a
    → sum_of rows ≤ b
    → split_from fuel a lim start rows ≡ split_from fuel b lim start rows
unfolding split_from
split_from-same zero a b lim start rows h g = refl
split_from-same (suc fuel) a b lim start [] h g = refl
split_from-same (suc fuel) a b lim start (r ∷ rows) h g =
    let g0 = next_chunk b lim r rows in
    let left = next_chunk-left b lim r rows in
    let rest =
      split_from-same fuel a b lim (start + g0.count) g0.left (omega (arith, left, h))
        (omega (arith, left, g)) in
    rw (next_chunk-same a b lim r rows h g, rest) refl

-- the requests of a step, with their lengths in tokens
abbrev pub compress : ℕ → List Request → List Request
compress ratio rows = map (λ r. (r.0, r.1 / ratio)) rows

abbrev pub tokens_of : List Request → ℕ
tokens_of [] = 0
tokens_of ((q, l) ∷ rows) = q + tokens_of rows

-- what the scheduler admits to a step
abbrev pub IsLegal : VllmConfig → List Request → Type 0
IsLegal c rows =
    (length rows ≤ c.max_num_seqs)
    × ((tokens_of rows ≤ c.max_num_batched_tokens)
        × (All (λ r. 1 ≤ r.0) rows × All (λ r. r.1 ≤ span_of c) rows))

length-tokens_of : (rows : List Request) → All (λ r. 1 ≤ r.0) rows → length rows ≤ tokens_of rows
length-tokens_of [] h = omega arith
length-tokens_of ((q, l) ∷ rows) h = omega (arith, h.0, length-tokens_of rows h.1)

div-cdiv : (l span ratio : ℕ) → 1 ≤ ratio → l ≤ span → l / ratio ≤ cdiv span ratio
div-cdiv l span ratio pos h =
    (le-div_iff_mul-le {k = ratio} {x = l / ratio} {y = span + ratio - 1} (omega (arith, pos))).1
      (omega (arith, div-mul-le_self l ratio, h, pos))

sum_of-compress :
    (span ratio : ℕ) (rows : List Request)
    → 1 ≤ ratio
    → All (λ r. r.1 ≤ span) rows
    → sum_of (compress ratio rows) ≤ length rows * cdiv span ratio
sum_of-compress span ratio [] pos h = omega arith
sum_of-compress span ratio ((q, l) ∷ rows) pos h =
    omega (arith, div-cdiv l span ratio pos h.0, sum_of-compress span ratio rows pos h.1)

sum_of-legal :
    (c : VllmConfig) (rows : List Request)
    → 1 ≤ indexer_compress_ratio c
    → IsLegal c rows
    → sum_of (compress (indexer_compress_ratio c) rows)
      ≤ cdiv (span_of c) (indexer_compress_ratio c) * max_prefill_reqs c
sum_of-legal c rows pos (few, (tokens, (some_tokens, short))) =
    let ratio = indexer_compress_ratio c in
    let most : length rows ≤ max_prefill_reqs c =
      omega (arith, few, tokens, length-tokens_of rows some_tokens) in
    omega (
      arith,
      sum_of-compress (span_of c) ratio rows pos short,
      mul-le-mul_right (cdiv (span_of c) ratio) most,
    )

-- the stock size, or the legal maximum of a compressed cache
buffer_size-cases :
    (mode : Mode) (c : VllmConfig)
    → (buffer_size mode c ≡ stock_workspace_entries c.max_model_len)
      ⊎ ((1 ≤ indexer_compress_ratio c)
          × ((buffer_size mode c ≡ cdiv (span_of c) (indexer_compress_ratio c) * max_prefill_reqs c)
              × (buffer_size mode c ≤ stock_workspace_entries c.max_model_len)))
unfolding buffer_size rightsized_workspace_entries
buffer_size-cases stock c = inl refl
buffer_size-cases rightsize c = elim (Bool-cases (leb (indexer_compress_ratio c) 1)) [
  | inl e ↦ inl (ground (arith, e))
  | inr e ↦
      let need = cdiv (span_of c) (indexer_compress_ratio c) * max_prefill_reqs c in
      let most = stock_workspace_entries c.max_model_len in
      elim (Bool-cases (leb most (min need most))) [
        | inl g ↦ inl (rw (e, g) refl)
        | inr g ↦ inr (ground (arith, e), rw (e, g) (ground (arith, g), omega arith))
      ]
]

buffer_size-split_from :
    (mode : Mode) (c : VllmConfig) (rows : List Request) (fuel lim : ℕ)
    → IsLegal c rows
    → let step = compress (indexer_compress_ratio c) rows in
      let most = stock_workspace_entries c.max_model_len in
      (buffer_size mode c ≤ most)
      × (split_from fuel (buffer_size mode c) lim 0 step ≡ split_from fuel most lim 0 step)
buffer_size-split_from mode c rows fuel lim legal =
    let step = compress (indexer_compress_ratio c) rows in
    let most = stock_workspace_entries c.max_model_len in
    elim (buffer_size-cases mode c) [
      | inl e ↦ (omega (arith, e), ap (λ size. split_from fuel size lim 0 step) e)
      | inr (pos, (e, small)) ↦
          let room : sum_of step ≤ buffer_size mode c =
            omega (arith, e, sum_of-legal c rows pos legal) in
          (
            small,
            split_from-same fuel (buffer_size mode c) most lim 0 step room
                (omega (arith, room, small)),
          )
    ]

-- the splits of a workspace that the builder starts with, and of the stock one, are the same
abbrev IsStock : VllmConfig → List Request → ℕ → ℕ → ℕ → Type 0
IsStock c rows ratio lim n =
    let step = compress ratio rows in
    let most = stock_workspace_entries c.max_model_len in
    (n ≤ most) × (split_from (length step) n lim 0 step ≡ split_from (length step) most lim 0 step)

check_mode-IsStock :
    (mode : Mode) (c : VllmConfig) (rows : List Request) (ratio size lim : ℕ) {n : ℕ}
    → buffer_size mode c ≡ size
    → check_mode mode c ratio size ≡ ok n
    → IsLegal c rows
    → IsStock c rows ratio lim n
unfolding check_mode check_ratio buffer_size
check_mode-IsStock stock c rows ratio size lim {n = n} e h legal =
    let same : stock_workspace_entries c.max_model_len ≡ n = cc (e, h) in
    (
      omega (arith, same),
      ap (λ k. split_from (length (compress ratio rows)) k lim 0 (compress ratio rows)) (sym same),
    )
check_mode-IsStock rightsize c rows ratio size lim {n = n} e h legal =
    let (agreed, rest) =
      past_guard (not (indexer_compress_ratio c == ratio))
        (ratio_disagreement (indexer_compress_ratio c) ratio) h in
    let need = rightsized_workspace_entries c in
    let most = stock_workspace_entries c.max_model_len in
    let (_, kept) =
      past_guard (ltb size (min need most)) (below_legal_maximum size need) {r = ok size} rest in
    let same : indexer_compress_ratio c ≡ ratio = ground (arith, agreed) in
    let taken : buffer_size rightsize c ≡ n = cc (e, kept) in
    subst (λ k. IsStock c rows k lim n) same
      (subst (λ k. IsStock c rows (indexer_compress_ratio c) lim k) taken
        (buffer_size-split_from rightsize c rows _ lim legal))

-- Where the builder starts, whatever the variable is, a step that the scheduler admits is split into the
-- same chunks as with the stock size, which the workspace does not exceed: at most `max_num_seqs`
-- requests, with at least one token each, at most `max_num_batched_tokens` together, and no
-- sequence longer than the model's length and the speculative tokens.
pub build_workspace-IsStock :
    (env : Option String) (c : VllmConfig) (ratio : ℕ) (rows : List Request) (max_logits_bytes : ℕ)
    {n : ℕ}
    → build_workspace env c ratio ≡ ok n
    → IsLegal c rows
    → let step = compress ratio rows in
      let most = stock_workspace_entries c.max_model_len in
      (n ≤ most)
      × (split_prefill_chunks step n max_logits_bytes
          ≡ split_prefill_chunks step most max_logits_bytes)
unfolding build_workspace get_max_prefill_buffer_size split_prefill_chunks
build_workspace-IsStock env c ratio rows bytes h legal =
    let (size, (got, rest)) = ok_chain (get_max_prefill_buffer_size env c) _ h in
    let (mode, (chosen, checked)) = ok_chain (workspace_mode env) _ rest in
    let sized : buffer_size mode c ≡ size = cc (chosen, got) in
    check_mode-IsStock mode c rows ratio size (bytes / 4) sized checked legal
