-- ===== src/Overlay/AlignFloor.antt =====
-- vllm-exl3/overlay/patch_align_floor.py: the inserted switch, and the truncation of a prefill chunk to the
-- block boundary in `_mamba_block_aligned_split`.
pub mod Progress
use glm5_3_flash_2x_dgx_spar.Prelude.{
  ℕ, ◌*◌, ◌/◌, Bool, true, false, not, ◌&&◌, ◌||◌, Option, none, some, List, [], ◌∷◌, map, any, ltb,
  leb, if◌then◌else◌,
}
use glm5_3_flash_2x_dgx_spar.Text.{Text, codes, lower, strip, text_eq}

abbrev or_one : Option Text → Text
or_one none = codes "1"
or_one (some raw) = raw

is_on : Text → Bool
is_on v =
    not (
      any (λ w. text_eq w v) (codes "0" ∷ codes "off" ∷ codes "false" ∷ codes "no" ∷ codes "" ∷ []))

-- `_GLM53_ALIGN_FLOOR`, read from `GLM53_ALIGN_FLOOR` at the first call; and what it is afterwards
unfoldable pub align_floor : Option Bool → Option Text → Bool × Option Bool
unfolding is_on
align_floor (some cached) env = (cached, some cached)
align_floor none env = let v = is_on (map lower (strip (or_one env))) in (v, some v)

-- of the chunk from `start` to `end`, its end after the truncation
unfoldable pub split_end : Bool → ℕ → ℕ → ℕ → ℕ → ℕ
split_end floor block_size max_prefill_tokens start end =
    let aligned_end = end / block_size * block_size in
    if ltb start aligned_end || leb block_size max_prefill_tokens && not floor
    then aligned_end
    else end
