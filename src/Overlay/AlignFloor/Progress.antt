-- ===== src/Overlay/AlignFloor/Progress.antt =====
-- That a chunk keeps a token with the switch on, and what the switch changes.
use glm5_3_flash_2x_dgx_spar.Prelude.{
  ℕ, ◌*◌, ◌/◌, ◌≤◌, ◌<◌, ◌≡◌, refl, Bool, true, false, Option, none, some, ltb, leb, arith,
  Bool-cases, ◌⊎◌, inl, inr,
}
use native.Mathlib.Nat.{div-mul-le_self}
use glm5_3_flash_2x_dgx_spar.Text.{Text}
use glm5_3_flash_2x_dgx_spar.Overlay.AlignFloor.{align_floor, split_end}

align_floor-once :
    (cache : Option Bool) (env later_env : Option Text)
    → (align_floor (align_floor cache env).1 later_env).0 ≡ (align_floor cache env).0
unfolding align_floor
align_floor-once (some cached) env later_env = refl
align_floor-once none env later_env = refl

-- With the switch on, a chunk that has a token keeps one, its end does not grow, and it is on a block
-- boundary wherever one lies after the start. The switch makes a difference only where blocks are no
-- larger than the prefill limit and no boundary lies after the start; and it is the same at every
-- later call.
pub split_end-IsProgress :
    (block_size max_prefill_tokens start end : ℕ) (env later_env : Option Text)
    (cache : Option Bool)
    → start < end
    → let aligned_end = end / block_size * block_size in
      let to = split_end true block_size max_prefill_tokens start end in
      let first = align_floor cache env in
      ((start < to) × (to ≤ end))
      × (((to ≡ aligned_end) ⊎ (aligned_end ≤ start))
          × (((to ≡ split_end false block_size max_prefill_tokens start end)
                ⊎ ((block_size ≤ max_prefill_tokens) × (aligned_end ≤ start)))
              × ((align_floor first.1 later_env).0 ≡ first.0)))
unfolding split_end
split_end-IsProgress bs most start end env later_env cache h =
    let aligned_end = end / bs * bs in
    let below = div-mul-le_self end bs in
    let cached = align_floor-once cache env later_env in
    elim (Bool-cases (ltb start aligned_end)) [
      | inl a ↦ rw a ((ground (arith, a), below), (inl refl, (inl refl, cached)))
      | inr a ↦
          let no_boundary : aligned_end ≤ start = ground (arith, a) in
          elim (Bool-cases (leb bs most)) [
            | inl b ↦
                rw (a, b)
                  (
                    (h, omega arith),
                    (inr no_boundary, (inr (ground (arith, b), no_boundary), cached)),
                  )
            | inr b ↦ rw (a, b) ((h, omega arith), (inr no_boundary, (inl refl, cached)))
          ]
    ]
