-- ===== src/AdaptiveK/Apply.antt =====
-- `apply` and `batch_k`: the two entry points that the scheduler and the unit tests call.
-- Every fiftieth step looks at the override file, which is an argument here.
pub mod Rows
pub mod Widths
pub mod Outcomes
pub mod Runs
use glm5_3_flash_2x_dgx_spar.Prelude.{
  ℕ, ◌+◌, ◌%◌, String, Bool, true, false, not, ◌||◌, Option, none, some, List, [], ◌∷◌, ◌==◌,
  length, if◌then◌else◌, Result, ok, err, ◌>>=◌, traverse,
}
use glm5_3_flash_2x_dgx_spar.Number.{Float}
use glm5_3_flash_2x_dgx_spar.AdaptiveK.{
  Error, Policy, Batch, Request, min_of, choose, count, width, trim_all,
}
use glm5_3_flash_2x_dgx_spar.AdaptiveK.Reload.{OverrideFile, reload}

-- the reload of every fiftieth step
unfoldable pub refresh : {F : Type 0} → OverrideFile F → Policy F → Policy F
refresh file p = if (p.steps % 50) == 0 then reload file p else p

-- `not reqs`
abbrev is_empty {ℓ} : {A : Type ℓ} → List A → Bool
is_empty [] = true
is_empty (x ∷ xs) = false

module _ {F : Type 0} ⦃f : Float F⦄ where
  abbrev pub choice_of : Policy F → Request × Bool → Result Error (Option ℕ)
  choice_of p (r, structured) = choose p r.request_id (length r.spec_token_ids) structured

  -- `self.choose(...)` for every request of the batch
  unfoldable pub choices : Policy F → Batch → Result Error (List (Option ℕ))
  choices p = traverse (choice_of p)

  -- the batch after the call; on an exception no row and no counter has changed
  trimmed : Policy F → Batch → List String → Result Error Batch × Policy F
  unfolding choices
  trimmed p reqs live_ids = elim (choices p reqs) [
    | err e ↦ (err e, p)
    | ok picks ↦ let n = width p reqs picks in (ok (trim_all n reqs), count p n live_ids)
  ]

  unfoldable pub apply :
      OverrideFile F → Policy F → Batch → List String → Result Error Batch × Policy F
  unfolding refresh trimmed
  apply file p reqs live_ids =
      let q = refresh file p in
      if not q.enabled || is_empty reqs
      then (ok reqs, record q { steps = q.steps + 1 })
      else trimmed q reqs live_ids

-- what `batch_k` reads of a request
pub record Running : Type 0 where
  pub request_id : String
  pub is_prefill_chunk : Bool
  pub use_structured_output : Bool

-- one round of the loop before the later ones
add_size : Option ℕ → Result Error (Option (List ℕ)) → Result Error (Option (List ℕ))
add_size none rest = ok none
add_size (some n) (err e) = err e
add_size (some n) (ok none) = ok none
add_size (some n) (ok (some ns)) = ok (some (n ∷ ns))

-- `k if not ns else min(ns)`
abbrev smallest_or : ℕ → Option (List ℕ) → ℕ
smallest_or k none = k
smallest_or k (some []) = k
smallest_or k (some (n ∷ ns)) = min_of n ns

module _ {F : Type 0} ⦃f : Float F⦄ where
  -- the loop: `none` after its `break`
  draft_sizes : Policy F → ℕ → List (Option Running) → Result Error (Option (List ℕ))
  unfolding add_size
  draft_sizes p k [] = ok (some [])
  draft_sizes p k (none ∷ reqs) = draft_sizes p k reqs
  draft_sizes p k (some r ∷ reqs) =
      let rest = draft_sizes p k reqs in
      if r.is_prefill_chunk
      then rest
      else choose p r.request_id k r.use_structured_output >>= λ c. add_size c rest

  unfoldable pub batch_k :
      OverrideFile F
      → Policy F
      → ℕ
      → List (Option Running)
      → List String
      → Result Error ℕ × Policy F
  unfolding refresh draft_sizes
  batch_k file p k reqs live_ids =
      let q = refresh file p in
      if not q.enabled || k == 0
      then (ok k, record q { steps = q.steps + 1 })
      else elim (draft_sizes q k reqs) [
        | err e ↦ (err e, q)
        | ok ns ↦ let n = smallest_or k ns in (ok n, count q n live_ids)
      ]
