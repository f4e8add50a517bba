-- ===== src/AdaptiveK/Apply/Runs.antt =====
-- Policies that a run of the scheduler can reach, and what holds of them all.
use glm5_3_flash_2x_dgx_spar.Prelude.{
  ℕ, ◌+◌, ◌≤◌, String, ◌≡◌, ◌≢◌, inl, inr, refl, sym, ap, ◌∙◌, subst, ◌||◌, not, Option, none, some,
  List, [], ◌∷◌, min, arith, ◌==◌, length, All, All-map, Result, ok, err, traverse_raises,
  Result-cases, Bool-cases,
}
use glm5_3_flash_2x_dgx_spar.Number.{Float}
use glm5_3_flash_2x_dgx_spar.AdaptiveK.{
  Error, empty_min, Policy, Batch, min_of, choose, observe, width,
}
use glm5_3_flash_2x_dgx_spar.AdaptiveK.Choices.{choose-IsWidth, choose_raises, min_of-le}
use glm5_3_flash_2x_dgx_spar.AdaptiveK.Sound.{IsSound, count-IsSound, observe-IsSound}
use glm5_3_flash_2x_dgx_spar.AdaptiveK.Reload.{Settings, OverrideFile, init}
use glm5_3_flash_2x_dgx_spar.AdaptiveK.Reload.Sizes.{init-IsSound}
use glm5_3_flash_2x_dgx_spar.AdaptiveK.Apply.{
  choice_of, choices, refresh, is_empty, trimmed, apply, Running, add_size, draft_sizes,
  smallest_or, batch_k,
}
use glm5_3_flash_2x_dgx_spar.AdaptiveK.Apply.Outcomes.{refresh-IsSound, boot_set-refresh}
use glm5_3_flash_2x_dgx_spar.AdaptiveK.Apply.Widths.{min_of-pos}

module _ {F : Type 0} ⦃f : Float F⦄ where
  -- The policies after any sequence of calls, an exception of a call included.
  pub data Reachable (env : Settings F) : Policy F → Type 0 where
    started : (file : OverrideFile F) → Reachable env (init env file)
    observed :
        {p : Policy F} (req_id : String) (num_draft num_accepted : ℕ)
        → Reachable env p
        → Reachable env (observe p req_id num_draft num_accepted)
    applied :
        {p : Policy F} (file : OverrideFile F) (reqs : Batch) (live_ids : List String)
        → Reachable env p
        → Reachable env (apply file p reqs live_ids).1
    batched :
        {p : Policy F} (file : OverrideFile F) (k : ℕ) (reqs : List (Option Running))
        (live_ids : List String)
        → Reachable env p
        → Reachable env (batch_k file p k reqs live_ids).1

  Sound_later : (p : Policy F) → IsSound p → IsSound (record p { steps = p.steps + 1 })
  Sound_later p h = record {
    sizes = h.sizes;
    sized = h.sized;
    top = h.top;
    counted = omega (arith, h.counted);
  }

  trimmed-IsSound :
      (q : Policy F) (reqs : Batch) (live_ids : List String)
      → IsSound q
      → IsSound (trimmed q reqs live_ids).1
  unfolding trimmed
  trimmed-IsSound q reqs live_ids h = elim (Result-cases (choices q reqs)) [
    | inl (picks, e) ↦ rw (e, trimmed) (count-IsSound q (width q reqs picks) live_ids h)
    | inr (x, e) ↦ rw (e, trimmed) h
  ]

  apply-IsSound :
      (file : OverrideFile F) (p : Policy F) (reqs : Batch) (live_ids : List String)
      → IsSound p
      → IsSound (apply file p reqs live_ids).1
  unfolding apply
  apply-IsSound file p reqs live_ids h =
      let q = refresh file p in
      let hq = refresh-IsSound file p h in
      elim (Bool-cases (not q.enabled || is_empty reqs)) [
        | inl e ↦ rw e (Sound_later q hq)
        | inr e ↦ rw e (trimmed-IsSound q reqs live_ids hq)
      ]

  batch_k-IsSound :
      (file : OverrideFile F) (p : Policy F) (k : ℕ) (reqs : List (Option Running))
      (live_ids : List String)
      → IsSound p
      → IsSound (batch_k file p k reqs live_ids).1
  unfolding batch_k
  batch_k-IsSound file p k reqs live_ids h =
      let q = refresh file p in
      let hq = refresh-IsSound file p h in
      elim (Bool-cases (not q.enabled || k == 0)) [
        | inl e ↦ rw e (Sound_later q hq)
        | inr e ↦ elim (Result-cases (draft_sizes q k reqs)) [
          | inl (ns, g) ↦ rw (e, batch_k, g) (count-IsSound q (smallest_or k ns) live_ids hq)
          | inr (x, g) ↦ rw (e, batch_k, g) hq
        ]
      ]

  -- Whatever the scheduler calls and whatever the override file says at each look, the sizes in use
  -- are among those of the start, some are left if there were any, the largest size stays that of the
  -- start, and the histogram counts no more steps than were taken.
  pub Reachable-IsSound : (env : Settings F) {p : Policy F} → Reachable env p → IsSound p
  Reachable-IsSound env (started file) = init-IsSound env file
  Reachable-IsSound env (observed {p = p} req_id d a r) =
      observe-IsSound p req_id d a (Reachable-IsSound env r)
  Reachable-IsSound env (applied {p = p} file reqs live_ids r) =
      apply-IsSound file p reqs live_ids (Reachable-IsSound env r)
  Reachable-IsSound env (batched {p = p} file k reqs live_ids r) =
      batch_k-IsSound file p k reqs live_ids (Reachable-IsSound env r)

  choices_raises : (p : Policy F) (reqs : Batch) → choices p reqs ≡ err empty_min → p.k_set ≡ []
  unfolding choices
  choices_raises p [] h = absurd (cc h)
  choices_raises p ((r, s) ∷ reqs) h = elim (traverse_raises (choice_of p) (r, s) reqs h) [
    | inl e ↦ choose_raises p r.request_id (length r.spec_token_ids) s e
    | inr e ↦ choices_raises p reqs e
  ]

  trimmed_raises :
      (q : Policy F) (reqs : Batch) (live_ids : List String)
      → (trimmed q reqs live_ids).0 ≡ err empty_min
      → q.k_set ≡ []
  unfolding trimmed
  trimmed_raises q reqs live_ids h = elim (Result-cases (choices q reqs)) [
    | inl (picks, e) ↦ absurd (cc (rw (e, trimmed) at h))
    | inr (x, e) ↦ choices_raises q reqs (e ∙ cc (rw (e, trimmed) at h))
  ]

  apply_raises :
      (file : OverrideFile F) (p : Policy F) (reqs : Batch) (live_ids : List String)
      → (apply file p reqs live_ids).0 ≡ err empty_min
      → (refresh file p).k_set ≡ []
  unfolding apply
  apply_raises file p reqs live_ids h =
      elim (Bool-cases (not (refresh file p).enabled || is_empty reqs)) [
        | inl e ↦ absurd (cc (rw e at h))
        | inr e ↦ trimmed_raises (refresh file p) reqs live_ids (rw e at h)
      ]

  -- In a run that started with at least one size, `apply` never takes the minimum of an empty set.
  pub Reachable-apply :
      (env : Settings F) {p : Policy F} (file : OverrideFile F) (reqs : Batch)
      (live_ids : List String)
      → Reachable env p
      → p.boot_set ≢ []
      → (apply file p reqs live_ids).0 ≢ err empty_min
  Reachable-apply env {p} file reqs live_ids r some_size h =
      let sound = refresh-IsSound file p (Reachable-IsSound env r) in
      some_size (sym (boot_set-refresh file p) ∙ sound.sized (apply_raises file p reqs live_ids h))

-- every size that the loop of `batch_k` collects
abbrev Within : ℕ → List ℕ → Type 0
Within k = All (λ n. (1 ≤ n) × (n ≤ k))

add_size-Within :
    (k : ℕ) (c : Option ℕ) (rest : Result Error (Option (List ℕ))) (ns : List ℕ)
    → ((n : ℕ) → c ≡ some n → (1 ≤ n) × (n ≤ k))
    → ((l : List ℕ) → rest ≡ ok (some l) → Within k l)
    → add_size c rest ≡ ok (some ns)
    → Within k ns
unfolding add_size
add_size-Within k none rest ns hc hr h = absurd (cc h)
add_size-Within k (some n) (err e) ns hc hr h = absurd (cc h)
add_size-Within k (some n) (ok none) ns hc hr h = absurd (cc h)
add_size-Within k (some n) (ok (some l)) ns hc hr h =
    let e : n ∷ l ≡ ns = cc h in subst (Within k) e (hc n refl, hr l refl)

Within-least : (k n : ℕ) (ns : List ℕ) → Within k (n ∷ ns) → (1 ≤ min_of n ns) × (min_of n ns ≤ k)
Within-least k n ns h = (
  min_of-pos n ns h.0.0 (All-map _ (λ v. 1 ≤ v) ns (λ v p. p.0) h.1),
  omega (arith, (min_of-le n ns).0, h.0.1),
)

smallest_or_bounds :
    (k : ℕ) (ns : Option (List ℕ))
    → ((l : List ℕ) → ns ≡ some l → Within k l)
    → (smallest_or k ns ≤ k) × (min 1 k ≤ smallest_or k ns)
smallest_or_bounds k none h = (omega arith, omega arith)
smallest_or_bounds k (some []) h = (omega arith, omega arith)
smallest_or_bounds k (some (n ∷ ns)) h =
    let w = Within-least k n ns (h (n ∷ ns) refl) in (w.1, omega (arith, w.0))

module _ {F : Type 0} ⦃f : Float F⦄ where
  draft_sizes-Within :
      (p : Policy F) (k : ℕ) (reqs : List (Option Running)) (ns : List ℕ)
      → draft_sizes p k reqs ≡ ok (some ns)
      → Within k ns
  unfolding draft_sizes
  draft_sizes-Within p k [] ns h = let e : [] ≡ ns = cc h in subst (Within k) e tt
  draft_sizes-Within p k (none ∷ reqs) ns h = draft_sizes-Within p k reqs ns h
  draft_sizes-Within p k (some r ∷ reqs) ns h = elim (Bool-cases r.is_prefill_chunk) [
    | inl e ↦ draft_sizes-Within p k reqs ns (rw e at h)
    | inr e ↦ elim (Result-cases (choose p r.request_id k r.use_structured_output)) [
      | inr (x, c) ↦ absurd (cc (rw (e, c) at h))
      | inl (c, g) ↦
          add_size-Within k c (draft_sizes p k reqs) ns
            (λ n q.
              let w = (choose-IsWidth p r.request_id k r.use_structured_output (g ∙ ap ok q)).0 in
              (w.at_least, w.at_most))
            (draft_sizes-Within p k reqs) (rw (e, g) at h)
    ]
  ]

  -- A length that `batch_k` returns is at most `k`, and at least 1 where `k` is.
  pub batch_k-le :
      (file : OverrideFile F) (p : Policy F) (k : ℕ) (reqs : List (Option Running))
      (live_ids : List String) {n : ℕ}
      → (batch_k file p k reqs live_ids).0 ≡ ok n
      → (n ≤ k) × (min 1 k ≤ n)
  unfolding batch_k
  batch_k-le file p k reqs live_ids {n} h =
      let q = refresh file p in
      elim (Bool-cases (not q.enabled || k == 0)) [
        | inl e ↦ let same : k ≡ n = cc (rw e at h) in (omega arith, omega arith)
        | inr e ↦ elim (Result-cases (draft_sizes q k reqs)) [
          | inr (x, g) ↦ absurd (cc (rw (e, batch_k, g) at h))
          | inl (ns, g) ↦
              let same : smallest_or k ns ≡ n = cc (rw (e, batch_k, g) at h) in
              subst (λ m. (m ≤ k) × (min 1 k ≤ m)) same
                (smallest_or_bounds k ns (λ l c. draft_sizes-Within q k reqs l (g ∙ ap ok c)))
        ]
      ]
