-- ===== src/AdaptiveK/Warmup.antt =====
-- A request gets a length of its own once it has been observed often enough.
use glm5_3_flash_2x_dgx_spar.Prelude.{
  ℕ, ◌+◌, ◌≤◌, String, ◌≡◌, ◌≢◌, inl, inr, sym, ◌∙◌, true, false, ◌||◌, not, none, some, List, [],
  ◌∷◌, min, max, arith, ltb, leb, ◌==◌, length, keep_if, All, get, get-put_self, ok, Option-cases,
  Result-cases,
}
use glm5_3_flash_2x_dgx_spar.Number.{Float, ◌+ᶠ◌}
use glm5_3_flash_2x_dgx_spar.AdaptiveK.{Track, Policy, observe, choose, pick, select}
use glm5_3_flash_2x_dgx_spar.AdaptiveK.Choices.{select_raises}

warm_enough : (a b : ℕ) → b ≤ a → ltb a b ≡ false
warm_enough a b h = ground arith

module _ {F : Type 0} where
  -- how often the request was observed since its track was made
  abbrev pub seen : Policy F → String → ℕ
  seen p req_id = elim (get req_id p.state) [ none ↦ 0 | some st ↦ st.observed ]

module _ {F : Type 0} ⦃f : Float F⦄ where
  -- one `observe` after another, of (drafted, accepted) counts
  abbrev pub observe_all : Policy F → String → List (ℕ × ℕ) → Policy F
  observe_all p req_id [] = p
  observe_all p req_id ((d, a) ∷ l) = observe_all (observe p req_id d a) req_id l

  observes : (p : Policy F) (d : ℕ) → p.enabled ≡ true → 1 ≤ d → (not p.enabled || d == 0) ≡ false
  observes p d on pos = ground arith

  seen-observe :
      (p : Policy F) (req_id : String) (d a : ℕ)
      → p.enabled ≡ true
      → 1 ≤ d
      → seen (observe p req_id d a) req_id ≡ seen p req_id + 1
  unfolding observe
  seen-observe p req_id d a on pos = elim (Option-cases (get req_id p.state)) [
    | inl g ↦ rw (observes p d on pos, g, get-put_self, seen) (omega arith)
    | inr (st, g) ↦ rw (observes p d on pos, g, get-put_self, seen)
  ]

  enabled-observe :
      (p : Policy F) (req_id : String) (d a : ℕ) → (observe p req_id d a).enabled ≡ p.enabled
  unfolding observe
  enabled-observe p req_id d a = ground arith

  k_set-observe :
      (p : Policy F) (req_id : String) (d a : ℕ) → (observe p req_id d a).k_set ≡ p.k_set
  unfolding observe
  k_set-observe p req_id d a = ground arith

  min_steps-observe :
      (p : Policy F) (req_id : String) (d a : ℕ) → (observe p req_id d a).min_steps ≡ p.min_steps
  unfolding observe
  min_steps-observe p req_id d a = ground arith

  choosing :
      (p : Policy F) (k : ℕ) → p.enabled ≡ true → 1 ≤ k → (not p.enabled || false || k == 0) ≡ false
  choosing p k on pos = ground arith

  pick-some :
      (p : Policy F) (k : ℕ) (st : Track F)
      → (m : ℕ) × (f.ceil (st.ema +ᶠ p.margin) ≡ some m)
      → p.k_set ≢ []
      → (n : ℕ) × (pick p k st ≡ ok (some n))
  unfolding pick
  pick-some p k st finite sizes =
      let (target, e) = finite in
      let cands = keep_if (λ v. leb v (min target k)) p.k_set in
      elim (Result-cases (select p.k_set cands)) [
        | inl (m, sel) ↦ (max 1 (min m k), rw (e, pick, sel))
        | inr (x, sel) ↦ absurd (sizes (select_raises p.k_set cands sel))
      ]

  -- the moving average of the request has a ceiling with the margin, as every finite float has
  abbrev pub HasTarget : Policy F → String → Type 0
  HasTarget p req_id =
      (st : Track F)
      → get req_id p.state ≡ some st
      → (m : ℕ) × (f.ceil (st.ema +ᶠ p.margin) ≡ some m)

  choose-some :
      (p : Policy F) (req_id : String) (k : ℕ)
      → HasTarget p req_id
      → p.k_set ≢ []
      → p.enabled ≡ true
      → 1 ≤ k
      → 1 ≤ seen p req_id
      → p.min_steps ≤ seen p req_id
      → (n : ℕ) × (choose p req_id k false ≡ ok (some n))
  unfolding choose
  choose-some p req_id k finite sizes on pos some_seen warm =
      elim (Option-cases (get req_id p.state)) [
        | inl g ↦ absurd (let none_seen : 1 ≤ 0 = rw (g, seen) at some_seen in omega arith)
        | inr (st, g) ↦
            let enough : p.min_steps ≤ st.observed = rw (g, seen) at warm in
            let (n, e) = pick-some p k st (finite st g) sizes in
            (n, rw (choosing p k on pos, g, warm_enough st.observed p.min_steps enough, e))
      ]

  -- An enabled policy with at least one size returns a length for a request that is not structured
  -- once the request has been observed `min_steps` times with drafted tokens, and at least once, if
  -- at the end its moving average has a ceiling with the margin, as every finite float has.
  pub choose-observe_all :
      (p : Policy F) (req_id : String) (k : ℕ) (l : List (ℕ × ℕ))
      → HasTarget (observe_all p req_id l) req_id
      → p.k_set ≢ []
      → p.enabled ≡ true
      → All (λ o. 1 ≤ o.0) l
      → 1 ≤ k
      → 1 ≤ length l + seen p req_id
      → p.min_steps ≤ length l + seen p req_id
      → (n : ℕ) × (choose (observe_all p req_id l) req_id k false ≡ ok (some n))
  choose-observe_all p req_id k [] finite sizes on drafted pos some_seen warm =
      choose-some p req_id k finite sizes on pos (omega arith) (omega arith)
  choose-observe_all p req_id k ((d, a) ∷ l) finite sizes on drafted pos some_seen warm =
      let one_more = seen-observe p req_id d a on drafted.0 in
      choose-observe_all (observe p req_id d a) req_id k l finite
        (λ e. sizes (sym (k_set-observe p req_id d a) ∙ e)) (enabled-observe p req_id d a ∙ on)
        drafted.1 pos (omega arith) (omega (arith, min_steps-observe p req_id d a))
