-- ===== src/AdaptiveK.antt =====
-- `_Glm53AdaptiveK`, the scheduler policy that vllm-exl3/overlay/patch_adaptive_k.py installs: how
-- many draft tokens of each request the target model verifies.
-- Lengths and counts are natural numbers: a negative `min_steps` or `hist_every` acts as 0 does,
-- and the sizes of `k_set` are taken to be natural. The texts of the settings and of the override
-- file stand as `strip().lower()` leaves them; messages that are only printed are left out.
pub mod Choices
pub mod Sound
pub mod Warmup
pub mod Reload
pub mod Apply
mod Tests
use glm5_3_flash_2x_dgx_spar.Prelude.{
  ℕ, zero, suc, ◌+◌, ◌%◌, min, max, String, Bool, true, false, not, ◌&&◌, ◌||◌, Option, none, some,
  List, [], ◌∷◌, map, ltb, leb, ◌==◌, if◌then◌else◌, length, take, any, all, keep_if, is_some, Dict,
  get, put, str_eq, Result, ok, err, ◌>>=◌, traverse,
}
use glm5_3_flash_2x_dgx_spar.Number.{Float, ◌+ᶠ◌, ◌-ᶠ◌, ◌*ᶠ◌}

-- What a call may raise: `min()` of no values, `math.ceil` of a NaN or an infinity.
pub data Error : Type 0 where
  empty_min not_finite : Error

-- `self.state[req_id]`: the moving average and the number of observed steps
pub record Track (F : Type 0) : Type 0 where
  pub ema : F
  pub observed : ℕ

pub record Policy (F : Type 0) : Type 0 where
  pub enabled : Bool
  pub graphs_enabled : Bool
  pub alpha : F
  pub margin : F
  pub min_steps : ℕ
  pub k_set : List ℕ
  pub saturate : String
  pub hist_every : ℕ
  pub batch_margin : Bool
  pub pos_trim : Bool
  pub state : Dict (Track F)
  pub hist : List (ℕ × ℕ)
  pub steps : ℕ
  pub k_max : ℕ
  pub boot_set : List ℕ
  pub boot_enabled : Bool
  pub file_mtime : Option ℕ

pub record Request : Type 0 where
  pub request_id : String
  pub spec_token_ids : List ℕ

-- a request with its `structured` flag
abbrev pub Batch : Type 0
Batch = List (Request × Bool)

-- `min(x, *xs)` and `max(x, *xs)`
abbrev pub min_of : ℕ → List ℕ → ℕ
min_of x [] = x
min_of x (y ∷ ys) = min_of (min x y) ys

abbrev pub max_of : ℕ → List ℕ → ℕ
max_of x [] = x
max_of x (y ∷ ys) = max_of (max x y) ys

-- `sorted({x, ...})`
abbrev pub insert_distinct : ℕ → List ℕ → List ℕ
insert_distinct x [] = x ∷ []
insert_distinct x (y ∷ ys) =
    if x == y then y ∷ ys else if ltb x y then x ∷ y ∷ ys else y ∷ insert_distinct x ys

abbrev pub sorted_set : List ℕ → List ℕ
sorted_set [] = []
sorted_set (x ∷ xs) = insert_distinct x (sorted_set xs)

-- `min(...)` of a list that may be empty
pub least : List ℕ → Result Error ℕ
least [] = err empty_min
least (x ∷ xs) = ok (min_of x xs)

-- the largest candidate, or else the smallest size of the set
pub select : List ℕ → List ℕ → Result Error ℕ
unfolding least
select k_set [] = least k_set
select k_set (c ∷ cs) = ok (max_of c cs)

-- `v in xs`
abbrev pub contains : List ℕ → ℕ → Bool
contains xs v = any (λ x. x == v) xs

-- `max(self.k_set) if self.k_set else 0`
abbrev pub largest : List ℕ → ℕ
largest [] = 0
largest (x ∷ xs) = max_of x xs

module _ {F : Type 0} ⦃f : Float F⦄ where
  saturated : Policy F → ℕ → ℕ → Bool
  saturated p num_draft num_accepted = leb num_draft num_accepted && not (str_eq p.saturate "n")

  -- one step of the moving average
  blend : Policy F → ℕ → F → F
  blend p obs old = f.of_ℕ obs *ᶠ p.alpha +ᶠ old *ᶠ (f.of_ℕ 1 -ᶠ p.alpha)

  pub observe : Policy F → String → ℕ → ℕ → Policy F
  unfolding saturated blend
  observe p req_id num_draft num_accepted =
      if not p.enabled || num_draft == 0
      then p
      else let obs =
          if saturated p num_draft num_accepted then max p.k_max num_draft else num_accepted in
        record p {
          state =
              put req_id
                (elim (get req_id p.state) [
                  | none ↦ record { ema = blend p obs (f.of_ℕ p.k_max); observed = 1 }
                  | some st ↦ record { ema = blend p obs st.ema; observed = st.observed + 1 }
                ])
                p.state;
        }

  pick : Policy F → ℕ → Track F → Result Error (Option ℕ)
  unfolding select
  pick p k st = elim (f.ceil (st.ema +ᶠ p.margin)) [
    | none ↦ err not_finite
    | some target ↦ select p.k_set (keep_if (λ v. leb v (min target k)) p.k_set) >>= λ n.
        ok (some (max 1 (min n k)))
  ]

  pub choose : Policy F → String → ℕ → Bool → Result Error (Option ℕ)
  unfolding pick
  choose p req_id k structured =
      if not p.enabled || structured || k == 0 then ok none else elim (get req_id p.state) [
        | none ↦ ok none
        | some st ↦ if ltb st.observed p.min_steps then ok none else pick p k st
      ]

-- `self.hist[n] = self.hist.get(n, 0) + 1`
pub bump : ℕ → List (ℕ × ℕ) → List (ℕ × ℕ)
bump n [] = (n, 1) ∷ []
bump n ((m, c) ∷ hist) = if m == n then (m, c + 1) ∷ hist else (m, c) ∷ bump n hist

live : {F : Type 0} → List String → Dict (Track F) → Dict (Track F)
live live_ids [] = []
live live_ids ((rid, st) ∷ d) = elim (any (str_eq rid) live_ids) [
  | true ↦ (rid, st) ∷ live live_ids d
  | false ↦ live live_ids d
]

pub count : {F : Type 0} → Policy F → ℕ → List String → Policy F
unfolding bump live
count p n live_ids =
    let steps = p.steps + 1 in
    record p {
      state =
          if ltb 0 p.hist_every && (steps % p.hist_every) == 0
          then live live_ids p.state
          else p.state;
      hist = bump n p.hist;
      steps = steps;
    }

-- Every value of the list, if all are known.
abbrev pub all_known : List (Option ℕ) → Option (List ℕ)
all_known [] = some []
all_known (none ∷ ps) = none
all_known (some v ∷ ps) = elim (all_known ps) [ none ↦ none | some vs ↦ some (v ∷ vs) ]

-- `[v for v in picks if v is not None]`
abbrev pub known : List (Option ℕ) → List ℕ
known [] = []
known (none ∷ ps) = known ps
known (some v ∷ ps) = v ∷ known ps

abbrev pub any_structured : Batch → Bool
any_structured = any (λ r. r.1)

margin_width : {F : Type 0} → Policy F → Batch → List (Option ℕ) → Option ℕ
margin_width p reqs picks =
    if not p.batch_margin || any_structured reqs
    then none
    else elim (known picks) [ [] ↦ none | v ∷ vs ↦ some (min_of v vs) ]

-- `min(self.k_set) if self.k_set else n`
abbrev floor : List ℕ → ℕ → ℕ
floor [] n = n
floor (x ∷ xs) n = min_of x xs

pos_width : {F : Type 0} → Policy F → Batch → List (Option ℕ) → ℕ → Option ℕ
pos_width p reqs picks n =
    if not (p.pos_trim && p.batch_margin)
    then none
    else if any_structured reqs
    then none
    else if ltb (length reqs) 2
    then none
    else if any (λ v. not (is_some v)) picks
    then none
    else if ltb (floor p.k_set n) n
    then some (min n (floor p.k_set n))
    else none

-- the longest row of a batch that is not empty
abbrev longest : Batch → ℕ
longest [] = 0
longest ((r, s) ∷ reqs) =
    max_of (length r.spec_token_ids) (map (λ q. length q.0.spec_token_ids) reqs)

or_else : Option ℕ → ℕ → ℕ
or_else none n = n
or_else (some m) n = m

-- the uniform width of the batch from the choices of its requests
pub width : {F : Type 0} → Policy F → Batch → List (Option ℕ) → ℕ
unfolding margin_width pos_width or_else
width p reqs picks = elim (all_known picks) [
  | some (v ∷ vs) ↦ let n = min_of v vs in or_else (pos_width p reqs picks n) n
  | some [] ↦ or_else (margin_width p reqs picks) (longest reqs)
  | none ↦ or_else (margin_width p reqs picks) (longest reqs)
]

-- `if len(r.spec_token_ids) > n: r.spec_token_ids = r.spec_token_ids[:n]`
trim : ℕ → Request → Request
trim n r =
    if ltb n (length r.spec_token_ids)
    then record r { spec_token_ids = take n r.spec_token_ids }
    else r

pub trim_all : ℕ → Batch → Batch
unfolding trim
trim_all n = map (λ (r, s). (trim n r, s))
