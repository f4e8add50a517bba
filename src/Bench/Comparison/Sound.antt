-- ===== src/Bench/Comparison/Sound.antt =====
-- Which arms a comparison measures, and what its deltas compare.
use glm5_3_flash_2x_dgx_spar.Prelude.{
  ◌≡◌, refl, sym, ap, ◌∙◌, subst, Bool, true, false, Option, none, some, List, [], ◌∷◌, keep_if,
  All, Bool-cases, Result-cases, inl, inr, Result, ok, err, ◌>>=◌, ok_chain, Holds, if◌then◌else◌,
}
use glm5_3_flash_2x_dgx_spar.Number.{Float, ◌-ᶠ◌, ◌*ᶠ◌, ◌/ᶠ◌, ◌<ᶠ◌, ◌==ᶠ◌}
use glm5_3_flash_2x_dgx_spar.Text.{Text, text_eq}
use glm5_3_flash_2x_dgx_spar.Text.Equality.{eq-text_eq}
use glm5_3_flash_2x_dgx_spar.Bench.Env.{lookup, assign}
use glm5_3_flash_2x_dgx_spar.Bench.Specs.{Direction, lower, higher, neutral}
use glm5_3_flash_2x_dgx_spar.Bench.Stats.{StatsError, NumericStats, delta_pct}
use glm5_3_flash_2x_dgx_spar.Bench.Results.{ArmResult}
use glm5_3_flash_2x_dgx_spar.Bench.Comparison.{
  ArmStats, Tables, Row, Comparison, add_arm, add_arms, put_delta, add_delta, deltas_of, plain_row,
  row_of, rows_of, sort_metrics, build_comparison,
}

All-assign :
    {V : Type 0} (P : Text × V → Type 0) (key : Text) (v : V) (entries : List (Text × V))
    → All P entries
    → P (key, v)
    → All P (assign key v entries)
unfolding assign
All-assign P key v [] h g = (g, tt)
All-assign P key v ((k, w) ∷ entries) h g = elim (Bool-cases (text_eq k key)) [
  | inl e ↦ rw (e, assign) (subst (λ j. P (j, v)) (sym (eq-text_eq k key e)) g, h.1)
  | inr e ↦ rw (e, assign) (h.0, All-assign P key v entries h.1 g)
]

keep_if-true :
    {A : Type 0} (p : A → Bool) (x : A) (xs : List A)
    → p x ≡ true
    → keep_if p (x ∷ xs) ≡ x ∷ keep_if p xs
keep_if-true p x xs h = rw (h, keep_if) refl

keep_if-false :
    {A : Type 0} (p : A → Bool) (x : A) (xs : List A)
    → p x ≡ false
    → keep_if p (x ∷ xs) ≡ keep_if p xs
keep_if-false p x xs h = rw (h, keep_if) refl

chain_ext :
    {E A B : Type 0} (r : Result E A) (g h : A → Result E B)
    → ((a : A) → g a ≡ h a)
    → (r >>= g) ≡ (r >>= h)
chain_ext (ok a) g h same = same a
chain_ext (err e) g h same = refl

module _ {F : Type 0} ⦃f : Float F⦄ where
  add_arm-failed : (a : ArmResult F) (t : Tables F) → a.ok ≡ false → add_arm a t ≡ ok t
  unfolding add_arm
  add_arm-failed a t h = rw h refl

  add_arms-keep_if :
      (arms : List (ArmResult F)) (t : Tables F)
      → add_arms arms t ≡ add_arms (keep_if (λ a. a.ok) arms) t
  unfolding add_arms
  add_arms-keep_if [] t = refl
  add_arms-keep_if (a ∷ arms) t = elim (Bool-cases a.ok) [
    | inl e ↦
        subst (λ kept. add_arms (a ∷ arms) t ≡ add_arms kept t)
          (sym (keep_if-true (λ b. b.ok) a arms e))
          (chain_ext (add_arm a t) (λ more. add_arms arms more)
            (λ more. add_arms (keep_if (λ b. b.ok) arms) more) (λ more. add_arms-keep_if arms more))
    | inr e ↦
        subst (λ kept. add_arms (a ∷ arms) t ≡ add_arms kept t)
          (sym (keep_if-false (λ b. b.ok) a arms e))
          (ap (λ r. r >>= λ more. add_arms arms more) (add_arm-failed a t e)
            ∙ add_arms-keep_if arms t)
  ]

  -- the change of a candidate for the better, where lower values are better; else its increase
  abbrev pub gain : Direction → F → F → F
  gain lower base candidate = base -ᶠ candidate
  gain higher base candidate = candidate -ᶠ base
  gain neutral base candidate = candidate -ᶠ base

  -- the gain in percent of the magnitude of the baseline, where there is one that is not zero
  abbrev pub percent : Direction → Option F → Option F → Option F
  percent direction none candidate = none
  percent direction (some b) none = none
  percent direction (some b) (some c) =
      if b ==ᶠ f.of_ℕ 0
      then none
      else some (gain direction b c /ᶠ (if b <ᶠ f.of_ℕ 0 then f.of_ℕ 0 -ᶠ b else b) *ᶠ f.of_ℕ 100)

  delta_pct-percent :
      (direction : Direction) (b c : Option F) → delta_pct b c direction ≡ percent direction b c
  unfolding delta_pct
  delta_pct-percent direction none c = refl
  delta_pct-percent direction (some b) none = refl
  delta_pct-percent lower (some b) (some c) = refl
  delta_pct-percent higher (some b) (some c) = refl
  delta_pct-percent neutral (some b) (some c) = refl

  -- the delta of another arm than the baseline: the change from the median that the row has for the
  -- baseline to the one that it has for this arm
  abbrev pub IsDelta : Text → Row F → Text × Option F → Type 0
  IsDelta first row (name, delta) =
      (text_eq name first ≡ false)
      × ((base : NumericStats F) × ((stats : NumericStats F) × ((lookup first row.arms ≡ some base)
              × ((lookup name row.arms ≡ some stats)
                  × (delta ≡ percent row.direction base.median stats.median)))))

  -- the baseline of a row, if it has one, is what the row has for the arm of this name
  IsBaseline : Text → Row F → Type 0
  IsBaseline first row =
      (base : NumericStats F) → row.baseline ≡ some base → lookup first row.arms ≡ some base

  put_delta-IsDelta :
      (first : Text) (row : Row F) (base stats : Option (NumericStats F)) (name : Text)
      (deltas : List (Text × Option F))
      → text_eq name first ≡ false
      → ((b : NumericStats F) → base ≡ some b → lookup first row.arms ≡ some b)
      → lookup name row.arms ≡ stats
      → All (IsDelta first row) deltas
      → All (IsDelta first row) (put_delta base stats row.direction name deltas)
  unfolding put_delta
  put_delta-IsDelta first row none stats name deltas other hb hs h = h
  put_delta-IsDelta first row (some base) none name deltas other hb hs h = h
  put_delta-IsDelta first row (some base) (some stats) name deltas other hb hs h =
      All-assign (IsDelta first row) name (delta_pct base.median stats.median row.direction) deltas
        h
        (
          other,
          (
            base,
            (stats, (hb base refl, (hs, delta_pct-percent row.direction base.median stats.median))),
          ),
        )

  add_delta-IsDelta :
      (first : Text) (row : Row F) (name : Text) (deltas : List (Text × Option F))
      → IsBaseline first row
      → All (IsDelta first row) deltas
      → All (IsDelta first row) (add_delta first row name deltas)
  unfolding add_delta IsBaseline
  add_delta-IsDelta first row name deltas known h = elim (Bool-cases (text_eq name first)) [
    | inl e ↦ rw (e, add_delta) h
    | inr e ↦
        rw (e, add_delta)
          (put_delta-IsDelta first row row.baseline (lookup name row.arms) name deltas e known refl
            h)
  ]

  deltas_of-IsDelta :
      (first : Text) (row : Row F) (arms : List (ArmResult F)) (deltas : List (Text × Option F))
      → IsBaseline first row
      → All (IsDelta first row) deltas
      → All (IsDelta first row) (deltas_of first row arms deltas)
  unfolding deltas_of
  deltas_of-IsDelta first row [] deltas known h = h
  deltas_of-IsDelta first row (a ∷ arms) deltas known h =
      deltas_of-IsDelta first row arms (add_delta first row a.name deltas) known
        (add_delta-IsDelta first row a.name deltas known h)

  -- a row has deltas only where the baseline is ok
  abbrev pub IsSoundRow : Text → Bool → Row F → Type 0
  IsSoundRow first true row = All (IsDelta first row) row.deltas
  IsSoundRow first false row = row.deltas ≡ []

  plain_row-IsBaseline :
      (first : Text) (directions : List (Text × Direction)) (m : Text × ArmStats F)
      → IsBaseline first (plain_row (some first) directions m)
  unfolding plain_row IsBaseline
  plain_row-IsBaseline [] directions m base h = absurd (cc h)
  plain_row-IsBaseline (c ∷ cs) directions m base h = h

  rows_of-IsSoundRow :
      (first : Text) (good : Bool) (arms : List (ArmResult F))
      (directions : List (Text × Direction)) (metrics : List (Text × ArmStats F))
      → All (IsSoundRow first good) (rows_of (some first) good arms directions metrics)
  unfolding rows_of row_of IsBaseline plain_row
  rows_of-IsSoundRow first good arms directions [] = tt
  rows_of-IsSoundRow first true arms directions (m ∷ ms) = (
    deltas_of-IsDelta first (plain_row (some first) directions m) arms []
        (plain_row-IsBaseline first directions m) tt,
    rows_of-IsSoundRow first true arms directions ms,
  )
  rows_of-IsSoundRow first false arms directions (m ∷ ms) =
      (refl, rows_of-IsSoundRow first false arms directions ms)

  -- The baseline of a comparison is the first arm, and ok exactly if that arm is. Where it is not, no row has
  -- a delta; where it is, each delta of a row is for another arm, and the change from the median that the
  -- row has for the first arm to the one that it has for the delta's, in percent, a decrease counting as
  -- a gain where lower is better.
  pub build_comparison-IsSoundRow :
      (first : ArmResult F) (arms : List (ArmResult F)) {c : Comparison F}
      → build_comparison (first ∷ arms) ≡ ok c
      → (c.baseline ≡ some first.name)
        × ((c.baseline_ok ≡ first.ok) × All (IsSoundRow first.name first.ok) c.rows)
  unfolding build_comparison
  build_comparison-IsSoundRow first arms h =
      let (t, (_, last)) =
        ok_chain (add_arms (first ∷ arms) (record { per_metric = []; directions = [] })) _ h in
      subst
        (Holds (λ c.
          (c.baseline ≡ some first.name)
          × ((c.baseline_ok ≡ first.ok) × All (IsSoundRow first.name first.ok) c.rows)))
        last
        (
          refl,
          (
            refl,
            rows_of-IsSoundRow first.name first.ok (first ∷ arms) t.directions
                (sort_metrics t.per_metric),
          ),
        )

  abbrev pub metrics_of :
      Result StatsError (Comparison F) → Result StatsError (List (Text × ArmStats F))
  metrics_of (ok c) = ok c.metrics
  metrics_of (err e) = err e

  no_tables : Tables F
  no_tables = record { per_metric = []; directions = [] }

  metrics_of-build_comparison :
      (arms : List (ArmResult F))
      → metrics_of (build_comparison arms) ≡ (add_arms arms no_tables >>= λ t. ok t.per_metric)
  unfolding build_comparison no_tables
  metrics_of-build_comparison arms =
      elim (Result-cases (add_arms arms (record { per_metric = []; directions = [] }))) [
        | inl (t, e) ↦ rw e refl
        | inr (x, e) ↦ rw e refl
      ]

  -- The metrics of a comparison are those of the successful arms: they are the same if the arms that
  -- failed are taken out before, and what a failed arm recorded raises no error.
  pub build_comparison-keep_if :
      (arms : List (ArmResult F))
      → metrics_of (build_comparison arms)
        ≡ metrics_of (build_comparison (keep_if (λ a. a.ok) arms))
  build_comparison-keep_if arms =
      let kept = keep_if (λ a. a.ok) arms in
      metrics_of-build_comparison arms
      ∙ (ap (λ r. r >>= λ t. ok t.per_metric) (add_arms-keep_if arms no_tables)
          ∙ sym (metrics_of-build_comparison kept))
