-- ===== src/Bench/Metrics/Finite.antt =====
-- What the extractors take from an artifact: finite samples, and at least one.
use glm5_3_flash_2x_dgx_spar.Prelude.{
  ◌≡◌, refl, subst, Bool, true, not, ◌&&◌, Option, none, some, List, [], ◌∷◌, ◌++◌, any, All, arith,
  Bool-cases, Option-cases, inl, inr, ok, err, ok_chain,
}
use glm5_3_flash_2x_dgx_spar.Number.{Float}
use glm5_3_flash_2x_dgx_spar.Text.{Text, codes}
use glm5_3_flash_2x_dgx_spar.Bench.Json.{
  Json, null, bool, number, text, array, object, Fields, get_field, as_fields, objects,
  require_list, number_of, numbers_of, field_numbers,
}
use glm5_3_flash_2x_dgx_spar.Bench.Metrics.{
  BenchMetrics, is_empty, decode_metrics, extract_decode, pair_metric, pair_metrics, prefix_metrics,
  extract_prefix, extract_short_chat, opt_list,
}

module _ {F : Type 0} ⦃f : Float F⦄ where
  abbrev pub AllFinite : List F → Type 0
  AllFinite xs = All (λ x. f.finite x ≡ true) xs

  -- every sample is finite, and there is one
  abbrev pub has_sample : List (Text × List F) → Bool
  has_sample samples = any (λ s. not (is_empty s.1)) samples

  abbrev pub IsUseful : BenchMetrics F → Type 0
  IsUseful m = All (λ s. AllFinite s.1) m.samples × (has_sample m.samples ≡ true)

  abbrev pub IsFiniteOpt : Option F → Type 0
  IsFiniteOpt none = Unit
  IsFiniteOpt (some x) = f.finite x ≡ true

  pub number_of-IsFiniteOpt : (v : Json F) → IsFiniteOpt (number_of v)
  unfolding number_of
  number_of-IsFiniteOpt null = tt
  number_of-IsFiniteOpt (bool b) = tt
  number_of-IsFiniteOpt (text s) = tt
  number_of-IsFiniteOpt (array xs) = tt
  number_of-IsFiniteOpt (object fs) = tt
  number_of-IsFiniteOpt (number x) = elim (Bool-cases (f.finite x)) [
    | inl e ↦ rw e e
    | inr e ↦ rw e tt
  ]

  finite_of : (o : Option F) {x : F} → IsFiniteOpt o → o ≡ some x → f.finite x ≡ true
  finite_of o h e = subst IsFiniteOpt e h

  field_numbers-AllFinite :
      (key : Text) (records : List (Fields F)) → AllFinite (field_numbers key records)
  unfolding field_numbers
  field_numbers-AllFinite key [] = tt
  field_numbers-AllFinite key (fs ∷ rest) = elim (Option-cases (number_of (get_field key fs))) [
    | inl e ↦ rw (e, field_numbers) (field_numbers-AllFinite key rest)
    | inr (x, e) ↦
        rw (e, field_numbers)
          (
            finite_of (number_of (get_field key fs)) (number_of-IsFiniteOpt (get_field key fs)) e,
            field_numbers-AllFinite key rest,
          )
  ]

  pub numbers_of-AllFinite :
      (records : List (Json F)) (key : Text) → AllFinite (numbers_of records key)
  unfolding numbers_of
  numbers_of-AllFinite records key = field_numbers-AllFinite key (objects records)

  pub opt_list-AllFinite : (o : Option F) → IsFiniteOpt o → AllFinite (opt_list o)
  opt_list-AllFinite none h = tt
  opt_list-AllFinite (some x) h = (h, tt)

  decode_metrics-IsUseful :
      (artifact : Fields F) (runs : List (Json F)) (xs : List F) {m : BenchMetrics F}
      → AllFinite xs
      → decode_metrics artifact runs xs ≡ ok m
      → IsUseful m
  unfolding decode_metrics
  decode_metrics-IsUseful artifact runs [] hx h = absurd (cc h)
  decode_metrics-IsUseful artifact runs (x ∷ xs) hx h =
      let finite = numbers_of-AllFinite runs (codes "ttft_s") in
      subst (λ r. elim r [ ok m ↦ IsUseful m | err e ↦ Unit ]) h ((hx, (finite, tt)), refl)

  pub extract_decode-IsUseful :
      (artifact : Fields F) {m : BenchMetrics F} → extract_decode artifact ≡ ok m → IsUseful m
  unfolding extract_decode
  extract_decode-IsUseful artifact h =
      let (runs, (_, rest)) = ok_chain (require_list artifact (codes "runs")) _ h in
      decode_metrics-IsUseful artifact runs (numbers_of runs (codes "tok_s"))
        (numbers_of-AllFinite runs (codes "tok_s")) rest

  pair_metric-IsFiniteOpt : (short : Text) (pair : Fields F) → IsFiniteOpt (pair_metric short pair)
  unfolding pair_metric
  pair_metric-IsFiniteOpt short pair =
      elim (Option-cases (number_of (get_field (short ++ codes "_ttft_s") pair))) [
        | inr (x, e) ↦
            rw (e, pair_metric)
              (finite_of (number_of (get_field (short ++ codes "_ttft_s") pair))
                (number_of-IsFiniteOpt (get_field (short ++ codes "_ttft_s") pair)) e)
        | inl e ↦ elim (Option-cases (as_fields (get_field short pair))) [
          | inl g ↦ rw (e, pair_metric, g) tt
          | inr (nested, g) ↦
              rw (e, pair_metric, g) (number_of-IsFiniteOpt (get_field (codes "wall_s") nested))
        ]
      ]

  pair_metrics-AllFinite :
      (short : Text) (pairs : List (Fields F)) → AllFinite (pair_metrics short pairs)
  unfolding pair_metrics
  pair_metrics-AllFinite short [] = tt
  pair_metrics-AllFinite short (p ∷ ps) = elim (Option-cases (pair_metric short p)) [
    | inl e ↦ rw (e, pair_metrics) (pair_metrics-AllFinite short ps)
    | inr (x, e) ↦
        rw (e, pair_metrics)
          (
            finite_of (pair_metric short p) (pair_metric-IsFiniteOpt short p) e,
            pair_metrics-AllFinite short ps,
          )
  ]

  prefix_metrics-IsUseful :
      (pairs : List (Fields F)) {m : BenchMetrics F} → prefix_metrics pairs ≡ ok m → IsUseful m
  unfolding prefix_metrics
  prefix_metrics-IsUseful [] h = absurd (cc h)
  prefix_metrics-IsUseful (p ∷ ps) h =
      let pairs = p ∷ ps in
      let cold = pair_metrics (codes "cold") pairs in
      let warm = pair_metrics (codes "warm") pairs in
      let ratios = field_numbers (codes "prefix_hit_ratio") pairs in
      elim (Bool-cases (is_empty cold && is_empty warm && is_empty ratios)) [
        | inl e ↦ absurd (cc (rw e at h))
        | inr e ↦
            subst (λ r. elim r [ ok m ↦ IsUseful m | err e ↦ Unit ]) (rw e at h)
              (
                (
                  pair_metrics-AllFinite (codes "cold") pairs,
                  (
                    pair_metrics-AllFinite (codes "warm") pairs,
                    (
                      field_numbers-AllFinite (codes "prefix_hit_ratio") pairs,
                      (
                        field_numbers-AllFinite (codes "hit_efficiency") pairs,
                        (field_numbers-AllFinite (codes "speedup") pairs, tt),
                      ),
                    ),
                  ),
                ),
                ground (arith, e),
              )
      ]

  pub extract_prefix-IsUseful :
      (artifact : Fields F) {m : BenchMetrics F} → extract_prefix artifact ≡ ok m → IsUseful m
  unfolding extract_prefix
  extract_prefix-IsUseful artifact h =
      let (pairs, (_, rest)) = ok_chain (require_list artifact (codes "pairs")) _ h in
      prefix_metrics-IsUseful (objects pairs) rest

  pub extract_short_chat-IsUseful :
      (artifact : Fields F) {m : BenchMetrics F} → extract_short_chat artifact ≡ ok m → IsUseful m
  unfolding extract_short_chat
  extract_short_chat-IsUseful artifact h =
      let (requests, (_, rest)) = ok_chain (require_list artifact (codes "requests")) _ h in
      let ttft = numbers_of requests (codes "ttft_s") in
      let decode = numbers_of requests (codes "decode_tok_s") in
      elim (Bool-cases (is_empty ttft && is_empty decode)) [
        | inl e ↦ absurd (cc (rw e at rest))
        | inr e ↦
            subst (λ r. elim r [ ok m ↦ IsUseful m | err e ↦ Unit ]) (rw e at rest)
              (
                (
                  numbers_of-AllFinite requests (codes "ttft_s"),
                  (numbers_of-AllFinite requests (codes "decode_tok_s"), tt),
                ),
                ground (arith, e),
              )
      ]
