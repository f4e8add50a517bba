-- ===== src/Bench/Metrics/Rounds/Sessions.antt =====
-- What `_extract_cache_sessions` takes from an artifact: finite samples, and at least one.
use glm5_3_flash_2x_dgx_spar.Prelude.{
  ℕ, suc, ◌≡◌, subst, true, ◌&&◌, Option, List, [], ◌∷◌, ◌++◌, All-append, arith, Bool-cases,
  Option-cases, inl, inr, ok, err, ok_chain,
}
use glm5_3_flash_2x_dgx_spar.Number.{Float}
use glm5_3_flash_2x_dgx_spar.Text.{Text, codes}
use glm5_3_flash_2x_dgx_spar.Bench.Json.{
  Json, Fields, get_field, as_fields, as_items, require_list, number_of, numbers_of,
}
use glm5_3_flash_2x_dgx_spar.Bench.Metrics.{BenchMetrics, is_empty, opt_list}
use glm5_3_flash_2x_dgx_spar.Bench.Metrics.Rounds.{
  Rounds, no_rounds, is_first_round, warm_round, add_round, add_rounds, iterate, rounds_metrics,
  extract_cache_sessions,
}
use glm5_3_flash_2x_dgx_spar.Bench.Metrics.Finite.{
  AllFinite, IsUseful, IsFiniteOpt, number_of-IsFiniteOpt, numbers_of-AllFinite, opt_list-AllFinite,
}

module _ {F : Type 0} ⦃f : Float F⦄ where
  abbrev AreFinite : Rounds F → Type 0
  AreFinite r =
      AllFinite r.cold_hits
      × (AllFinite r.warm_hits
          × (AllFinite r.warm_ttft × (AllFinite r.warm_decode × AllFinite r.warm_wall)))

  append-AllFinite : (xs ys : List F) → AllFinite xs → AllFinite ys → AllFinite (xs ++ ys)
  append-AllFinite xs ys hx hy = All-append (λ x. f.finite x ≡ true) xs ys hx hy

  warm_round-AreFinite :
      (hit : Option F) (fs : Fields F) (r : Rounds F) {s : Rounds F}
      → IsFiniteOpt hit
      → AreFinite r
      → warm_round hit fs r ≡ ok s
      → AreFinite s
  unfolding warm_round
  warm_round-AreFinite hit fs r hh (cold, (hits, (ttft, (decode, wall)))) h =
      elim (Option-cases (as_items (get_field (codes "sessions") fs))) [
        | inl e ↦ absurd (cc (rw (e, warm_round) at h))
        | inr (sessions, e) ↦
            subst (λ t. elim t [ ok s ↦ AreFinite s | err e ↦ Unit ]) (rw (e, warm_round) at h)
              (
                cold,
                (
                  append-AllFinite r.warm_hits (opt_list hit) hits (opt_list-AllFinite hit hh),
                  (
                    append-AllFinite r.warm_ttft (numbers_of sessions (codes "ttft_s")) ttft
                        (numbers_of-AllFinite sessions (codes "ttft_s")),
                    (
                      append-AllFinite r.warm_decode (numbers_of sessions (codes "decode_tok_s"))
                          decode (numbers_of-AllFinite sessions (codes "decode_tok_s")),
                      append-AllFinite r.warm_wall
                          (opt_list (number_of (get_field (codes "wall_s") fs))) wall
                          (opt_list-AllFinite (number_of (get_field (codes "wall_s") fs))
                            (number_of-IsFiniteOpt (get_field (codes "wall_s") fs))),
                    ),
                  ),
                ),
              )
      ]

  add_round-AreFinite :
      (position : ℕ) (entry : Json F) (r : Rounds F) {s : Rounds F}
      → AreFinite r
      → add_round position entry r ≡ ok s
      → AreFinite s
  unfolding add_round
  add_round-AreFinite position entry r hr h = elim (Option-cases (as_fields entry)) [
    | inl e ↦ absurd (cc (rw (e, add_round) at h))
    | inr (fs, e) ↦
        let hit = number_of (get_field (codes "hit_fraction") fs) in
        let hh = number_of-IsFiniteOpt (get_field (codes "hit_fraction") fs) in
        elim (Bool-cases (is_first_round position (number_of (get_field (codes "round") fs)))) [
          | inl g ↦
              subst (λ t. elim t [ ok s ↦ AreFinite s | err e ↦ Unit ]) (rw (e, add_round, g) at h)
                (append-AllFinite r.cold_hits (opt_list hit) hr.0 (opt_list-AllFinite hit hh), hr.1)
          | inr g ↦ warm_round-AreFinite hit fs r hh hr (rw (e, add_round, g) at h)
        ]
  ]

  add_rounds-AreFinite :
      (position : ℕ) (entries : List (Json F)) (r : Rounds F) {s : Rounds F}
      → AreFinite r
      → add_rounds position entries r ≡ ok s
      → AreFinite s
  unfolding add_rounds
  add_rounds-AreFinite position [] r hr h =
      subst (λ t. elim t [ ok s ↦ AreFinite s | err e ↦ Unit ]) h hr
  add_rounds-AreFinite position (entry ∷ entries) r hr h =
      let (more, (first, rest)) = ok_chain (add_round position entry r) _ h in
      add_rounds-AreFinite (suc position) entries more
        (add_round-AreFinite position entry r hr first) rest

  rounds_metrics-IsUseful :
      (show : Json F → Text) (artifact : Fields F) (r : Rounds F) {m : BenchMetrics F}
      → AreFinite r
      → rounds_metrics show artifact r ≡ ok m
      → IsUseful m
  unfolding rounds_metrics
  rounds_metrics-IsUseful show artifact r (cold, (hits, (ttft, (decode, wall)))) h =
      elim (Bool-cases (
        is_empty r.cold_hits
        && is_empty r.warm_hits
        && is_empty r.warm_ttft
        && is_empty r.warm_decode)) [
          | inl e ↦ absurd (cc (rw e at h))
          | inr e ↦
              let (warnings, (_, rest)) =
                ok_chain (iterate show (get_field (codes "warnings") artifact)) _ (rw e at h) in
              subst (λ t. elim t [ ok m ↦ IsUseful m | err e ↦ Unit ]) rest
                ((cold, (hits, (ttft, (decode, (wall, tt))))), ground (arith, e))
        ]

  pub extract_cache_sessions-IsUseful :
      (show : Json F → Text) (artifact : Fields F) {m : BenchMetrics F}
      → extract_cache_sessions show artifact ≡ ok m
      → IsUseful m
  unfolding extract_cache_sessions
  extract_cache_sessions-IsUseful show artifact h =
      let (rounds, (_, rest)) = ok_chain (require_list artifact (codes "rounds")) _ h in
      let (r, (filled, last)) = ok_chain (add_rounds 0 rounds no_rounds) _ rest in
      rounds_metrics-IsUseful show artifact r
        (add_rounds-AreFinite 0 rounds no_rounds (tt, (tt, (tt, (tt, tt)))) filled) last
