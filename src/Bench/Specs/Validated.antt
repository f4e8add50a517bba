-- ===== src/Bench/Specs/Validated.antt =====
-- What `_validate_inputs` has checked once it passes.
use glm5_3_flash_2x_dgx_spar.Prelude.{
  ◌≡◌, Bool, true, false, not, ◌&&◌, ◌||◌, ltb, List, [], ◌∷◌, any, All, Bool-cases, inl, inr, ok,
  ok_chain, past_guard,
}
use glm5_3_flash_2x_dgx_spar.Number.{Float, ◌≤ᶠ◌, ◌<ᶠ◌}
use glm5_3_flash_2x_dgx_spar.Text.{Text, text_eq}
use glm5_3_flash_2x_dgx_spar.Bench.Urls.{api_root, default_base_url}
use glm5_3_flash_2x_dgx_spar.Bench.Specs.{
  Benchmark, is_decode, requires_of, BenchArgs, bad_runs, bad_sessions, bad_ctx_tokens, bad_timeout,
  bad_interval, bad_settle, decode_base_url, missing_clients, check_clients, validate_inputs,
}

missing_clients-All :
    (is_file : Text → Bool) (names : List Text) {t : Bool}
    → missing_clients is_file names ≡ ok t
    → All (λ s. is_file s ≡ true) names
unfolding missing_clients
missing_clients-All is_file [] h = tt
missing_clients-All is_file (n ∷ ns) h = elim (Bool-cases (is_file n)) [
  | inl e ↦ (e, missing_clients-All is_file ns (rw e at h))
  | inr e ↦ absurd (cc (rw e at h))
]

check_clients-All :
    (is_file : Text → Bool) (benches : List Benchmark) {t : Bool}
    → check_clients is_file benches ≡ ok t
    → All (λ b. All (λ s. is_file s ≡ true) (requires_of b)) benches
unfolding check_clients
check_clients-All is_file [] h = tt
check_clients-All is_file (b ∷ bs) h =
    let (_, (first, rest)) = ok_chain (missing_clients is_file (requires_of b)) _ h in
    (missing_clients-All is_file (requires_of b) first, check_clients-All is_file bs rest)

pub validate_inputs-checked :
    {F : Type 0} ⦃f : Float F⦄ (args : BenchArgs F) (benches : List Benchmark)
    (is_file : Text → Bool) {t : Bool}
    → validate_inputs args benches is_file ≡ ok t
    → ((any is_decode benches && not (text_eq (api_root args.base_url) (api_root default_base_url)))
        ≡ false)
      × All (λ b. All (λ s. is_file s ≡ true) (requires_of b)) benches
unfolding validate_inputs
validate_inputs-checked ⦃f⦄ args benches is_file h =
    let (_, h1) = past_guard (ltb args.runs 1) bad_runs h in
    let (_, h2) = past_guard (ltb args.sessions 1) bad_sessions h1 in
    let (_, h3) = past_guard (ltb args.ctx_tokens 128) bad_ctx_tokens h2 in
    let (_, h4) =
      past_guard
        (args.timeout ≤ᶠ f.of_ℕ 0
          || args.health_timeout ≤ᶠ f.of_ℕ 0
          || args.restart_timeout ≤ᶠ f.of_ℕ 0)
        bad_timeout h3 in
    let (_, h5) = past_guard (args.health_interval ≤ᶠ f.of_ℕ 0) bad_interval h4 in
    let (_, h6) = past_guard (args.settle <ᶠ f.of_ℕ 0) bad_settle h5 in
    let (u, found) =
      past_guard
        (any is_decode benches
          && not (text_eq (api_root args.base_url) (api_root default_base_url)))
        decode_base_url h6 in
    (u, check_clients-All is_file benches found)
