-- ===== src/Bench/Commands/Checked.antt =====
-- That checked options give every selected benchmark a command, whose client is a file that is there.
use glm5_3_flash_2x_dgx_spar.Prelude.{
  ◌≡◌, ◌≢◌, ◌≤◌, refl, Bool, true, false, not, ◌&&◌, Option, none, some, List, [], ◌∷◌, any,
  is_some, get_elem?, All, arith, Option-cases, inl, inr, Result, ok, err,
}
use glm5_3_flash_2x_dgx_spar.Number.{Float}
use glm5_3_flash_2x_dgx_spar.Text.{Text, codes, text_eq}
use glm5_3_flash_2x_dgx_spar.Bench.Urls.{api_root, default_base_url}
use glm5_3_flash_2x_dgx_spar.Bench.System.{System}
use glm5_3_flash_2x_dgx_spar.Bench.Specs.{
  Benchmark, decode_structured, decode_prose, prefix_cache, cache_sessions, short_chat, is_decode,
  requires_of, validate_inputs,
}
use glm5_3_flash_2x_dgx_spar.Bench.Specs.Validated.{validate_inputs-checked}
use glm5_3_flash_2x_dgx_spar.Bench.Results.{BenchFailure}
use glm5_3_flash_2x_dgx_spar.Bench.Commands.{
  BenchContext, join_path, mode_flags, decode_build, prefix_build, cache_sessions_build,
  benchmark_argv,
}

module _ {F W : Type 0} (sys : System F W) (is_file : Text → Bool) where
  -- the second word of the command is a client that is there; only the short chat has no command
  abbrev pub IsRunnable : Benchmark → Text → Result BenchFailure (Option (List Text)) → Type 0
  IsRunnable b tests_dir (err e) = 1 ≤ 0
  IsRunnable b tests_dir (ok none) = b ≡ short_chat
  IsRunnable b tests_dir (ok (some argv)) =
      (b ≢ short_chat)
      × ((script : Text) × ((get_elem? argv 1 ≡ some (join_path tests_dir script))
            × (is_file script ≡ true)))

  benchmark_argv-IsRunnable :
      (b : Benchmark) (c : BenchContext F)
      → (is_decode b && not (text_eq (api_root c.args.base_url) (api_root default_base_url)))
        ≡ false
      → is_some (mode_flags c.args.cache_mode) ≡ true
      → All (λ s. is_file s ≡ true) (requires_of b)
      → IsRunnable b c.tests_dir (benchmark_argv sys b c)
  unfolding benchmark_argv decode_build prefix_build cache_sessions_build
  benchmark_argv-IsRunnable decode_structured c u m (h, _) =
      rw u ((λ e. cc), (codes "bench_decode.py", (refl, h)))
  benchmark_argv-IsRunnable decode_prose c u m (h, _) =
      rw u ((λ e. cc), (codes "bench_decode.py", (refl, h)))
  benchmark_argv-IsRunnable prefix_cache c u m (h, _) =
      ((λ e. cc), (codes "bench_prefix_cache.py", (refl, h)))
  benchmark_argv-IsRunnable cache_sessions c u m (h, _) =
      elim (Option-cases (mode_flags c.args.cache_mode)) [
        | inl e ↦ absurd (cc (rw e at m))
        | inr (flags, e) ↦
            rw (e, benchmark_argv, cache_sessions_build)
              ((λ e. cc), (codes "bench_cache_sessions.py", (refl, h)))
      ]
  benchmark_argv-IsRunnable short_chat c u m h = refl

  All-IsRunnable :
      (benches : List Benchmark) (c : BenchContext F)
      → (any is_decode benches
          && not (text_eq (api_root c.args.base_url) (api_root default_base_url)))
        ≡ false
      → is_some (mode_flags c.args.cache_mode) ≡ true
      → All (λ b. All (λ s. is_file s ≡ true) (requires_of b)) benches
      → All (λ b. IsRunnable b c.tests_dir (benchmark_argv sys b c)) benches
  All-IsRunnable [] c u m h = tt
  All-IsRunnable (b ∷ bs) c u m (first, rest) = (
    benchmark_argv-IsRunnable b c (ground (arith, u)) m first,
    All-IsRunnable bs c (ground (arith, u)) m rest,
  )

  -- Once the options are validated, and the cache mode is one of those that the parser offers, every
  -- selected benchmark gets its command line, and the client that this starts was found on disk; the
  -- short chat, which the harness runs itself, has no command, and it alone.
  pub validate_inputs-IsRunnable :
      ⦃f : Float F⦄ (c : BenchContext F) (benches : List Benchmark) {t : Bool}
      → validate_inputs c.args benches is_file ≡ ok t
      → is_some (mode_flags c.args.cache_mode) ≡ true
      → All (λ b. IsRunnable b c.tests_dir (benchmark_argv sys b c)) benches
  validate_inputs-IsRunnable c benches h m =
      let (u, found) = validate_inputs-checked c.args benches is_file h in
      All-IsRunnable benches c u m found
