-- ===== src/Bench/Commands.antt =====
-- The command line of each benchmark's client.
pub mod Checked
use glm5_3_flash_2x_dgx_spar.Prelude.{
  ℕ, Bool, true, false, not, Option, none, some, List, [], ◌∷◌, ◌++◌, if◌then◌else◌, Result, ok,
  err, ◌>>=◌,
}
use glm5_3_flash_2x_dgx_spar.Number.Int.{pos}
use glm5_3_flash_2x_dgx_spar.Text.{Text, codes, text_eq}
use glm5_3_flash_2x_dgx_spar.Bench.Urls.{api_root, default_base_url}
use glm5_3_flash_2x_dgx_spar.Bench.Specs.{
  Benchmark, decode_structured, decode_prose, prefix_cache, cache_sessions, short_chat, BenchArgs,
}
use glm5_3_flash_2x_dgx_spar.Bench.System.{System}
use glm5_3_flash_2x_dgx_spar.Bench.Results.{BenchFailure, needs_default_url, unknown_cache_mode}

-- `BenchContext`, apart from what `args` holds; `python` is `sys.executable`
pub record BenchContext (F : Type 0) : Type 0 where
  pub args : BenchArgs F
  pub artifact_path : Text
  pub tests_dir : Text
  pub workdir : Text
  pub api_key : Text
  pub python : Text

-- `a / b`, of paths
abbrev pub join_path : Text → Text → Text
join_path a b = a ++ (codes "/" ++ b)

-- `mode_flags`
unfoldable pub mode_flags : Text → Option (List Text)
mode_flags mode =
    if text_eq mode (codes "sessions")
    then some []
    else if text_eq mode (codes "shared-prefix")
    then some (codes "--shared-prefix" ∷ [])
    else if text_eq mode (codes "sub-page")
    then some (codes "--sub-page" ∷ [])
    else none

-- `_v1_base`
v1_base : Text → Text
v1_base base_url = api_root base_url ++ codes "/v1"

module _ {F W : Type 0} (sys : System F W) where
  abbrev show_ℕ : ℕ → Text
  show_ℕ n = sys.show_ℤ (pos n)

  -- `_decode_build(structured)`
  decode_build : Bool → BenchContext F → Result BenchFailure (List Text)
  decode_build structured c =
      if not (text_eq (api_root c.args.base_url) (api_root default_base_url))
      then err needs_default_url
      else ok (
          c.python
          ∷ join_path c.tests_dir (codes "bench_decode.py")
          ∷ codes "--phase"
          ∷ (if structured then codes "structured" else codes "prose")
          ∷ codes "--runs"
          ∷ show_ℕ c.args.runs
          ∷ codes "--max-tokens"
          ∷ codes "400"
          ∷ codes "--skip-coherence"
          ∷ codes "--out"
          ∷ c.artifact_path
          ∷ (if structured then codes "--structured" ∷ [] else []))

  prefix_build : BenchContext F → List Text
  unfolding v1_base
  prefix_build c =
      c.python
      ∷ join_path c.tests_dir (codes "bench_prefix_cache.py")
      ∷ codes "--base-url"
      ∷ v1_base c.args.base_url
      ∷ codes "--model"
      ∷ c.args.model
      ∷ codes "--runs"
      ∷ show_ℕ c.args.runs
      ∷ codes "--timeout"
      ∷ sys.show_float c.args.timeout
      ∷ codes "--output"
      ∷ c.artifact_path
      ∷ []

  cache_sessions_build : BenchContext F → Result BenchFailure (List Text)
  unfolding mode_flags
  cache_sessions_build c = elim (mode_flags c.args.cache_mode) [
    | none ↦ err (unknown_cache_mode c.args.cache_mode)
    | some flags ↦ ok (
        c.python
        ∷ join_path c.tests_dir (codes "bench_cache_sessions.py")
        ∷ codes "--base-url"
        ∷ c.args.base_url
        ∷ codes "--model"
        ∷ c.args.model
        ∷ codes "--sessions"
        ∷ show_ℕ c.args.sessions
        ∷ codes "--ctx-tokens"
        ∷ show_ℕ c.args.ctx_tokens
        ∷ codes "--rounds"
        ∷ show_ℕ c.args.runs
        ∷ codes "--timeout"
        ∷ sys.show_float c.args.timeout
        ∷ codes "--out"
        ∷ c.artifact_path
        ∷ flags)
  ]

  -- `_benchmark_argv(spec, context)`; `none` where the benchmark has no client of its own
  unfoldable pub benchmark_argv :
      Benchmark → BenchContext F → Result BenchFailure (Option (List Text))
  unfolding decode_build prefix_build cache_sessions_build
  benchmark_argv decode_structured c = decode_build true c >>= λ argv. ok (some argv)
  benchmark_argv decode_prose c = decode_build false c >>= λ argv. ok (some argv)
  benchmark_argv prefix_cache c = ok (some (prefix_build c))
  benchmark_argv cache_sessions c = cache_sessions_build c >>= λ argv. ok (some argv)
  benchmark_argv short_chat c = ok none
