-- ===== src/Bench/Specs.antt =====
-- `BENCHMARKS`, `parse_bench_selection` and `_validate_inputs`.
pub mod Extracted
pub mod Validated
use glm5_3_flash_2x_dgx_spar.Prelude.{
  ℕ, Bool, true, false, not, ◌&&◌, ◌||◌, Option, none, some, List, [], ◌∷◌, ◌++◌, map, any, ltb,
  if◌then◌else◌, Result, ok, err, ◌>>=◌,
}
use glm5_3_flash_2x_dgx_spar.Number.{Float, ◌≤ᶠ◌, ◌<ᶠ◌}
use glm5_3_flash_2x_dgx_spar.Text.{Text, codes, text_eq}
use glm5_3_flash_2x_dgx_spar.Bench.Urls.{api_root, default_base_url}
use glm5_3_flash_2x_dgx_spar.Bench.Json.{Json, Fields, ExtractError}
use glm5_3_flash_2x_dgx_spar.Bench.Metrics.{
  BenchMetrics, extract_decode, extract_prefix, extract_short_chat,
}
use glm5_3_flash_2x_dgx_spar.Bench.Metrics.Rounds.{extract_cache_sessions}

-- the registered benchmarks
pub data Benchmark : Type 0 where
  decode_structured decode_prose prefix_cache cache_sessions short_chat : Benchmark

pub data Direction : Type 0 where
  lower higher neutral : Direction

abbrev pub name_of : Benchmark → Text
name_of decode_structured = codes "decode_structured"
name_of decode_prose = codes "decode_prose"
name_of prefix_cache = codes "prefix_cache"
name_of cache_sessions = codes "cache_sessions"
name_of short_chat = codes "short_chat"

-- `list(BENCHMARKS)`
abbrev pub registered : List Benchmark
registered = decode_structured ∷ decode_prose ∷ prefix_cache ∷ cache_sessions ∷ short_chat ∷ []

-- `spec.direction`
abbrev pub directions_of : Benchmark → List (Text × Direction)
directions_of decode_structured = (codes "decode_tok_s", higher) ∷ (codes "ttft_s", lower) ∷ []
directions_of decode_prose = (codes "decode_tok_s", higher) ∷ (codes "ttft_s", lower) ∷ []
directions_of prefix_cache =
    (codes "cold_ttft_s", lower)
    ∷ (codes "warm_ttft_s", lower)
    ∷ (codes "prefix_hit_ratio", higher)
    ∷ (codes "hit_efficiency", higher)
    ∷ (codes "speedup", higher)
    ∷ []
directions_of cache_sessions =
    (codes "cold_hit_fraction", neutral)
    ∷ (codes "warm_hit_fraction", higher)
    ∷ (codes "warm_ttft_s", lower)
    ∷ (codes "warm_decode_tok_s", higher)
    ∷ (codes "warm_wall_s", lower)
    ∷ []
directions_of short_chat = (codes "ttft_s", lower) ∷ (codes "decode_tok_s", higher) ∷ []

-- `spec.requires`
abbrev pub requires_of : Benchmark → List Text
requires_of decode_structured = codes "bench_decode.py" ∷ []
requires_of decode_prose = codes "bench_decode.py" ∷ []
requires_of prefix_cache = codes "bench_prefix_cache.py" ∷ []
requires_of cache_sessions = codes "bench_cache_sessions.py" ∷ []
requires_of short_chat = codes "bench_cache_sessions.py" ∷ []

-- `name.startswith("decode_")`, of the registered names
abbrev pub is_decode : Benchmark → Bool
is_decode decode_structured = true
is_decode decode_prose = true
is_decode prefix_cache = false
is_decode cache_sessions = false
is_decode short_chat = false

-- `spec.extract`
unfoldable pub extract_of :
    {F : Type 0} ⦃f : Float F⦄
    → (Json F → Text)
    → Benchmark
    → Fields F
    → Result ExtractError (BenchMetrics F)
extract_of show decode_structured artifact = extract_decode artifact
extract_of show decode_prose artifact = extract_decode artifact
extract_of show prefix_cache artifact = extract_prefix artifact
extract_of show cache_sessions artifact = extract_cache_sessions show artifact
extract_of show short_chat artifact = extract_short_chat artifact

-- the messages of `BenchAbError` before a run
pub data UsageError : Type 0 where
  unknown_benchmark missing_client : Text → UsageError
  bad_runs bad_sessions bad_ctx_tokens bad_timeout bad_interval bad_settle decode_base_url :
      UsageError

-- `BENCHMARKS.get(name)`
find_benchmark : Text → List Benchmark → Option Benchmark
find_benchmark name [] = none
find_benchmark name (b ∷ bs) = elim (text_eq (name_of b) name) [
  | true ↦ some b
  | false ↦ find_benchmark name bs
]

abbrev same_benchmark : Benchmark → Benchmark → Bool
same_benchmark a b = text_eq (name_of a) (name_of b)

-- the loop of `parse_bench_selection`
select_from : List Benchmark → List Text → Result UsageError (List Benchmark)
unfolding find_benchmark
select_from selected [] = ok selected
select_from selected (name ∷ names) = elim (find_benchmark name registered) [
  | none ↦ err (unknown_benchmark name)
  | some b ↦
      select_from (if any (same_benchmark b) selected then selected else selected ++ b ∷ []) names
]

unfoldable pub parse_bench_selection : List Text → Result UsageError (List Benchmark)
unfolding select_from
parse_bench_selection [] = ok registered
parse_bench_selection (n ∷ ns) = select_from [] (n ∷ ns)

-- the options that a run reads; a negative count acts as 0 does
pub record BenchArgs (F : Type 0) : Type 0 where
  pub base_url : Text
  pub model : Text
  pub runs : ℕ
  pub sessions : ℕ
  pub ctx_tokens : ℕ
  pub timeout : F
  pub health_timeout : F
  pub health_interval : F
  pub restart_timeout : F
  pub settle : F
  pub cache_mode : Text
  pub no_restart : Bool

-- the clients of the selected benchmarks that are not there
missing_clients : (Text → Bool) → List Text → Result UsageError Bool
missing_clients is_file [] = ok true
missing_clients is_file (name ∷ names) =
    let rest = missing_clients is_file names in
    if is_file name then rest else err (missing_client name)

check_clients : (Text → Bool) → List Benchmark → Result UsageError Bool
unfolding missing_clients
check_clients is_file [] = ok true
check_clients is_file (b ∷ bs) =
    missing_clients is_file (requires_of b) >>= λ found. check_clients is_file bs

unfoldable pub validate_inputs :
    {F : Type 0} ⦃f : Float F⦄
    → BenchArgs F
    → List Benchmark
    → (Text → Bool)
    → Result UsageError Bool
unfolding check_clients
validate_inputs ⦃f⦄ args benches is_file =
    if ltb args.runs 1
    then err bad_runs
    else if ltb args.sessions 1
    then err bad_sessions
    else if ltb args.ctx_tokens 128
    then err bad_ctx_tokens
    else if args.timeout ≤ᶠ f.of_ℕ 0
        || args.health_timeout ≤ᶠ f.of_ℕ 0
        || args.restart_timeout ≤ᶠ f.of_ℕ 0
    then err bad_timeout
    else if args.health_interval ≤ᶠ f.of_ℕ 0
    then err bad_interval
    else if args.settle <ᶠ f.of_ℕ 0
    then err bad_settle
    else if any is_decode benches
        && not (text_eq (api_root args.base_url) (api_root default_base_url))
    then err decode_base_url
    else check_clients is_file benches
