-- ===== src/Bench/Specs/Extracted.antt =====
-- What a benchmark's artifact is worth once its extractor has accepted it.
use glm5_3_flash_2x_dgx_spar.Prelude.{◌≡◌, ok}
use glm5_3_flash_2x_dgx_spar.Number.{Float}
use glm5_3_flash_2x_dgx_spar.Text.{Text}
use glm5_3_flash_2x_dgx_spar.Bench.Json.{Json, Fields}
use glm5_3_flash_2x_dgx_spar.Bench.Metrics.{BenchMetrics}
use glm5_3_flash_2x_dgx_spar.Bench.Metrics.Finite.{
  IsUseful, extract_decode-IsUseful, extract_prefix-IsUseful, extract_short_chat-IsUseful,
}
use glm5_3_flash_2x_dgx_spar.Bench.Metrics.Rounds.Sessions.{extract_cache_sessions-IsUseful}
use glm5_3_flash_2x_dgx_spar.Bench.Specs.{
  Benchmark, decode_structured, decode_prose, prefix_cache, cache_sessions, short_chat, extract_of,
}

-- Whatever the artifact, if the extractor of a benchmark accepts it, then every sample that it takes
-- is a finite number, and there is at least one sample.
pub extract_of-IsUseful :
    {F : Type 0} ⦃f : Float F⦄ (show : Json F → Text) (b : Benchmark) (artifact : Fields F)
    {m : BenchMetrics F}
    → extract_of show b artifact ≡ ok m
    → IsUseful m
unfolding extract_of
extract_of-IsUseful show decode_structured artifact h = extract_decode-IsUseful artifact h
extract_of-IsUseful show decode_prose artifact h = extract_decode-IsUseful artifact h
extract_of-IsUseful show prefix_cache artifact h = extract_prefix-IsUseful artifact h
extract_of-IsUseful show cache_sessions artifact h = extract_cache_sessions-IsUseful show artifact h
extract_of-IsUseful show short_chat artifact h = extract_short_chat-IsUseful artifact h
