-- ===== src/Bench/System.antt =====
-- What a run does outside itself: HTTP, clocks, files and processes, as operations on a world `W`.
use glm5_3_flash_2x_dgx_spar.Prelude.{ℕ, Bool, Option, List}
use glm5_3_flash_2x_dgx_spar.Number.Int.{ℤ}
use glm5_3_flash_2x_dgx_spar.Text.{Text}
use glm5_3_flash_2x_dgx_spar.Bench.Env.{Env}
use glm5_3_flash_2x_dgx_spar.Bench.Json.{Json, Fields}

-- `urllib.request.Request`, with the timeout of `urlopen`; `payload` is the data before `json.dumps`
pub record Request (F : Type 0) : Type 0 where
  pub url : Text
  pub method : Text
  pub payload : Option (Json F)
  pub headers : List (Text × Text)
  pub timeout : F

-- how the request ends; a body is decoded with replacement, and that of an error may not be readable.
-- `escaped` is an exception that `http_request` does not catch, as the `HTTPException`s of a broken answer and
-- the `ValueError` of `Request` for a malformed URL.
pub data Outcome : Type 0 where
  responded : ℕ → Text → Outcome
  http_error : ℕ → Option Text → Outcome
  unreachable : Text → Outcome
  escaped : Outcome

-- the arguments of `subprocess.run`
pub record Command (F : Type 0) : Type 0 where
  pub argv : List Text
  pub cwd : Text
  pub env : Env
  pub timeout : F

-- how it ends, with what was printed; `unstarted` is an `OSError`
pub data Ran : Type 0 where
  exited : ℤ → Text → Text → Ran
  timed_out : Text → Text → Ran
  unstarted : Ran

-- `chat_request` of bench_cache_sessions.py: whether it is `ok`, its message, its `to_dict()`
pub record Chat (F : Type 0) : Type 0 where
  pub ok : Bool
  pub record_of : Fields F

pub record System (F W : Type 0) : Type 0 where
  pub send : Request F → W → Outcome × W
  -- `time.monotonic()`, and `time.perf_counter()`
  pub monotonic : W → F
  pub sleep : F → W → W
  -- the text of /proc/sys/kernel/random/boot_id, if it can be read
  pub read_boot_id : W → Option Text
  pub is_file : Text → W → Bool
  pub read_text : Text → W → Option Text
  -- whether the call succeeds, and the world after it
  pub write_text : Text → Text → W → Bool × W
  pub make_dirs : Text → W → Bool × W
  pub run : Command F → W → Ran × W
  pub chat : Text → W → Chat F × W
  -- `json.loads`, `json.dumps(_, indent=2)`, `str` of any value
  pub loads : Text → Option (Json F)
  pub dumps : Json F → Text
  pub show : Json F → Text
  -- `str(x)`, `str(int(x))`, `f"{x:.0f}"` and `f"{x:.3f}"` of a float
  pub show_float : F → Text
  pub show_int : F → Text
  pub no_places : F → Text
  pub three_places : F → Text
  -- `str(n)` of an int, and `shlex.join`
  pub show_ℤ : ℤ → Text
  pub shell_join : List Text → Text
