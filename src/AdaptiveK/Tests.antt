-- ===== src/AdaptiveK/Tests.antt =====
-- Runs of the policy on thousandths, and each theorem at an input that meets its hypotheses.
use glm5_3_flash_2x_dgx_spar.Prelude.{
  ℕ, ◌≤◌, ◌≡◌, ◌≢◌, refl, true, false, Option, none, some, List, [], ◌∷◌, arith, length, All, get,
  ok, err,
}
use glm5_3_flash_2x_dgx_spar.Number.Int.{ℤ, pos}
use glm5_3_flash_2x_dgx_spar.Number.Fixed.{fixed}
use glm5_3_flash_2x_dgx_spar.AdaptiveK.{
  empty_min, Policy, Track, Batch, observe, choose, count, width, trim_all,
}
use glm5_3_flash_2x_dgx_spar.AdaptiveK.Sound.{IsSound}
use glm5_3_flash_2x_dgx_spar.AdaptiveK.Choices.{IsWidth, choose-IsWidth}
use glm5_3_flash_2x_dgx_spar.AdaptiveK.Warmup.{observe_all, choose-observe_all}
use glm5_3_flash_2x_dgx_spar.AdaptiveK.Reload.{Settings, OverrideFile, init}
use glm5_3_flash_2x_dgx_spar.AdaptiveK.Apply.{choices, refresh, apply, batch_k, Running}
use glm5_3_flash_2x_dgx_spar.AdaptiveK.Apply.Rows.{rows}
use glm5_3_flash_2x_dgx_spar.AdaptiveK.Apply.Outcomes.{
  CutTo, apply-CutTo, apply_structured, apply-le_choice,
}
use glm5_3_flash_2x_dgx_spar.AdaptiveK.Apply.Runs.{
  started, observed, Reachable-IsSound, Reachable-apply,
}

abbrev env : Settings ℤ
env = record {
  mode = "ema";
  capture = "0";
  alpha = pos 250;
  margin = pos 1000;
  min_steps = 1;
  sizes = 7 ∷ 2 ∷ 4 ∷ 2 ∷ [];
  saturate = "max";
  hist_every = 200;
  batch_margin = "0";
  pos_trim = "0";
}

abbrev missing : OverrideFile ℤ
missing = record { mtime = none; content = none }

-- request "a" has an average of 2.5 accepted tokens, "b" one of 6
abbrev warm : Policy ℤ
warm = record {
  enabled = true;
  graphs_enabled = true;
  alpha = pos 250;
  margin = pos 1000;
  min_steps = 1;
  k_set = 2 ∷ 4 ∷ 7 ∷ [];
  saturate = "max";
  hist_every = 200;
  batch_margin = false;
  pos_trim = false;
  state =
      ("a", record { ema = pos 2500; observed = 3 })
      ∷ ("b", record { ema = pos 6000; observed = 9 })
      ∷ [];
  hist = [];
  steps = 1;
  k_max = 7;
  boot_set = 2 ∷ 4 ∷ 7 ∷ [];
  boot_enabled = true;
  file_mtime = none;
}

abbrev row : List ℕ
row = 1 ∷ 2 ∷ 3 ∷ 4 ∷ 5 ∷ 6 ∷ 7 ∷ []

abbrev batch : Batch
batch =
    (record { request_id = "a"; spec_token_ids = row }, false)
    ∷ (record { request_id = "b"; spec_token_ids = row }, false)
    ∷ []

abbrev shortened : Batch
shortened =
    (record { request_id = "a"; spec_token_ids = 1 ∷ 2 ∷ 3 ∷ 4 ∷ [] }, false)
    ∷ (record { request_id = "b"; spec_token_ids = 1 ∷ 2 ∷ 3 ∷ 4 ∷ [] }, false)
    ∷ []

choose_a : choose warm "a" 7 false ≡ ok (some 4)
unfolding choose get
choose_a = refl

apply-batch : (apply missing warm batch []).0 ≡ ok shortened
unfolding apply choose get width trim_all choices count
apply-batch = refl

choices-batch : choices (refresh missing warm) batch ≡ ok (some 4 ∷ some 7 ∷ [])
unfolding choices choose get refresh
choices-batch = refl

warm-IsSound : IsSound warm
warm-IsSound = record { sizes = λ v h. h; sized = λ h. h; top = refl; counted = omega arith }

apply-CutTo_example : (n : ℕ) × CutTo n batch shortened
apply-CutTo_example = apply-CutTo missing warm batch [] warm-IsSound refl apply-batch

enabled_warm : (refresh missing warm).enabled ≡ true
unfolding refresh
enabled_warm = refl

apply-le_choice_example : All (λ v. All (λ r. length r ≤ v) (rows shortened)) (4 ∷ 7 ∷ [])
apply-le_choice_example =
    apply-le_choice missing warm batch [] (some 4 ∷ some 7 ∷ []) (4 ∷ 7 ∷ []) enabled_warm
      choices-batch refl apply-batch

-- the same requests, the second of them structured
abbrev pinned : Batch
pinned =
    (record { request_id = "a"; spec_token_ids = row }, false)
    ∷ (record { request_id = "b"; spec_token_ids = row }, true)
    ∷ []

apply-pinned : (apply missing warm pinned []).0 ≡ ok pinned
unfolding apply choose get width trim_all choices count
apply-pinned = refl

apply_structured_example : pinned ≡ pinned
apply_structured_example = apply_structured missing warm pinned [] refl apply-pinned

choose-IsWidth_example :
    IsWidth (2 ∷ 4 ∷ 7 ∷ []) 7 4
    × (false ≡ false)
    × ((st : Track ℤ) × (get "a" warm.state ≡ some st) × (1 ≤ st.observed))
choose-IsWidth_example = choose-IsWidth warm "a" 7 false choose_a

choose-observe_all_example :
    (n : ℕ) × (choose (observe_all warm "c" ((7, 2) ∷ [])) "c" 7 false ≡ ok (some n))
unfolding get
choose-observe_all_example =
    choose-observe_all warm "c" 7 ((7, 2) ∷ []) (λ st e. (_, refl)) (λ e. cc) refl (omega arith, tt)
      (omega arith) (omega arith) (omega arith)

-- no size at all: the scheduler's first warm request raises
abbrev sizeless : Policy ℤ
sizeless = record warm { k_set = []; boot_set = [] }

choose-sizeless : choose sizeless "a" 7 false ≡ err empty_min
unfolding choose get
choose-sizeless = refl

Reachable-IsSound_example : IsSound (observe (init env missing) "a" 7 2)
Reachable-IsSound_example = Reachable-IsSound env (observed "a" 7 2 (started missing))

boot_set-init : (init env missing).boot_set ≡ 2 ∷ 4 ∷ 7 ∷ []
unfolding init
boot_set-init = refl

Reachable-apply_example : (apply missing (init env missing) batch []).0 ≢ err empty_min
unfolding init
Reachable-apply_example =
    Reachable-apply env missing batch [] (started missing) (λ e. cc (boot_set-init, e))

abbrev running : List (Option Running)
running =
    none
    ∷ some (record { request_id = "a"; is_prefill_chunk = false; use_structured_output = false })
    ∷ some (record { request_id = "z"; is_prefill_chunk = true; use_structured_output = false })
    ∷ []

batch_k-running : (batch_k missing warm 7 running []).0 ≡ ok 4
unfolding batch_k choose get
batch_k-running = refl
