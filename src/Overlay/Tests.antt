-- ===== src/Overlay/Tests.antt =====
-- Runs on small inputs, and each theorem at an input that meets its hypotheses.
use glm5_3_flash_2x_dgx_spar.Prelude.{
  ℕ, ◌≤◌, ◌<◌, ◌≡◌, ◌⊎◌, refl, Bool, true, false, not, Option, none, some, List, [], ◌∷◌, map, all,
  get, ok, err, arith,
}
use glm5_3_flash_2x_dgx_spar.Number.Int.{ℤ, pos}
use glm5_3_flash_2x_dgx_spar.Text.{Text, codes, strip}
use glm5_3_flash_2x_dgx_spar.Text.Integers.{parse_int}
use glm5_3_flash_2x_dgx_spar.Overlay.Workspace.{
  VllmConfig, ratio_disagreement, build_workspace, get_max_prefill_buffer_size, Request,
  split_prefill_chunks,
}
use glm5_3_flash_2x_dgx_spar.Overlay.Workspace.Legal.{compress, build_workspace-IsStock}
use glm5_3_flash_2x_dgx_spar.Overlay.Edits.{count, replace_first}
use glm5_3_flash_2x_dgx_spar.Overlay.Sites.{
  Site, Disk, holding, prepare, applied, done, Ran, main, is_verified,
}
use glm5_3_flash_2x_dgx_spar.Overlay.Sites.Settled.{IsSettled, main-IsSettled}
use glm5_3_flash_2x_dgx_spar.Overlay.TailSlots.{count_overruns, circular_slot_ids}
use glm5_3_flash_2x_dgx_spar.Overlay.TailSlots.Clamped.{
  is_within, IsAgreed, circular_slot_ids-IsAgreed,
}
use glm5_3_flash_2x_dgx_spar.Overlay.DecodeFloor as Floor
use glm5_3_flash_2x_dgx_spar.Overlay.DecodeFloor.{configured_cap, running_tokens, waiting_tokens}
use glm5_3_flash_2x_dgx_spar.Overlay.AlignFloor.{align_floor, split_end}
use glm5_3_flash_2x_dgx_spar.Overlay.AlignFloor.Progress.{split_end-IsProgress}
use glm5_3_flash_2x_dgx_spar.Overlay.NoStore.{
  str, parse_no_store, SamplingParams, validate_no_store_params, flag_of, resolve_no_store,
}
use glm5_3_flash_2x_dgx_spar.Overlay.NoStore.Resolved.{
  asks_opt, IsAccepted, validate_no_store_params-resolve,
}
use glm5_3_flash_2x_dgx_spar.Overlay.Retention.{
  Group, is_bad, swa_retention_env, retention_interval_by_group,
}
use glm5_3_flash_2x_dgx_spar.Overlay.Retention.Followed.{
  entry, is_exempted, retention_interval_by_group-entry,
}

-- the configuration that is served: 4 tokens to a pool
abbrev live : VllmConfig
live = record {
  max_model_len = 1000000;
  index_kpool = some (pos 4);
  max_num_seqs = 16;
  max_num_batched_tokens = 2048;
  num_speculative_tokens = 7;
}

sized : get_max_prefill_buffer_size (some "rightsize") live ≡ ok 4000032
unfolding get_max_prefill_buffer_size
sized = refl

-- one long prefill, and a request that decodes
abbrev step : List Request
step = (2000, 1000007) ∷ (8, 80000) ∷ []

started : build_workspace (some "rightsize") live 4 ≡ ok 4000032
unfolding build_workspace get_max_prefill_buffer_size
started = refl

-- a ratio of the cache that the configuration does not have
refused : build_workspace (some "rightsize") live 1 ≡ err (ratio_disagreement 4 1)
unfolding build_workspace get_max_prefill_buffer_size
refused = refl

build_workspace-IsStock_example :
    (4000032 ≤ 40000000)
    × (split_prefill_chunks (compress 4 step) 4000032 1000000
        ≡ split_prefill_chunks (compress 4 step) 40000000 1000000)
build_workspace-IsStock_example =
    build_workspace-IsStock (some "rightsize") live 4 step 1000000 started (
      omega arith,
      (omega arith, ((omega arith, (omega arith, tt)), (omega arith, (omega arith, tt)))),
    )

-- two requests would exceed the logits, and the third does so alone and is cut in two
abbrev uneven : List Request
uneven = (3, 10) ∷ (2, 20) ∷ (5, 30) ∷ []

chunked :
    split_prefill_chunks uneven 40 480
    ≡ ((0, 1), (0, 3)) ∷ ((1, 2), (0, 2)) ∷ ((2, 3), (0, 4)) ∷ ((2, 3), (4, 5)) ∷ []
unfolding split_prefill_chunks
chunked = refl

abbrev sites : List Site
sites =
    record {
      name = codes "sizing";
      mark = codes "# new";
      anchor = codes "x = 1";
      patched = codes "x = 2  # new";
    }
    ∷ []

abbrev source : Text
source = codes "a\nx = 1\nb"

abbrev anything : Text → Bool
anything text = true

abbrev working : Disk
working = record { replaces = true; returns = true }

abbrev failing : Disk
failing = record { replaces = true; returns = false }

rewritten :
    main anything working false sites (holding source)
    ≡ record { ending = done applied; file = holding (codes "a\nx = 2  # new\nb"); wrote = true }
unfolding main prepare is_verified count replace_first
rewritten = refl

-- `clear_pyc` raises
main-IsSettled_example :
    let r : Ran = main anything failing false sites (holding source) in
    IsSettled anything sites working false (holding source) r r.ending
main-IsSettled_example =
    main-IsSettled anything sites working failing false (holding source) (omega arith)

-- the second position is past the one block of the row
overrun : count_overruns (3 ∷ 70 ∷ []) 64 1 ≡ ok 1
unfolding count_overruns
overrun = refl

circular_slot_ids-IsAgreed_example :
    (out : List ℕ) × ((circular_slot_ids (3 ∷ 70 ∷ []) (5 ∷ []) 64 true ≡ ok out)
      × ((all (is_within (5 ∷ []) 64) out ≡ true)
          × IsAgreed 5 [] 64
              (omega arith)
              1
              out
              (circular_slot_ids (3 ∷ 70 ∷ []) (5 ∷ []) 64 false)))
circular_slot_ids-IsAgreed_example =
    circular_slot_ids-IsAgreed 5 [] 64 (omega arith) (3 ∷ 70 ∷ []) overrun

abbrev decoding : Floor.Request
decoding = record { request_id = codes "a"; num_computed_tokens = 12; num_prompt_tokens = 10 }

abbrev prefilling : Floor.Request
prefilling = record { request_id = codes "b"; num_computed_tokens = 0; num_prompt_tokens = 9000 }

capped : running_tokens (some (codes " 128 ")) (decoding ∷ prefilling ∷ []) prefilling 1024 ≡ 128
unfolding running_tokens Floor.mixed_prefill_policy Floor.cap_of parse_int strip
capped = refl

put_back : waiting_tokens none (decoding ∷ []) prefilling 0 1024 ≡ none
unfolding waiting_tokens Floor.mixed_prefill_policy Floor.cap_of parse_int strip
put_back = refl

-- a late admission of 512 tokens: without the switch nothing is left of it
stalled : split_end false 3584 3584 3600 4112 ≡ 3584
unfolding split_end
stalled = refl

split_end-IsProgress_example :
    ((3600 < split_end true 3584 3584 3600 4112) × (split_end true 3584 3584 3600 4112 ≤ 4112))
    × (((split_end true 3584 3584 3600 4112 ≡ 3584) ⊎ (3584 ≤ 3600))
        × (((split_end true 3584 3584 3600 4112 ≡ split_end false 3584 3584 3600 4112)
              ⊎ ((3584 ≤ 3584) × (3584 ≤ 3600)))
            × ((align_floor (align_floor none none).1 (some (codes "0"))).0
                ≡ (align_floor none none).0)))
split_end-IsProgress_example =
    split_end-IsProgress 3584 3584 3600 4112 none (some (codes "0")) none (omega arith)

abbrev params : SamplingParams
params = record {
  skip_writing_prefix_cache = none;
  extra_args = some (("skip_writing_prefix_cache", str (codes "1")) ∷ []);
}

accepted : validate_no_store_params params ≡ ok params
unfolding validate_no_store_params parse_no_store get
accepted = refl

validate_no_store_params-resolve_example :
    (resolve_no_store true (some params) ≡ asks_opt (flag_of params)) × IsAccepted (flag_of params)
validate_no_store_params-resolve_example = validate_no_store_params-resolve true params accepted

abbrev group_of : Text → Group
group_of type_name = record {
  own = record { type_name = type_name; sliding_window = some 2048; block_size = some 64 };
  kv_cache_specs = [];
}

abbrev groups : List Group
groups = group_of (codes "MLAAttentionSpec") ∷ group_of (codes "SlidingWindowSpec") ∷ []

unset : swa_retention_env none 3584 ≡ ok none
unfolding swa_retention_env
unset = refl

-- the automatic rule for the drafter
sparse : retention_interval_by_group none groups (1 ∷ []) none 3584 ≡ ok (none ∷ some (pos 0) ∷ [])
unfolding retention_interval_by_group swa_retention_env
sparse = refl

retention_interval_by_group-entry_example :
    let vector : List (Option ℤ) = none ∷ some (pos 0) ∷ [] in
    (vector ≡ map (entry none (is_exempted groups (1 ∷ [])) none 3584) groups)
    × ((true ≡ true) × (all (λ u. not (is_bad 3584 u)) vector ≡ true))
retention_interval_by_group-entry_example =
    retention_interval_by_group-entry none groups (1 ∷ []) none 3584 unset sparse
