-- ===== src/Overlay/DecodeFloor.antt =====
-- vllm-exl3/overlay/patch_scheduler_decode_floor.py: the policy that it inserts into vLLM's scheduler, and
-- what its two insertions do with the tokens of a request.
pub mod Held
use glm5_3_flash_2x_dgx_spar.Prelude.{
  ℕ, zero, suc, min, Bool, true, false, not, ◌&&◌, ◌||◌, Option, none, some, List, [], ◌∷◌, map,
  any, ltb, leb, ◌==◌, if◌then◌else◌,
}
use glm5_3_flash_2x_dgx_spar.Number.Int.{ℤ, pos, negsuc}
use glm5_3_flash_2x_dgx_spar.Text.{Text, codes, lower, strip, text_eq}
use glm5_3_flash_2x_dgx_spar.Text.Integers.{parse_int}

-- a request of the scheduler; its identity is that of its `request_id`
pub record Request : Type 0 where
  pub request_id : Text
  pub num_computed_tokens : ℕ
  pub num_prompt_tokens : ℕ

abbrev pub is_decoding : Request → Bool
is_decoding r = leb r.num_prompt_tokens r.num_computed_tokens

-- a peer of the request, decoding
abbrev pub is_decoding_peer : Request → Request → Bool
is_decoding_peer current r = not (text_eq r.request_id current.request_id) && is_decoding r

abbrev one_of : List Text → Text → Bool
one_of words raw = any (λ w. text_eq w raw) words

positive_cap : Option ℤ → Option ℕ
positive_cap none = none
positive_cap (some (negsuc n)) = none
positive_cap (some (pos zero)) = none
positive_cap (some (pos (suc n))) = some (suc n)

-- the cap that `GLM53_MIXED_PREFILL_CHUNK` asks for; `none` where it asks for no policy, which a text that
-- is no number does
unfoldable pub cap_of : Text → Option ℕ
unfolding positive_cap
cap_of raw =
    if one_of (codes "0" ∷ codes "off" ∷ codes "no" ∷ []) raw
    then none
    else if one_of (codes "skip" ∷ codes "-1" ∷ []) raw
    then some 0
    else positive_cap (parse_int raw)

abbrev or_skip : Option Text → Text
or_skip none = codes "skip"
or_skip (some raw) = raw

-- `os.environ.get("GLM53_MIXED_PREFILL_CHUNK", "skip").strip().lower()`
abbrev pub configured_cap : Option Text → Option ℕ
configured_cap env = cap_of (map lower (strip (or_skip env)))

peer_cap : Option ℕ → List Request → Request → Option ℕ
peer_cap none running current = none
peer_cap (some cap) [] current = none
peer_cap (some cap) (r ∷ running) current =
    let later = peer_cap (some cap) running current in
    if is_decoding_peer current r then some cap else later

unfoldable pub mixed_prefill_policy : Option Text → List Request → Request → Option ℕ
unfolding peer_cap
mixed_prefill_policy env running current = peer_cap (configured_cap env) running current

cap_running : Option ℕ → Request → ℕ → ℕ
cap_running none request num_new_tokens = num_new_tokens
cap_running (some cap) request num_new_tokens =
    if ltb request.num_computed_tokens request.num_prompt_tokens
    then min num_new_tokens cap
    else num_new_tokens

-- the insertion in the loop over the running requests
unfoldable pub running_tokens : Option Text → List Request → Request → ℕ → ℕ
unfolding cap_running
running_tokens env running request num_new_tokens =
    cap_running (mixed_prefill_policy env running request) request num_new_tokens

-- `none` where the request is put back among the skipped ones
cap_waiting : Option ℕ → Request → ℕ → ℕ → Option ℕ
cap_waiting none request num_computed_tokens num_new_tokens = some num_new_tokens
cap_waiting (some cap) request num_computed_tokens num_new_tokens =
    if ltb num_computed_tokens request.num_prompt_tokens
    then if leb cap 0 then none else some (min num_new_tokens cap)
    else some num_new_tokens

-- the insertion in the loop over the waiting requests, after a look at the prefix cache
unfoldable pub waiting_tokens : Option Text → List Request → Request → ℕ → ℕ → Option ℕ
unfolding cap_waiting
waiting_tokens env running request num_computed_tokens num_new_tokens =
    cap_waiting (mixed_prefill_policy env running request) request num_computed_tokens
      num_new_tokens
