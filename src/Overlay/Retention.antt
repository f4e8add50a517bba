-- ===== src/Overlay/Retention.antt =====
-- vllm-exl3/overlay/patch_apc_per_group_retention.py: the helpers that it inserts into vLLM's coordinator, in
-- the order of its `__init__`; and the group ids that patch_hybrid_prefix_hit.py narrows. Sets of group
-- ids are lists.
pub mod Followed
use glm5_3_flash_2x_dgx_spar.Prelude.{
  ℕ, zero, suc, ◌%◌, Bool, true, false, not, ◌&&◌, ◌||◌, Option, none, some, List, [], ◌∷◌, any,
  all, is_some, ltb, leb, ◌==◌, if◌then◌else◌, Result, ok, err, ◌>>=◌,
}
use glm5_3_flash_2x_dgx_spar.Number.Int.{ℤ, pos, negsuc}
use glm5_3_flash_2x_dgx_spar.Text.{Text, codes, strip, text_eq}
use glm5_3_flash_2x_dgx_spar.Text.Integers.{parse_int}

-- what is read of a spec: the name of its type, and two attributes that may be missing
pub record Spec : Type 0 where
  pub type_name : Text
  pub sliding_window : Option ℕ
  pub block_size : Option ℕ

-- a group's spec, with the values of its `kv_cache_specs`
pub record Group : Type 0 where
  pub own : Spec
  pub kv_cache_specs : List Spec

pub data RetentionError : Type 0 where
  not_an_integer negative not_a_multiple too_large no_exempt_group : RetentionError
  bad_interval : ℕ → RetentionError

abbrev pub inner_kv_spec : Group → Spec
inner_kv_spec g = elim g.kv_cache_specs [ [] ↦ g.own | s ∷ ss ↦ s ]

abbrev pub is_draft_swa_spec : Group → Bool
is_draft_swa_spec g = text_eq (inner_kv_spec g).type_name (codes "SlidingWindowSpec")

abbrev max_interval : ℕ
max_interval = 1000000

check_value : ℕ → Option ℤ → Result RetentionError (Option ℤ)
check_value scheduler_block_size none = err not_an_integer
check_value scheduler_block_size (some (negsuc n)) = err negative
check_value scheduler_block_size (some (pos n)) =
    if not (scheduler_block_size == 0) && not (n % scheduler_block_size == 0)
    then err not_a_multiple
    else if ltb max_interval n
    then err too_large
    else ok (some (pos n))

-- the value of `VLLM_PREFIX_CACHE_RETENTION_INTERVAL_SWA`
unfoldable pub swa_retention_env : Option Text → ℕ → Result RetentionError (Option ℤ)
unfolding check_value
swa_retention_env none scheduler_block_size = ok none
swa_retention_env (some raw) scheduler_block_size =
    if text_eq (strip raw) [] then ok none else check_value scheduler_block_size (parse_int raw)

-- the drafter groups, from the group `i` on
pub swa_ids_from : ℕ → List Group → List ℕ
swa_ids_from i [] = []
swa_ids_from i (g ∷ gs) =
    let later = swa_ids_from (suc i) gs in if is_draft_swa_spec g then i ∷ later else later

abbrev pub has_id : List ℕ → ℕ → Bool
has_id ids i = any (λ j. j == i) ids

abbrev pub same_set : List ℕ → List ℕ → Bool
same_set a b = all (has_id b) a && all (has_id a) b

abbrev pub is_empty : List ℕ → Bool
is_empty [] = true
is_empty (i ∷ ids) = false

exempt_of : List ℕ → List ℕ → List ℕ
exempt_of [] eagle = []
exempt_of (i ∷ swa) eagle = if same_set eagle (i ∷ swa) then i ∷ swa else []

abbrev min_exempt_group_ids : List Group → List ℕ → List ℕ
min_exempt_group_ids groups eagle = exempt_of (swa_ids_from 0 groups) eagle

ids_from : ℕ → List Group → List ℕ
ids_from i [] = []
ids_from i (g ∷ gs) = i ∷ ids_from (suc i) gs

-- patch_hybrid_prefix_hit.py, of a coordinator that flags no group itself
unfoldable pub narrowed_eagle_ids : List Group → List ℕ
unfolding swa_ids_from ids_from
narrowed_eagle_ids groups = elim (swa_ids_from 0 groups) [
  | [] ↦ ids_from 0 groups
  | i ∷ swa ↦ i ∷ swa
]

-- a size that is there and not 0
abbrev size_or_zero : Option ℕ → ℕ
size_or_zero none = 0
size_or_zero (some n) = n

-- the automatic rule for a drafter group
pub automatic : Spec → Option ℤ → ℕ → Option ℤ
automatic s global alignment_tokens =
    if size_or_zero s.sliding_window == 0
      || size_or_zero s.block_size == 0
      || alignment_tokens == 0
      || leb alignment_tokens (size_or_zero s.sliding_window)
    then global
    else some (pos 0)

retention_for_group : Group → Option ℤ → Option ℤ → ℕ → Bool → Option ℤ
unfolding automatic
retention_for_group g global swa alignment_tokens is_min_exempt =
    if not (is_draft_swa_spec g) || not is_min_exempt
    then global
    else elim swa [ some n ↦ some n | none ↦ automatic (inner_kv_spec g) global alignment_tokens ]

retention_from : List ℕ → Option ℤ → Option ℤ → ℕ → ℕ → List Group → List (Option ℤ)
unfolding retention_for_group
retention_from exempt global swa alignment_tokens i [] = []
retention_from exempt global swa alignment_tokens i (g ∷ gs) =
    retention_for_group g global swa alignment_tokens (has_id exempt i)
    ∷ retention_from exempt global swa alignment_tokens (suc i) gs

resolve_retention_by_group :
    List Group → List ℕ → Option ℤ → Option ℤ → ℕ → Result RetentionError (List (Option ℤ))
unfolding exempt_of retention_from swa_ids_from
resolve_retention_by_group groups eagle global swa alignment_tokens =
    let exempt = min_exempt_group_ids groups eagle in
    if is_some swa && is_empty exempt
    then err no_exempt_group
    else ok (retention_from exempt global swa alignment_tokens 0 groups)

pub is_bad : ℕ → Option ℤ → Bool
is_bad scheduler_block_size none = false
is_bad scheduler_block_size (some (negsuc n)) = true
is_bad scheduler_block_size (some (pos n)) = not (n == 0) && not (n % scheduler_block_size == 0)

validate_from : ℕ → ℕ → List (Option ℤ) → Result RetentionError (List (Option ℤ))
unfolding is_bad
validate_from scheduler_block_size i [] = ok []
validate_from scheduler_block_size i (v ∷ vs) =
    let rest = validate_from scheduler_block_size (suc i) vs in
    if is_bad scheduler_block_size v then err (bad_interval i) else rest >>= λ us. ok (v ∷ us)

-- `retention_interval_by_group`, as `__init__` sets it
unfoldable pub retention_interval_by_group :
    Option Text → List Group → List ℕ → Option ℤ → ℕ → Result RetentionError (List (Option ℤ))
unfolding resolve_retention_by_group validate_from
retention_interval_by_group env groups eagle global scheduler_block_size =
    swa_retention_env env scheduler_block_size >>= λ swa.
    resolve_retention_by_group groups eagle global swa scheduler_block_size >>= λ vector.
    validate_from scheduler_block_size 0 vector
