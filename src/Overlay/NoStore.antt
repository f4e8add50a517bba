-- ===== src/Overlay/NoStore.antt =====
-- vllm-exl3/overlay/patch_apc_no_store.py: the helpers that it inserts, which parse, check and resolve the
-- flag of a request that is not to be stored in the prefix cache.
pub mod Resolved
use glm5_3_flash_2x_dgx_spar.Prelude.{
  ℕ, zero, suc, Bool, true, false, not, Option, none, some, String, Dict, get, ◌==◌, if◌then◌else◌,
  Result, ok, err, ◌>>=◌,
}
use glm5_3_flash_2x_dgx_spar.Number.Int.{ℤ, pos, negsuc}
use glm5_3_flash_2x_dgx_spar.Text.{Text, codes, text_eq}

-- a value that a client may send
pub data Value : Type 0 where
  bool : Bool → Value
  int : ℤ → Value
  str : Text → Value
  other : Value

-- the `ValueError`s
pub data FlagError : Type 0 where
  bad_flag : Value → FlagError
  bad_env : Text → FlagError

parse_text : Text → Result FlagError Bool
parse_text s =
    if text_eq s (codes "0")
    then ok false
    else if text_eq s (codes "1")
    then ok true
    else err (bad_flag (str s))

unfoldable pub parse_no_store : Value → Result FlagError Bool
unfolding parse_text
parse_no_store (bool b) = ok b
parse_no_store (int (pos zero)) = ok false
parse_no_store (int (pos (suc zero))) = ok true
parse_no_store (int (pos (suc (suc n)))) = err (bad_flag (int (pos (suc (suc n)))))
parse_no_store (int (negsuc n)) = err (bad_flag (int (negsuc n)))
parse_no_store (str s) = parse_text s
parse_no_store other = err (bad_flag other)

-- `GLM53_APC_NO_STORE`, read at import
unfoldable pub no_store_env : Option Text → Result FlagError Bool
no_store_env none = ok true
no_store_env (some raw) =
    if text_eq raw (codes "0")
    then ok false
    else if text_eq raw (codes "1")
    then ok true
    else err (bad_env raw)

-- of `SamplingParams`: the typed field, and `extra_args`
pub record SamplingParams : Type 0 where
  pub skip_writing_prefix_cache : Option Value
  pub extra_args : Option (Dict Value)

abbrev pub extra_flag : SamplingParams → Option Value
extra_flag p = elim p.extra_args [
  | none ↦ none
  | some extra ↦ get "skip_writing_prefix_cache" extra
]

-- `params` with its typed field as a Boolean
normalise : Option Value → SamplingParams → Result FlagError SamplingParams
normalise none p = ok p
normalise (some typed) p =
    parse_no_store typed >>= λ b. ok (record p { skip_writing_prefix_cache = some (bool b) })

check_extra : Option Value → SamplingParams → Result FlagError SamplingParams
check_extra none p = ok p
check_extra (some v) p = parse_no_store v >>= λ b. ok p

unfoldable pub validate_no_store_params : SamplingParams → Result FlagError SamplingParams
unfolding normalise check_extra
validate_no_store_params p =
    normalise p.skip_writing_prefix_cache p >>= λ q. check_extra (extra_flag q) q

-- a value that is refused here is logged, and the request stores
honoured : Bool → Result FlagError Bool → Bool
honoured enabled (err e) = false
honoured enabled (ok false) = false
honoured enabled (ok true) = enabled

resolve_flag : Bool → Option Value → Bool
unfolding honoured
resolve_flag enabled none = false
resolve_flag enabled (some v) = honoured enabled (parse_no_store v)

-- the typed field, or else the one in `extra_args`
abbrev pub flag_of : SamplingParams → Option Value
flag_of p = elim p.skip_writing_prefix_cache [ none ↦ extra_flag p | some v ↦ some v ]

-- of a request's parameters, which a pooling request does not have
unfoldable pub resolve_no_store : Bool → Option SamplingParams → Bool
unfolding resolve_flag
resolve_no_store enabled none = false
resolve_no_store enabled (some p) = resolve_flag enabled (flag_of p)
