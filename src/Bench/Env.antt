-- ===== src/Bench/Env.antt =====
-- Environments of an arm: merging, and what a report may show of them.
pub mod Redacted
use glm5_3_flash_2x_dgx_spar.Prelude.{
  Bool, true, false, ◌||◌, Option, none, some, List, [], ◌∷◌, map, any, keep_if, is_some,
  if◌then◌else◌,
}
use glm5_3_flash_2x_dgx_spar.Text.{Text, codes, text_eq, starts_with}
use glm5_3_flash_2x_dgx_spar.Text.Regex.{Regex, one_of, literal_i, search_text}

-- a `dict[str, str]` in insertion order
abbrev pub Env : Type 0
Env = List (Text × Text)

-- `env.get(key)`, for this and other dictionaries
unfoldable pub lookup : {V : Type 0} → Text → List (Text × V) → Option V
lookup key [] = none
lookup key ((k, v) ∷ env) = if text_eq k key then some v else lookup key env

-- `env[key] = value`
unfoldable pub assign : {V : Type 0} → Text → V → List (Text × V) → List (Text × V)
assign key value [] = (key, value) ∷ []
assign key value ((k, v) ∷ env) =
    if text_eq k key then (k, value) ∷ env else (k, v) ∷ assign key value env

-- `merged.update(overrides)`
update : Env → Env → Env
unfolding assign
update merged [] = merged
update merged ((k, v) ∷ overrides) = update (assign k v merged) overrides

unfoldable pub merge_env : Env → Env → Env
unfolding update
merge_env base overrides = update base overrides

-- `_SENSITIVE_ENV_RE`
sensitive_re : Regex
sensitive_re = one_of (literal_i (codes "API_KEY")) (
    map (λ word. literal_i word)
      (codes "TOKEN"
        ∷ codes "SECRET"
        ∷ codes "PASSWORD"
        ∷ codes "PASSWD"
        ∷ codes "CREDENTIAL"
        ∷ codes "AUTH"
        ∷ []))

unfoldable pub is_sensitive_key : Text → Bool
unfolding sensitive_re
is_sensitive_key key = is_some (search_text sensitive_re key)

abbrev pub redacted : Text
redacted = codes "<redacted>"

unfoldable pub redact_env : Env → Env
redact_env env = map (λ (k, v). (k, if is_sensitive_key k then redacted else v)) env

-- `_RELEVANT_ENV_PREFIXES`
relevant_prefixes : List Text
relevant_prefixes =
    codes "GLM53_"
    ∷ codes "VLLM_"
    ∷ codes "EXL3_"
    ∷ codes "MTP_"
    ∷ codes "MAX_"
    ∷ codes "SERVED_"
    ∷ codes "SPEC_"
    ∷ codes "ENFORCE_"
    ∷ codes "GPU_"
    ∷ codes "MODEL"
    ∷ codes "IMAGE"
    ∷ codes "HEAD_IP"
    ∷ codes "WORKER_IP"
    ∷ codes "PORT"
    ∷ codes "READY_"
    ∷ codes "EXTRA_ARGS"
    ∷ codes "ABLIT"
    ∷ []

-- the condition of `filter_effective_env`
unfoldable pub is_relevant : Text → Bool
unfolding relevant_prefixes
is_relevant key =
    text_eq key (codes "MODEL")
    || text_eq key (codes "IMAGE")
    || any (λ p. starts_with key p) relevant_prefixes

unfoldable pub filter_effective_env : Env → Env
filter_effective_env env = redact_env (keep_if (λ (k, v). is_relevant k) env)
