-- ===== src/Bench/Env/Redacted.antt =====
-- What the later of two environments decides, and that reports hold no secret.
use glm5_3_flash_2x_dgx_spar.Prelude.{
  ◌≡◌, refl, ap, map, Bool, true, not, ◌||◌, ◌&&◌, Option, some, List, [], ◌∷◌, keep_if, All,
  if◌then◌else◌, arith, Bool-cases, inl, inr,
}
use glm5_3_flash_2x_dgx_spar.Text.{Text, codes, text_eq}
use glm5_3_flash_2x_dgx_spar.Text.Regex.Words.{has_word, search_text-has_word}
use glm5_3_flash_2x_dgx_spar.Text.Equality.{text_eq_sym, text_eq_trans}
use glm5_3_flash_2x_dgx_spar.Bench.Env.{
  Env, lookup, assign, update, merge_env, is_sensitive_key, sensitive_re, redacted, redact_env,
  is_relevant, filter_effective_env,
}

pub lookup-assign :
    {V : Type 0} (j k : Text) (v : V) (env : List (Text × V))
    → lookup j (assign k v env) ≡ (if text_eq k j then some v else lookup j env)
unfolding lookup assign
lookup-assign j k v [] = refl
lookup-assign j k v ((i, w) ∷ env) =
    ground
      (arith, text_eq_trans i k j, text_eq_trans i j k, text_eq_sym k j, lookup-assign j k v env)

-- the last value that the overrides give a key
abbrev pub last_value : Text → Env → Option Text → Option Text
last_value key [] found = found
last_value key ((k, v) ∷ env) found = last_value key env (if text_eq k key then some v else found)

lookup-update :
    (key : Text) (base overrides : Env)
    → lookup key (update base overrides) ≡ last_value key overrides (lookup key base)
unfolding update
lookup-update key base [] = refl
lookup-update key base ((k, v) ∷ overrides) =
    rw (lookup-update key (assign k v base) overrides, lookup-assign key k v base)

-- In a merged environment a key has the last value that the overrides give it, or else that of the
-- base.
pub merge_env-lookup :
    (key : Text) (base overrides : Env)
    → lookup key (merge_env base overrides) ≡ last_value key overrides (lookup key base)
unfolding merge_env
merge_env-lookup key base overrides = lookup-update key base overrides

-- the words that mark a value as secret, whatever the case
abbrev pub secret_words : List Text
secret_words =
    codes "API_KEY"
    ∷ codes "TOKEN"
    ∷ codes "SECRET"
    ∷ codes "PASSWORD"
    ∷ codes "PASSWD"
    ∷ codes "CREDENTIAL"
    ∷ codes "AUTH"
    ∷ []

is_sensitive_key-has_word : (key : Text) → is_sensitive_key key ≡ has_word secret_words key
unfolding is_sensitive_key sensitive_re
is_sensitive_key-has_word key =
    search_text-has_word (codes "API_KEY")
      (codes "TOKEN"
        ∷ codes "SECRET"
        ∷ codes "PASSWORD"
        ∷ codes "PASSWD"
        ∷ codes "CREDENTIAL"
        ∷ codes "AUTH"
        ∷ [])
      key

-- the key is relevant, and where it has one of the words in it the value is redacted
abbrev pub is_presentable : Text × Text → Bool
is_presentable (k, v) = is_relevant k && (not (has_word secret_words k) || text_eq v redacted)

presentable : (env : Env) → All (λ p. is_presentable p ≡ true) (filter_effective_env env)
unfolding filter_effective_env redact_env
presentable [] = tt
presentable ((k, v) ∷ env) = elim (Bool-cases (is_relevant k)) [
  | inr e ↦ rw (e, keep_if) (presentable env)
  | inl e ↦
      let same = is_sensitive_key-has_word k in
      elim (Bool-cases (is_sensitive_key k)) [
        | inl g ↦ rw (e, keep_if, g) (ground (arith, e), presentable env)
        | inr g ↦ rw (e, keep_if, g) (ground (arith, e, rw g at same), presentable env)
      ]
]

keys_kept :
    (env : Env)
    → map (λ p. p.0) (filter_effective_env env) ≡ keep_if is_relevant (map (λ p. p.0) env)
unfolding filter_effective_env redact_env
keys_kept [] = refl
keys_kept ((k, v) ∷ env) = elim (Bool-cases (is_relevant k)) [
  | inr e ↦ rw (e, keep_if) (keys_kept env)
  | inl e ↦ rw (e, keep_if) (ap (◌∷◌ k) (keys_kept env))
]

-- A report of an environment has the relevant keys of the environment in order, and where a key has one
-- of the words API_KEY, TOKEN, SECRET, PASSWORD, PASSWD, CREDENTIAL and AUTH in it, in either case, its
-- value is redacted.
pub filter_effective_env-is_presentable :
    (env : Env)
    → (map (λ p. p.0) (filter_effective_env env) ≡ keep_if is_relevant (map (λ p. p.0) env))
      × All (λ p. is_presentable p ≡ true) (filter_effective_env env)
filter_effective_env-is_presentable env = (keys_kept env, presentable env)
