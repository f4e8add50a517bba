-- ===== src/Bench/Arms.antt =====
-- `parse_arm` and `parse_arms`: an arm is `NAME` or `NAME:KEY=VALUE,KEY=VALUE`.
pub mod Valid
use glm5_3_flash_2x_dgx_spar.Prelude.{
  ℕ, Bool, true, false, not, ◌&&◌, ◌||◌, ◌==◌, Option, none, some, List, [], ◌∷◌, ◌++◌, any,
  is_some, if◌then◌else◌, Result, ok, err, ◌>>=◌, traverse,
}
use glm5_3_flash_2x_dgx_spar.Text.{Text, codes, strip, text_eq, is_letter, is_digit}
use glm5_3_flash_2x_dgx_spar.Text.Regex.{Regex, char, seq, star, at_end, match_start}
use glm5_3_flash_2x_dgx_spar.Bench.Env.{Env, lookup, assign}

-- the messages of `ArmSpecError`
pub data ArmSpecError : Type 0 where
  empty_spec missing_name : ArmSpecError
  invalid_name empty_overrides empty_segment : Text → ArmSpecError
  missing_equals invalid_key duplicate_key newline_in_value : Text → Text → ArmSpecError
  duplicate_name : Text → ArmSpecError

pub record Arm : Type 0 where
  pub name : Text
  pub env : Env
  pub spec : Text

-- `_ARM_NAME_RE`
arm_name_re : Regex
arm_name_re = seq (char (λ c. is_letter c || is_digit c)) (
    seq (star (char (λ c. is_letter c || is_digit c || c == b'.' || c == b'_' || c == b'-')))
      at_end)

-- `_ENV_KEY_RE`
env_key_re : Regex
env_key_re =
    seq (char (λ c. is_letter c || c == b'_'))
      (seq (star (char (λ c. is_letter c || is_digit c || c == b'_'))) at_end)

unfoldable pub is_arm_name : Text → Bool
unfolding arm_name_re
is_arm_name name = is_some (match_start arm_name_re name)

unfoldable pub is_env_key : Text → Bool
unfolding env_key_re
is_env_key key = is_some (match_start env_key_re key)

-- `text.partition(separator)`: what stands before, and what stands after if there is one
partition : ℕ → Text → Text × Option Text
partition separator [] = ([], none)
partition separator (c ∷ cs) =
    let (before, after) = partition separator cs in
    if c == separator then ([], some cs) else (c ∷ before, after)

-- `text.split(separator)`, of which `piece` is the start of the first
split_on : ℕ → Text → Text → List Text
split_on separator piece [] = piece ∷ []
split_on separator piece (c ∷ cs) = elim (c == separator) [
  | true ↦ piece ∷ split_on separator [] cs
  | false ↦ split_on separator (piece ++ c ∷ []) cs
]

abbrev pub has_newline : Text → Bool
has_newline = any (λ c. c == 10 || c == 13)

-- an override once its key and its value are told apart
add_pair : Text → Env → Text → Text → Result ArmSpecError Env
add_pair name env key value =
    if not (is_env_key key)
    then err (invalid_key name key)
    else if is_some (lookup key env)
    then err (duplicate_key name key)
    else if has_newline value
    then err (newline_in_value name key)
    else ok (assign key value env)

split_pair : Text → Env → Text → Text × Option Text → Result ArmSpecError Env
unfolding add_pair
split_pair name env piece (key, none) = err (missing_equals name piece)
split_pair name env piece (key, some value) = add_pair name env (strip key) value

add_override : Text → Env → Text → Result ArmSpecError Env
unfolding split_pair partition
add_override name env item = elim (strip item) [
  | [] ↦ err (empty_segment name)
  | c ∷ cs ↦ split_pair name env (c ∷ cs) (partition b'=' (c ∷ cs))
]

add_overrides : Text → Env → List Text → Result ArmSpecError Env
unfolding add_override
add_overrides name env [] = ok env
add_overrides name env (item ∷ items) =
    add_override name env item >>= λ more. add_overrides name more items

abbrev is_blank : Text → Bool
is_blank text = elim (strip text) [ [] ↦ true | c ∷ cs ↦ false ]

-- the environment of an arm whose name is known
parse_env : Text → Option Text → Result ArmSpecError Env
unfolding add_overrides split_on
parse_env name none = ok []
parse_env name (some text) =
    if is_blank text
    then err (empty_overrides name)
    else add_overrides name [] (split_on b',' [] text)

parse_named : Text → Text → Option Text → Result ArmSpecError Arm
unfolding parse_env
parse_named raw [] rest = err missing_name
parse_named raw (c ∷ cs) rest =
    let name = c ∷ cs in
    if not (is_arm_name name)
    then err (invalid_name name)
    else parse_env name rest >>= λ env. ok (record { name = name; env = env; spec = raw })

parse_raw : Text → Result ArmSpecError Arm
unfolding parse_named partition
parse_raw [] = err empty_spec
parse_raw (c ∷ cs) =
    let (name, rest) = partition b':' (c ∷ cs) in parse_named (c ∷ cs) (strip name) rest

unfoldable pub parse_arm : Text → Result ArmSpecError Arm
unfolding parse_raw
parse_arm spec = parse_raw (strip spec)

-- the loop of `parse_arms` over the arms, with the names that it has seen
distinct_from : List Text → List Arm → Result ArmSpecError Bool
distinct_from seen [] = ok true
distinct_from seen (arm ∷ arms) =
    let rest = distinct_from (arm.name ∷ seen) arms in
    if any (text_eq arm.name) seen then err (duplicate_name arm.name) else rest

-- `list(specs) or ["baseline"]`
abbrev pub or_baseline : List Text → List Text
or_baseline [] = codes "baseline" ∷ []
or_baseline (s ∷ ss) = s ∷ ss

unfoldable pub parse_arms : List Text → Result ArmSpecError (List Arm)
unfolding distinct_from
parse_arms specs =
    traverse parse_arm (or_baseline specs) >>= λ arms. distinct_from [] arms >>= λ b. ok arms
