-- ===== src/Bench/Secrets.antt =====
-- `_secret_values` and `redact_text`: what is blotted out of logs.
use glm5_3_flash_2x_dgx_spar.Prelude.{
  ℕ, zero, suc, ◌-◌, Bool, true, false, ◌&&◌, List, [], ◌∷◌, ◌++◌, map, any, keep_if, length, ltb,
  leb, if◌then◌else◌,
}
use glm5_3_flash_2x_dgx_spar.Text.{Text, text_eq, starts_with}
use glm5_3_flash_2x_dgx_spar.Bench.Env.{Env, is_sensitive_key, redacted}

-- a `set`; its order is that of insertion here
abbrev add_to_set : Text → List Text → List Text
add_to_set t set = if any (text_eq t) set then set else set ++ t ∷ []

add_all : List Text → List Text → List Text
add_all [] set = set
add_all (t ∷ ts) set = add_all ts (add_to_set t set)

-- `sorted(values, key=len, reverse=True)`, which keeps the order of equals
insert_longest : Text → List Text → List Text
insert_longest t [] = t ∷ []
insert_longest t (x ∷ xs) =
    if ltb (length t) (length x) then x ∷ insert_longest t xs else t ∷ x ∷ xs

longest_first : List Text → List Text
unfolding insert_longest
longest_first [] = []
longest_first (x ∷ xs) = insert_longest x (longest_first xs)

abbrev is_secret : Text × Text → Bool
is_secret (key, value) = is_sensitive_key key && leb 4 (length value)

unfoldable pub secret_values : Env → Text → List Text
unfolding add_all longest_first
secret_values env api_key =
    let found = add_all (map (λ p. p.1) (keep_if is_secret env)) [] in
    longest_first (if leb 4 (length api_key) then add_to_set api_key found else found)

-- `text.replace(old, new)` for an `old` that is not empty: `skip` characters belong to a match
replace_from : Text → Text → ℕ → Text → Text
replace_from old new skip [] = []
replace_from old new (suc skip) (c ∷ cs) = replace_from old new skip cs
replace_from old new zero (c ∷ cs) = elim (starts_with (c ∷ cs) old) [
  | true ↦ new ++ replace_from old new (length old - 1) cs
  | false ↦ c ∷ replace_from old new 0 cs
]

unfoldable pub redact_text : Text → List Text → Text
unfolding replace_from
redact_text text [] = text
redact_text text ([] ∷ secrets) = redact_text text secrets
redact_text text ((c ∷ cs) ∷ secrets) = redact_text (replace_from (c ∷ cs) redacted 0 text) secrets
