-- ===== src/Watchdog/Logs.antt =====
-- `parse_log_values` and `read_tail`: throughput values from the end of the server's log.
use glm5_3_flash_2x_dgx_spar.Prelude.{
  ℕ, zero, suc, ◌+◌, ◌-◌, ◌*◌, min, true, false, ◌&&◌, Option, none, some, List, [], ◌∷◌, ◌++◌,
  length, take, drop, count_if, ltb, leb, ◌==◌, if◌then◌else◌,
}
use glm5_3_flash_2x_dgx_spar.Number.{Float, ◌≤ᶠ◌}
use glm5_3_flash_2x_dgx_spar.Text.{Text, split_lines}
use glm5_3_flash_2x_dgx_spar.Text.Regex.{Regex, search_text, group_of}
use glm5_3_flash_2x_dgx_spar.Watchdog.Patterns.{log_patterns}
use glm5_3_flash_2x_dgx_spar.Watchdog.Metrics.{parse_value}

module _ {F : Type 0} ⦃f : Float F⦄ where
  -- the value of the first pattern that matches with a finite number
  line_value : List Regex → Text → Option F
  line_value [] line = none
  line_value (p ∷ ps) line =
      let rest = line_value ps line in
      elim (search_text p line) [
        | none ↦ rest
        | some c ↦ elim (group_of 1 c.groups) [
          | none ↦ rest
          | some raw ↦ elim (parse_value raw) [ none ↦ rest | some v ↦ some v ]
        ]
      ]

  -- the values, and how many lines were idle
  log_values : List Text → List F × ℕ
  unfolding line_value
  log_values [] = ([], 0)
  log_values (line ∷ lines) =
      let rest = log_values lines in
      elim (line_value log_patterns line) [
        | none ↦ rest
        | some v ↦ if v ≤ᶠ f.of_ℕ 0 then (rest.0, rest.1 + 1) else (v ∷ rest.0, rest.1)
      ]

  unfoldable pub parse_log_values : List Text → List F × ℕ
  unfolding log_values
  parse_log_values lines = log_values lines

-- the last `n` of a list
abbrev pub last_of {ℓ} : {A : Type ℓ} → ℕ → List A → List A
last_of n xs = drop (length xs - n) xs

-- the `while`: `end` is how far the file is still unread, `block` how much is read at once
tail_loop : ℕ → ℕ → ℕ → List ℕ → ℕ → List ℕ → List ℕ
tail_loop zero block max_lines bytes end read = read
tail_loop (suc fuel) block max_lines bytes end read =
    elim (ltb 0 end && leb (count_if (λ b. b == 10) read) max_lines) [
      | true ↦
          let step = min block end in
          let start = end - step in
          tail_loop fuel block max_lines bytes start (take step (drop start bytes) ++ read)
      | false ↦ read
    ]

abbrev block_size : ℕ
block_size = 64 * 1024

-- `read_tail` of an open file; `decode` is UTF-8 with replacement
unfoldable pub read_tail : (List ℕ → Text) → List ℕ → ℕ → List Text
unfolding tail_loop
read_tail decode bytes max_lines =
    last_of max_lines
      (split_lines (decode (tail_loop (length bytes) block_size max_lines bytes (length bytes) [])))
