-- ===== src/Watchdog/Patterns.antt =====
-- The regular expressions of prefill-watchdog.py.
use glm5_3_flash_2x_dgx_spar.Prelude.{not, ◌||◌, List, [], ◌∷◌, ◌==◌}
use glm5_3_flash_2x_dgx_spar.Text.{codes, is_letter, is_digit, is_space}
use glm5_3_flash_2x_dgx_spar.Text.Regex.{
  Regex, boundary, at_end, char, seq, alt, star, lazy, group, literal, literal_i, plus, opt, digits,
  then_all, one_of,
}

abbrev sign : Regex
sign = opt (char (λ c. c == b'+' || c == b'-'))

abbrev dot : Regex
dot = char (λ c. c == b'.')

abbrev spaces : Regex
spaces = star (char is_space)

-- `\d+(?:\.\d*)?|\.\d+`
abbrev mantissa : Regex
mantissa = alt (seq digits (opt (seq dot (star (char is_digit))))) (seq dot digits)

-- `(?:[eE][+-]?\d+)?`
abbrev exponent : Regex
exponent = opt (then_all (char (λ c. c == b'e' || c == b'E') ∷ sign ∷ digits ∷ []))

abbrev sample : Regex
sample =
    one_of (then_all (sign ∷ mantissa ∷ exponent ∷ []))
      (literal (codes "NaN") ∷ seq sign (literal (codes "Inf")) ∷ [])

-- `_METRIC_RE`
unfoldable pub metric_re : Regex
metric_re = then_all (
    group 1 (
      seq (char (λ c. is_letter c || c == b'_' || c == b':'))
        (star (char (λ c. is_letter c || is_digit c || c == b'_' || c == b':'))))
    ∷ opt (
        then_all (
          char (λ c. c == b'{')
          ∷ group 2 (star (char (λ c. not (c == b'}'))))
          ∷ char (λ c. c == b'}')
          ∷ []))
    ∷ plus (char is_space)
    ∷ group 3 sample
    ∷ opt (then_all (plus (char is_space) ∷ sign ∷ digits ∷ opt (seq dot digits) ∷ []))
    ∷ spaces
    ∷ at_end
    ∷ [])

-- `_BOOT_LABEL_RE`
unfoldable pub boot_label_re : Regex
boot_label_re = then_all (
    boundary
    ∷ literal (codes "boot_id=\"")
    ∷ group 1 (plus (char (λ c. not (c == b'"'))))
    ∷ literal (codes "\"")
    ∷ [])

abbrev part : Regex
part = one_of (literal (codes "process")) (literal (codes "engine") ∷ literal (codes "server") ∷ [])

abbrev anything : Regex
anything = star (char (λ c. not (c == 10)))

-- `_START_METRIC_RE`
unfoldable pub start_metric_re : Regex
start_metric_re =
    alt (then_all (part ∷ anything ∷ literal (codes "start_time_seconds") ∷ at_end ∷ []))
      (then_all (literal (codes "start_time_seconds") ∷ anything ∷ part ∷ at_end ∷ []))

-- `([0-9]+(?:\.[0-9]+)?)`
abbrev number : Regex
number = group 1 (seq digits (opt (seq dot digits)))

-- `_LOG_PATTERNS`, in order
unfoldable pub log_patterns : List Regex
log_patterns =
    then_all (
      literal_i (codes "Avg prompt throughput:")
      ∷ spaces
      ∷ number
      ∷ spaces
      ∷ literal_i (codes "token")
      ∷ opt (literal_i (codes "s"))
      ∷ literal_i (codes "/s")
      ∷ [])
    ∷ then_all (
        boundary
        ∷ literal_i (codes "prefill")
        ∷ opt (alt (literal_i (codes "_tok_s")) (literal_i (codes "_tokens_per_second")))
        ∷ spaces
        ∷ char (λ c. c == b'=' || c == b':')
        ∷ spaces
        ∷ number
        ∷ [])
    ∷ then_all (
        boundary
        ∷ literal_i (codes "prefill")
        ∷ boundary
        ∷ lazy 80 (char (λ c. not (c == 10)))
        ∷ number
        ∷ spaces
        ∷ alt (literal_i (codes "tok"))
            (seq (literal_i (codes "token")) (opt (literal_i (codes "s"))))
        ∷ literal_i (codes "/s")
        ∷ [])
    ∷ then_all (
        literal_i (codes "\"prefill_tok_s\"")
        ∷ spaces
        ∷ char (λ c. c == b':')
        ∷ spaces
        ∷ number
        ∷ [])
    ∷ []
