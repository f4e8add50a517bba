-- ===== src/Watchdog/Metrics.antt =====
-- `parse_metrics_text`: one Prometheus scrape.
use glm5_3_flash_2x_dgx_spar.Prelude.{
  Bool, true, not, ◌&&◌, Option, none, some, List, [], ◌∷◌, is_some, if◌then◌else◌,
}
use glm5_3_flash_2x_dgx_spar.Number.{Float, ◌+ᶠ◌}
use glm5_3_flash_2x_dgx_spar.Text.{Text, codes, strip, split_lines, text_eq, starts_with}
use glm5_3_flash_2x_dgx_spar.Text.Regex.{match_start, search_text, group_of}
use glm5_3_flash_2x_dgx_spar.Watchdog.{MetricsSnapshot}
use glm5_3_flash_2x_dgx_spar.Watchdog.Patterns.{metric_re, boot_label_re, start_metric_re}

-- `not line or line.startswith("#")`
unfoldable pub is_comment : Text → Bool
is_comment [] = true
is_comment (c ∷ cs) = starts_with (c ∷ cs) (codes "#")

module _ {F : Type 0} ⦃f : Float F⦄ where
  -- `_parse_value`
  unfoldable pub parse_value : Text → Option F
  parse_value raw = elim (f.parse raw) [
    | none ↦ none
    | some v ↦ if f.finite v then some v else none
  ]

  -- `(total or 0.0) + value`
  abbrev pub add_to : Option F → F → Option F
  add_to none v = some (f.of_ℕ 0 +ᶠ v)
  add_to (some t) v = some (t +ᶠ v)

  -- the sample of one line, by the name of its metric
  store_sample : Text → F → MetricsSnapshot F → MetricsSnapshot F
  store_sample name v m =
      if text_eq name (codes "vllm:prompt_tokens_total")
      then record m { prompt_tokens = add_to m.prompt_tokens v }
      else if text_eq name (codes "vllm:time_to_first_token_seconds_sum")
      then record m { ttft_sum = add_to m.ttft_sum v }
      else if text_eq name (codes "vllm:time_to_first_token_seconds_count")
      then record m { ttft_count = add_to m.ttft_count v }
      else if is_some (search_text start_metric_re name) && not (is_some m.process_start)
      then record m { process_start = some v }
      else m

  store_label : Text → MetricsSnapshot F → MetricsSnapshot F
  store_label line m = elim m.boot_label [
    | some b ↦ m
    | none ↦ elim (search_text boot_label_re line) [
      | none ↦ m
      | some c ↦ record m { boot_label = group_of 1 c.groups }
    ]
  ]

  -- `match.groups()` of a line, its name and its value
  read_sample : Text → Option (Text × F)
  unfolding parse_value
  read_sample line = elim (match_start metric_re line) [
    | none ↦ none
    | some c ↦ elim (group_of 1 c.groups) [
      | none ↦ none
      | some name ↦ elim (group_of 3 c.groups) [
        | none ↦ none
        | some raw ↦ elim (parse_value raw) [ none ↦ none | some v ↦ some (name, v) ]
      ]
    ]
  ]

  read_line : Text → MetricsSnapshot F → MetricsSnapshot F
  unfolding store_sample store_label read_sample is_comment
  read_line raw m =
      let line = strip raw in
      if is_comment line
      then m
      else let labelled = store_label line m in
        elim (read_sample line) [ none ↦ labelled | some (name, v) ↦ store_sample name v labelled ]

  read_lines : List Text → MetricsSnapshot F → MetricsSnapshot F
  unfolding read_line
  read_lines [] m = m
  read_lines (l ∷ ls) m = read_lines ls (read_line l m)

  unfoldable pub parse_metrics_text : Text → Text → F → MetricsSnapshot F
  unfolding read_lines
  parse_metrics_text text source ts = read_lines (split_lines text) (record {
    source = source;
    ts = ts;
    prompt_tokens = none;
    ttft_sum = none;
    ttft_count = none;
    process_start = none;
    boot_label = none;
  })
