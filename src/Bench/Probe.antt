-- ===== src/Bench/Probe.antt =====
-- `host_boot_id` and `probe_boot_id`: which boot of the engine, or of the host, answers.
use glm5_3_flash_2x_dgx_spar.Prelude.{
  not, ◌&&◌, Option, none, some, List, [], ◌∷◌, ◌++◌, is_some, ◌==◌, if◌then◌else◌,
}
use glm5_3_flash_2x_dgx_spar.Number.{Float}
use glm5_3_flash_2x_dgx_spar.Text.{Text, codes, strip, split_lines}
use glm5_3_flash_2x_dgx_spar.Text.Regex.{match_start, search_text, group_of}
use glm5_3_flash_2x_dgx_spar.Watchdog.Patterns.{metric_re, boot_label_re, start_metric_re}
use glm5_3_flash_2x_dgx_spar.Watchdog.Metrics.{is_comment}
use glm5_3_flash_2x_dgx_spar.Bench.Urls.{api_root}
use glm5_3_flash_2x_dgx_spar.Bench.System.{System}
use glm5_3_flash_2x_dgx_spar.Bench.Boots.{metrics_label, process_start, host_boot, unavailable}
use glm5_3_flash_2x_dgx_spar.Bench.Results.{Boot}
use glm5_3_flash_2x_dgx_spar.Bench.Http.{HttpResponse, http_request}

-- `metric_boot` and `process_start`
pub record Identity (F : Type 0) : Type 0 where
  pub label : Option Text
  pub started : Option F

module _ {F : Type 0} ⦃f : Float F⦄ where
  store_boot : Text → Identity F → Identity F
  store_boot line m = elim m.label [
    | some b ↦ m
    | none ↦ elim (search_text boot_label_re line) [
      | none ↦ m
      | some c ↦ record m { label = group_of 1 c.groups }
    ]
  ]

  -- the first finite value of a start metric
  store_start : Text → Text → Identity F → Identity F
  store_start name raw m =
      if not (is_some (search_text start_metric_re name)) then m else elim (f.parse raw) [
        | none ↦ m
        | some value ↦
            if f.finite value && not (is_some m.started)
            then record m { started = some value }
            else m
      ]

  store_match : Text → Identity F → Identity F
  unfolding store_start
  store_match line m = elim (match_start metric_re line) [
    | none ↦ m
    | some c ↦ elim (group_of 1 c.groups) [
      | none ↦ m
      | some name ↦ elim (group_of 3 c.groups) [ none ↦ m | some raw ↦ store_start name raw m ]
    ]
  ]

  scan_line : Text → Identity F → Identity F
  unfolding store_boot store_match is_comment
  scan_line raw m =
      let line = strip raw in if is_comment line then m else store_match line (store_boot line m)

  scan_lines : List Text → Identity F → Identity F
  unfolding scan_line
  scan_lines [] m = m
  scan_lines (l ∷ ls) m = scan_lines ls (scan_line l m)

  -- the identity that /metrics shows
  unfoldable pub identity_of : Text → Identity F
  unfolding scan_lines
  identity_of body = scan_lines (split_lines body) (record { label = none; started = none })

module _ {F W : Type 0} ⦃f : Float F⦄ (sys : System F W) where
  host_boot_id : W → Option Text
  host_boot_id w = elim (sys.read_boot_id w) [ none ↦ none | some t ↦ some (strip t) ]

  boot_of_host : Option Text → Boot
  boot_of_host none = record { id = none; source = unavailable }
  boot_of_host (some []) = record { id = none; source = unavailable }
  boot_of_host (some (c ∷ cs)) = record {
    id = some (codes "host-boot:" ++ (c ∷ cs));
    source = host_boot;
  }

  boot_of_start : Option F → Option Text → Boot
  unfolding boot_of_host
  boot_of_start none host = boot_of_host host
  boot_of_start (some x) host = record {
    id = some (codes "process-start:" ++ sys.show_int x);
    source = process_start;
  }

  boot_of : Identity F → Option Text → Boot
  unfolding boot_of_start
  boot_of m host = elim m.label [
    | none ↦ boot_of_start m.started host
    | some [] ↦ boot_of_start m.started host
    | some (c ∷ cs) ↦ record {
      id = some (codes "metrics-boot:" ++ (c ∷ cs));
      source = metrics_label;
    }
  ]

  probe_answer : Option HttpResponse → Option Text → Option Boot
  unfolding boot_of identity_of
  probe_answer none host = none
  probe_answer (some r) host =
      some (if r.code == 200 then boot_of (identity_of r.body) host else boot_of_host host)

  -- `none` for an exception
  unfoldable pub probe_boot_id : Text → F → Text → W → Option Boot × W
  unfolding http_request host_boot_id probe_answer
  probe_boot_id base_url timeout api_key w =
      let (r, v) =
        http_request sys (api_root base_url ++ codes "/metrics") (codes "GET") none timeout api_key
          w in
      (probe_answer r (host_boot_id v), v)
