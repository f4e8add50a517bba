-- ===== src/Watchdog/Sources/Settled.antt =====
-- What the analysis of a source can end with: a report, an exception that `main` catches, or one of a scrape.
use glm5_3_flash_2x_dgx_spar.Prelude.{
  ℕ, zero, suc, ◌+◌, ◌≤◌, ◌≡◌, ◌⊎◌, refl, true, ◌&&◌, Option, none, some, List, [], ◌∷◌, map,
  Result, ok, err, ◌>>=◌, traverse, Bool-cases, inl, inr, ltb, Bool-cases,
}
use glm5_3_flash_2x_dgx_spar.Number.{Float, ◌<ᶠ◌}
use glm5_3_flash_2x_dgx_spar.Text.{Text}
use glm5_3_flash_2x_dgx_spar.Watchdog.{MetricsSnapshot, SeriesAnalysis}
use glm5_3_flash_2x_dgx_spar.Watchdog.Observations.{observations_from_snapshots}
use glm5_3_flash_2x_dgx_spar.Watchdog.Logs.{parse_log_values, read_tail}
use glm5_3_flash_2x_dgx_spar.Watchdog.Series.{analyze_series}
use glm5_3_flash_2x_dgx_spar.Watchdog.Series.Windows.{analyze_series-total}
use glm5_3_flash_2x_dgx_spar.Watchdog.Sources.{
  Message, Raised, watchdog, escaped, World, scraped, unscraped, escaping, Scrape, metrics_url,
  SourceReport, analysis_of, or_raise, present, lift, snapshot_from_file, collect_metrics_files,
  fetch_metrics_snapshot, scrape_from, collect_http_snapshots, analyze_metrics_snapshots,
  analyze_log_file,
}

-- `E` holds where an exception is not caught
pub data Settled (E : Type 0) {A : Type 0} (P : A → Type 0) : Result Raised A → Type 0 where
  settled : (a : A) → P a → Settled E P (ok a)
  caught : (m : Message) → Settled E P (err (watchdog m))
  uncaught : E → Settled E P (err escaped)

Scrape-cases :
    {F : Type 0} (s : Scrape F)
    → ((body : Text) × (ts : F) × (s ≡ scraped body ts)) ⊎ ((s ≡ unscraped) ⊎ (s ≡ escaping))
Scrape-cases (scraped body ts) = inl (body, ts, refl)
Scrape-cases unscraped = inr (inl refl)
Scrape-cases escaping = inr (inr refl)

module _ (E : Type 0) {A B : Type 0} (P : A → Type 0) (Q : B → Type 0) where
  pub bind-Settled :
      (r : Result Raised A) (g : A → Result Raised B)
      → Settled E P r
      → ((a : A) → P a → Settled E Q (g a))
      → Settled E Q (r >>= g)
  bind-Settled _ g (settled a h) k = k a h
  bind-Settled _ g (caught m) k = caught m
  bind-Settled _ g (uncaught e) k = uncaught e

abbrev pub Anything : {A : Type 0} → A → Type 0
Anything a = a ≡ a

or_raise-Settled :
    (E : Type 0) {A : Type 0} (x : Option A) (m : Message)
    → Settled E Anything (or_raise x (watchdog m))
or_raise-Settled E none m = caught m
or_raise-Settled E (some a) m = settled a refl

traverse-Settled :
    (E : Type 0) {A B : Type 0} (g : A → Result Raised B) (xs : List A)
    → ((a : A) → Settled E Anything (g a))
    → Settled E Anything (traverse g xs)
traverse-Settled E g [] h = settled [] refl
traverse-Settled E g (x ∷ xs) h = bind-Settled E Anything Anything (g x) _ (h x) λ y e.
    bind-Settled E Anything Anything (traverse g xs) _ (traverse-Settled E g xs h)
      λ ys d. settled (y ∷ ys) refl

module _ {F : Type 0} ⦃f : Float F⦄ (w : World F) (E : Type 0) where
  snapshot_from_file-Settled : (path : Text) → Settled E Anything (snapshot_from_file w path)
  unfolding snapshot_from_file
  snapshot_from_file-Settled path =
      bind-Settled E Anything Anything (or_raise (w.mtime path) _) _ (or_raise-Settled E _ _)
        λ ts e.
          bind-Settled E Anything Anything (or_raise (w.read_text path) _) _
            (or_raise-Settled E _ _) λ body d. settled _ refl

  pub collect_metrics_files-Settled :
      (paths : List Text) → Settled E Anything (collect_metrics_files w paths)
  unfolding collect_metrics_files
  collect_metrics_files-Settled [] = caught _
  collect_metrics_files-Settled (p ∷ ps) =
      traverse-Settled E (snapshot_from_file w) (p ∷ ps) snapshot_from_file-Settled

module _ {F : Type 0} ⦃f : Float F⦄ (w : World F) (E : Type 0) (base_url : Text)
    (escapes : (i : ℕ) → w.scrape (metrics_url base_url) i ≡ escaping → E) where
  fetch-Settled : (i : ℕ) → Settled E Anything (fetch_metrics_snapshot w base_url i)
  unfolding fetch_metrics_snapshot
  fetch-Settled i = elim (Scrape-cases (w.scrape (metrics_url base_url) i)) [
    | inl (body, ts, e) ↦ rw (fetch_metrics_snapshot, e) (settled _ refl)
    | inr (inl e) ↦ rw (fetch_metrics_snapshot, e) (caught _)
    | inr (inr e) ↦ rw (fetch_metrics_snapshot, e) (uncaught (escapes i e))
  ]

  scrape_from-Settled : (n i : ℕ) → Settled E Anything (scrape_from w base_url n i)
  unfolding scrape_from
  scrape_from-Settled zero i = settled [] refl
  scrape_from-Settled (suc n) i =
      bind-Settled E Anything Anything (fetch_metrics_snapshot w base_url i) _ (fetch-Settled i)
        λ s e.
          bind-Settled E Anything Anything (scrape_from w base_url n (i + 1)) _
            (scrape_from-Settled n (i + 1)) λ rest d. settled (s ∷ rest) refl

  pub collect_http_snapshots-Settled :
      (n : ℕ) → Settled E Anything (collect_http_snapshots w base_url n)
  unfolding collect_http_snapshots
  collect_http_snapshots-Settled n = scrape_from-Settled n 0

-- With the options that `main` accepts, and any property that every analysis has.
module _ (E : Type 0) {F : Type 0} ⦃f : Float F⦄ (window : ℕ) (threshold : F) (k : ℕ)
    (wide : 1 ≤ window) (deep : 1 ≤ k)
    (fraction : (f.of_ℕ 0 <ᶠ threshold && threshold <ᶠ f.of_ℕ 1) ≡ true)
    (Good : SeriesAnalysis F → Type 0)
    (good : (vs : List (Option F)) (a : SeriesAnalysis F)
      → analyze_series vs window threshold k ≡ ok a
      → Good a) where
  lift-Settled :
      (vs : List (Option F)) → Settled E Good (lift (analyze_series vs window threshold k))
  unfolding lift
  lift-Settled vs =
      let (a, e) = analyze_series-total vs window threshold k wide deep fraction in
      rw e (settled a (good vs a e))

  abbrev pub GoodReport : SourceReport F → Type 0
  GoodReport r = Good (analysis_of r)

  pub metrics-Settled :
      (snapshots : List (MetricsSnapshot F))
      → Settled E GoodReport (analyze_metrics_snapshots window threshold k snapshots)
  unfolding analyze_metrics_snapshots
  metrics-Settled snapshots =
      let values = present (λ o. o.tok_s) (observations_from_snapshots snapshots) in
      bind-Settled E Good GoodReport (lift (analyze_series (map some values) window threshold k)) _
        (lift-Settled (map some values)) λ a h. settled _ h

  pub log-Settled :
      (w : World F) (path : Text) (n : ℕ)
      → Settled E GoodReport (analyze_log_file window threshold k w path n)
  unfolding analyze_log_file
  log-Settled w path n = elim (Bool-cases (ltb n 1)) [
    | inl e ↦ rw e (caught _)
    | inr e ↦ rw e (
        bind-Settled E Anything GoodReport (or_raise (w.read_bytes path) _) _
          (or_raise-Settled E _ _)
          λ bytes d.
            let (values, zeros) = parse_log_values (read_tail w.decode bytes n) in
            bind-Settled E Good GoodReport
              (lift (analyze_series (map some values) window threshold k)) _
              (lift-Settled (map some values)) λ a h. settled _ h)
  ]
