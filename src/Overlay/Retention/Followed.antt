-- ===== src/Overlay/Retention/Followed.antt =====
-- That the vector follows the override or the automatic rule, for drafter groups alone.
use glm5_3_flash_2x_dgx_spar.Prelude.{
  ℕ, suc, ◌≤◌, ◌<◌, ◌≡◌, refl, sym, ap, ◌∙◌, Bool, true, false, not, ◌&&◌, ◌||◌, Option, none, some,
  List, [], ◌∷◌, map, any, all, is_some, ◌==◌, arith, Bool-cases, inl, inr, if◌then◌else◌, ok,
  ok_chain, past_guard,
}
use glm5_3_flash_2x_dgx_spar.Number.Int.{ℤ}
use glm5_3_flash_2x_dgx_spar.Text.{Text}
use glm5_3_flash_2x_dgx_spar.Overlay.Retention.{
  Group, no_exempt_group, bad_interval, inner_kv_spec, is_draft_swa_spec, swa_retention_env,
  swa_ids_from, has_id, same_set, is_empty, exempt_of, automatic, retention_for_group,
  retention_from, resolve_retention_by_group, is_bad, validate_from, narrowed_eagle_ids,
  retention_interval_by_group,
}

-- no group before `i` is among those from `i` on
swa_ids_from-later : (i j : ℕ) (gs : List Group) → i < j → has_id (swa_ids_from j gs) i ≡ false
unfolding swa_ids_from
swa_ids_from-later i j [] h = refl
swa_ids_from-later i j (g ∷ gs) h =
    let later = swa_ids_from-later i (suc j) gs (omega (arith, h)) in
    elim (Bool-cases (is_draft_swa_spec g)) [
      | inl e ↦ rw e (ground (arith, later, h))
      | inr e ↦ rw e later
    ]

-- a group is among the drafter groups where its spec says so
has_id-here :
    (i : ℕ) (g : Group) (gs : List Group) → has_id (swa_ids_from i (g ∷ gs)) i ≡ is_draft_swa_spec g
unfolding swa_ids_from
has_id-here i g gs = elim (Bool-cases (is_draft_swa_spec g)) [
  | inl e ↦ rw e (ground arith)
  | inr e ↦ rw e (swa_ids_from-later i (suc i) gs (omega arith))
]

has_id-later :
    (i j : ℕ) (g : Group) (gs : List Group)
    → suc i ≤ j
    → has_id (swa_ids_from i (g ∷ gs)) j ≡ has_id (swa_ids_from (suc i) gs) j
unfolding swa_ids_from
has_id-later i j g gs h = elim (Bool-cases (is_draft_swa_spec g)) [
  | inl e ↦ let other : (i == j) ≡ false = ground (arith, h) in rw (e, other) refl
  | inr e ↦ rw e refl
]

entry-draft :
    (draft : Bool) (x y : Option ℤ)
    → (if not draft || not draft then x else y) ≡ (if not draft || false then x else y)
entry-draft true x y = refl
entry-draft false x y = refl

-- the entry of a group by the override and by whether the drafter groups are exempt
abbrev pub entry : Option ℤ → Bool → Option ℤ → ℕ → Group → Option ℤ
entry swa exempted global alignment_tokens g =
    if not (is_draft_swa_spec g) || not exempted
    then global
    else elim swa [ some n ↦ some n | none ↦ automatic (inner_kv_spec g) global alignment_tokens ]

retention_from-exempt :
    (exempt : List ℕ) (global swa : Option ℤ) (a i : ℕ) (gs : List Group)
    → ((j : ℕ) → i ≤ j → has_id exempt j ≡ has_id (swa_ids_from i gs) j)
    → retention_from exempt global swa a i gs ≡ map (entry swa true global a) gs
unfolding retention_from retention_for_group
retention_from-exempt exempt global swa a i [] h = refl
retention_from-exempt exempt global swa a i (g ∷ gs) h =
    let here : has_id exempt i ≡ is_draft_swa_spec g = h i (omega arith) ∙ has_id-here i g gs in
    let later =
      retention_from-exempt exempt global swa a (suc i) gs
        (λ j l. h j (omega (arith, l)) ∙ has_id-later i j g gs l) in
    rw (here, later)
      (ap (λ e. e ∷ map (entry swa true global a) gs) (entry-draft (is_draft_swa_spec g) _ _))

retention_from-none :
    (global swa : Option ℤ) (a i : ℕ) (gs : List Group)
    → retention_from [] global swa a i gs ≡ map (entry swa false global a) gs
unfolding retention_from retention_for_group
retention_from-none global swa a i [] = refl
retention_from-none global swa a i (g ∷ gs) =
    ap (◌∷◌ (entry swa false global a g)) (retention_from-none global swa a (suc i) gs)

-- an exemption of all drafter groups, or of none
abbrev pub is_exempted : List Group → List ℕ → Bool
is_exempted groups eagle =
    let swa = swa_ids_from 0 groups in not (is_empty swa) && same_set eagle swa

exempt_of-cases :
    (swa eagle : List ℕ)
    → exempt_of swa eagle ≡ (if not (is_empty swa) && same_set eagle swa then swa else [])
unfolding exempt_of
exempt_of-cases [] eagle = refl
exempt_of-cases (i ∷ swa) eagle = refl

validate_from-same :
    (size i : ℕ) (vs : List (Option ℤ)) {us : List (Option ℤ)}
    → validate_from size i vs ≡ ok us
    → (vs ≡ us) × (all (λ v. not (is_bad size v)) vs ≡ true)
unfolding validate_from
validate_from-same size i [] h = (cc h, refl)
validate_from-same size i (v ∷ vs) h =
    let (good, rest) = past_guard (is_bad size v) (bad_interval i) h in
    let (ws, (later, made)) = ok_chain (validate_from size (suc i) vs) _ rest in
    let (same, fine) = validate_from-same size (suc i) vs later in
    (cc (same, made), ground (arith, good, fine))

resolve-entry :
    (groups : List Group) (eagle : List ℕ) (global swa : Option ℤ) (a : ℕ) {v : List (Option ℤ)}
    → resolve_retention_by_group groups eagle global swa a ≡ ok v
    → (v ≡ map (entry swa (is_exempted groups eagle) global a) groups)
      × ((not (is_some swa) || is_exempted groups eagle) ≡ true)
unfolding resolve_retention_by_group
resolve-entry groups eagle global swa a {v = v} h =
    let ids = swa_ids_from 0 groups in
    let chosen = exempt_of-cases ids eagle in
    let (passed, made) =
      past_guard (is_some swa && is_empty (exempt_of ids eagle)) no_exempt_group h in
    let vector : retention_from (exempt_of ids eagle) global swa a 0 groups ≡ v = cc made in
    let from : List ℕ → List (Option ℤ) = λ exempt. retention_from exempt global swa a 0 groups in
    elim (Bool-cases (is_exempted groups eagle)) [
      | inl e ↦
          let all_of : exempt_of ids eagle ≡ ids = chosen ∙ rw e refl in
          rw e (
            sym vector
                ∙ (ap from all_of ∙ retention_from-exempt ids global swa a 0 groups (λ j l. refl)),
            ground arith,
          )
      | inr e ↦
          let nothing : exempt_of ids eagle ≡ [] = chosen ∙ rw e refl in
          rw e (
            sym vector ∙ (ap from nothing ∙ retention_from-none global swa a 0 groups),
            ground (arith, rw nothing at passed),
          )
    ]

-- Where the coordinator starts, the interval of each group is the global one, except that of drafter
-- groups which are exempt: that is the override where there is one, and else by the automatic rule. An
-- override is not started with unless the drafter groups are exempt, and no interval of the vector is
-- negative or off the block size.
pub retention_interval_by_group-entry :
    (env : Option Text) (groups : List Group) (eagle : List ℕ) (global : Option ℤ) (a : ℕ)
    {swa : Option ℤ} {v : List (Option ℤ)}
    → swa_retention_env env a ≡ ok swa
    → retention_interval_by_group env groups eagle global a ≡ ok v
    → (v ≡ map (entry swa (is_exempted groups eagle) global a) groups)
      × (((not (is_some swa) || is_exempted groups eagle) ≡ true)
          × (all (λ u. not (is_bad a u)) v ≡ true))
unfolding retention_interval_by_group
retention_interval_by_group-entry env groups eagle global a {swa = swa} e h =
    let (vector, (resolved, validated)) =
      ok_chain (resolve_retention_by_group groups eagle global swa a) _ (rw e at h) in
    let (entries, started) = resolve-entry groups eagle global swa a resolved in
    let (same, fine) = validate_from-same a 0 vector validated in
    (sym same ∙ entries, (started, rw (sym same) fine))

all-has_id-cons : (x : ℕ) (a b : List ℕ) → all (has_id a) b ≡ true → all (has_id (x ∷ a)) b ≡ true
all-has_id-cons x a [] h = refl
all-has_id-cons x a (y ∷ b) h =
    let rest = all-has_id-cons x a b (ground (arith, h)) in ground (arith, h, rest)

all-has_id : (a : List ℕ) → all (has_id a) a ≡ true
all-has_id [] = refl
all-has_id (x ∷ a) = let rest = all-has_id-cons x a a (all-has_id a) in ground (arith, rest)

is_empty-swa_ids_from :
    (i : ℕ) (gs : List Group) → not (is_empty (swa_ids_from i gs)) ≡ any is_draft_swa_spec gs
unfolding swa_ids_from
is_empty-swa_ids_from i [] = refl
is_empty-swa_ids_from i (g ∷ gs) = elim (Bool-cases (is_draft_swa_spec g)) [
  | inl e ↦ rw e refl
  | inr e ↦ rw e (is_empty-swa_ids_from (suc i) gs)
]

exempted-narrowed :
    (ids others : List ℕ)
    → (not (is_empty ids) && same_set (elim ids [ [] ↦ others | i ∷ swa ↦ i ∷ swa ]) ids)
      ≡ not (is_empty ids)
exempted-narrowed [] others = refl
exempted-narrowed (i ∷ ids) others = let whole = all-has_id (i ∷ ids) in rw whole refl

-- With the eagle groups that the patch of the hybrid prefix hit narrows, the drafter groups are exempt as
-- soon as there is one.
pub is_exempted-narrowed :
    (groups : List Group)
    → is_exempted groups (narrowed_eagle_ids groups) ≡ any is_draft_swa_spec groups
unfolding narrowed_eagle_ids
is_exempted-narrowed groups =
    exempted-narrowed (swa_ids_from 0 groups) _ ∙ is_empty-swa_ids_from 0 groups
