-- ===== src/AdaptiveK/Reload/Sizes.antt =====
-- The override file cannot bring in a size that was not captured at the start.
use glm5_3_flash_2x_dgx_spar.Prelude.{
  ℕ, ◌≡◌, inl, inr, refl, Bool, true, false, not, ◌||◌, Option, List, [], ◌∷◌, arith, ◌==◌, keep_if,
  Bool-cases, Option-cases, List-cases,
}
use glm5_3_flash_2x_dgx_spar.AdaptiveK.{Policy, contains, insert_distinct, sorted_set}
use glm5_3_flash_2x_dgx_spar.AdaptiveK.Sound.{IsSound}
use glm5_3_flash_2x_dgx_spar.AdaptiveK.Choices.{keep_if-holds}
use glm5_3_flash_2x_dgx_spar.AdaptiveK.Reload.{
  Field, absent, invalid, value, Config, OverrideFile, Settings, allowed, with_field, override,
  same_mtime, read, reload, boot, init,
}

contains-insert_distinct :
    (x : ℕ) (ys : List ℕ) (v : ℕ) → contains (insert_distinct x ys) v ≡ (x == v || contains ys v)
contains-insert_distinct x [] v = ground arith
contains-insert_distinct x (y ∷ ys) v = ground (arith, contains-insert_distinct x ys v)

contains-sorted_set : (xs : List ℕ) (v : ℕ) → contains (sorted_set xs) v ≡ contains xs v
contains-sorted_set [] v = refl
contains-sorted_set (x ∷ xs) v =
    rw (contains-insert_distinct x (sorted_set xs) v, contains-sorted_set xs v)

-- An override keeps to the sizes of the start, and falls back on all of them.
allowed-sub :
    (want boot_set : List ℕ) (v : ℕ)
    → contains (allowed want boot_set) v ≡ true
    → contains boot_set v ≡ true
allowed-sub want boot_set v h = elim (List-cases (sorted_set (keep_if (contains boot_set) want))) [
  | inl e ↦ rw (e, allowed) at h
  | inr (x, (xs, e)) ↦
      let listed : contains (sorted_set (keep_if (contains boot_set) want)) v ≡ true =
        rw e (rw (e, allowed) at h) in
      keep_if-holds (contains boot_set) want v (rw contains-sorted_set at listed)
]

allowed-sized : (want boot_set : List ℕ) → allowed want boot_set ≡ [] → boot_set ≡ []
allowed-sized want boot_set h = ground arith

module _ {F A : Type 0} (P : Policy F → Type 0) (store : A → Policy F → Policy F) where
  with_field-keeps :
      (x : Field A) (next : Policy F → Policy F) (p : Policy F)
      → ((a : A) (q : Policy F) → P q → P (store a q))
      → ((q : Policy F) → P q → P (next q))
      → P p
      → P (with_field x store next p)
  with_field-keeps absent next p ks kn h = kn p h
  with_field-keeps invalid next p ks kn h = h
  with_field-keeps (value a) next p ks kn h = kn (store a p) (ks a p h)

module _ {F : Type 0} (P : Policy F → Type 0) (file : OverrideFile F) (p : Policy F) where
  read-keeps : ((c : Config F) (q : Policy F) → P q → P (override c q)) → P p → P (read file p)
  unfolding read
  read-keeps over h = elim (Option-cases file.mtime) [
    | inl e ↦ rw (e, read) h
    | inr (t, e) ↦ elim (Option-cases file.content) [
      | inl g ↦ rw (e, read, g) h
      | inr (c, g) ↦ rw (e, read, g) (over c p h)
    ]
  ]

module _ {F : Type 0} (P : Policy F → Type 0) (file : OverrideFile F) (p : Policy F) where
  -- what the writes of an override and the new time stamp keep, `_reload` keeps
  reload-keeps :
      ((c : Config F) (q : Policy F) → P q → P (override c q))
      → ((t : Option ℕ) (q : Policy F) → P q → P (record q { file_mtime = t }))
      → P p
      → P (reload file p)
  unfolding reload
  reload-keeps over stamp h = elim (Bool-cases (not p.boot_enabled)) [
    | inl e ↦ rw e h
    | inr e ↦ elim (Bool-cases (same_mtime file.mtime p.file_mtime)) [
      | inl s ↦ rw (e, s) h
      | inr s ↦
          let q = record p { file_mtime = file.mtime } in
          rw (e, s) (read-keeps P file q over (stamp file.mtime p h))
    ]
  ]

module _ {F : Type 0} where
  override-IsSound : (c : Config F) (p : Policy F) → IsSound p → IsSound (override c p)
  unfolding override
  override-IsSound c p =
      with_field-keeps IsSound _ c.alpha _ _ (λ a q h. h)
        (λ q.
          with_field-keeps IsSound _ c.margin _ q (λ a r h. h)
            (λ r.
              with_field-keeps IsSound _ c.min_steps _ r (λ a t h. h)
                (λ t.
                  with_field-keeps IsSound _ c.sizes _ _
                    (λ want u h. record {
                      sizes = allowed-sub want u.boot_set;
                      sized = allowed-sized want u.boot_set;
                      top = h.top;
                      counted = h.counted;
                    })
                    (λ u h. record {
                      sizes = h.sizes;
                      sized = h.sized;
                      top = h.top;
                      counted = omega arith;
                    }))))

  pub reload-IsSound : (file : OverrideFile F) (p : Policy F) → IsSound p → IsSound (reload file p)
  reload-IsSound file p h = reload-keeps IsSound file p override-IsSound (λ t q k. k) h

  pub init-IsSound : (env : Settings F) (file : OverrideFile F) → IsSound (init env file)
  unfolding init
  init-IsSound env file =
      reload-IsSound file (boot env)
        (record { sizes = λ v h. h; sized = λ h. h; top = refl; counted = omega arith })

module _ {F : Type 0} where
  boot_set-override :
      (sizes : List ℕ) (c : Config F) (p : Policy F)
      → p.boot_set ≡ sizes
      → (override c p).boot_set ≡ sizes
  unfolding override
  boot_set-override sizes c p =
      let P : Policy F → Type 0 = λ r. r.boot_set ≡ sizes in
      with_field-keeps P _ c.alpha _ _ (λ a q h. h)
        (λ q.
          with_field-keeps P _ c.margin _ q (λ a r h. h)
            (λ r.
              with_field-keeps P _ c.min_steps _ r (λ a t h. h)
                (λ t. with_field-keeps P _ c.sizes _ _ (λ want u h. h) (λ u h. h))))

  -- nothing that the file says changes the sizes of the start
  pub boot_set-reload :
      (file : OverrideFile F) (p : Policy F) → (reload file p).boot_set ≡ p.boot_set
  boot_set-reload file p =
      reload-keeps (λ q. q.boot_set ≡ p.boot_set) file p (boot_set-override p.boot_set) (λ t q h. h)
        refl

module _ {A : Type 0} where
  -- a value of the file that `float()` or `int()` refuses
  abbrev pub is_refused : Field A → Bool
  is_refused invalid = true
  is_refused absent = false
  is_refused (value a) = false

module _ {F : Type 0} where
  abbrev pub refused : Config F → Bool
  refused c =
      is_refused c.alpha || is_refused c.margin || is_refused c.min_steps || is_refused c.sizes

  -- An override with a value that `float()` or `int()` refuses changes neither the sizes in use nor
  -- the moving averages nor the histogram.
  pub override-refused :
      (c : Config F) (p : Policy F)
      → refused c ≡ true
      → ((override c p).k_set ≡ p.k_set)
        × ((override c p).state ≡ p.state)
        × ((override c p).hist ≡ p.hist)
  unfolding override
  override-refused c p h = ground arith
