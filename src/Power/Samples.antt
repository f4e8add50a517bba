-- ===== src/Power/Samples.antt =====
-- The records of a sampling loop, by time and by device.
pub mod Seen
use glm5_3_flash_2x_dgx_spar.Prelude.{
  ℕ, Bool, true, false, Option, none, some, List, [], ◌∷◌, ◌++◌, map, if◌then◌else◌,
}
use glm5_3_flash_2x_dgx_spar.Text.{Text, text_eq}

pub data Group : Type 0 where
  gpu system : Group

-- a device in a sample; a field that is missing, or no number, is `none`
pub record Device (F : Type 0) : Type 0 where
  pub key : Text
  pub group : Group
  pub w : Option F
  pub mj : Option F
  pub util : Option F
  pub temp : Option F
  pub sm_mhz : Option F
  pub mem_mib : Option F

pub record Sample (F : Type 0) : Type 0 where
  pub t : F
  pub devices : List (Device F)

-- the fields of one device over all the samples
pub record Column (F : Type 0) : Type 0 where
  pub key : Text
  pub group : Group
  pub w : List (Option F)
  pub util : List (Option F)
  pub temp : List (Option F)
  pub sm_mhz : List (Option F)
  pub mem_mib : List (Option F)

module _ {F : Type 0} where
  -- the devices of all the samples in order, each with its time
  abbrev pub at_time : F → List (Device F) → List (F × Device F)
  at_time t ds = map (λ d. (t, d)) ds

  abbrev pub readings : List (Sample F) → List (F × Device F)
  readings [] = []
  readings (s ∷ ss) = at_time s.t s.devices ++ readings ss

  abbrev pub first_reading : Device F → Column F
  first_reading d = record {
    key = d.key;
    group = d.group;
    w = d.w ∷ [];
    util = d.util ∷ [];
    temp = d.temp ∷ [];
    sm_mhz = d.sm_mhz ∷ [];
    mem_mib = d.mem_mib ∷ [];
  }

  abbrev pub extend : Column F → Device F → Column F
  extend c d = record {
    key = c.key;
    group = c.group;
    w = c.w ++ d.w ∷ [];
    util = c.util ++ d.util ∷ [];
    temp = c.temp ++ d.temp ∷ [];
    sm_mhz = c.sm_mhz ++ d.sm_mhz ∷ [];
    mem_mib = c.mem_mib ++ d.mem_mib ∷ [];
  }

  -- `columns.setdefault(device["key"], ...)`, and the appends to its lists
  pub add_reading : Device F → List (Column F) → List (Column F)
  add_reading d [] = first_reading d ∷ []
  add_reading d (c ∷ cs) = elim (text_eq c.key d.key) [
    | true ↦ extend c d ∷ cs
    | false ↦ c ∷ add_reading d cs
  ]

  pub columns_from : List (Column F) → List (F × Device F) → List (Column F)
  unfolding add_reading
  columns_from cols [] = cols
  columns_from cols ((t, d) ∷ rs) = columns_from (add_reading d cols) rs

  -- `_column`
  unfoldable pub column : List (Sample F) → List (Column F)
  unfolding columns_from
  column samples = columns_from [] (readings samples)

  -- the readings of the device `key`
  pub of_key : Text → List (F × Device F) → List (F × Device F)
  of_key key [] = []
  of_key key ((t, d) ∷ rs) = elim (text_eq d.key key) [
    | true ↦ (t, d) ∷ of_key key rs
    | false ↦ of_key key rs
  ]

  -- `_pairs_for`
  unfoldable pub pairs_for : List (Sample F) → Text → List (F × Option F) × List (F × Option F)
  unfolding of_key
  pairs_for samples key =
      let rs = of_key key (readings samples) in
      (map (λ r. (r.0, r.1.w)) rs, map (λ r. (r.0, r.1.mj)) rs)
