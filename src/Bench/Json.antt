-- ===== src/Bench/Json.antt =====
-- JSON values as Python holds them, and `_number`, `_numbers` and `_require_list`.
-- An object's keys are distinct. `null` is `None`, and `get` gives it for a missing key.
use glm5_3_flash_2x_dgx_spar.Prelude.{
  Bool, true, false, not, Option, none, some, List, [], ◌∷◌, if◌then◌else◌, Result, ok, err,
}
use glm5_3_flash_2x_dgx_spar.Number.{Float, ◌==ᶠ◌}
use glm5_3_flash_2x_dgx_spar.Number.Median.{median}
use glm5_3_flash_2x_dgx_spar.Text.{Text}
use glm5_3_flash_2x_dgx_spar.Bench.Env.{lookup}

mutual
  pub data Json (F : Type 0) : Type 0 where
    null : Json F
    bool : Bool → Json F
    number : F → Json F
    text : Text → Json F
    array : Items F → Json F
    object : Fields F → Json F

  pub data Items (F : Type 0) : Type 0 where
    nil : Items F
    cons : Json F → Items F → Items F

  pub data Fields (F : Type 0) : Type 0 where
    end : Fields F
    field : Text → Json F → Fields F → Fields F

-- the messages of `BenchArtifactError` that `_extract_...` raises, and what else a bad artifact raises
pub data ExtractError : Type 0 where
  no_list : Text → ExtractError
  no_decode_samples pairs_not_objects no_prefix_samples round_not_object no_sessions
        no_round_metrics no_chat_samples not_iterable :
      ExtractError

module _ {F : Type 0} where
  abbrev pub items_of : Items F → List (Json F)
  items_of nil = []
  items_of (cons x xs) = x ∷ items_of xs

  abbrev pub fields_of : Fields F → List (Text × Json F)
  fields_of end = []
  fields_of (field k v fs) = (k, v) ∷ fields_of fs

  abbrev pub or_null : Option (Json F) → Json F
  or_null none = null
  or_null (some v) = v

  -- `value.get(key)`
  unfoldable pub get_field : Text → Fields F → Json F
  get_field key fs = or_null (lookup key (fields_of fs))

  -- `isinstance(value, dict)`
  abbrev pub as_fields : Json F → Option (Fields F)
  as_fields (object fs) = some fs
  as_fields null = none
  as_fields (bool b) = none
  as_fields (number x) = none
  as_fields (text s) = none
  as_fields (array xs) = none

  -- `isinstance(value, list)`
  abbrev pub as_items : Json F → Option (List (Json F))
  as_items (array xs) = some (items_of xs)
  as_items null = none
  as_items (bool b) = none
  as_items (number x) = none
  as_items (text s) = none
  as_items (object fs) = none

  -- the entries of a list that are objects
  abbrev pub objects : List (Json F) → List (Fields F)
  objects [] = []
  objects (v ∷ vs) = elim (as_fields v) [ none ↦ objects vs | some fs ↦ fs ∷ objects vs ]

  unfoldable pub require_list : Fields F → Text → Result ExtractError (List (Json F))
  require_list artifact key = elim (as_items (get_field key artifact)) [
    | none ↦ err (no_list key)
    | some [] ↦ err (no_list key)
    | some (x ∷ xs) ↦ ok (x ∷ xs)
  ]

module _ {F : Type 0} ⦃f : Float F⦄ where
  -- `_number(value)`; a `bool` is none
  unfoldable pub number_of : Json F → Option F
  number_of (number x) = if f.finite x then some x else none
  number_of null = none
  number_of (bool b) = none
  number_of (text s) = none
  number_of (array xs) = none
  number_of (object fs) = none

  -- `_number(record.get(key))` of every record that has one
  unfoldable pub field_numbers : Text → List (Fields F) → List F
  unfolding number_of get_field
  field_numbers key [] = []
  field_numbers key (fs ∷ rest) = elim (number_of (get_field key fs)) [
    | none ↦ field_numbers key rest
    | some x ↦ x ∷ field_numbers key rest
  ]

  -- `_numbers(records, key)`
  unfoldable pub numbers_of : List (Json F) → Text → List F
  unfolding field_numbers
  numbers_of records key = field_numbers key (objects records)

  -- `_median(values)`, as JSON
  abbrev pub opt_number : Option F → Json F
  opt_number none = null
  opt_number (some x) = number x

  abbrev pub median_json : List F → Json F
  median_json values = opt_number (median values)

  -- `bool(value)`
  unfoldable pub is_truthy : Json F → Bool
  is_truthy null = false
  is_truthy (bool b) = b
  is_truthy (number x) = not (x ==ᶠ f.of_ℕ 0)
  is_truthy (text []) = false
  is_truthy (text (c ∷ cs)) = true
  is_truthy (array nil) = false
  is_truthy (array (cons x xs)) = true
  is_truthy (object end) = false
  is_truthy (object (field k v fs)) = true

  -- `value or other`
  pub or_json : Json F → Json F → Json F
  unfolding is_truthy
  or_json value other = if is_truthy value then value else other
