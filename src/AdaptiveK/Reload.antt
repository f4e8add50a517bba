-- ===== src/AdaptiveK/Reload.antt =====
-- `__init__` and `_reload`: the policy at start, and the override file that is looked at again while
-- the scheduler runs.
pub mod Sizes
use glm5_3_flash_2x_dgx_spar.Prelude.{
  ℕ, String, Bool, true, false, not, ◌||◌, Option, none, some, List, [], ◌∷◌, ◌==◌, any, keep_if,
  str_eq, if◌then◌else◌,
}
use glm5_3_flash_2x_dgx_spar.AdaptiveK.{Policy, contains, largest, sorted_set}

-- A key of the override file: missing, of a value that `float()` or `int()` refuses, or read.
pub data Field (A : Type 0) : Type 0 where
  absent invalid : Field A
  value : A → Field A

-- the object that `json.load` returned
pub record Config (F : Type 0) : Type 0 where
  pub mode : Option String
  pub alpha : Field F
  pub margin : Field F
  pub min_steps : Field ℕ
  pub saturate : Option String
  pub sizes : Field (List ℕ)

-- The override file at one look: `none` for an `os.stat` that fails, and in `content` for a file that
-- cannot be opened or is no JSON object.
pub record OverrideFile (F : Type 0) : Type 0 where
  pub mtime : Option ℕ
  pub content : Option (Config F)

-- the environment's settings, read by `float()` and `int()`
pub record Settings (F : Type 0) : Type 0 where
  pub mode : String
  pub capture : String
  pub alpha : F
  pub margin : F
  pub min_steps : ℕ
  pub sizes : List ℕ
  pub saturate : String
  pub hist_every : ℕ
  pub batch_margin : String
  pub pos_trim : String

abbrev pub is_on : String → Bool
is_on mode = str_eq mode "ema" || str_eq mode "on" || str_eq mode "1"

abbrev pub is_set : String → Bool
is_set raw = str_eq raw "1" || str_eq raw "on" || str_eq raw "true" || str_eq raw "yes"

-- `sorted(want & set(self.boot_set)) or list(self.boot_set)`
abbrev pub allowed : List ℕ → List ℕ → List ℕ
allowed want boot_set = elim (sorted_set (keep_if (contains boot_set) want)) [
  | [] ↦ boot_set
  | v ∷ vs ↦ v ∷ vs
]

-- `self.x = float(cfg.get("x", self.x))` and what follows it; a refused value ends the reading
abbrev with_field :
    {F A : Type 0}
    → Field A
    → (A → Policy F → Policy F)
    → (Policy F → Policy F)
    → Policy F
    → Policy F
with_field absent store next p = next p
with_field invalid store next p = p
with_field (value a) store next p = next (store a p)

abbrev opt_or : Option String → String → String
opt_or none d = d
opt_or (some s) d = s

-- the writes of `_reload`, in order: what was written before a refused value stays
pub override : {F : Type 0} → Config F → Policy F → Policy F
override c p =
    with_field c.alpha (λ a q. record q { alpha = a })
      (with_field c.margin (λ a q. record q { margin = a })
        (with_field c.min_steps (λ a q. record q { min_steps = a })
          (λ q.
            with_field c.sizes (λ want r. record r { k_set = allowed want r.boot_set })
              (λ r. record r { state = []; hist = [] })
              (record q { saturate = opt_or c.saturate q.saturate }))))
      (record p { enabled = is_on (opt_or c.mode "ema") })

abbrev same_mtime : Option ℕ → Option ℕ → Bool
same_mtime none none = true
same_mtime (some a) (some b) = a == b
same_mtime _ _ = false

read : {F : Type 0} → OverrideFile F → Policy F → Policy F
unfolding override
read file p = elim file.mtime [
  | none ↦ p
  | some t ↦ elim file.content [ none ↦ p | some c ↦ override c p ]
]

pub reload : {F : Type 0} → OverrideFile F → Policy F → Policy F
unfolding read
reload file p =
    if not p.boot_enabled
    then p
    else if same_mtime file.mtime p.file_mtime
    then p
    else read file (record p { file_mtime = file.mtime })

boot : {F : Type 0} → Settings F → Policy F
boot env =
    let k_set = sorted_set env.sizes in
    let enabled = is_on env.mode in
    let graphs = enabled || is_set env.capture in
    record {
      enabled = enabled;
      graphs_enabled = graphs;
      alpha = env.alpha;
      margin = env.margin;
      min_steps = env.min_steps;
      k_set = k_set;
      saturate = env.saturate;
      hist_every = env.hist_every;
      batch_margin = is_set env.batch_margin;
      pos_trim = is_set env.pos_trim;
      state = [];
      hist = [];
      steps = 0;
      k_max = largest k_set;
      boot_set = k_set;
      boot_enabled = enabled;
      file_mtime = none;
    }

-- `__init__` ends with a first `_reload`
unfoldable pub init : {F : Type 0} → Settings F → OverrideFile F → Policy F
unfolding boot reload
init env file = reload file (boot env)
