-- ===== src/Bench/Urls.antt =====
-- `api_root`, `chat_url`, `_v1_base` and `_slug`: the addresses and file names of a run.
pub mod Collisions
use glm5_3_flash_2x_dgx_spar.Prelude.{
  ℕ, ◌-◌, Bool, true, false, not, ◌||◌, ◌&&◌, List, [], ◌∷◌, ◌++◌, take, length, ◌==◌,
  if◌then◌else◌,
}
use glm5_3_flash_2x_dgx_spar.Text.{Text, codes, ends_with, lstrip, rstrip, is_letter, is_digit}

abbrev pub default_base_url : Text
default_base_url = codes "http://127.0.0.1:8888"

unfoldable pub api_root : Text → Text
api_root base_url =
    let root = rstrip (λ c. c == b'/') base_url in
    if ends_with root (codes "/v1") then take (length root - 3) root else root

unfoldable pub chat_url : Text → Text
chat_url base_url =
    let root = rstrip (λ c. c == b'/') base_url in
    root
    ++ (if ends_with root (codes "/v1")
        then codes "/chat/completions"
        else codes "/v1/chat/completions")

-- the characters that a file name keeps
abbrev pub is_plain : ℕ → Bool
is_plain c = is_letter c || is_digit c || c == b'.' || c == b'_' || c == b'-'

abbrev pub is_edge : ℕ → Bool
is_edge c = c == b'.' || c == b'_' || c == b'-'

-- `re.sub(r"[^A-Za-z0-9._-]+", "_", name)`, where `inside` is said of the character before
replace_runs : Bool → Text → Text
replace_runs inside [] = []
replace_runs inside (c ∷ cs) = elim (is_plain c) [
  | true ↦ c ∷ replace_runs false cs
  | false ↦ elim inside [ true ↦ replace_runs true cs | false ↦ b'_' ∷ replace_runs true cs ]
]

-- `text.strip("._-")`
trim_edges : Text → Text
trim_edges s = rstrip is_edge (lstrip is_edge s)

abbrev or_arm : Text → Text
or_arm [] = codes "arm"
or_arm (c ∷ cs) = c ∷ cs

-- `_slug(name)`
unfoldable pub slug : Text → Text
unfolding replace_runs trim_edges
slug name = or_arm (trim_edges (replace_runs false name))

-- `out_dir / f"{_slug(arm.name)}__{bench_name}.json"`
unfoldable pub artifact_path : Text → Text → Text → Text
unfolding slug
artifact_path out_dir arm bench =
    out_dir ++ (codes "/" ++ (slug arm ++ (codes "__" ++ (bench ++ codes ".json"))))

-- `out_dir / f"{_slug(arm.name)}__{bench_name}.log"`
unfoldable pub log_path : Text → Text → Text → Text
unfolding slug
log_path out_dir arm bench =
    out_dir ++ (codes "/" ++ (slug arm ++ (codes "__" ++ (bench ++ codes ".log"))))
