-- ===== src/Overlay/NoStore/Resolved.antt =====
-- That the engine resolves what the API has accepted, and nothing else.
use glm5_3_flash_2x_dgx_spar.Prelude.{
  zero, suc, ◌≡◌, refl, sym, subst, Bool, true, false, ◌&&◌, Option, none, some, Result, ok, err,
  ◌>>=◌, ok_chain, Bool-cases, inl, inr,
}
use glm5_3_flash_2x_dgx_spar.Number.Int.{pos, negsuc}
use glm5_3_flash_2x_dgx_spar.Text.{Text, codes, text_eq}
use glm5_3_flash_2x_dgx_spar.Text.Equality.{eq-text_eq}
use glm5_3_flash_2x_dgx_spar.Overlay.NoStore.{
  Value, bool, int, str, other, FlagError, parse_text, parse_no_store, SamplingParams, extra_flag,
  normalise, check_extra, validate_no_store_params, honoured, resolve_flag, flag_of,
  resolve_no_store,
}

-- the values that ask not to store
abbrev pub asks : Value → Bool
asks (bool b) = b
asks (int (pos zero)) = false
asks (int (pos (suc zero))) = true
asks (int (pos (suc (suc n)))) = false
asks (int (negsuc n)) = false
asks (str s) = text_eq s (codes "1")
asks other = false

abbrev pub asks_opt : Option Value → Bool
asks_opt none = false
asks_opt (some v) = asks v

abbrev IsAsked : Value → Result FlagError Bool → Type 0
IsAsked v (ok b) = b ≡ asks v
IsAsked v (err e) = asks v ≡ false

parse_text-asks : (s : Text) → IsAsked (str s) (parse_text s)
unfolding parse_text
parse_text-asks s = elim (Bool-cases (text_eq s (codes "0"))) [
  | inl e ↦
      let zero_text : text_eq s (codes "1") ≡ false = rw (eq-text_eq s (codes "0") e) refl in
      rw e (sym zero_text)
  | inr e ↦ elim (Bool-cases (text_eq s (codes "1"))) [
    | inl g ↦ rw (e, g) (sym g)
    | inr g ↦ rw (e, g) g
  ]
]

parse_no_store-asks : (v : Value) → IsAsked v (parse_no_store v)
unfolding parse_no_store
parse_no_store-asks (bool b) = refl
parse_no_store-asks (int (pos zero)) = refl
parse_no_store-asks (int (pos (suc zero))) = refl
parse_no_store-asks (int (pos (suc (suc n)))) = refl
parse_no_store-asks (int (negsuc n)) = refl
parse_no_store-asks (str s) = parse_text-asks s
parse_no_store-asks other = refl

honoured-asks :
    (enabled : Bool) (v : Value) (r : Result FlagError Bool)
    → IsAsked v r
    → honoured enabled r ≡ (enabled && asks v)
unfolding honoured
honoured-asks true v (err e) h = sym h
honoured-asks false v (err e) h = refl
honoured-asks true v (ok true) h = h
honoured-asks false v (ok true) h = refl
honoured-asks true v (ok false) h = h
honoured-asks false v (ok false) h = refl

resolve_flag-asks :
    (enabled : Bool) (flag : Option Value) → resolve_flag enabled flag ≡ (enabled && asks_opt flag)
unfolding resolve_flag
resolve_flag-asks true none = refl
resolve_flag-asks false none = refl
resolve_flag-asks enabled (some v) =
    honoured-asks enabled v (parse_no_store v) (parse_no_store-asks v)

-- a flag that the engine can read, so that it has nothing to warn of
abbrev pub IsAccepted : Option Value → Type 0
IsAccepted none = Unit
IsAccepted (some v) = (b : Bool) × (parse_no_store v ≡ ok b)

check_extra-same :
    (flag : Option Value) (p : SamplingParams) {q : SamplingParams}
    → check_extra flag p ≡ ok q
    → (p ≡ q) × IsAccepted flag
unfolding check_extra
check_extra-same none p h = (cc h, tt)
check_extra-same (some v) p h =
    let (b, (parsed, rest)) = ok_chain (parse_no_store v) _ h in (cc rest, (b, parsed))

resolve-normalise :
    (enabled : Bool) (typed : Option Value) (p : SamplingParams) {q : SamplingParams}
    → p.skip_writing_prefix_cache ≡ typed
    → (normalise typed p >>= λ r. check_extra (extra_flag r) r) ≡ ok q
    → (resolve_flag enabled (flag_of q) ≡ (enabled && asks_opt (flag_of p)))
      × IsAccepted (flag_of q)
unfolding normalise resolve_flag parse_no_store
resolve-normalise enabled none p e h =
    let (same, accepted) = check_extra-same (extra_flag p) p h in
    let flag : flag_of p ≡ extra_flag p = rw e refl in
    rw (sym same) (resolve_flag-asks enabled (flag_of p), rw flag accepted)
resolve-normalise enabled (some typed) p e h =
    let (r, (normal, checked)) = ok_chain (normalise (some typed) p) _ h in
    let (b, (parsed, boolean)) = ok_chain (parse_no_store typed) _ normal in
    let (same, accepted) = check_extra-same (extra_flag r) r checked in
    let made : record p { skip_writing_prefix_cache = some (bool b) } ≡ r = cc boolean in
    let flag : flag_of p ≡ some typed = rw e refl in
    let asked : b ≡ asks typed = subst (λ r. IsAsked typed r) parsed (parse_no_store-asks typed) in
    rw (sym same, sym made, flag) (honoured-asks enabled typed (ok b) asked, (b, refl))

-- Parameters that the API accepts are resolved by the engine without a warning, and to what the client
-- asked for before they were normalised, by the typed field or else by the extra arguments, unless the
-- switch is off, when every request stores.
pub validate_no_store_params-resolve :
    (enabled : Bool) (p : SamplingParams) {q : SamplingParams}
    → validate_no_store_params p ≡ ok q
    → (resolve_no_store enabled (some q) ≡ (enabled && asks_opt (flag_of p)))
      × IsAccepted (flag_of q)
unfolding validate_no_store_params resolve_no_store
validate_no_store_params-resolve enabled p {q = q} h =
    resolve-normalise enabled p.skip_writing_prefix_cache p refl h
