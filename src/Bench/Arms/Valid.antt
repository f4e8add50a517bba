-- ===== src/Bench/Arms/Valid.antt =====
-- What an arm that is accepted looks like.
use glm5_3_flash_2x_dgx_spar.Prelude.{
  ◌≡◌, refl, subst, Bool, true, not, ◌&&◌, Option, none, some, List, [], ◌∷◌, any, all, All, length,
  is_some, ok, ok_chain, traverse, traverse-cons, Bool-cases, List-cases, inl, inr, arith,
}
use glm5_3_flash_2x_dgx_spar.Text.{Text, strip, text_eq}
use glm5_3_flash_2x_dgx_spar.Bench.Env.{Env, lookup, assign}
use glm5_3_flash_2x_dgx_spar.Bench.Arms.{
  Arm, is_arm_name, is_env_key, partition, split_on, has_newline, add_pair, split_pair,
  add_override, add_overrides, is_blank, parse_env, parse_named, parse_raw, parse_arm,
  distinct_from, or_baseline, parse_arms,
}

-- a key that the shell takes, and a value on one line
abbrev pub is_override : Text × Text → Bool
is_override (k, v) = is_env_key k && not (has_newline v)

abbrev pub AllValid : Env → Type 0
AllValid = All (λ p. is_override p ≡ true)

assign-AllValid :
    (k v : Text) (env : Env) → is_override (k, v) ≡ true → AllValid env → AllValid (assign k v env)
unfolding assign
assign-AllValid k v [] h hs = (h, tt)
assign-AllValid k v ((i, w) ∷ env) h hs = elim (Bool-cases (text_eq i k)) [
  | inl e ↦ rw e (ground (arith, hs.0, h), hs.1)
  | inr e ↦ rw e (hs.0, assign-AllValid k v env h hs.1)
]

add_pair-AllValid :
    (name : Text) (env : Env) (key value : Text) {more : Env}
    → AllValid env
    → add_pair name env key value ≡ ok more
    → AllValid more
unfolding add_pair
add_pair-AllValid name env key value {more} hs h = elim (Bool-cases (is_env_key key)) [
  | inr e ↦ absurd (cc (rw e at h))
  | inl e ↦ elim (Bool-cases (is_some (lookup key env))) [
    | inl g ↦ absurd (cc (rw (e, g) at h))
    | inr g ↦ elim (Bool-cases (has_newline value)) [
      | inl n ↦ absurd (cc (rw (e, g, n) at h))
      | inr n ↦
          let same : assign key value env ≡ more = cc (rw (e, g, n) at h) in
          subst AllValid same (assign-AllValid key value env (rw (e, n)) hs)
    ]
  ]
]

split_pair-AllValid :
    (name : Text) (env : Env) (piece : Text) (parts : Text × Option Text) {more : Env}
    → AllValid env
    → split_pair name env piece parts ≡ ok more
    → AllValid more
unfolding split_pair
split_pair-AllValid name env piece (key, none) hs h = absurd (cc h)
split_pair-AllValid name env piece (key, some value) hs h =
    add_pair-AllValid name env (strip key) value hs h

add_override-AllValid :
    (name : Text) (env : Env) (item : Text) {more : Env}
    → AllValid env
    → add_override name env item ≡ ok more
    → AllValid more
unfolding add_override
add_override-AllValid name env item hs h = elim (List-cases (strip item)) [
  | inl e ↦ absurd (cc (rw (e, add_override) at h))
  | inr (c, (cs, e)) ↦
      split_pair-AllValid name env (c ∷ cs) (partition b'=' (c ∷ cs)) hs (rw (e, add_override) at h)
]

add_overrides-AllValid :
    (name : Text) (env : Env) (items : List Text) {last : Env}
    → AllValid env
    → add_overrides name env items ≡ ok last
    → AllValid last
unfolding add_overrides
add_overrides-AllValid name env [] hs h = subst AllValid (cc h) hs
add_overrides-AllValid name env (item ∷ items) hs h =
    let (more, (first, rest)) = ok_chain (add_override name env item) _ h in
    add_overrides-AllValid name more items (add_override-AllValid name env item hs first) rest

parse_env-AllValid :
    (name : Text) (text : Option Text) {env : Env} → parse_env name text ≡ ok env → AllValid env
unfolding parse_env
parse_env-AllValid name none {env} h = let same : [] ≡ env = cc h in subst AllValid same tt
parse_env-AllValid name (some text) h = elim (Bool-cases (is_blank text)) [
  | inl e ↦ absurd (cc (rw e at h))
  | inr e ↦ add_overrides-AllValid name [] (split_on b',' [] text) tt (rw e at h)
]

parse_named-AllValid :
    (raw name : Text) (text : Option Text) {arm : Arm}
    → parse_named raw name text ≡ ok arm
    → (is_arm_name arm.name ≡ true) × AllValid arm.env
unfolding parse_named
parse_named-AllValid raw [] text h = absurd (cc h)
parse_named-AllValid raw (c ∷ cs) text {arm} h = elim (Bool-cases (is_arm_name (c ∷ cs))) [
  | inr e ↦ absurd (cc (rw e at h))
  | inl e ↦
      let (env, (first, rest)) = ok_chain (parse_env (c ∷ cs) text) _ (rw e at h) in
      let same : record { name = c ∷ cs; env = env; spec = raw } ≡ arm = cc rest in
      subst (λ (a : Arm). (is_arm_name a.name ≡ true) × AllValid a.env) same
        (e, parse_env-AllValid (c ∷ cs) text first)
]

parse_raw-AllValid :
    (raw : Text) {arm : Arm}
    → parse_raw raw ≡ ok arm
    → (is_arm_name arm.name ≡ true) × AllValid arm.env
unfolding parse_raw
parse_raw-AllValid [] h = absurd (cc h)
parse_raw-AllValid (c ∷ cs) h =
    let (name, rest) = partition b':' (c ∷ cs) in parse_named-AllValid (c ∷ cs) (strip name) rest h

-- An arm that is accepted has a valid name, and its overrides have valid keys and values on one line.
pub parse_arm-AllValid :
    (spec : Text) {arm : Arm}
    → parse_arm spec ≡ ok arm
    → (is_arm_name arm.name ≡ true) × AllValid arm.env
unfolding parse_arm
parse_arm-AllValid spec h = parse_raw-AllValid (strip spec) h

-- no name comes twice
abbrev pub all_distinct : List Arm → Bool
all_distinct [] = true
all_distinct (a ∷ arms) = all (λ b. not (text_eq b.name a.name)) arms && all_distinct arms

all-split :
    (a : Text) (seen : List Text) (arms : List Arm)
    → all (λ b. not (any (text_eq b.name) (a ∷ seen))) arms ≡ true
    → (all (λ b. not (text_eq b.name a)) arms ≡ true)
      × (all (λ b. not (any (text_eq b.name) seen)) arms ≡ true)
all-split a seen [] h = (refl, refl)
all-split a seen (b ∷ arms) h =
    let (new, old) = all-split a seen arms (ground arith) in
    (ground (arith, new), ground (arith, old))

distinct_from-all_distinct :
    (seen : List Text) (arms : List Arm) {b : Bool}
    → distinct_from seen arms ≡ ok b
    → (all_distinct arms ≡ true) × (all (λ c. not (any (text_eq c.name) seen)) arms ≡ true)
unfolding distinct_from
distinct_from-all_distinct seen [] h = (refl, refl)
distinct_from-all_distinct seen (a ∷ arms) h = elim (Bool-cases (any (text_eq a.name) seen)) [
  | inl e ↦ absurd (cc (rw e at h))
  | inr e ↦
      let (apart, fresh) = distinct_from-all_distinct (a.name ∷ seen) arms (rw e at h) in
      let (new, old) = all-split a.name seen arms fresh in (rw (new, apart), rw (e, old))
]

traverse-length :
    (specs : List Text) {arms : List Arm}
    → traverse parse_arm specs ≡ ok arms
    → length arms ≡ length specs
traverse-length [] {arms} h = let same : [] ≡ arms = cc h in subst (λ xs. length xs ≡ 0) same refl
traverse-length (s ∷ ss) {arms} h =
    let (a, (rest, first, later, same)) = traverse-cons parse_arm s ss h in
    let n = traverse-length ss later in rw same (omega (arith, n))

-- Arms that are accepted are as many as the specifications, or one, and have different names.
pub parse_arms-all_distinct :
    (specs : List Text) {arms : List Arm}
    → parse_arms specs ≡ ok arms
    → (all_distinct arms ≡ true) × (length arms ≡ length (or_baseline specs))
unfolding parse_arms
parse_arms-all_distinct specs h =
    let (arms, (first, rest)) = ok_chain (traverse parse_arm (or_baseline specs)) _ h in
    let (b, (second, last)) = ok_chain (distinct_from [] arms) _ rest in
    subst (λ xs. (all_distinct xs ≡ true) × (length xs ≡ length (or_baseline specs))) (cc last)
      ((distinct_from-all_distinct [] arms second).0, traverse-length (or_baseline specs) first)
