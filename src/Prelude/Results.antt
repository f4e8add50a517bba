-- ===== src/Prelude/Results.antt =====
-- What a Python function that may raise returns.
use mathlib.Core.Path.{◌≡◌, refl, ◌∙◌}
use mathlib.Core.Logic.{◌⊎◌, inl, inr}
use mathlib.Core.List.{List, [], ◌∷◌}
use mathlib.Core.Bool.{Bool, true, false}
use glm5_3_flash_2x_dgx_spar.Prelude.Tests.{if◌then◌else◌}

pub data Result {ℓ κ} (E : Type ℓ) (A : Type κ) : Type (ℓ ⊔ κ) where
  ok : A → Result E A
  err : E → Result E A

infixl 5 ◌>>=◌
abbrev pub ◌>>=◌ {ℓ κ μ} :
    {E : Type ℓ} {A : Type κ} {B : Type μ} → Result E A → (A → Result E B) → Result E B
ok a >>= f = f a
err e >>= f = err e

-- A chain that returns has got its first value, and went on from it.
module _ {ℓ κ μ} {E : Type ℓ} {A : Type κ} {B : Type μ} where
  pub ok_chain :
      (first : Result E A) (rest : A → Result E B) {last : B}
      → (first >>= rest) ≡ ok last
      → (middle : A) × ((first ≡ ok middle) × (rest middle ≡ ok last))
  ok_chain (err e) rest h = absurd (cc h)
  ok_chain (ok x) rest h = (x, (refl, h))

-- A guard that raises has let the call pass.
pub past_guard {ℓ κ} :
    {E : Type ℓ} {A : Type κ} (c : Bool) (e : E) {r : Result E A} {a : A}
    → (if c then err e else r) ≡ ok a
    → (c ≡ false) × (r ≡ ok a)
past_guard true e h = absurd (cc h)
past_guard false e h = (refl, h)

pub Result-cases {ℓ κ} :
    {E : Type ℓ} {A : Type κ} (r : Result E A) → ((a : A) × (r ≡ ok a)) ⊎ ((e : E) × (r ≡ err e))
Result-cases (ok a) = inl (a, refl)
Result-cases (err e) = inr (e, refl)

-- `[f(x) for x in xs]`, where a call that raises ends it
abbrev pub traverse {ℓ κ μ} :
    {E : Type ℓ} {A : Type κ} {B : Type μ} → (A → Result E B) → List A → Result E (List B)
traverse f [] = ok []
traverse f (x ∷ xs) = f x >>= λ y. traverse f xs >>= λ ys. ok (y ∷ ys)

module _ {ℓ κ μ} {E : Type ℓ} {A : Type κ} {B : Type μ} (f : A → Result E B) where
  pub traverse-cons :
      (x : A) (xs : List A) {zs : List B}
      → traverse f (x ∷ xs) ≡ ok zs
      → (y : B) × ((ys : List B) × (f x ≡ ok y) × (traverse f xs ≡ ok ys) × (zs ≡ y ∷ ys))
  traverse-cons x xs h =
      let (y, (first, rest)) = ok_chain (f x) _ h in
      let (ys, (later, e)) = ok_chain (traverse f xs) _ rest in (y, (ys, first, later, cc e))

  -- what raised: the first call, or a later one
  pub traverse_raises :
      (x : A) (xs : List A) {e : E}
      → traverse f (x ∷ xs) ≡ err e
      → (f x ≡ err e) ⊎ (traverse f xs ≡ err e)
  traverse_raises x xs h = elim (Result-cases (f x)) [
    | inr (d, first) ↦ inl (first ∙ cc (rw first at h))
    | inl (y, first) ↦ elim (Result-cases (traverse f xs)) [
      | inl (ys, later) ↦ absurd (cc (rw (first, later) at h))
      | inr (d, later) ↦ inr (later ∙ cc (rw (first, later) at h))
    ]
  ]

-- A result is an error, or its value has the property.
abbrev pub Holds {ℓ κ} : {E : Type ℓ} {A : Type κ} → (A → Type 0) → Result E A → Type 0
Holds P (ok a) = P a
Holds P (err e) = Unit

module _ {ℓ κ μ} {E : Type ℓ} {A : Type κ} {B : Type μ} (P : A → Type 0) (Q : B → Type 0) where
  pub Holds-chain :
      (first : Result E A) (rest : A → Result E B)
      → Holds P first
      → ((a : A) → P a → Holds Q (rest a))
      → Holds Q (first >>= rest)
  Holds-chain (ok a) rest h g = g a h
  Holds-chain (err e) rest h g = tt
