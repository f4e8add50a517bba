-- ===== src/Number.antt =====
-- Python's `float`, as the programs use it: an interface, since no IEEE arithmetic is at hand.
-- `Float` holds the operations, `IsOrdered` the documented facts about comparison that proofs need.
-- A NaN is not finite, and compares false with everything.
pub mod Int
pub mod Fixed
pub mod Median
pub mod Extremes
use glm5_3_flash_2x_dgx_spar.Prelude.{ℕ, ◌≡◌, Bool, true, false, Option, List}

pub record Float (F : Type 0) : Type 0 where
  -- an `int` or a literal `float(n)`
  pub of_ℕ : ℕ → F
  pub add : F → F → F
  pub sub : F → F → F
  pub mul : F → F → F
  pub div : F → F → F
  pub le : F → F → Bool
  pub lt : F → F → Bool
  pub eq : F → F → Bool
  -- `math.isfinite`
  pub finite : F → Bool
  -- `int(math.ceil(x))`, 0 where that is negative, `none` where it raises (NaN, infinities)
  pub ceil : F → Option ℕ
  -- `float(s)` of a text, by its code points; `none` where it raises
  pub parse : List ℕ → Option F
  -- `round(x, digits)`
  pub round : F → ℕ → F
  -- `sum(xs)` and `statistics.fmean(xs)`, which round as the library does
  pub sum : List F → F
  pub fmean : List F → F

module _ {F : Type 0} ⦃f : Float F⦄ where
  infixl 65 ◌+ᶠ◌ ◌-ᶠ◌
  infixl 70 ◌*ᶠ◌ ◌/ᶠ◌
  infix 50 ◌≤ᶠ◌ ◌<ᶠ◌ ◌==ᶠ◌
  abbrev pub ◌+ᶠ◌ : F → F → F
  a +ᶠ b = f.add a b

  abbrev pub ◌-ᶠ◌ : F → F → F
  a -ᶠ b = f.sub a b

  abbrev pub ◌*ᶠ◌ : F → F → F
  a *ᶠ b = f.mul a b

  abbrev pub ◌/ᶠ◌ : F → F → F
  a /ᶠ b = f.div a b

  abbrev pub ◌≤ᶠ◌ : F → F → Bool
  a ≤ᶠ b = f.le a b

  abbrev pub ◌<ᶠ◌ : F → F → Bool
  a <ᶠ b = f.lt a b

  abbrev pub ◌==ᶠ◌ : F → F → Bool
  a ==ᶠ b = f.eq a b

pub record IsOrdered {F : Type 0} (f : Float F) : Type 0 where
  pub le_trans : (a b c : F) → f.le a b ≡ true → f.le b c ≡ true → f.le a c ≡ true
  pub le_total :
      (a b : F) → f.finite a ≡ true → f.finite b ≡ true → f.le a b ≡ false → f.le b a ≡ true
  -- the sum rounds to no less than twice the smaller part, and halving that is exact
  pub le_midpoint :
      (a b : F)
      → f.finite a ≡ true
      → f.finite b ≡ true
      → f.lt (f.of_ℕ 0) a ≡ true
      → f.le a b ≡ true
      → f.le a (f.div (f.add a b) (f.of_ℕ 2)) ≡ true
