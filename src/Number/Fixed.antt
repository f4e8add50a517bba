-- ===== src/Number/Fixed.antt =====
-- Thousandths, as an instance of the interface: its laws can be met, and the programs run on it.
use glm5_3_flash_2x_dgx_spar.Prelude.{
  length, ℕ, ◌-◌, Option, List, [], ◌∷◌, ◌==◌, suc, ◌+◌, ◌*◌, ◌/◌, ◌≡◌, true, false, ◌&&◌, not,
  some, arith,
}
use glm5_3_flash_2x_dgx_spar.Number.{Float, IsOrdered}
use glm5_3_flash_2x_dgx_spar.Number.Int.{ℤ, pos, negsuc, pos_part, ◌+ℤ◌, ◌-ℤ◌, ◌*ℤ◌, ◌/ℤ◌, le_ℤ}

-- the quotient of magnitudes, with the sign of the product; a zero divisor gives 0
abbrev quotient : ℤ → ℤ → ℤ
quotient a (pos b) = (a *ℤ pos 1000) /ℤ b
quotient a (negsuc b) = ((pos 0 -ℤ a) *ℤ pos 1000) /ℤ suc b

-- digits after the point, thousandths being the first three of them
abbrev fraction : ℕ → List ℕ → ℕ → Option ℤ
fraction unit [] acc = some (pos acc)
fraction unit (c ∷ cs) acc = fraction (unit / 10) cs (acc + (c - b'0') * unit)

abbrev decimal : List ℕ → ℕ → Option ℤ
decimal [] acc = some (pos (acc * 1000))
decimal (c ∷ cs) acc = elim (c == b'.') [
  | true ↦ fraction 100 cs (acc * 1000)
  | false ↦ decimal cs (acc * 10 + (c - b'0'))
]

abbrev total : List ℤ → ℤ
total [] = pos 0
total (x ∷ xs) = x +ℤ total xs

instance abbrev pub fixed : Float ℤ
fixed = record {
  of_ℕ = λ n. pos (n * 1000);
  add = ◌+ℤ◌;
  sub = ◌-ℤ◌;
  mul = λ a b. (a *ℤ b) /ℤ 1000;
  div = quotient;
  le = le_ℤ;
  lt = λ a b. not (le_ℤ b a);
  eq = λ a b. le_ℤ a b && le_ℤ b a;
  finite = λ a. true;
  ceil = λ a. some ((pos_part a + 999) / 1000);
  parse = λ s. decimal s 0;
  round = λ a digits. a;
  sum = total;
  fmean = λ xs. total xs /ℤ length xs;
}

le_ℤ_trans : (a b c : ℤ) → le_ℤ a b ≡ true → le_ℤ b c ≡ true → le_ℤ a c ≡ true
le_ℤ_trans a b c p q = ground arith

le_ℤ_total : (a b : ℤ) → le_ℤ a b ≡ false → le_ℤ b a ≡ true
le_ℤ_total a b p = ground arith

le_ℤ_midpoint : (a b : ℤ) → le_ℤ a b ≡ true → le_ℤ a (quotient (a +ℤ b) (pos 2000)) ≡ true
le_ℤ_midpoint a b p = ground arith

pub fixed-IsOrdered : IsOrdered fixed
fixed-IsOrdered = record {
  le_trans = le_ℤ_trans;
  le_total = λ a b _ _. le_ℤ_total a b;
  le_midpoint = λ a b _ _ _. le_ℤ_midpoint a b;
}
