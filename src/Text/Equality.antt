-- ===== src/Text/Equality.antt =====
-- `text_eq` is an equality.
use glm5_3_flash_2x_dgx_spar.Prelude.{◌≡◌, refl, true, [], ◌∷◌, arith}
use glm5_3_flash_2x_dgx_spar.Text.{Text, text_eq}

pub text_eq_refl : (s : Text) → text_eq s s ≡ true
text_eq_refl [] = refl
text_eq_refl (c ∷ cs) = ground (arith, text_eq_refl cs)

pub text_eq_sym : (s t : Text) → text_eq s t ≡ text_eq t s
text_eq_sym [] [] = refl
text_eq_sym [] (b ∷ t) = refl
text_eq_sym (a ∷ s) [] = refl
text_eq_sym (a ∷ s) (b ∷ t) = ground (arith, text_eq_sym s t)

pub text_eq_trans : (r s t : Text) → text_eq r s ≡ true → text_eq r t ≡ text_eq s t
text_eq_trans [] [] t h = refl
text_eq_trans [] (b ∷ s) t h = absurd (cc h)
text_eq_trans (a ∷ r) [] t h = absurd (cc h)
text_eq_trans (a ∷ r) (b ∷ s) [] h = refl
text_eq_trans (a ∷ r) (b ∷ s) (c ∷ t) h = ground (arith, text_eq_trans r s t)

pub eq-text_eq : (s t : Text) → text_eq s t ≡ true → s ≡ t
eq-text_eq [] [] h = refl
eq-text_eq [] (b ∷ t) h = absurd (cc h)
eq-text_eq (a ∷ s) [] h = absurd (cc h)
eq-text_eq (a ∷ s) (b ∷ t) h = ground (arith, eq-text_eq s t)
