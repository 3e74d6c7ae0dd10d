-- ===== src/Prelude/TextOrder.antt =====
-- Telling texts apart, and their order.
use mathlib.Core.Path.{◌≡◌, refl, sym, ap, ◌∙◌}
use mathlib.Core.Bool.{true, false}
use mathlib.Core.Logic.{◌≢◌, ◌⊎◌, inl, inr}
use mathlib.Core.List.{[], ◌∷◌}
use native.Mathlib.Omega.{arith}
use helios_net.Prelude.Tests.{Bool-cases}
use helios_net.Prelude.Sort.{IsOrder}
use helios_net.Prelude.Text.{Text, eqb_text, eqb_text_refl, eqb_text→eq, le_text}

-- Two texts are equal or not, with what the test says.
pub eqb_text-cases : (s t : Text) → (s ≡ t) ⊎ (eqb_text s t ≡ false)
eqb_text-cases s t = elim (Bool-cases (eqb_text s t)) [
  | inl e ↦ inl (eqb_text→eq s t e)
  | inr e ↦ inr e
]

pub eqb_text-false : (s t : Text) → eqb_text s t ≡ false → s ≢ t
eqb_text-false s t h e = clash (sym (eqb_text_refl t) ∙ ap (λ z. eqb_text z t) (sym e) ∙ h)
  where
    clash : ¬ (true ≡ false)
    clash e = ground arith

pub le_text_antisym : (s t : Text) → le_text s t ≡ true → le_text t s ≡ true → s ≡ t
unfolding le_text
le_text_antisym [] [] h k = refl
le_text_antisym [] (b ∷ t) h k = ground arith
le_text_antisym (a ∷ s) [] h k = ground arith
le_text_antisym (a ∷ s) (b ∷ t) h k =
    let a≡b : a ≡ b = ground arith in
    let rest = le_text_antisym s t (ground arith) (ground arith) in cc (a≡b, rest)

pub le_text_total : (s t : Text) → le_text s t ≡ false → le_text t s ≡ true
unfolding le_text
le_text_total [] t h = ground arith
le_text_total (a ∷ s) [] h = refl
le_text_total (a ∷ s) (b ∷ t) h = ground (arith, le_text_total s t)

pub le_text_trans : (s t u : Text) → le_text s t ≡ true → le_text t u ≡ true → le_text s u ≡ true
unfolding le_text
le_text_trans [] t u h k = refl
le_text_trans (a ∷ s) [] u h k = ground arith
le_text_trans (a ∷ s) (b ∷ t) [] h k = ground arith
le_text_trans (a ∷ s) (b ∷ t) (d ∷ u) h k = ground (arith, le_text_trans s t u)

pub le_text-IsOrder : IsOrder le_text
le_text-IsOrder = record { total = le_text_total; trans = le_text_trans }
