-- ===== src/Scope/Quoted.antt =====
-- Quoted values of a scope file.
use helios_net.Prelude.{
  ℕ, ◌-◌, ◌≡◌, refl, [], ◌∷◌, ◌++◌, length, length-append, take-append, inr, arith,
}
use helios_net.Prelude.Text.{Text, ends_with-append}
use helios_net.Scope.Config.{string}
use helios_net.Scope.Document.{scalar, quoted_scalar}

length-snoc : (s : Text) (c : ℕ) → length (s ++ c ∷ []) - 1 ≡ length s
length-snoc s c = omega (arith, length-append s (c ∷ []))

-- A value in double quotes is read as the text between them, whatever it holds: a comment sign, a
-- quote, blanks or digits.
pub scalar-quoted : (s : Text) → scalar (b'"' ∷ (s ++ b'"' ∷ [])) ≡ inr (string s)
unfolding scalar quoted_scalar
scalar-quoted s =
    rw (ends_with-append s (b'"' ∷ []), length-snoc s b'"', take-append s (b'"' ∷ [])) refl
