-- ===== src/Prelude/Eq.antt =====
-- `==` on the values of the program, as an interface: a test, and that it tells equal values.
use Prim.Native.Nat.{ℕ}
use mathlib.Core.Path.{◌≡◌, refl, ap}
use mathlib.Core.Bool.{Bool, true, false, ◌&&◌}
use mathlib.Core.Logic.{◌⊎◌, inl, inr}
use mathlib.Core.Option.{Option, none, some}
use native.Mathlib.Omega.{arith}
use helios_net.Prelude.Tests.{◌==◌, ==_iff, Bool-cases}
use helios_net.Prelude.Int.{ℤ, eqb_ℤ, eq_of_parts}
use helios_net.Prelude.Text.{Text, eqb_text, eqb_text_refl, eqb_text→eq}

pub record Eq (A : Type 0) : Type 0 where
  pub beq : A → A → Bool
  pub beq_refl : (a : A) → beq a a ≡ true
  pub beq→eq : (a b : A) → beq a b ≡ true → a ≡ b

abbrev pub eqb : {A : Type 0} ⦃e : Eq A⦄ → A → A → Bool
eqb ⦃e⦄ = e.beq

pub nat_beq_refl : (a : ℕ) → (a == a) ≡ true
nat_beq_refl a = ground arith

pub eqb_ℤ_refl : (a : ℤ) → eqb_ℤ a a ≡ true
eqb_ℤ_refl a = ground arith

pub eqb_ℤ→eq : (a b : ℤ) → eqb_ℤ a b ≡ true → a ≡ b
eqb_ℤ→eq a b h = eq_of_parts a b (ground arith)

instance abbrev pub nat_eq : Eq ℕ
nat_eq = record { beq = ◌==◌; beq_refl = nat_beq_refl; beq→eq = λ a b. (==_iff a b).0 }

instance abbrev pub ℤ_eq : Eq ℤ
ℤ_eq = record { beq = eqb_ℤ; beq_refl = eqb_ℤ_refl; beq→eq = eqb_ℤ→eq }

instance abbrev pub text_eq : Eq Text
text_eq = record { beq = eqb_text; beq_refl = eqb_text_refl; beq→eq = eqb_text→eq }

module _ {A : Type 0} ⦃e : Eq A⦄ where
  abbrev pub eqb_option : Option A → Option A → Bool
  eqb_option none none = true
  eqb_option (some a) (some b) = eqb a b
  eqb_option _ _ = false

  pub eqb_option_refl : (o : Option A) → eqb_option o o ≡ true
  eqb_option_refl none = refl
  eqb_option_refl (some a) = e.beq_refl a

  pub eqb_option→eq : (o p : Option A) → eqb_option o p ≡ true → o ≡ p
  eqb_option→eq none none h = refl
  eqb_option→eq none (some b) h = ground arith
  eqb_option→eq (some a) none h = ground arith
  eqb_option→eq (some a) (some b) h = ap some (e.beq→eq a b h)

  -- A value that may be missing
  instance abbrev pub option_eq : Eq (Option A)
  option_eq = record { beq = eqb_option; beq_refl = eqb_option_refl; beq→eq = eqb_option→eq }

  -- Two values are equal or not, with what the test says.
  pub eqb-cases : (a b : A) → (a ≡ b) ⊎ (eqb a b ≡ false)
  eqb-cases a b = elim (Bool-cases (eqb a b)) [ inl h ↦ inl (e.beq→eq a b h) | inr h ↦ inr h ]

module _ {A B : Type 0} ⦃e : Eq A⦄ ⦃f : Eq B⦄ where
  abbrev pub eqb_pair : A × B → A × B → Bool
  eqb_pair p q = eqb p.0 q.0 && eqb p.1 q.1

  pub eqb_pair_refl : (p : A × B) → eqb_pair p p ≡ true
  eqb_pair_refl p = ground (arith, e.beq_refl p.0, f.beq_refl p.1)

  pub eqb_pair→eq : (p q : A × B) → eqb_pair p q ≡ true → p ≡ q
  eqb_pair→eq p q h =
      let a = e.beq→eq p.0 q.0 (ground arith) in
      let b = f.beq→eq p.1 q.1 (ground arith) in cc (a, b)

  instance abbrev pub pair_eq : Eq (A × B)
  pair_eq = record { beq = eqb_pair; beq_refl = eqb_pair_refl; beq→eq = eqb_pair→eq }
