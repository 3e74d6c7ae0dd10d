-- ===== src/Prelude/Trim.antt =====
-- What `strip` and its kin leave of a text, whatever characters they drop.
use mathlib.Core.Path.{◌≡◌, refl, ap}
use mathlib.Core.Bool.{Bool, true, false}
use mathlib.Core.Logic.{◌⊎◌, inl, inr}
use mathlib.Core.List.{[], ◌∷◌, ◌++◌}
use Prim.Native.Nat.{ℕ}
use native.Mathlib.Omega.{arith}
use helios_net.Prelude.Tests.{◌==◌, Bool-cases}
use helios_net.Prelude.Lists.{All}
use helios_net.Prelude.Text.{Text, drop_while, drop_while_end}

-- The text does not start, or does not end, with a character that `P` holds of.
abbrev pub NotFirst : (ℕ → Type 0) → Text → Type 0
NotFirst P [] = Unit
NotFirst P (c ∷ s) = ¬ P c

abbrev pub NotLast : (ℕ → Type 0) → Text → Type 0
NotLast P [] = Unit
NotLast P (c ∷ []) = ¬ P c
NotLast P (c ∷ d ∷ s) = NotLast P (d ∷ s)

pub NotFirst-prefix : (P : ℕ → Type 0) (s t : Text) → NotFirst P (s ++ t) → NotFirst P s
NotFirst-prefix P [] t h = tt
NotFirst-prefix P (c ∷ s) t h = h

-- `==` decides an equation, in the form that the lemmas below ask for.
pub is_or_not : (d c : ℕ) → (((c == d) ≡ true) × (c ≡ d)) ⊎ (((c == d) ≡ false) × (¬ (c ≡ d)))
is_or_not d c = elim (Bool-cases (c == d)) [
  | inl h ↦ inl (h, ground (arith, h))
  | inr h ↦ inr (h, λ e. ground (arith, h, e))
]

module _ (p : ℕ → Bool) (P : ℕ → Type 0)
    (decides : (c : ℕ) → ((p c ≡ true) × P c) ⊎ ((p c ≡ false) × (¬ P c))) where
  pub drop_while-NotFirst : (s : Text) → NotFirst P (drop_while p s)
  unfolding drop_while
  drop_while-NotFirst [] = tt
  drop_while-NotFirst (c ∷ s) = elim (decides c) [
    | inl (h, _) ↦ rw h (drop_while-NotFirst s)
    | inr (h, n) ↦ rw h n
  ]

  pub drop_while-dropped : (s : Text) → (l : Text) × (s ≡ l ++ drop_while p s) × All P l
  unfolding drop_while
  drop_while-dropped [] = ([], refl, tt)
  drop_while-dropped (c ∷ s) = elim (decides c) [
    | inl (h, k) ↦ let (l, e, a) = drop_while-dropped s in rw h (c ∷ l, ap (λ r. c ∷ r) e, (k, a))
    | inr (h, n) ↦ rw h ([], refl, tt)
  ]

  pub drop_while-append : (l s : Text) → All P l → NotFirst P s → drop_while p (l ++ s) ≡ s
  unfolding drop_while
  drop_while-append [] [] a n = refl
  drop_while-append [] (c ∷ s) a n = elim (decides c) [
    | inl (h, k) ↦ absurd (n k)
    | inr (h, _) ↦ rw h
  ]
  drop_while-append (c ∷ l) s a n = elim (decides c) [
    | inl (h, _) ↦ rw h (drop_while-append l s a.1 n)
    | inr (h, k) ↦ absurd (k a.0)
  ]

  pub drop_while_end-All : (r : Text) → All P r → drop_while_end p r ≡ []
  unfolding drop_while_end
  drop_while_end-All [] a = refl
  drop_while_end-All (c ∷ r) a = elim (decides c) [
    | inl (h, _) ↦ rw (drop_while_end-All r a.1, h)
    | inr (h, k) ↦ absurd (k a.0)
  ]

  pub drop_while_end-append : (s r : Text) → All P r → NotLast P s → drop_while_end p (s ++ r) ≡ s
  unfolding drop_while_end
  drop_while_end-append [] r a n = drop_while_end-All r a
  drop_while_end-append (c ∷ []) r a n = elim (decides c) [
    | inl (h, k) ↦ absurd (n k)
    | inr (h, _) ↦ rw (drop_while_end-All r a, h)
  ]
  drop_while_end-append (c ∷ d ∷ s) r a n = rw (drop_while_end-append (d ∷ s) r a n)

  -- A character in front of what is left
  step-NotLast :
      (c : ℕ) (s rest r : Text)
      → drop_while_end p s ≡ rest
      → s ≡ rest ++ r
      → All P r
      → NotLast P rest
      → (q : Text) × (c ∷ s ≡ drop_while_end p (c ∷ s) ++ q)
        × All P q
        × NotLast P (drop_while_end p (c ∷ s))
  unfolding drop_while_end
  step-NotLast c s [] r h e a n = elim (decides c) [
    | inl (f, k) ↦ rw (h, f) (c ∷ r, ap (λ t. c ∷ t) e, (k, a), tt)
    | inr (f, k) ↦ rw (h, f) (r, ap (λ t. c ∷ t) e, a, k)
  ]
  step-NotLast c s (d ∷ rest) r h e a n = rw h (r, ap (λ t. c ∷ t) e, a, n)

  pub drop_while_end-dropped :
      (s : Text)
      → (q : Text) × (s ≡ drop_while_end p s ++ q) × All P q × NotLast P (drop_while_end p s)
  drop_while_end-dropped [] = unfold drop_while_end in ([], refl, tt, tt)
  drop_while_end-dropped (c ∷ s) =
      let (r, e, a, n) = drop_while_end-dropped s in
      step-NotLast c s (drop_while_end p s) r refl e a n
