-- ===== src/Prelude/Dict.antt =====
-- Dictionaries in insertion order.
use mathlib.Core.Path.{◌≡◌, refl, sym}
use mathlib.Core.Bool.{false}
use mathlib.Core.Logic.{◌≢◌, inl, inr}
use mathlib.Core.Bool.{not}
use helios_net.Prelude.Lists.{keep}
use mathlib.Core.Option.{Option, none, some}
use mathlib.Core.List.{List, [], ◌∷◌}
use helios_net.Prelude.Tests.{if◌then◌else◌, Bool-cases}
use helios_net.Prelude.Eq.{Eq, eqb, eqb-cases}

abbrev pub Dict : Type 0 → Type 0 → Type 0
Dict K V = List (K × V)

eqb-missed : {K : Type 0} ⦃e : Eq K⦄ (a b : K) → a ≢ b → eqb a b ≡ false
eqb-missed a b n = elim (eqb-cases a b) [ inl h ↦ absurd (n h) | inr h ↦ h ]

module _ {K V : Type 0} ⦃e : Eq K⦄ where
  -- `.get(key)`
  unfoldable pub dict_get : K → Dict K V → Option V
  dict_get key [] = none
  dict_get key ((k, v) ∷ d) = let rest = dict_get key d in if eqb key k then some v else rest

  -- `d[key] = value`
  unfoldable pub dict_set : K → V → Dict K V → Dict K V
  dict_set key value [] = (key, value) ∷ []
  dict_set key value ((k, v) ∷ d) =
      let rest = dict_set key value d in if eqb key k then (key, value) ∷ d else (k, v) ∷ rest

  -- `.pop(key, None)`
  unfoldable pub dict_pop : K → Dict K V → Dict K V
  dict_pop key = keep (λ p. not (eqb key p.0))

  pub get-set :
      (key : K) (value : V) (d : Dict K V) → dict_get key (dict_set key value d) ≡ some value
  unfolding dict_get dict_set
  get-set key value [] = rw (e.beq_refl key) refl
  get-set key value ((k, v) ∷ d) = elim (Bool-cases (eqb key k)) [
    | inl h ↦ rw (h, e.beq_refl key) refl
    | inr h ↦ rw (h, h) (get-set key value d)
  ]

  module _ (key other : K) (apart : other ≢ key) where
    pub get-set_other :
        (value : V) (d : Dict K V) → dict_get other (dict_set key value d) ≡ dict_get other d
    unfolding dict_get dict_set
    get-set_other value [] = rw (eqb-missed other key apart) refl
    get-set_other value ((k, v) ∷ d) = elim (eqb-cases key k) [
      | inl f ↦ rw (sym f, e.beq_refl key, eqb-missed other key apart) refl
      | inr h ↦ rw (h, get-set_other value d) refl
    ]

    pub get-pop_other : (d : Dict K V) → dict_get other (dict_pop key d) ≡ dict_get other d
    unfolding dict_get dict_pop
    get-pop_other [] = refl
    get-pop_other ((k, v) ∷ d) = elim (eqb-cases key k) [
      | inl f ↦ rw (sym f, e.beq_refl key, eqb-missed other key apart) (get-pop_other d)
      | inr h ↦
          rw h (elim (Bool-cases (eqb other k)) [ inl f ↦ rw f | inr f ↦ rw (f, get-pop_other d) ])
    ]
