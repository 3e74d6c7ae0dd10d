-- ===== src/Scope/Ports.antt =====
-- Which ports the enforcer lets through, and what its refusal names.
use mathlib.Core.List.Permᴰ
use helios_net.Prelude.{
  ◌≡◌, ◌≢◌, refl, ◌∙◌, ap, All, All-of_In, All-In, Unique, Option, not, sym, subst, ◌↔◌, ◌⊎◌, inl,
  inr, Bool-cases, none, some, List, [], ◌∷◌, In, In-perm, arith,
}
use helios_net.Prelude.Int.{ℤ, leb_ℤ}
use helios_net.Prelude.Sort.{IsSorted, IsOrder, sort_by, sort_by-perm, sort_by-IsSorted}
use helios_net.Prelude.Eq.{ℤ_eq}
use helios_net.Prelude.SortedSets.{Unique-perm}
use helios_net.Prelude.Sets.{
  mem, mem_iff, mem-false, to_set, In-to_set, to_set-Unique, In-difference, Unique-keep,
}
use helios_net.Scope.{ScopeEnforcer, ScopeError, bad_ports, not_allowed, refuse, check_ports}

In-not_allowed :
    (allowed ports : List ℤ) (p : ℤ)
    → In p (not_allowed allowed ports) ↔ (In p ports × ¬ In p allowed)
unfolding not_allowed
In-not_allowed allowed ports p =
    let both = In-difference (to_set ports) allowed p in
    (
      λ i. let (j, n) = both.0 i in ((In-to_set ports p).0 j, n),
      λ (i, n). both.1 ((In-to_set ports p).1 i, n),
    )

refuse-none : (ps : List ℤ) → refuse ps ≡ none → ps ≡ []
unfolding refuse
refuse-none [] h = refl
refuse-none (p ∷ ps) h = ground arith

refuse-empty : refuse [] ≡ none
unfolding refuse
refuse-empty = refl

empty_of_no_In : (ps : List ℤ) → ((p : ℤ) → ¬ In p ps) → ps ≡ []
empty_of_no_In [] h = refl
empty_of_no_In (p ∷ ps) h = absurd (h p (inl refl))

refuse-some : (ps : List ℤ) (err : ScopeError) → refuse ps ≡ some err → err ≡ bad_ports ps
unfolding refuse
refuse-some [] err h = ground arith
refuse-some (p ∷ ps) err h = cc h

leb_ℤ-IsOrder : IsOrder leb_ℤ
leb_ℤ-IsOrder = record { total = λ x y h. ground arith; trans = λ x y z h k. ground arith }

In? : (p : ℤ) (ps : List ℤ) → Dec (In p ps)
In? p ps = elim (Bool-cases (mem p ps)) [
  | inl e ↦ yes ((mem_iff p ps).0 e)
  | inr e ↦ no (mem-false p ps e)
]

List-cases : (ps : List ℤ) → (ps ≡ []) ⊎ (ps ≢ [])
List-cases [] = inl refl
List-cases (p ∷ ps) = inr (λ h. ground arith)

none_not_some : {err : ScopeError} → ¬ (none ≡ some err)
none_not_some h = ground arith

module _ {Network : Type 0} (e : ScopeEnforcer Network) (ports : List ℤ) where
  check_ports-refuse :
      (e.ports ≢ []) → check_ports e ports ≡ refuse (sort_by leb_ℤ (not_allowed e.ports ports))
  unfolding check_ports refuse
  check_ports-refuse n = go e.ports refl
    where
      go :
          (allowed : List ℤ)
          → e.ports ≡ allowed
          → check_ports e ports ≡ refuse (sort_by leb_ℤ (not_allowed e.ports ports))
      go [] f = absurd (n f)
      go (q ∷ qs) f = rw (check_ports, f) refl

  check_ports-empty : e.ports ≡ [] → check_ports e ports ≡ none
  unfolding check_ports
  check_ports-empty f = rw f

  offenders : List ℤ
  offenders = sort_by leb_ℤ (not_allowed e.ports ports)

  offenders_iff : (p : ℤ) → In p offenders ↔ (In p ports × ¬ In p e.ports)
  unfolding offenders
  offenders_iff p =
      let perm = sort_by-perm leb_ℤ (not_allowed e.ports ports) in
      (
        λ i. (In-not_allowed e.ports ports p).0 (In-perm p perm i),
        λ h. In-perm p (Permᴰ.symm perm) ((In-not_allowed e.ports ports p).1 h),
      )

  offenders-Unique : Unique offenders
  unfolding offenders not_allowed
  offenders-Unique =
      Unique-perm (Permᴰ.symm (sort_by-perm leb_ℤ (not_allowed e.ports ports)))
        (Unique-keep (λ p. not (mem p e.ports)) (to_set ports) (to_set-Unique ports))

  -- A refusal: just the ports that were asked for and are not in the scope, once and in order
  abbrev pub Refused : ScopeError → Type 0
  Refused err =
      (ps : List ℤ) × (err ≡ bad_ports ps)
      × (ps ≢ [])
      × IsSorted leb_ℤ ps
      × Unique ps
      × ((p : ℤ) → In p ps ↔ (In p ports × ¬ In p e.ports))

  check_ports-bad : (err : ScopeError) → check_ports e ports ≡ some err → Refused err
  check_ports-bad err h = elim (List-cases e.ports) [
    | inl f ↦ absurd (none_not_some (sym (check_ports-empty f) ∙ h))
    | inr n ↦
        let refused : refuse offenders ≡ some err =
          unfold offenders in sym (check_ports-refuse n) ∙ h in
        (
          offenders,
          refuse-some offenders err refused,
          λ f. none_not_some (sym refuse-empty ∙ sym (ap refuse f) ∙ refused),
          unfold offenders in sort_by-IsSorted leb_ℤ leb_ℤ-IsOrder (not_allowed e.ports ports),
          offenders-Unique,
          offenders_iff,
        )
  ]

  check_ports-none_iff :
      (check_ports e ports ≡ none) ↔ ((e.ports ≡ []) ⊎ All (λ p. In p e.ports) ports)
  unfolding offenders
  check_ports-none_iff = (passes→, →passes)
    where
      passes→ : check_ports e ports ≡ none → (e.ports ≡ []) ⊎ All (λ p. In p e.ports) ports
      passes→ h = elim (List-cases e.ports) [
        | inl f ↦ inl f
        | inr n ↦
            let no_offender : offenders ≡ [] =
              refuse-none offenders (unfold offenders in sym (check_ports-refuse n) ∙ h) in
            inr (All-of_In (λ p. In p e.ports) ports (λ p i. named p i no_offender (In? p e.ports)))
      ]
        where
          named : (p : ℤ) → In p ports → offenders ≡ [] → Dec (In p e.ports) → In p e.ports
          named p i none_left (yes j) = j
          named p i none_left (no n) = absurd (subst (In p) none_left ((offenders_iff p).1 (i, n)))

      →passes : (e.ports ≡ []) ⊎ All (λ p. In p e.ports) ports → check_ports e ports ≡ none
      →passes (inl f) = check_ports-empty f
      →passes (inr all_named) = elim (List-cases e.ports) [
        | inl f ↦ check_ports-empty f
        | inr n ↦ check_ports-refuse n ∙ ap refuse (empty_of_no_In offenders stays) ∙ refuse-empty
      ]
        where
          stays : (p : ℤ) → ¬ In p offenders
          stays p i =
              let (j, n) = (offenders_iff p).0 i in
              n (All-In (λ q. In q e.ports) p ports all_named j)

  -- What the check tells of the ports: they pass, or are refused.
  abbrev pub Judges : Option ScopeError → Type 0
  Judges none = (e.ports ≡ []) ⊎ All (λ p. In p e.ports) ports
  Judges (some err) = (e.ports ≢ []) × Refused err

  -- Ports pass where the scope names no port or names each of them. Else the refusal names, in
  -- ascending order and once, just those that were asked for and are not in the scope, and there is
  -- one.
  pub check_ports-Judges : Judges (check_ports e ports)
  check_ports-Judges = go (check_ports e ports) refl
    where
      go : (o : Option ScopeError) → check_ports e ports ≡ o → Judges o
      go none h = check_ports-none_iff.0 h
      go (some err) h = (λ f. none_not_some (sym (check_ports-empty f) ∙ h), check_ports-bad err h)
