-- ===== src/Campaign/Allowed.antt =====
-- What a step is that `_authorize_steps` lets through.
use package.text.Mathlib.TextEquality.{eq_iff}
use helios_net.Prelude.{
  ◌≡◌, ◌≢◌, refl, sym, subst, true, ◌⊎◌, inl, inr, Option, none, some, Option-cases, List, [], ◌∷◌,
  All, In, All-In, arith, ℕ, ◌-◌, ◌≤◌, String,
}
use helios_net.Prelude.Int.{ℤ, pos}
use helios_net.Prelude.Text.{Text, codes}
use helios_net.Planner.Steps.{Param, flag, number, text, numbers, Params, PlanStep}
use helios_net.Scope.{IpAddress, ScopeEnforcer, is_target_allowed, check}
use helios_net.Scope.Ports.{Judges, check_ports-Judges}
use helios_net.Campaign.Authorize.{
  int_of_char, ints_of_text, find_param, requested_ports, authorize_ports, authorize_param,
  authorize_step, authorize_steps, raise_scope-none, and_then-none,
}

-- The first entry of the key has the value.
pub data HasParam (key : String) : Params → Param → Type 0 where
  here : {v : Param} {params : Params} → HasParam key ((key, v) ∷ params) v
  there :
      {k : String} {w v : Param} {params : Params}
      → k ≢ key
      → HasParam key params v
      → HasParam key ((k, w) ∷ params) v

-- A value asks for a port: by a list that holds it, or by a text that holds its digit.
pub data AsksFor : Param → ℤ → Type 0 where
  listed : {ns : List ℤ} {p : ℤ} → In p ns → AsksFor (numbers ns) p
  spelled :
      {s : String} {c : ℕ}
      → In c (codes s)
      → b'0' ≤ c
      → c ≤ b'9'
      → AsksFor (text s) (pos (c - b'0'))

HasParam-find_param :
    (key : String) (params : Params) (v : Param)
    → HasParam key params v
    → find_param key params ≡ some v
unfolding find_param
HasParam-find_param key [] v h = elim h [ ]
HasParam-find_param key ((k, w) ∷ params) v here = ground (arith, eq_iff key key)
HasParam-find_param key ((k, w) ∷ params) v (there n h) =
    ground (arith, n, eq_iff k key, HasParam-find_param key params v h)

-- A text of ports reads as a list where its first character and the others do.
ints_of_text-some :
    (o : Option ℤ) (rest : Option (List ℤ)) (ps : List ℤ)
    → (elim o [ none ↦ none | some p ↦ elim rest [ none ↦ none | some qs ↦ some (p ∷ qs) ] ])
      ≡ some ps
    → (p : ℤ) × (qs : List ℤ) × (o ≡ some p) × (rest ≡ some qs) × (p ∷ qs ≡ ps)
ints_of_text-some none rest ps h = ground arith
ints_of_text-some (some p) none ps h = ground arith
ints_of_text-some (some p) (some qs) ps h = (p, qs, refl, refl, cc h)

ints_of_text-In :
    (s : Text) (ps : List ℤ) (c : ℕ)
    → ints_of_text s ≡ some ps
    → In c s
    → b'0' ≤ c
    → c ≤ b'9'
    → In (pos (c - b'0')) ps
unfolding ints_of_text
ints_of_text-In [] ps c h i l u = absurd i
ints_of_text-In (d ∷ s) ps c h i l u =
    let (p, qs, read, others, e) = ints_of_text-some (int_of_char d) (ints_of_text s) ps h in
    subst (In (pos (c - b'0'))) e (elim i [
      | inl same ↦ inl (digit p (subst (λ x. int_of_char x ≡ some p) (sym same) read))
      | inr j ↦ inr (ints_of_text-In s qs c others j l u)
    ])
  where
    digit : (p : ℤ) → int_of_char c ≡ some p → pos (c - b'0') ≡ p
    digit p h = unfold int_of_char in ground (arith, h, l, u)

module _ {Address Network : Type 0} (ip : IpAddress Address Network)
    (scope : ScopeEnforcer Network) where
  -- The target is allowed, and so is every port that the step asks for.
  pub record IsAuthorized (step : PlanStep) : Type 0 where
    pub target_allowed : is_target_allowed ip scope step.target ≡ true
    pub ports_allowed :
        (v : Param) (p : ℤ)
        → HasParam "ports" step.params v
        → AsksFor v p
        → (scope.ports ≡ []) ⊎ In p scope.ports

  check-allowed :
      (target : Text) → check ip scope target ≡ none → is_target_allowed ip scope target ≡ true
  unfolding check
  check-allowed target h = ground arith

  ports-allowed :
      (ps : List ℤ) (p : ℤ)
      → authorize_ports ip scope (some ps) ≡ none
      → In p ps
      → (scope.ports ≡ []) ⊎ In p scope.ports
  unfolding authorize_ports
  ports-allowed [] p h i = absurd i
  ports-allowed (q ∷ qs) p h i =
      elim (subst (Judges scope (q ∷ qs)) (raise_scope-none _ h)
        (check_ports-Judges scope (q ∷ qs))) [
          | inl e ↦ inl e
          | inr named ↦ inr (All-In (λ x. In x scope.ports) p (q ∷ qs) named i)
        ]

  param-allowed :
      (v : Param) (p : ℤ)
      → AsksFor v p
      → authorize_ports ip scope (requested_ports v) ≡ none
      → (scope.ports ≡ []) ⊎ In p scope.ports
  unfolding requested_ports
  param-allowed (flag _) p asks h = elim asks [ ]
  param-allowed (number _) p asks h = elim asks [ ]
  param-allowed (numbers ns) p (listed i) h = ports-allowed ns p h i
  param-allowed (text s) p (spelled {c} i l u) h = elim (Option-cases (ints_of_text (codes s))) [
    | inl e ↦ absurd (refused (subst (λ o. authorize_ports ip scope o ≡ none) e h))
    | inr (ps, e) ↦
        ports-allowed ps p (subst (λ o. authorize_ports ip scope o ≡ none) e h)
          (ints_of_text-In (codes s) ps c e i l u)
  ]
    where
      refused : ¬ (authorize_ports ip scope none ≡ none)
      refused f = unfold authorize_ports in ground arith

  pub authorize_step-IsAuthorized :
      (step : PlanStep) → authorize_step ip scope step ≡ none → IsAuthorized step
  unfolding authorize_step authorize_param
  authorize_step-IsAuthorized step h =
      let (target_ok, ports_ok) = and_then-none _ _ h in
      record {
        target_allowed = check-allowed step.target (raise_scope-none _ target_ok);
        ports_allowed = λ v p has asks. param-allowed v p asks (
            subst (λ o. authorize_param ip scope o ≡ none)
              (HasParam-find_param "ports" step.params v has) ports_ok);
      }

  pub authorize_steps-All :
      (steps : List PlanStep) → authorize_steps ip scope steps ≡ none → All IsAuthorized steps
  unfolding authorize_steps
  authorize_steps-All [] h = tt
  authorize_steps-All (step ∷ steps) h =
      let (first_ok, rest_ok) = and_then-none _ _ h in
      (authorize_step-IsAuthorized step first_ok, authorize_steps-All steps rest_ok)
