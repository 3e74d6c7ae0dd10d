-- ===== src/Campaign/Authorize.antt =====
-- `_authorize_steps` and `run_campaign` of core/orchestrator.py: what a campaign may touch.
use package.text.Mathlib.Text.{◌==◌ as str_eq}
use helios_net.Prelude.{
  ℕ, ◌≡◌, refl, arith, String, ◌&&◌, if◌then◌else◌, leb, ◌-◌, Option, none, some, List, [], ◌∷◌,
}
use helios_net.Prelude.Int.{ℤ, pos, eqb_ℤ}
use helios_net.Prelude.Text.{Text, codes}
use helios_net.Planner.Steps.{Param, flag, number, text, numbers, Params, PlanStep}
use helios_net.Scope.{IpAddress, ScopeEnforcer, ScopeError, check, check_ports}

-- `int(c)` of one character, for a text of ports; `none` is a `ValueError`.
unfoldable pub int_of_char : ℕ → Option ℤ
int_of_char c = if leb b'0' c && leb c b'9' then some (pos (c - b'0')) else none

unfoldable pub ints_of_text : Text → Option (List ℤ)
unfolding int_of_char
ints_of_text [] = some []
ints_of_text (c ∷ s) =
    let rest = ints_of_text s in
    elim (int_of_char c) [
      | none ↦ none
      | some p ↦ elim rest [ none ↦ none | some ps ↦ some (p ∷ ps) ]
    ]

-- `[int(port) for port in requested]`, empty where `requested` is false; `none` where it raises.
unfoldable pub requested_ports : Param → Option (List ℤ)
requested_ports (flag b) = if b then none else some []
requested_ports (number n) = if eqb_ℤ n (pos 0) then some [] else none
requested_ports (text s) = ints_of_text (codes s)
requested_ports (numbers ns) = some ns

-- `step.params.get("ports")`
unfoldable pub find_param : String → Params → Option Param
find_param key [] = none
find_param key ((k, v) ∷ params) =
    let rest = find_param key params in if str_eq k key then some v else rest

-- Why a campaign stops before its end.
pub data Failure : Type 0 where
  bad_scope : ScopeError → Failure
  bad_port bad_target bad_status no_module no_end : Failure

-- What is raised goes up.
unfoldable pub raise_scope : Option ScopeError → Option Failure
raise_scope none = none
raise_scope (some err) = some (bad_scope err)

-- The second check is reached where the first one does not raise.
unfoldable pub and_then : Option Failure → Option Failure → Option Failure
and_then none second = second
and_then (some failure) second = some failure

module _ {Address Network : Type 0} (ip : IpAddress Address Network)
    (scope : ScopeEnforcer Network) where
  -- `if requested: self.scope.check_ports(...)`
  unfoldable pub authorize_ports : Option (List ℤ) → Option Failure
  unfolding raise_scope
  authorize_ports none = some bad_port
  authorize_ports (some []) = none
  authorize_ports (some (p ∷ ps)) = raise_scope (check_ports scope (p ∷ ps))

  unfoldable pub authorize_param : Option Param → Option Failure
  unfolding authorize_ports requested_ports
  authorize_param none = none
  authorize_param (some v) = authorize_ports (requested_ports v)

  unfoldable pub authorize_step : PlanStep → Option Failure
  unfolding raise_scope and_then authorize_param find_param
  authorize_step step =
      and_then (raise_scope (check ip scope step.target))
        (authorize_param (find_param "ports" step.params))

  -- `_authorize_steps`: `none` where every step may run.
  unfoldable pub authorize_steps : List PlanStep → Option Failure
  unfolding and_then authorize_step
  authorize_steps [] = none
  authorize_steps (step ∷ steps) = and_then (authorize_step step) (authorize_steps steps)

pub raise_scope-none : (o : Option ScopeError) → raise_scope o ≡ none → o ≡ none
unfolding raise_scope
raise_scope-none none h = refl
raise_scope-none (some err) h = ground arith

pub and_then-none : (a b : Option Failure) → and_then a b ≡ none → (a ≡ none) × (b ≡ none)
unfolding and_then
and_then-none none b h = (refl, h)
and_then-none (some f) b h = ground arith
