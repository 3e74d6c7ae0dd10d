-- ===== src/Planner/Json.antt =====
-- `PlanStep.to_dict`, and `to_json` and `from_json` of the class `Planner` of core/planner.py.
use mathlib.Core.Option.{get_or}
use helios_net.Prelude.{
  ℕ, String, ◌≡◌, refl, ap, ◌∙◌, ◌⊎◌, inl, inr, Option, none, some, List, [], ◌∷◌, map,
}
use helios_net.Prelude.Int.{ℤ, pos}
use helios_net.Prelude.Text.{Text}
use helios_net.Planner.Steps.{Params, PlanStep, Status, pending}

-- The dictionary of a step by its keys; `none` is a missing key.
pub record StepDict : Type 0 where
  pub step_id : Option ℕ
  pub module_name : Option String
  pub action : Option String
  pub target : Option Text
  pub priority : Option ℤ
  pub depends_on : Option (List ℕ)
  pub params : Option Params
  pub status : Option Status

-- The `JSONDecodeError` of `json.loads`, and the `KeyError` of a key
pub data JsonError : Type 0 where
  bad_json : JsonError
  missing : String → JsonError

-- `json` on lists of such dictionaries
pub record StepCodec : Type 0 where
  pub dumps : List StepDict → Text
  pub loads : Text → Option (List StepDict)

infixl 5 ◌>>=◌
abbrev ◌>>=◌ : {A B : Type 0} → JsonError ⊎ A → (A → JsonError ⊎ B) → JsonError ⊎ B
inl err >>= f = inl err
inr a >>= f = f a

-- `d[key]`
unfoldable pub required : {A : Type 0} → String → Option A → JsonError ⊎ A
required key none = inl (missing key)
required key (some a) = inr a

unfoldable pub step_to_dict : PlanStep → StepDict
step_to_dict s = record {
  step_id = some s.step_id;
  module_name = some s.module_name;
  action = some s.action;
  target = some s.target;
  priority = some s.priority;
  depends_on = some s.depends_on;
  params = some s.params;
  status = some s.status;
}

-- The body of the loop of `from_json`
unfoldable pub step_from_dict : StepDict → JsonError ⊎ PlanStep
unfolding required
step_from_dict d = do
  step_id ← required "step_id" d.step_id
  module_name ← required "module" d.module_name
  action ← required "action" d.action
  target ← required "target" d.target
  inr (record {
    step_id = step_id;
    module_name = module_name;
    action = action;
    target = target;
    priority = get_or d.priority (pos 100);
    depends_on = get_or d.depends_on [];
    params = get_or d.params [];
    status = get_or d.status pending;
  })

unfoldable pub steps_from_dicts : List StepDict → JsonError ⊎ List PlanStep
unfolding step_from_dict
steps_from_dicts [] = inr []
steps_from_dicts (d ∷ ds) = do s ← step_from_dict d; ss ← steps_from_dicts ds; inr (s ∷ ss)

-- What `from_json` makes of what `json.loads` gives
unfoldable pub steps_loaded : Option (List StepDict) → JsonError ⊎ List PlanStep
unfolding steps_from_dicts
steps_loaded none = inl bad_json
steps_loaded (some ds) = steps_from_dicts ds

module _ (json : StepCodec) where
  unfoldable pub to_json : List PlanStep → Text
  unfolding step_to_dict
  to_json steps = json.dumps (map step_to_dict steps)

  unfoldable pub from_json : Text → JsonError ⊎ List PlanStep
  unfolding steps_loaded
  from_json text = steps_loaded (json.loads text)

steps_from_dicts-to_dict :
    (steps : List PlanStep) → steps_from_dicts (map step_to_dict steps) ≡ inr steps
unfolding steps_from_dicts step_from_dict step_to_dict required
steps_from_dicts-to_dict [] = refl
steps_from_dicts-to_dict (s ∷ ss) = rw (steps_from_dicts-to_dict ss) refl

-- Steps that json writes and reads back come back from their text as they were, status and
-- dependencies included.
pub from_json-to_json :
    (json : StepCodec) (steps : List PlanStep)
    → json.loads (json.dumps (map step_to_dict steps)) ≡ some (map step_to_dict steps)
    → from_json json (to_json json steps) ≡ inr steps
unfolding from_json to_json steps_loaded
from_json-to_json json steps h = ap steps_loaded h ∙ steps_from_dicts-to_dict steps
