-- ===== src/Planner/Samples.antt =====
-- Runs of the planner on small inputs, and each theorem of it at one.
use helios_net.Prelude.{
  String, ℕ, ◌≡◌, ◌↔◌, refl, inl, inr, map, true, any, none, some, List, [], ◌∷◌, Permᴰ, All,
  concat, arith,
}
use helios_net.Prelude.Int.{pos}
use helios_net.Prelude.Sort.{sort_by}
use helios_net.Prelude.Text.{Text, codes}
use helios_net.Planner.Steps.{PlanStep, Item, Planner, blank_item, pending}
use helios_net.Planner.Plan.{plan}
use helios_net.Planner.Plan.Result.{plan-none_iff, nameless}
use helios_net.Planner.Plan.Whole.{IsPlan, plan-IsPlan}
use helios_net.Planner.Schedule.{by_id, schedule, schedule_loop}
use helios_net.Planner.Schedule.Remaining.{Distinct}
use helios_net.Planner.Schedule.Order.{DependsBelow, InOrder, schedule-InOrder}
use helios_net.Planner.Schedule.Total.{IsWave, schedule_total}
use helios_net.Planner.Json.{
  StepCodec, missing, step_to_dict, to_json, from_json, from_json-to_json,
}
use helios_net.Planner.Run.{schedule-plan, schedule_loop-zero}

abbrev pub planner : Planner
planner = record { max_concurrency = 2; step_counter = 4 }

abbrev pub target : Text
target = codes "lab.test"

-- Pacing, a recon item and an extra module; discovery and asset steps are added by default.
abbrev pub intelligence : List Item
intelligence =
    record blank_item { module_name = some "recon" }
    ∷ record blank_item { module_name = some "dns_enum"; priority = some (pos 12) }
    ∷ record blank_item { module_name = some "stealth" }
    ∷ []

abbrev step : ℕ → String → String → ℕ → List ℕ → PlanStep
step step_id module_name action priority depends_on = record {
  step_id = step_id;
  module_name = module_name;
  action = action;
  target = target;
  priority = pos priority;
  depends_on = depends_on;
  params = [];
  status = pending;
}

abbrev pub steps : List PlanStep
steps =
    step 5 "stealth" "pace" 5 []
    ∷ step 6 "discovery" "scan" 10 []
    ∷ step 9 "dns_enum" "run" 12 (5 ∷ 6 ∷ 7 ∷ 8 ∷ [])
    ∷ step 7 "asset" "discover" 15 (5 ∷ 6 ∷ [])
    ∷ step 8 "recon" "fingerprint" 20 (5 ∷ 6 ∷ 7 ∷ [])
    ∷ step 10 "collector" "collect" 40 (5 ∷ 6 ∷ 7 ∷ 8 ∷ 9 ∷ [])
    ∷ []

pub planned : (plan planner intelligence target).0 ≡ some steps
unfolding plan
planned = refl

-- The first wave holds the pacing step and the first network step together.
abbrev waves : List (List PlanStep)
waves =
    (step 5 "stealth" "pace" 5 [] ∷ step 6 "discovery" "scan" 10 [] ∷ [])
    ∷ (step 7 "asset" "discover" 15 (5 ∷ 6 ∷ []) ∷ [])
    ∷ (step 8 "recon" "fingerprint" 20 (5 ∷ 6 ∷ 7 ∷ []) ∷ [])
    ∷ (step 9 "dns_enum" "run" 12 (5 ∷ 6 ∷ 7 ∷ 8 ∷ []) ∷ [])
    ∷ (step 10 "collector" "collect" 40 (5 ∷ 6 ∷ 7 ∷ 8 ∷ 9 ∷ []) ∷ [])
    ∷ []

scheduled : schedule 2 steps ≡ some waves
unfolding schedule sort_by
scheduled = refl

abbrev steps-Distinct : Distinct steps
steps-Distinct = (plan-IsPlan planner intelligence target steps planned).distinct

abbrev steps-DependsBelow : DependsBelow steps
steps-DependsBelow = (plan-IsPlan planner intelligence target steps planned).below

schedule-plan_example :
    (found : List (List PlanStep)) × (schedule 2 steps ≡ some found)
    × Permᴰ (concat found) steps
    × All (IsWave 2) found
    × InOrder [] found
schedule-plan_example = schedule-plan planner intelligence target steps (omega arith) planned

plan-IsPlan_example : IsPlan planner steps (plan planner intelligence target).1
plan-IsPlan_example = plan-IsPlan planner intelligence target steps planned

plan-none_iff_example :
    ((plan planner (blank_item ∷ []) target).0 ≡ none) ↔ (any nameless (blank_item ∷ []) ≡ true)
plan-none_iff_example = plan-none_iff planner (blank_item ∷ []) target

-- Two steps that wait for one another: the deadlock is broken at the lowest id.
abbrev knot : List PlanStep
knot = step 1 "recon" "a" 10 (2 ∷ []) ∷ step 2 "recon" "b" 10 (1 ∷ []) ∷ []

schedule-knot :
    schedule 8 knot
    ≡ some ((step 1 "recon" "a" 10 (2 ∷ []) ∷ []) ∷ (step 2 "recon" "b" 10 (1 ∷ []) ∷ []) ∷ [])
unfolding schedule sort_by
schedule-knot = refl

schedule_total_example :
    (found : List (List PlanStep)) × (schedule 8 knot ≡ some found)
    × Permᴰ (concat found) (by_id knot)
    × All (IsWave 8) found
schedule_total_example = schedule_total 8 knot (omega arith)

schedule-InOrder_example : InOrder [] waves
schedule-InOrder_example =
    schedule-InOrder 2 steps waves steps-Distinct steps-DependsBelow scheduled

schedule_loop-zero_example : schedule_loop 0 9 [] knot ≡ none
schedule_loop-zero_example =
    schedule_loop-zero 9 [] (step 1 "recon" "a" 10 (2 ∷ [])) (step 2 "recon" "b" 10 (1 ∷ []) ∷ [])

-- A codec that knows the plan above.
abbrev pub small_codec : StepCodec
small_codec = record { dumps = λ ds. codes "[]"; loads = λ s. some (map step_to_dict steps) }

from_json-to_json_example : from_json small_codec (to_json small_codec steps) ≡ inr steps
from_json-to_json_example = from_json-to_json small_codec steps refl

-- The second step has no action.
abbrev bad_codec : StepCodec
bad_codec = record {
  dumps = λ ds. [];
  loads = λ s. some (
      step_to_dict (step 1 "recon" "a" 10 [])
      ∷ record (step_to_dict (step 2 "recon" "b" 10 [])) { action = none }
      ∷ []);
}

missing_action : from_json bad_codec [] ≡ inl (missing "action")
unfolding from_json step_to_dict
missing_action = refl
