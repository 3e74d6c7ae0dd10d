-- ===== src/Planner/Plan/Whole.antt =====
-- What `Planner.plan` of core/planner.py promises of its steps, put together.
use helios_net.Prelude.{◌+◌, ◌≡◌, ◌⊎◌, some, List, In, length}
use helios_net.Prelude.Text.{Text}
use helios_net.Prelude.Sort.{IsSorted}
use helios_net.Planner.Steps.{PlanStep, Item, Planner}
use helios_net.Planner.Plan.{le_key, plan}
use helios_net.Planner.Plan.Result.{plan-DependsBelow, plan-IsSorted, plan-max_concurrency}
use helios_net.Planner.Plan.Collector.{plan_collector}
use helios_net.Planner.Schedule.Remaining.{Distinct}
use helios_net.Planner.Schedule.Order.{DependsBelow}

-- The steps of a plan, and the planner after it against the planner before it
pub record IsPlan (p : Planner) (steps : List PlanStep) (after : Planner) : Type 0 where
  pub distinct : Distinct steps
  pub below : DependsBelow steps
  pub sorted : IsSorted le_key steps
  pub collected :
      (c : PlanStep) × In c steps
      × (c.module_name ≡ "collector")
      × ((t : PlanStep) → In t steps → (t ≡ c) ⊎ In t.step_id c.depends_on)
  pub counted : after.step_counter ≡ p.step_counter + length steps
  pub same_limit : after.max_concurrency ≡ p.max_concurrency

-- The steps of a returned plan have distinct ids, depend only on steps of the plan with lower ids, and
-- are ordered by priority and by id among equal priorities; one of them is of the module collector and
-- depends on each other step. The step counter moves up by their number, and max_concurrency stays.
pub plan-IsPlan :
    (p : Planner) (intelligence : List Item) (target : Text) (steps : List PlanStep)
    → (plan p intelligence target).0 ≡ some steps
    → IsPlan p steps (plan p intelligence target).1
plan-IsPlan p intelligence target steps h =
    let (distinct, below, counted) = plan-DependsBelow p intelligence target steps h in
    record {
      distinct = distinct;
      below = below;
      sorted = plan-IsSorted p intelligence target steps h;
      collected = plan_collector p intelligence target steps h;
      counted = counted;
      same_limit = plan-max_concurrency p intelligence target;
    }
