-- ===== src/Planner/Run.antt =====
-- `plan` and `schedule` together, as `Orchestrator.run_campaign` calls them.
use helios_net.Prelude.{
  ℕ, zero, suc, ◌<◌, ◌≡◌, refl, subst, none, some, List, [], ◌∷◌, Permᴰ, All, concat, arith,
}
use helios_net.Prelude.Text.{Text}
use helios_net.Planner.Steps.{PlanStep, Item, Planner}
use helios_net.Planner.Plan.{plan}
use helios_net.Planner.Plan.Whole.{plan-IsPlan}
use helios_net.Planner.Schedule.{next_wave, remove_all, mark_done, schedule_loop, schedule}
use helios_net.Planner.Schedule.Total.{IsWave, schedule_total, by_id-Distinct}
use helios_net.Planner.Schedule.Order.{InOrder, schedule-InOrder}

-- A plan is scheduled into waves of one to `max_concurrency` steps, which hold each of its steps
-- once, each in a wave after those of its dependencies.
pub schedule-plan :
    (p : Planner) (intelligence : List Item) (target : Text) (steps : List PlanStep)
    → 0 < p.max_concurrency
    → (plan p intelligence target).0 ≡ some steps
    → (waves : List (List PlanStep)) × (schedule p.max_concurrency steps ≡ some waves)
      × Permᴰ (concat waves) steps
      × All (IsWave p.max_concurrency) waves
      × InOrder [] waves
schedule-plan p intelligence target steps h planned =
    let made = plan-IsPlan p intelligence target steps planned in
    let (waves, e, perm, sized) = schedule_total p.max_concurrency steps h in
    (
      waves,
      e,
      subst (Permᴰ (concat waves)) (by_id-Distinct steps made.distinct) perm,
      sized,
      schedule-InOrder p.max_concurrency steps waves made.distinct made.below e,
    )

-- With `max_concurrency` 0 the loop of `schedule` does not end, whatever the steps and the rounds.
pub schedule_loop-zero :
    (fuel : ℕ) (done : List ℕ) (s : PlanStep) (rest : List PlanStep)
    → schedule_loop 0 fuel done (s ∷ rest) ≡ none
unfolding schedule_loop next_wave remove_all mark_done
schedule_loop-zero zero done s rest = refl
schedule_loop-zero (suc fuel) done s rest = ground (arith, schedule_loop-zero fuel done s rest)
