-- ===== src/Campaign/Run.antt =====
-- `run_campaign` of core/orchestrator.py: from the check of the target to the last event.
use helios_net.Prelude.{ℕ, String, ◌⊎◌, inl, inr, length, Option, none, some, List, [], ◌∷◌}
use helios_net.Prelude.Text.{Text}
use helios_net.Planner.Steps.{PlanStep, Item, Planner}
use helios_net.Planner.Plan.{plan}
use helios_net.Planner.Json.{StepCodec, to_json}
use helios_net.Planner.Schedule.{schedule}
use helios_net.Scope.{IpAddress, ScopeEnforcer, ScopeError, strip, check}
use helios_net.Campaign.{
  Meta, CampaignState, transition, campaign_start, plan_built, campaign_done, Context, World,
  Runner, log_event, execute_waves,
}
use helios_net.Campaign.Authorize.{
  Failure, bad_scope, bad_target, bad_status, no_module, no_end, authorize_steps,
}

-- The orchestrator, and what a run takes from outside: the order in which the steps of a wave
-- complete, `json`, the part of `meta` that `_finalize_graph` adds, the clock at its
-- n-th reading, the id that `uuid4` draws, and the empty dictionary.
pub record Orchestrator (Address Network M F R : Type 0) : Type 0 where
  pub ip : IpAddress Address Network
  pub scope : ScopeEnforcer Network
  pub registry : String → Option (Runner F R)
  pub order : List PlanStep → List PlanStep
  pub json : StepCodec
  pub finalize_graph : Context F R → M
  pub clock : ℕ → ℕ
  pub new_id : Text
  pub no_meta : M

-- How a run ends: what it returns or raises, the state that the store then holds, and the steps as
-- they were left.
pub record Ended (M F R : Type 0) : Type 0 where
  pub result : Failure ⊎ CampaignState M
  pub saved : Option (CampaignState M)
  pub world : World F R
  pub steps : List PlanStep
  pub planner : Planner

module _ {Address Network M F R : Type 0} (o : Orchestrator Address Network M F R) where
  -- `CampaignState` of a stripped target
  unfoldable pub blank_state : Text → CampaignState M
  blank_state target = record {
    campaign_id = o.new_id;
    target = target;
    status = "idle";
    meta = record {
      given = o.no_meta;
      findings_count = none;
      report_count = none;
      plan = none;
      graph = none;
    };
    created_at = o.clock 0;
    updated_at = o.clock 0;
    completed_at = none;
  }

  unfoldable pub state_of : Text → Option (CampaignState M)
  unfolding blank_state
  state_of [] = none
  state_of (c ∷ s) = some (blank_state (c ∷ s))

  -- `CampaignState(target=target)`
  unfoldable pub new_state : Text → Option (CampaignState M)
  unfolding state_of
  new_state target = state_of (strip target)

  -- A run that raises.
  abbrev pub stop :
      Failure → Option (CampaignState M) → World F R → List PlanStep → Planner → Ended M F R
  stop failure saved w steps p = record {
    result = inl failure;
    saved = saved;
    world = w;
    steps = steps;
    planner = p;
  }

  -- After the waves, with the state that `transition("done")` gives: the counts and the last event.
  unfoldable pub finish :
      Option (CampaignState M)
      → CampaignState M
      → List PlanStep
      → Text
      → World F R
      → Planner
      → Ended M F R
  unfolding log_event
  finish none state steps plan_hash w p = stop bad_status (some state) w steps p
  finish (some s) state steps plan_hash w p =
      let meta : Meta M = record s.meta {
        findings_count = some (length w.context.findings);
        report_count = some (length w.context.reports);
        plan = some plan_hash;
        graph = some (o.finalize_graph w.context);
      } in
      let ended : CampaignState M = record s { meta = meta } in
      record {
        result = inr ended;
        saved = some ended;
        world = log_event campaign_done w;
        steps = steps;
        planner = p;
      }

  -- The world in which the first wave starts.
  unfoldable pub before_waves : List PlanStep → World F R → World F R
  unfolding log_event
  before_waves steps w =
      log_event plan_built (record w { context = record w.context { plan = steps } })

  -- From `transition("scanning")` on; nothing that follows raises.
  unfoldable pub run_waves :
      Option (CampaignState M)
      → CampaignState M
      → List PlanStep
      → List (List PlanStep)
      → World F R
      → Planner
      → Ended M F R
  unfolding before_waves finish
  run_waves none state steps waves w p = stop bad_status (some state) w steps p
  run_waves (some s) state steps waves w p =
      let (ran, w') = execute_waves o.registry o.order waves (before_waves steps w) in
      finish (transition "done" (o.clock 3) s) s ran (to_json o.json steps) w' p

  unfoldable pub run_scheduled :
      CampaignState M
      → List PlanStep
      → Option (List (List PlanStep))
      → World F R
      → Planner
      → Ended M F R
  unfolding run_waves
  run_scheduled state steps none w p = stop no_end (some state) w steps p
  run_scheduled state steps (some waves) w p =
      run_waves (transition "scanning" (o.clock 2) state) state steps waves w p

  unfoldable pub run_authorized :
      CampaignState M → List PlanStep → Option Failure → World F R → Planner → Ended M F R
  unfolding run_scheduled
  run_authorized state steps (some failure) w p = stop failure (some state) w steps p
  run_authorized state steps none w p =
      run_scheduled state steps (schedule p.max_concurrency steps) w p

  unfoldable pub run_plan :
      CampaignState M → Option (List PlanStep) × Planner → World F R → Ended M F R
  unfolding run_authorized
  run_plan state (none, p) w = stop no_module (some state) w [] p
  run_plan state (some steps, p) w =
      run_authorized state steps (authorize_steps o.ip o.scope steps) w p

  -- From `transition("planning")` on
  unfoldable pub run_planning :
      Option (CampaignState M) → Text → List Item → Planner → World F R → Ended M F R
  unfolding run_plan log_event
  run_planning none target intelligence p w = stop bad_status none w [] p
  run_planning (some s) target intelligence p w =
      run_plan s (plan p intelligence target) (log_event campaign_start w)

  unfoldable pub run_state :
      Option (CampaignState M) → Text → List Item → Planner → World F R → Ended M F R
  unfolding run_planning
  run_state none target intelligence p w = stop bad_target none w [] p
  run_state (some state) target intelligence p w =
      run_planning (transition "planning" (o.clock 1) state) target intelligence p w

  unfoldable pub run_checked :
      Option ScopeError → Text → List Item → Planner → World F R → Ended M F R
  unfolding run_state
  run_checked (some err) target intelligence p w = stop (bad_scope err) none w [] p
  run_checked none target intelligence p w = run_state (new_state target) target intelligence p w

  unfoldable pub run_campaign : Text → List Item → Planner → World F R → Ended M F R
  unfolding run_checked
  run_campaign target intelligence p w =
      run_checked (check o.ip o.scope target) target intelligence p w
