-- ===== src/Campaign.antt =====
-- The life of a campaign: `CampaignState` of core/state.py, and `Orchestrator.run_campaign` of
-- core/orchestrator.py with what it calls.
pub mod State
pub mod Store
pub mod Waves
pub mod Authorize
pub mod Run
pub mod Allowed
pub mod Safety
pub mod Completion
pub mod Samples
use mathlib.Core.List.{foldl}
use package.text.Mathlib.Text.{◌==◌ as str_eq}
use helios_net.Prelude.{
  ℕ, String, Bool, true, false, not, ◌&&◌, ◌||◌, if◌then◌else◌, leb, ◌==◌, ◌-◌, Option, none, some,
  List, [], ◌∷◌, ◌++◌, length, any,
}
use helios_net.Prelude.Int.{ℤ, pos, eqb_ℤ}
use helios_net.Prelude.Text.{Text, codes}
use helios_net.Planner.Steps.{
  Param, flag, number, text, numbers, Params, PlanStep, Status, running, done, failed, Item,
  Planner,
}
use helios_net.Planner.Plan.{plan}
use helios_net.Planner.Schedule.{schedule}
use helios_net.Scope.{IpAddress, ScopeEnforcer, ScopeError, strip, check, check_ports}

-- `STATUS_CHOICES`
abbrev pub status_choices : List String
status_choices =
    "idle" ∷ "planning" ∷ "scanning" ∷ "analyzing" ∷ "executing" ∷ "done" ∷ "failed" ∷ "aborted"
    ∷ []

-- What `meta` holds: the caller's entries, and those that a finished campaign adds.
pub record Meta (M : Type 0) : Type 0 where
  pub given : M
  pub findings_count : Option ℕ
  pub report_count : Option ℕ
  pub plan : Option Text
  pub graph : Option M

-- The times are those of `time.time()`, whose values the code only copies.
pub record CampaignState (M : Type 0) : Type 0 where
  pub campaign_id : Text
  pub target : Text
  pub status : String
  pub meta : Meta M
  pub created_at : ℕ
  pub updated_at : ℕ
  pub completed_at : Option ℕ

module _ {M : Type 0} where
  -- `transition` at the time `now`; `none` is the `ValueError` of an unknown status.
  unfoldable pub transition : String → ℕ → CampaignState M → Option (CampaignState M)
  transition new_status now state =
      if not (any (str_eq new_status) status_choices)
      then none
      else if str_eq new_status state.status
      then some state
      else some (record state {
        status = new_status;
        updated_at = now;
        completed_at =
            if str_eq new_status "done" || str_eq new_status "failed" || str_eq new_status "aborted"
            then some now
            else state.completed_at;
      })

-- What the store logs, with the names that the events carry.
pub data Event : Type 0 where
  campaign_start plan_built campaign_done : Event
  module_missing : String → Event
  step_start step_done step_failed : ℕ → Event

-- What a runner does: it returns a finding or none, or raises.
pub data Outcome (R : Type 0) : Type 0 where
  returned : Option R → Outcome R
  raised : Outcome R

-- `self._context`, of which `findings` and `reports` are read again.
pub record Context (F R : Type 0) : Type 0 where
  pub findings : List F
  pub reports : List R
  pub plan : List PlanStep

-- The store and the context while the steps run.
pub record World (F R : Type 0) : Type 0 where
  pub log : List Event
  pub context : Context F R

module _ {F R : Type 0} where
  unfoldable pub log_event : Event → World F R → World F R
  log_event event w = record w { log = w.log ++ event ∷ [] }

  -- `if result: self._context.setdefault("reports", []).append(result)`
  unfoldable pub add_report : Option R → World F R → World F R
  add_report none w = w
  add_report (some r) w = record w {
    context = record w.context { reports = w.context.reports ++ r ∷ [] };
  }

abbrev pub Runner : Type 0 → Type 0 → Type 0
Runner F R = PlanStep → Context F R → Outcome R × Context F R

module _ {F R : Type 0} where
  -- What follows the call of the runner in `_safe_run`.
  unfoldable pub finish_step :
      PlanStep → World F R → Outcome R × Context F R → Option R × PlanStep × World F R
  unfolding log_event
  finish_step step w (returned result, context) = (
    result,
    record step { status = done },
    log_event (step_done step.step_id) (record w { context = context }),
  )
  finish_step step w (raised, context) = (
    none,
    record step { status = failed },
    log_event (step_failed step.step_id) (record w { context = context }),
  )

  -- `_safe_run` with what it finds in the registry
  unfoldable pub run_found :
      Option (Runner F R) → PlanStep → World F R → Option R × PlanStep × World F R
  unfolding log_event
  run_found none step w = (none, step, log_event (module_missing step.module_name) w)
  run_found (some runner) step w =
      let started : PlanStep = record step { status = running } in
      let w' = log_event (step_start step.step_id) w in
      finish_step started w' (runner started w'.context)

module _ {F R : Type 0} (registry : String → Option (Runner F R)) where
  -- `_safe_run`, with the step as it leaves it.
  unfoldable pub safe_run : PlanStep → World F R → Option R × PlanStep × World F R
  safe_run step w = run_found (registry step.module_name) step w

  -- `_run_wave`, with the steps in the order in which they complete, each run whole.
  unfoldable pub run_wave : List PlanStep → World F R → List PlanStep × World F R
  unfolding add_report
  run_wave [] w = ([], w)
  run_wave (step ∷ wave) w =
      let (result, ran, w') = safe_run step w in
      let (rest, w'') = run_wave wave (add_report result w') in (ran ∷ rest, w'')

  -- `_execute_waves`; no runner can abort the campaign, whose state it does not hold.
  unfoldable pub execute_waves :
      (List PlanStep → List PlanStep) → List (List PlanStep) → World F R → List PlanStep × World F R
  execute_waves order [] w = ([], w)
  execute_waves order (wave ∷ waves) w =
      let (ran, w') = run_wave (order wave) w in
      let (rest, w'') = execute_waves order waves w' in (ran ++ rest, w'')
