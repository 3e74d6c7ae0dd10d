-- ===== src/Campaign/Completion.antt =====
-- A campaign that may run ends: its state is `done`, and each step has been run once.
use helios_net.Prelude.{
  ℕ, String, ◌<◌, ◌≡◌, ◌≢◌, refl, sym, ap, subst, ◌∙◌, inl, inr, true, Option, none, some, List, [],
  ◌∷◌, ◌++◌, concat, append-nil, Permᴰ, arith,
}
use helios_net.Prelude.Text.{Text}
use helios_net.Planner.Plan.Result.{plan-max_concurrency}
use helios_net.Planner.Steps.{PlanStep, Item, Planner}
use helios_net.Planner.Plan.{plan}
use helios_net.Planner.Schedule.{schedule}
use helios_net.Planner.Schedule.Order.{InOrder}
use helios_net.Planner.Run.{schedule-plan}
use helios_net.Scope.{strip, normalise, is_target_allowed, check, rstrip_dots}
use helios_net.Scope.Targets.{is_target_allowed_iff}
use helios_net.Prelude.Text.{drop_while_end, lower}
use helios_net.Campaign.{CampaignState, transition, World, log_event, campaign_start}
use helios_net.Campaign.Waves.{
  starts, starts-log_event, starts_of, Ran, in_order, execute_waves-Ran,
}
use helios_net.Campaign.Authorize.{Failure, authorize_steps}
use helios_net.Campaign.Safety.{starts-run_waves}
use helios_net.Campaign.Run.{
  Orchestrator, Ended, new_state, state_of, blank_state, finish, before_waves, run_waves,
  run_scheduled, run_authorized, run_plan, run_planning, run_state, run_checked, run_campaign,
}

module _ {Address Network M F R : Type 0} (o : Orchestrator Address Network M F R) where
  -- The campaign is done and saved as it is returned; the waves that ran hold each step of the plan
  -- once, behind its dependencies; the log tells the starts in the order of the waves, and each step
  -- with a runner is left done or failed.
  pub record Completed (w : World F R) (steps : List PlanStep) (ended : Ended M F R) : Type 0 where
    pub state : CampaignState M
    pub waves : List (List PlanStep)
    pub returned : ended.result ≡ inr state
    pub saved : ended.saved ≡ some state
    pub status : state.status ≡ "done"
    pub whole : Permᴰ (concat waves) steps
    pub ordered : InOrder [] waves
    pub left : Ran o.registry (in_order o.order waves) ended.steps
    pub started :
        starts ended.world.log ≡ starts w.log ++ starts_of o.registry (in_order o.order waves)

  -- `transition` on its way through a campaign
  abbrev moved : String → ℕ → Option ℕ → CampaignState M → CampaignState M
  moved status now completed state = record state {
    status = status;
    updated_at = now;
    completed_at = completed;
  }

  planning→scanning :
      (state : CampaignState M)
      → transition "scanning" (o.clock 2) (record state { status = "planning" })
        ≡ some (moved "scanning" (o.clock 2) state.completed_at state)
  unfolding transition
  planning→scanning state = refl

  scanning→done :
      (state : CampaignState M)
      → transition "done" (o.clock 3) (record state { status = "scanning" })
        ≡ some (moved "done" (o.clock 3) (some (o.clock 3)) state)
  unfolding transition
  scanning→done state = refl

  idle→planning :
      (state : CampaignState M)
      → transition "planning" (o.clock 1) (record state { status = "idle" })
        ≡ some (moved "planning" (o.clock 1) state.completed_at state)
  unfolding transition
  idle→planning state = refl

  run_waves-Completed :
      (base state : CampaignState M) (steps : List PlanStep) (waves : List (List PlanStep))
      → (before w : World F R) (p : Planner) → starts w.log ≡ starts before.log
      → Permᴰ (concat waves) steps
      → InOrder [] waves
      → Completed before steps
          (run_waves o (some (record base { status = "scanning" })) state steps waves w p)
  unfolding run_waves finish transition
  run_waves-Completed base state steps waves before w p same whole ordered = record {
    state = _;
    waves = waves;
    returned = refl;
    saved = refl;
    status = refl;
    whole = whole;
    ordered = ordered;
    left = execute_waves-Ran o.registry o.order waves (before_waves o steps w);
    started =
        starts-run_waves o (record base { status = "scanning" }) state steps waves w p
        ∙ ap (λ r. r ++ starts_of o.registry (in_order o.order waves)) same;
  }

  check-none :
      (target : Text)
      → is_target_allowed o.ip o.scope target ≡ true
      → check o.ip o.scope target ≡ none
  unfolding check
  check-none target h = ground arith

  allowed-strip : (target : Text) → is_target_allowed o.ip o.scope target ≡ true → strip target ≢ []
  unfolding normalise rstrip_dots drop_while_end
  allowed-strip target h e =
      ((is_target_allowed_iff o.ip o.scope target).0 h).0 (ap (λ s. rstrip_dots (lower s)) e)

  state_of-some :
      (s : Text) → s ≢ [] → state_of o s ≡ some (record (blank_state o s) { status = "idle" })
  unfolding state_of blank_state
  state_of-some [] n = absurd (n refl)
  state_of-some (c ∷ s) n = refl

  -- A run up to the check of the steps, where the target is allowed and there is a plan.
  planned_state : Text → CampaignState M
  planned_state target =
      let base = blank_state o (strip target) in moved "planning" (o.clock 1) base.completed_at base

  run-authorized :
      (target : Text) (intelligence : List Item) (p : Planner) (w : World F R)
      → (steps : List PlanStep) → is_target_allowed o.ip o.scope target ≡ true
      → (plan p intelligence target).0 ≡ some steps
      → run_campaign o target intelligence p w
        ≡ run_authorized o
            (planned_state target)
            steps
            (authorize_steps o.ip o.scope steps)
            (log_event campaign_start w)
            (plan p intelligence target).1
  unfolding run_campaign run_checked run_state run_planning run_plan new_state planned_state
  run-authorized target intelligence p w steps allowed planned =
      ap (λ r. run_checked o r target intelligence p w) (check-none target allowed)
      ∙ ap (λ n. run_state o n target intelligence p w)
          (state_of-some (strip target) (allowed-strip target allowed))
      ∙ ap (λ n. run_planning o n target intelligence p w)
          (idle→planning (blank_state o (strip target)))
      ∙ ap
          (λ q.
            run_plan o (planned_state target) (q, (plan p intelligence target).1)
              (log_event campaign_start w))
          planned

  -- A campaign whose target and steps are authorized, with at least one worker, returns, whatever its
  -- runners do: its state is `done` and saved as it is returned; the waves that ran hold each step of
  -- the plan once, behind its dependencies; the log tells the starts in their order; and the steps
  -- with a runner are left done or failed, the others as they were.
  pub run_campaign-Completed :
      (target : Text) (intelligence : List Item) (p : Planner) (w : World F R)
      → (steps : List PlanStep) → 0 < p.max_concurrency
      → is_target_allowed o.ip o.scope target ≡ true
      → (plan p intelligence target).0 ≡ some steps
      → authorize_steps o.ip o.scope steps ≡ none
      → Completed w steps (run_campaign o target intelligence p w)
  unfolding run_authorized run_scheduled planned_state
  run_campaign-Completed target intelligence p w steps workers allowed planned authorized =
      let (waves, e, whole, _, ordered) =
        schedule-plan p intelligence target steps workers planned in
      let p' = (plan p intelligence target).1 in
      let w' = log_event campaign_start w in
      let s = planned_state target in
      let path : run_campaign o target intelligence p w
          ≡ run_waves o (some (record s { status = "scanning"; updated_at = o.clock 2 })) s steps
              waves w' p' =
        run-authorized target intelligence p w steps allowed planned
        ∙ ap (λ f. run_authorized o s steps f w' p') authorized
        ∙ ap (λ v. run_scheduled o s steps v w' p')
            (ap (λ n. schedule n steps) (plan-max_concurrency p intelligence target) ∙ e)
        ∙ ap (λ n. run_waves o n s steps waves w' p') (planning→scanning s) in
      subst (Completed w steps) (sym path) (
        run_waves-Completed (record s { updated_at = o.clock 2 }) s steps waves w w' p'
          (starts-log_event campaign_start w ∙ append-nil (starts w.log)) whole ordered)

  -- Where a step of the plan is not authorized, the campaign raises that failure before any step has
  -- started, and the store keeps the campaign with the status `planning`.
  pub run_campaign-refused :
      (target : Text) (intelligence : List Item) (p : Planner) (w : World F R)
      → (steps : List PlanStep) (failure : Failure) → is_target_allowed o.ip o.scope target ≡ true
      → (plan p intelligence target).0 ≡ some steps
      → authorize_steps o.ip o.scope steps ≡ some failure
      → let ended = run_campaign o target intelligence p w in
        (state : CampaignState M) × (ended.result ≡ inl failure)
        × (ended.saved ≡ some state)
        × (state.status ≡ "planning")
        × (ended.steps ≡ steps)
        × (starts ended.world.log ≡ starts w.log)
  unfolding run_authorized planned_state
  run_campaign-refused target intelligence p w steps failure allowed planned refused =
      let s = planned_state target in
      let path =
        run-authorized target intelligence p w steps allowed planned
        ∙ ap
            (λ f.
              run_authorized o s steps f (log_event campaign_start w)
                (plan p intelligence target).1)
            refused in
      (
        s,
        ap (λ r. r.result) path,
        ap (λ r. r.saved) path,
        refl,
        ap (λ r. r.steps) path,
        ap (λ r. starts r.world.log) path
            ∙ starts-log_event campaign_start w
            ∙ append-nil (starts w.log),
      )
