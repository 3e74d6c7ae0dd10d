-- ===== src/Campaign/Safety.antt =====
-- What a whole campaign may touch, and that it ends.
use mathlib.Core.List.Permᴰ
use helios_net.Prelude.{
  ℕ, ◌≡◌, refl, sym, ap, subst, ◌∙◌, ◌⊎◌, inl, inr, Option, none, some, List, [], ◌∷◌, ◌++◌,
  append-nil, Permᴰ, All, All-In, All-of_In, In, arith,
}
use helios_net.Prelude.Text.{Text}
use helios_net.Planner.Steps.{PlanStep, Item, Planner}
use helios_net.Planner.Plan.{plan, ids}
use helios_net.Planner.Plan.Collector.{In-ids_intro}
use helios_net.Planner.Schedule.{schedule}
use helios_net.Planner.Schedule.Total.{schedule_total}
use helios_net.Scope.{ScopeError, check}
use helios_net.Planner.Json.{to_json}
use helios_net.Campaign.{CampaignState, World, log_event, plan_built, campaign_start, execute_waves}
use helios_net.Campaign.Waves.{
  starts, starts_of, starts_of-In, in_order, in_order-perm, starts-execute_waves,
}
use helios_net.Campaign.Authorize.{Failure, authorize_steps}
use helios_net.Campaign.Run.{
  Orchestrator, Ended, finish, before_waves, run_waves, run_scheduled, run_authorized, run_plan,
  run_planning, run_state, run_checked, run_campaign, new_state,
}
use helios_net.Campaign.Waves.{starts-log_event, starts-append}
use helios_net.Campaign.Run.{new_state}
use helios_net.Campaign.{transition, plan_built, campaign_start, log_event}
use helios_net.Planner.Schedule.{by_id, schedule_loop}
use helios_net.Planner.Schedule.Total.{All-by_id}
use helios_net.Planner.Run.{schedule_loop-zero}
use helios_net.Campaign.Allowed.{IsAuthorized, authorize_steps-All}
use helios_net.Prelude.{zero, suc, length, All-perm}

some_eq : {A : Type 0} {a b : A} → some a ≡ some b → a ≡ b
some_eq h = cc h

none_not_some : {A : Type 0} {a : A} → ¬ (none ≡ some a)
none_not_some h = ground arith

module _ {Address Network M F R : Type 0} (o : Orchestrator Address Network M F R) where
  -- The completion order of each wave holds its steps once.
  abbrev pub IsOrder : Type 0
  IsOrder = (wave : List PlanStep) → Permᴰ (o.order wave) wave

  -- Nothing is started, or steps of a plan that is authorized as a whole.
  abbrev pub StartsOnly : Option (List PlanStep) → List ℕ → Type 0
  StartsOnly planned started =
      (started ≡ [])
      ⊎ ((steps : List PlanStep) × (planned ≡ some steps)
          × All (IsAuthorized o.ip o.scope) steps
          × All (λ i. In i (ids steps)) started)

  -- The log of the run goes on from the log before it with such starts.
  abbrev pub Safe : Option (List PlanStep) → World F R → Ended M F R → Type 0
  Safe planned w ended =
      (started : List ℕ) × (starts ended.world.log ≡ starts w.log ++ started)
      × StartsOnly planned started

  nothing_started :
      (planned : Option (List PlanStep)) (w : World F R)
      → (started : List ℕ) × (starts w.log ≡ starts w.log ++ started) × StartsOnly planned started
  nothing_started planned w = ([], sym (append-nil (starts w.log)), inl refl)

  starts-finish :
      (next : Option (CampaignState M)) (state : CampaignState M) (steps : List PlanStep)
      → (hash : Text) (w : World F R) (p : Planner)
      → starts (finish o next state steps hash w p).world.log ≡ starts w.log
  unfolding finish
  starts-finish none state steps hash w p = refl
  starts-finish (some s) state steps hash w p = starts-log_event _ w ∙ append-nil (starts w.log)

  pub starts-before_waves :
      (steps : List PlanStep) (w : World F R) → starts (before_waves o steps w).log ≡ starts w.log
  unfolding before_waves log_event
  starts-before_waves steps w = starts-append w.log (plan_built ∷ []) ∙ append-nil (starts w.log)

  starts-waves :
      (steps : List PlanStep) (waves : List (List PlanStep)) (w : World F R)
      → starts (execute_waves o.registry o.order waves (before_waves o steps w)).1.log
        ≡ starts w.log ++ starts_of o.registry (in_order o.order waves)
  unfolding before_waves
  starts-waves steps waves w =
      starts-execute_waves o.registry o.order waves (before_waves o steps w)
      ∙ ap (λ r. r ++ starts_of o.registry (in_order o.order waves)) (starts-before_waves steps w)

  pub starts-run_waves :
      (s state : CampaignState M) (steps : List PlanStep) (waves : List (List PlanStep))
      → (w : World F R) (p : Planner)
      → starts (run_waves o (some s) state steps waves w p).world.log
        ≡ starts w.log ++ starts_of o.registry (in_order o.order waves)
  unfolding run_waves
  starts-run_waves s state steps waves w p =
      let done_state = transition "done" (o.clock 3) s in
      let (ran, w') : List PlanStep × World F R =
        execute_waves o.registry o.order waves (before_waves o steps w) in
      starts-finish done_state s ran (to_json o.json steps) w' p ∙ starts-waves steps waves w

  -- What is started in waves of steps that have a property has it.
  starts_of-All :
      (P : ℕ → Type 0) (steps : List PlanStep)
      → All (λ s. P s.step_id) steps
      → All P (starts_of o.registry steps)
  starts_of-All P steps h = All-of_In P (starts_of o.registry steps) (λ i k.
      let (step, j, e) = starts_of-In o.registry i steps k in
      subst P (sym e) (All-In (λ s. P s.step_id) step steps h j))

  run_waves-Safe :
      (next : Option (CampaignState M)) (state : CampaignState M) (steps : List PlanStep)
      → (waves : List (List PlanStep)) (w : World F R) (p : Planner)
      → All (IsAuthorized o.ip o.scope) steps
      → All (λ s. In s.step_id (ids steps)) (in_order o.order waves)
      → Safe (some steps) w (run_waves o next state steps waves w p)
  unfolding run_waves
  run_waves-Safe none state steps waves w p ok named = nothing_started (some steps) w
  run_waves-Safe (some s) state steps waves w p ok named = (
    starts_of o.registry (in_order o.order waves),
    starts-run_waves s state steps waves w p,
    inr (steps, refl, ok, starts_of-All (λ i. In i (ids steps)) _ named),
  )

  -- A schedule has no other step in it than it was made of, in whatever order they complete.
  schedule-All :
      (P : PlanStep → Type 0)
      → IsOrder
      → (n : ℕ) (steps : List PlanStep) → All P steps
      → (waves : List (List PlanStep)) → schedule n steps ≡ some waves
      → All P (in_order o.order waves)
  unfolding schedule
  schedule-All P order zero steps ok waves h = none_left (by_id steps) h
    where
      none_left :
          (remaining : List PlanStep)
          → schedule_loop 0 (length remaining) [] remaining ≡ some waves
          → All P (in_order o.order waves)
      none_left [] e = subst (λ v. All P (in_order o.order v)) (some_eq e) tt
      none_left (s ∷ rest) e =
          absurd (none_not_some (sym (schedule_loop-zero (length (s ∷ rest)) [] s rest) ∙ e))
  schedule-All P order (suc n) steps ok waves h =
      let (given, e, perm, _) = schedule_total (suc n) steps (omega arith) in
      let same : given ≡ waves = some_eq (sym e ∙ h) in
      subst (λ v. All P (in_order o.order v)) same
        (All-perm P (Permᴰ.symm (Permᴰ.trans (in_order-perm o.order order given) perm))
          (All-by_id P steps ok))

  run_scheduled-Safe :
      IsOrder
      → (state : CampaignState M) (steps : List PlanStep) (n : ℕ)
      → (scheduled : Option (List (List PlanStep))) (w : World F R) (p : Planner)
      → schedule n steps ≡ scheduled
      → All (IsAuthorized o.ip o.scope) steps
      → Safe (some steps) w (run_scheduled o state steps scheduled w p)
  unfolding run_scheduled
  run_scheduled-Safe order state steps n none w p e ok = nothing_started (some steps) w
  run_scheduled-Safe order state steps n (some waves) w p e ok =
      run_waves-Safe _ state steps waves w p ok (
        schedule-All (λ s. In s.step_id (ids steps)) order n steps
          (All-of_In (λ s. In s.step_id (ids steps)) steps (λ s i. In-ids_intro s steps i)) waves e)

  run_authorized-Safe :
      IsOrder
      → (state : CampaignState M) (steps : List PlanStep) (failure : Option Failure)
      → (w : World F R) (p : Planner) → failure ≡ authorize_steps o.ip o.scope steps
      → Safe (some steps) w (run_authorized o state steps failure w p)
  unfolding run_authorized
  run_authorized-Safe order state steps (some failure) w p e = nothing_started (some steps) w
  run_authorized-Safe order state steps none w p e =
      run_scheduled-Safe order state steps p.max_concurrency _ w p refl
        (authorize_steps-All o.ip o.scope steps (sym e))

  run_plan-Safe :
      IsOrder
      → (state : CampaignState M) (planned : Option (List PlanStep) × Planner) (w : World F R)
      → Safe planned.0 w (run_plan o state planned w)
  unfolding run_plan
  run_plan-Safe order state (none, p) w = nothing_started none w
  run_plan-Safe order state (some steps, p) w = run_authorized-Safe order state steps _ w p refl

  run_planning-Safe :
      IsOrder
      → (next : Option (CampaignState M)) (target : Text) (intelligence : List Item) (p : Planner)
      → (w : World F R)
      → Safe (plan p intelligence target).0 w (run_planning o next target intelligence p w)
  unfolding run_planning
  run_planning-Safe order none target intelligence p w = nothing_started _ w
  run_planning-Safe order (some s) target intelligence p w =
      let same = starts-log_event campaign_start w ∙ append-nil (starts w.log) in
      let (started, e, only) =
        run_plan-Safe order s (plan p intelligence target) (log_event campaign_start w) in
      (started, e ∙ ap (λ r. r ++ started) same, only)

  run_state-Safe :
      IsOrder
      → (next : Option (CampaignState M)) (target : Text) (intelligence : List Item) (p : Planner)
      → (w : World F R)
      → Safe (plan p intelligence target).0 w (run_state o next target intelligence p w)
  unfolding run_state
  run_state-Safe order none target intelligence p w = nothing_started _ w
  run_state-Safe order (some s) target intelligence p w =
      run_planning-Safe order _ target intelligence p w

  -- Where the completion order of a wave holds its steps once, a campaign, whatever the target, the
  -- intelligence and the runners, starts nothing, or only steps of its plan; then every step of the
  -- plan has an allowed target, and each port that it asks for, in the first entry `ports` of its
  -- params, is in the scope, unless the scope names no ports.
  pub run_campaign-Safe :
      (target : Text) (intelligence : List Item) (p : Planner) (w : World F R)
      → IsOrder
      → Safe (plan p intelligence target).0 w (run_campaign o target intelligence p w)
  unfolding run_campaign run_checked
  run_campaign-Safe target intelligence p w order = checked (check o.ip o.scope target)
    where
      checked :
          (raised : Option ScopeError)
          → Safe (plan p intelligence target).0 w (run_checked o raised target intelligence p w)
      checked (some err) = nothing_started _ w
      checked none = run_state-Safe order (new_state o target) target intelligence p w
