-- ===== src/Campaign/Waves.antt =====
-- What the waves of a campaign do, whatever its runners do: each step with a runner is started once
-- and ends done or failed.
use mathlib.Core.List.Permᴰ
use helios_net.Prelude.{
  ℕ, String, ◌≡◌, refl, sym, ap, ◌∙◌, ◌⊎◌, inl, inr, Option, none, some, List, [], ◌∷◌, ◌++◌,
  concat, append_assoc, append-nil, Permᴰ, In, In-append,
}
use helios_net.Planner.Steps.{PlanStep, Status, done, failed}
use helios_net.Campaign.{
  Event, step_start, step_done, step_failed, module_missing, campaign_start, plan_built,
  campaign_done, Outcome, returned, raised, Context, World, Runner, log_event, add_report,
  finish_step, run_found, safe_run, run_wave, execute_waves,
}

-- The steps whose start the log tells.
abbrev pub starts : List Event → List ℕ
starts [] = []
starts (step_start i ∷ events) = i ∷ starts events
starts (module_missing m ∷ events) = starts events
starts (step_done i ∷ events) = starts events
starts (step_failed i ∷ events) = starts events
starts (campaign_start ∷ events) = starts events
starts (plan_built ∷ events) = starts events
starts (campaign_done ∷ events) = starts events

pub starts-append : (xs ys : List Event) → starts (xs ++ ys) ≡ starts xs ++ starts ys
starts-append [] ys = refl
starts-append (step_start i ∷ xs) ys = ap (λ r. i ∷ r) (starts-append xs ys)
starts-append (module_missing m ∷ xs) ys = starts-append xs ys
starts-append (step_done i ∷ xs) ys = starts-append xs ys
starts-append (step_failed i ∷ xs) ys = starts-append xs ys
starts-append (campaign_start ∷ xs) ys = starts-append xs ys
starts-append (plan_built ∷ xs) ys = starts-append xs ys
starts-append (campaign_done ∷ xs) ys = starts-append xs ys

module _ {F R : Type 0} where
  starts-add_report :
      (result : Option R) (w : World F R) → starts (add_report result w).log ≡ starts w.log
  unfolding add_report
  starts-add_report none w = refl
  starts-add_report (some r) w = refl

  abbrev pub start_with : Option (Runner F R) → PlanStep → List ℕ
  start_with none step = []
  start_with (some runner) step = step.step_id ∷ []

  -- A step with a runner ends done or failed, another one as it was.
  abbrev pub IsSettled : Option (Runner F R) → Status → Status → Type 0
  IsSettled none before after = after ≡ before
  IsSettled (some runner) before after = (after ≡ done) ⊎ (after ≡ failed)

  pub starts-log_event :
      (event : Event) (w : World F R)
      → starts (log_event event w).log ≡ starts w.log ++ starts (event ∷ [])
  unfolding log_event
  starts-log_event event w = starts-append w.log (event ∷ [])

  starts-finish_step :
      (step : PlanStep) (w : World F R) (ended : Outcome R × Context F R)
      → starts (finish_step step w ended).2.log ≡ starts w.log
  unfolding finish_step log_event
  starts-finish_step step w (returned result, context) =
      starts-append w.log (step_done step.step_id ∷ []) ∙ append-nil (starts w.log)
  starts-finish_step step w (raised, context) =
      starts-append w.log (step_failed step.step_id ∷ []) ∙ append-nil (starts w.log)

  starts-run_found :
      (found : Option (Runner F R)) (step : PlanStep) (w : World F R)
      → starts (run_found found step w).2.log ≡ starts w.log ++ start_with found step
  unfolding run_found
  starts-run_found none step w = starts-log_event (module_missing step.module_name) w
  starts-run_found (some runner) step w =
      starts-finish_step _ (log_event (step_start step.step_id) w) _
      ∙ starts-log_event (step_start step.step_id) w

module _ (order : List PlanStep → List PlanStep) where
  -- The steps in the order in which they complete.
  abbrev pub in_order : List (List PlanStep) → List PlanStep
  in_order [] = []
  in_order (wave ∷ waves) = order wave ++ in_order waves

  pub in_order-perm :
      ((wave : List PlanStep) → Permᴰ (order wave) wave)
      → (waves : List (List PlanStep)) → Permᴰ (in_order waves) (concat waves)
  in_order-perm h [] = Permᴰ.nil
  in_order-perm h (wave ∷ waves) =
      Permᴰ.trans (Permᴰ.append_right (in_order waves) (h wave))
        (Permᴰ.append_left wave (in_order-perm h waves))

module _ {F R : Type 0} (registry : String → Option (Runner F R)) where
  -- The ids that a run of the steps starts, in this order: those with a runner.
  abbrev pub starts_of : List PlanStep → List ℕ
  starts_of [] = []
  starts_of (step ∷ steps) = start_with (registry step.module_name) step ++ starts_of steps

  starts_of-append : (xs ys : List PlanStep) → starts_of (xs ++ ys) ≡ starts_of xs ++ starts_of ys
  starts_of-append [] ys = refl
  starts_of-append (x ∷ xs) ys =
      ap (λ r. start_with (registry x.module_name) x ++ r) (starts_of-append xs ys)
      ∙ sym (append_assoc (start_with (registry x.module_name) x) (starts_of xs) (starts_of ys))

  pub starts_of-In :
      (i : ℕ) (steps : List PlanStep)
      → In i (starts_of steps)
      → (step : PlanStep) × In step steps × (i ≡ step.step_id)
  starts_of-In i [] h = absurd h
  starts_of-In i (step ∷ steps) h =
      found (registry step.module_name)
        (In-append i (start_with (registry step.module_name) step) _ h) (starts_of-In i steps)
    where
      found :
          (runner : Option (Runner F R))
          → In i (start_with runner step) ⊎ In i (starts_of steps)
          → (In i (starts_of steps) → (s : PlanStep) × In s steps × (i ≡ s.step_id))
          → (s : PlanStep) × In s (step ∷ steps) × (i ≡ s.step_id)
      found none (inl j) rec = absurd j
      found (some runner) (inl (inl e)) rec = (step, inl refl, e)
      found (some runner) (inl (inr j)) rec = absurd j
      found runner (inr j) rec = let (s, k, e) = rec j in (s, inr k, e)

  -- The second step is the first one as a run leaves it.
  abbrev pub IsRunOf : PlanStep → PlanStep → Type 0
  IsRunOf step ran =
      (ran ≡ record step { status = ran.status })
      × IsSettled (registry step.module_name) step.status ran.status

  abbrev pub Ran : List PlanStep → List PlanStep → Type 0
  Ran [] [] = Unit
  Ran (step ∷ steps) (ran ∷ rest) = IsRunOf step ran × Ran steps rest
  Ran _ _ = ⊥

  Ran-append : (xs ys rs ts : List PlanStep) → Ran xs rs → Ran ys ts → Ran (xs ++ ys) (rs ++ ts)
  Ran-append [] ys [] ts h k = k
  Ran-append [] ys (r ∷ rs) ts h k = absurd h
  Ran-append (x ∷ xs) ys [] ts h k = absurd h
  Ran-append (x ∷ xs) ys (r ∷ rs) ts h k = (h.0, Ran-append xs ys rs ts h.1 k)

  finish_step-IsSettled :
      (step : PlanStep) (before : Status) (runner : Runner F R) (w : World F R)
      → (ended : Outcome R × Context F R)
      → ((finish_step step w ended).1
          ≡ record step { status = (finish_step step w ended).1.status })
        × IsSettled (some runner) before (finish_step step w ended).1.status
  unfolding finish_step
  finish_step-IsSettled step before runner w (returned result, context) = (refl, inl refl)
  finish_step-IsSettled step before runner w (raised, context) = (refl, inr refl)

  run_found-IsSettled :
      (found : Option (Runner F R)) (step : PlanStep) (w : World F R)
      → ((run_found found step w).1 ≡ record step { status = (run_found found step w).1.status })
        × IsSettled found step.status (run_found found step w).1.status
  unfolding run_found
  run_found-IsSettled none step w = (refl, refl)
  run_found-IsSettled (some runner) step w = finish_step-IsSettled _ step.status runner _ _

  run_wave-Ran : (wave : List PlanStep) (w : World F R) → Ran wave (run_wave registry wave w).0
  unfolding run_wave safe_run
  run_wave-Ran [] w = tt
  run_wave-Ran (step ∷ wave) w =
      (run_found-IsSettled (registry step.module_name) step w, run_wave-Ran wave _)

  starts-run_wave :
      (wave : List PlanStep) (w : World F R)
      → starts (run_wave registry wave w).1.log ≡ starts w.log ++ starts_of wave
  unfolding run_wave safe_run
  starts-run_wave [] w = sym (append-nil (starts w.log))
  starts-run_wave (step ∷ wave) w =
      let (result, ran, w') : Option R × PlanStep × World F R =
        run_found (registry step.module_name) step w in
      starts-run_wave wave (add_report result w')
      ∙ ap (λ r. r ++ starts_of wave)
          (starts-add_report result w' ∙ starts-run_found (registry step.module_name) step w)
      ∙ append_assoc (starts w.log) (start_with (registry step.module_name) step) (starts_of wave)

  module _ (order : List PlanStep → List PlanStep) where
    pub execute_waves-Ran :
        (waves : List (List PlanStep)) (w : World F R)
        → Ran (in_order order waves) (execute_waves registry order waves w).0
    unfolding execute_waves
    execute_waves-Ran [] w = tt
    execute_waves-Ran (wave ∷ waves) w =
        Ran-append (order wave) (in_order order waves) _ _ (run_wave-Ran (order wave) w)
          (execute_waves-Ran waves _)

    pub starts-execute_waves :
        (waves : List (List PlanStep)) (w : World F R)
        → starts (execute_waves registry order waves w).1.log
          ≡ starts w.log ++ starts_of (in_order order waves)
    unfolding execute_waves
    starts-execute_waves [] w = sym (append-nil (starts w.log))
    starts-execute_waves (wave ∷ waves) w =
        starts-execute_waves waves (run_wave registry (order wave) w).1
        ∙ ap (λ r. r ++ starts_of (in_order order waves)) (starts-run_wave (order wave) w)
        ∙ append_assoc (starts w.log) (starts_of (order wave)) (starts_of (in_order order waves))
        ∙ ap (λ r. starts w.log ++ r) (sym (starts_of-append (order wave) (in_order order waves)))
