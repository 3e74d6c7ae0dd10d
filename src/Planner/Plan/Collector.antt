-- ===== src/Planner/Plan/Collector.antt =====
-- Every plan has a collection step, and that waits for all the others.
use mathlib.Core.List.{foldl}
use mathlib.Core.List.Permᴰ
use helios_net.Prelude.{
  ℕ, ◌+◌, ◌≤◌, ◌<◌, ◌≡◌, refl, sym, ap, subst, ◌⊎◌, inl, inr, Option, none, some, Option-cases,
  String, List, [], ◌∷◌, ◌++◌, Permᴰ, In, In-perm, In-append, In-append_right, length,
  length-append, arith, keep,
}
use helios_net.Prelude.Int.{pos}
use helios_net.Prelude.Text.{Text}
use helios_net.Prelude.Sort.{sort_by-perm}
use helios_net.Planner.Steps.{PlanStep, Item, Planner}
use helios_net.Planner.Plan.{
  Build, ids, le_key, push, push_discovery, push_asset, push_recon, push_extra, push_extras,
  push_collector, scan_stages, asset_stages, is_module, plan, mk,
}
use helios_net.Planner.Plan.Result.{extended, complete, plan-some, planned, extras}

abbrev HasSteps : Build → Type 0
HasSteps b = 0 < length b.steps

module _ (target : Text) where
  push-HasSteps :
      (m a : String) (pr : helios_net.Prelude.Int.ℤ) (ds : List ℕ)
      (ps : helios_net.Planner.Steps.Params) (b : Build)
      → HasSteps (push target m a pr ds ps b)
  unfolding push
  push-HasSteps m a pr ds ps b =
      omega (arith, length-append b.steps (mk (b.counter + 1) m a target pr ds ps ∷ []))

  foldl-HasSteps :
      (f : Build → Item → Build)
      → ((b : Build) (it : Item) → HasSteps (f b it))
      → (b : Build) (items : List Item) → HasSteps b
      → HasSteps (foldl f b items)
  foldl-HasSteps f step b [] h = h
  foldl-HasSteps f step b (it ∷ items) h = foldl-HasSteps f step (f b it) items (step b it)

  scan_stages-HasSteps : (b : Build) (items : List Item) → HasSteps (scan_stages target b items)
  unfolding scan_stages
  scan_stages-HasSteps b items = from _ (keep (is_module "discovery") items)
    where
      from :
          (c : Build) (found : List Item)
          → HasSteps (
              foldl
                (push_discovery target)
                (let c' : Build = elim found [
                  | [] ↦ push target "discovery" "scan" (pos 10) [] [] c
                  | _ ∷ _ ↦ c
                ] in
                  c')
                found)
      from c [] = push-HasSteps _ _ _ _ _ c
      from c (it ∷ items) =
          foldl-HasSteps (push_discovery target)
            (λ b it. unfold push_discovery in push-HasSteps _ _ _ _ _ b) _ items
            (unfold push_discovery in push-HasSteps _ _ _ _ _ c)

  asset_stages-HasSteps :
      (b : Build) (items : List Item) → HasSteps b → HasSteps (asset_stages target b items)
  unfolding asset_stages
  asset_stages-HasSteps b items h =
      foldl-HasSteps (push_recon target) (λ c it. unfold push_recon in push-HasSteps _ _ _ _ _ c) _
        (keep (is_module "recon") items)
        (foldl-HasSteps (push_asset target (ids b.steps))
          (λ c it. unfold push_asset in push-HasSteps _ _ _ _ _ c) _
          (keep (is_module "asset") items) (from (keep (is_module "asset") items)))
    where
      from :
          (found : List Item)
          → HasSteps (elim found [
            | [] ↦ push target "asset" "discover" (pos 15) (ids b.steps) [] b
            | _ ∷ _ ↦ b
          ])
      from [] = push-HasSteps _ _ _ _ _ b
      from (it ∷ items) = h

  push_extras-HasSteps :
      (b : Build) (items : List Item) → HasSteps b → HasSteps (push_extras target b items).1
  unfolding push_extras
  push_extras-HasSteps b [] h = h
  push_extras-HasSteps b (it ∷ rest) h = elim (Option-cases it.module_name) [
    | inl e ↦ rw (e, push_extras) h
    | inr (m, e) ↦
        rw (e, push_extras)
          (push_extras-HasSteps (push_extra target m b it) rest
            (unfold push_extra in push-HasSteps _ _ _ _ _ b))
  ]

  push_collector-HasSteps :
      (b : Build)
      → HasSteps b
      → (c : PlanStep) × ((push_collector target b).steps ≡ b.steps ++ c ∷ [])
        × (c.module_name ≡ "collector")
        × (c.depends_on ≡ ids b.steps)
  unfolding push_collector push
  push_collector-HasSteps b h = from b.steps refl
    where
      from :
          (ss : List PlanStep)
          → b.steps ≡ ss
          → (c : PlanStep) × ((push_collector target b).steps ≡ b.steps ++ c ∷ [])
            × (c.module_name ≡ "collector")
            × (c.depends_on ≡ ids b.steps)
      from [] e = absurd (omega (arith, ap length e))
      from (s ∷ ss) e = (
        mk (b.counter + 1) "collector" "collect" target (pos 40) (ids b.steps) [],
        ground arith,
        refl,
        refl,
      )

pub In-ids_intro : (t : PlanStep) (ss : List PlanStep) → In t ss → In t.step_id (ids ss)
In-ids_intro t [] i = absurd i
In-ids_intro t (s ∷ ss) (inl e) = inl (ap (λ (u : PlanStep). u.step_id) e)
In-ids_intro t (s ∷ ss) (inr i) = inr (In-ids_intro t ss i)

pub plan_collector :
    (p : Planner) (intelligence : List Item) (target : Text) (steps : List PlanStep)
    → (plan p intelligence target).0 ≡ some steps
    → (c : PlanStep) × In c steps
      × (c.module_name ≡ "collector")
      × ((t : PlanStep) → In t steps → (t ≡ c) ⊎ In t.step_id c.depends_on)
plan_collector p intelligence target steps h =
    let made = (extended p intelligence target).1 in
    let has : HasSteps made =
      unfold extended in
      push_extras-HasSteps target (planned p intelligence target) (extras p intelligence target)
        (asset_stages-HasSteps target _ _ (scan_stages-HasSteps target _ _)) in
    let (c, e, name, deps) = push_collector-HasSteps target made has in
    let sorted = sort_by-perm le_key (complete p intelligence target).steps in
    let whole : (complete p intelligence target).steps ≡ made.steps ++ c ∷ [] =
      unfold complete in e in
    let order = (plan-some p intelligence target steps h).1 in
    (
      c,
      subst (In c) order (
          In-perm c (Permᴰ.symm sorted)
            (subst (In c) (sym whole) (In-append_right c made.steps (c ∷ []) (inl refl)))),
      name,
      λ t i.
          elim (In-append t made.steps (c ∷ [])
            (subst (In t) whole (In-perm t sorted (subst (In t) (sym order) i)))) [
              | inl a ↦ inr (rw deps (In-ids_intro t made.steps a))
              | inr b ↦ inl (elim b [ inl e ↦ e | inr n ↦ absurd n ])
            ],
    )
