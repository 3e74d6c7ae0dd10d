-- ===== src/Planner/Plan.antt =====
-- `Planner.plan` of core/planner.py: from intelligence items to plan steps.
pub mod Numbered
pub mod Stages
pub mod Result
pub mod Collector
pub mod Whole
use mathlib.Core.List.{foldl}
use mathlib.Core.Option.{get_or}
use text.Mathlib.Text.{◌==◌ as str_eq}
use helios_net.Prelude.{
  ℕ, ◌+◌, String, Bool, true, false, not, ◌&&◌, Option, none, some, List, [], ◌∷◌, ◌++◌, map, keep,
  if◌then◌else◌, ltb,
}
use helios_net.Prelude.Int.{ℤ, pos, ltb_ℤ, eqb_ℤ}
use helios_net.Prelude.Sort.{sort_by}
use helios_net.Prelude.Text.{Text}
use helios_net.Planner.Steps.{Params, PlanStep, Item, Planner, pending}

-- `_LEGACY_MODULE_NAMES.get(module, module)`
unfoldable pub legacy_name : String → String
legacy_name m = if str_eq m "exfil" then "collector" else m

unfoldable pub canonical_module : Item → Item
unfolding legacy_name
canonical_module it = elim it.module_name [
  | none ↦ it
  | some m ↦
      let canonical = legacy_name m in
      if str_eq canonical m then it else record it { module_name = some canonical }
]

-- `i.get("module") == name`
unfoldable pub is_module : String → Item → Bool
is_module name it = elim it.module_name [ none ↦ false | some m ↦ str_eq m name ]

unfoldable pub is_extra : Item → Bool
unfolding is_module
is_extra it =
    not (is_module "discovery" it)
    && not (is_module "asset" it)
    && not (is_module "recon" it)
    && not (is_module "stealth" it)
    && not (is_module "collector" it)

-- The counter of the planner and the list `steps` under construction.
pub record Build : Type 0 where
  pub counter : ℕ
  pub steps : List PlanStep

abbrev pub ids : List PlanStep → List ℕ
ids = map (λ s. s.step_id)

-- `self._mk(...)`
unfoldable pub mk : ℕ → String → String → Text → ℤ → List ℕ → Params → PlanStep
mk step_id module_name action target priority depends_on params = record {
  step_id = step_id;
  module_name = module_name;
  action = action;
  target = target;
  priority = priority;
  depends_on = depends_on;
  params = params;
  status = pending;
}

module _ (target : Text) where
  -- `steps.append(self._mk(...))`, where `_mk` takes the next id
  unfoldable pub push : String → String → ℤ → List ℕ → Params → Build → Build
  unfolding mk
  push module_name action priority depends_on params b = record {
    counter = b.counter + 1;
    steps = b.steps ++ mk (b.counter + 1) module_name action target priority depends_on params ∷ [];
  }

  unfoldable pub push_stealth : Build → Item → Build
  push_stealth b it =
      push "stealth" (get_or it.action "pace") (get_or it.priority (pos 5)) [] (get_or it.params [])
        b

  unfoldable pub push_discovery : Build → Item → Build
  push_discovery b it =
      push (get_or it.module_name "discovery") (get_or it.action "scan")
        (get_or it.priority (pos 10)) [] [] b

  unfoldable pub push_asset : List ℕ → Build → Item → Build
  push_asset deps b it =
      push "asset" (get_or it.action "discover") (get_or it.priority (pos 15)) deps
        (get_or it.params []) b

  unfoldable pub push_recon : Build → Item → Build
  push_recon b it =
      push (get_or it.module_name "recon") (get_or it.action "fingerprint")
        (get_or it.priority (pos 20)) (ids b.steps) [] b

  unfoldable pub push_extra : String → Build → Item → Build
  push_extra m b it =
      push m (get_or it.action "run") (get_or it.priority (pos 25)) (ids b.steps) [] b

  -- `it["module"]` raises `KeyError` where the item has no such key: `false`, with what was built.
  unfoldable pub push_extras : Build → List Item → Bool × Build
  push_extras b [] = (true, b)
  push_extras b (it ∷ rest) = elim it.module_name [
    | none ↦ (false, b)
    | some m ↦ push_extras (push_extra m b it) rest
  ]

  unfoldable pub push_collector : Build → Build
  push_collector b = elim b.steps [
    | [] ↦ b
    | _ ∷ _ ↦ push "collector" "collect" (pos 40) (ids b.steps) [] b
  ]

  -- Stages 0 to 3 of `plan`, which cannot fail.
  unfoldable pub scan_stages : Build → List Item → Build
  scan_stages b items =
      let discovery_items = keep (is_module "discovery") items in
      let b = foldl push_stealth b (keep (is_module "stealth") items) in
      let b : Build = elim discovery_items [
        | [] ↦ push "discovery" "scan" (pos 10) [] [] b
        | _ ∷ _ ↦ b
      ] in
      foldl push_discovery b discovery_items

  unfoldable pub asset_stages : Build → List Item → Build
  asset_stages b items =
      let asset_items = keep (is_module "asset") items in
      let asset_deps = ids b.steps in
      let b : Build = elim asset_items [
        | [] ↦ push "asset" "discover" (pos 15) asset_deps [] b
        | _ ∷ _ ↦ b
      ] in
      foldl push_recon (foldl (push_asset asset_deps) b asset_items)
        (keep (is_module "recon") items)

-- The key `(s.priority, s.step_id)`.
abbrev pub le_key : PlanStep → PlanStep → Bool
le_key s t =
    if ltb_ℤ s.priority t.priority
    then true
    else eqb_ℤ s.priority t.priority && not (ltb t.step_id s.step_id)

-- `none` is the `KeyError`. The ids that were taken stay taken.
unfoldable pub plan : Planner → List Item → Text → Option (List PlanStep) × Planner
unfolding canonical_module is_extra scan_stages asset_stages push_extras push_collector sort_by
    push_discovery push_asset push_stealth push_recon push_extra push
plan p intelligence target =
    let normalised = map canonical_module intelligence in
    let start : Build = record { counter = p.step_counter; steps = [] } in
    let b = asset_stages target (scan_stages target start normalised) normalised in
    let (found, b') = push_extras target b (keep is_extra normalised) in
    if found
    then (let b'' = push_collector target b' in
        (some (sort_by le_key b''.steps), record p { step_counter = b''.counter }))
    else (none, record p { step_counter = b'.counter })
