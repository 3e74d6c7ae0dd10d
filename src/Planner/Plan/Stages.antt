-- ===== src/Planner/Plan/Stages.antt =====
-- Each stage of `plan` keeps the numbering.
use mathlib.Core.List.{foldl}
use helios_net.Prelude.{String, Option-cases, ℕ, ◌+◌, inl, inr, List, [], ◌∷◌, keep, arith}
use helios_net.Prelude.Int.{pos}
use helios_net.Prelude.Text.{Text}
use helios_net.Planner.Steps.{PlanStep, Item}
use helios_net.Planner.Plan.{
  Build, ids, push, push_stealth, push_discovery, push_asset, push_recon, push_extra, push_extras,
  push_collector, scan_stages, asset_stages, is_module,
}
use helios_net.Planner.Plan.Numbered.{Within, Within-mono, IsBuilt, push-IsBuilt, ids-Within}

module _ (lo : ℕ) (target : Text) where
  -- The invariant of the stages after the ids `ds` were read: they stay below the counter.
  abbrev Ready : List ℕ → Build → Type 0
  Ready ds b = IsBuilt lo b × Within lo b.counter ds

  foldl_keeps :
      (P : Build → Type 0) (f : Build → Item → Build)
      → ((b : Build) (it : Item) → P b → P (f b it))
      → (b : Build) (items : List Item) → P b
      → P (foldl f b items)
  foldl_keeps P f step b [] h = h
  foldl_keeps P f step b (it ∷ items) h = foldl_keeps P f step (f b it) items (step b it h)

  push_stealth-IsBuilt :
      (b : Build) (it : Item) → IsBuilt lo b → IsBuilt lo (push_stealth target b it)
  unfolding push_stealth
  push_stealth-IsBuilt b it h = push-IsBuilt lo target _ _ _ [] _ b h tt

  push_discovery-IsBuilt :
      (b : Build) (it : Item) → IsBuilt lo b → IsBuilt lo (push_discovery target b it)
  unfolding push_discovery
  push_discovery-IsBuilt b it h = push-IsBuilt lo target _ _ _ [] _ b h tt

  push_recon-IsBuilt : (b : Build) (it : Item) → IsBuilt lo b → IsBuilt lo (push_recon target b it)
  unfolding push_recon
  push_recon-IsBuilt b it h = push-IsBuilt lo target _ _ _ (ids b.steps) _ b h (ids-Within lo b h)

  push_asset-Ready :
      (ds : List ℕ) (b : Build) (it : Item) → Ready ds b → Ready ds (push_asset target ds b it)
  unfolding push_asset push
  push_asset-Ready ds b it (h, w) = (
    push-IsBuilt lo target _ _ _ ds _ b h w,
    Within-mono lo b.counter (b.counter + 1) ds (omega arith) w,
  )

  pub scan_stages-IsBuilt :
      (b : Build) (items : List Item) → IsBuilt lo b → IsBuilt lo (scan_stages target b items)
  unfolding scan_stages
  scan_stages-IsBuilt b items h =
      foldl_keeps (IsBuilt lo) (push_discovery target) push_discovery-IsBuilt _
        (keep (is_module "discovery") items)
        (default (keep (is_module "discovery") items) (
          foldl_keeps (IsBuilt lo) (push_stealth target) push_stealth-IsBuilt b
            (keep (is_module "stealth") items) h))
    where
      default :
          {c : Build} (found : List Item)
          → IsBuilt lo c
          → IsBuilt lo
              (elim found [ [] ↦ push target "discovery" "scan" (pos 10) [] [] c | _ ∷ _ ↦ c ])
      default {c} [] k = push-IsBuilt lo target _ _ _ [] _ c k tt
      default (x ∷ xs) k = k

  pub asset_stages-IsBuilt :
      (b : Build) (items : List Item) → IsBuilt lo b → IsBuilt lo (asset_stages target b items)
  unfolding asset_stages
  asset_stages-IsBuilt b items h =
      foldl_keeps (IsBuilt lo) (push_recon target) push_recon-IsBuilt _
        (keep (is_module "recon") items)
        (foldl_keeps (Ready (ids b.steps)) (push_asset target (ids b.steps))
          (push_asset-Ready (ids b.steps)) _ (keep (is_module "asset") items)
          (default (keep (is_module "asset") items))).0
    where
      default :
          (found : List Item)
          → Ready (ids b.steps) (elim found [
            | [] ↦ push target "asset" "discover" (pos 15) (ids b.steps) [] b
            | _ ∷ _ ↦ b
          ])
      default [] = (
        push-IsBuilt lo target _ _ _ (ids b.steps) _ b h (ids-Within lo b h),
        unfold push in
            Within-mono lo b.counter (b.counter + 1) (ids b.steps) (omega arith)
              (ids-Within lo b h),
      )
      default (x ∷ xs) = (h, ids-Within lo b h)

  push_extra-IsBuilt :
      (m : String) (b : Build) (it : Item) → IsBuilt lo b → IsBuilt lo (push_extra target m b it)
  unfolding push_extra
  push_extra-IsBuilt m b it h = push-IsBuilt lo target _ _ _ (ids b.steps) _ b h (ids-Within lo b h)

  pub push_extras-IsBuilt :
      (b : Build) (items : List Item) → IsBuilt lo b → IsBuilt lo (push_extras target b items).1
  unfolding push_extras
  push_extras-IsBuilt b [] h = h
  push_extras-IsBuilt b (it ∷ rest) h = elim (Option-cases it.module_name) [
    | inl e ↦ rw (e, push_extras) h
    | inr (m, e) ↦
        rw (e, push_extras)
          (push_extras-IsBuilt (push_extra target m b it) rest (push_extra-IsBuilt m b it h))
  ]

  pub push_collector-IsBuilt : (b : Build) → IsBuilt lo b → IsBuilt lo (push_collector target b)
  unfolding push_collector
  push_collector-IsBuilt b h = from b.steps
    where
      from :
          (ss : List PlanStep)
          → IsBuilt lo (elim ss [
            | [] ↦ b
            | _ ∷ _ ↦ push target "collector" "collect" (pos 40) (ids b.steps) [] b
          ])
      from [] = h
      from (s ∷ ss) = push-IsBuilt lo target _ _ _ (ids b.steps) _ b h (ids-Within lo b h)
