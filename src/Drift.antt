-- ===== src/Drift.antt =====
-- `compute_surface_drift` of core/drift.py: what changed between two lists of findings.
pub mod Changes
pub mod Samples
use helios_net.Prelude.{Bool, ◌||◌, ltb, Option, List, length}
use helios_net.Prelude.Int.{ℤ}
use helios_net.Prelude.Text.{Text}
use helios_net.Prelude.Eq.{text_eq, ℤ_eq, option_eq, pair_eq}
use helios_net.Prelude.Sets.{to_set, difference, intersection}

-- `(f.get("host"), f.get("port"))` of a finding
abbrev pub Asset : Type 0
Asset = Option Text × Option ℤ

pub record SurfaceDrift : Type 0 where
  pub new_assets : List Asset
  pub removed_assets : List Asset
  pub stable_assets : List Asset
  pub drift_detected : Bool

unfoldable pub compute_surface_drift : List Asset → List Asset → SurfaceDrift
unfolding to_set
compute_surface_drift previous_findings current_findings =
    let prev_set = to_set previous_findings in
    let curr_set = to_set current_findings in
    let new_assets = difference curr_set prev_set in
    let removed_assets = difference prev_set curr_set in
    record {
      new_assets = new_assets;
      removed_assets = removed_assets;
      stable_assets = intersection curr_set prev_set;
      drift_detected = ltb 0 (length new_assets) || ltb 0 (length removed_assets);
    }
