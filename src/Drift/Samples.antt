-- ===== src/Drift/Samples.antt =====
-- Two campaigns against one host.
use helios_net.Prelude.{◌≡◌, refl, true, false, none, some, List, [], ◌∷◌, In, ◌↔◌}
use helios_net.Prelude.Int.{pos}
use helios_net.Prelude.Text.{codes}
use helios_net.Prelude.Sets.{to_set}
use helios_net.Drift.{Asset, compute_surface_drift}
use helios_net.Drift.Changes.{compute_surface_drift_iff}

abbrev ssh : Asset
ssh = (some (codes "h"), some (pos 22))

abbrev web : Asset
web = (some (codes "h"), some (pos 80))

abbrev note : Asset
note = (none, none)

abbrev before : List Asset
before = ssh ∷ ssh ∷ note ∷ []

abbrev after : List Asset
after = note ∷ web ∷ ssh ∷ []

drifted : compute_surface_drift before after ≡ record {
  new_assets = web ∷ [];
  removed_assets = [];
  stable_assets = note ∷ ssh ∷ [];
  drift_detected = true;
}
unfolding compute_surface_drift to_set
drifted = refl

compute_surface_drift_iff_example :
    ((x : Asset)
      → In x (compute_surface_drift before after).new_assets ↔ (In x after × (¬ In x before)))
    × ((x : Asset)
        → In x (compute_surface_drift before after).removed_assets ↔ (In x before × (¬ In x after)))
    × ((x : Asset)
        → In x (compute_surface_drift before after).stable_assets ↔ (In x after × In x before))
    × (((compute_surface_drift before after).drift_detected ≡ false)
        ↔ ((x : Asset) → In x before ↔ In x after))
compute_surface_drift_iff_example = compute_surface_drift_iff before after
