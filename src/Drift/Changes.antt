-- ===== src/Drift/Changes.antt =====
-- The three lists of a drift, and when there is one.
use helios_net.Prelude.{
  ◌≡◌, refl, ◌↔◌, inl, false, ◌||◌, ltb, Bool-cases, List, [], ◌∷◌, inr, In, length, arith,
}
use helios_net.Prelude.Eq.{text_eq, ℤ_eq, option_eq, pair_eq}
use helios_net.Prelude.Sets.{
  mem, mem_iff, mem-false, to_set, In-to_set, difference, intersection, In-difference,
  In-intersection,
}
use helios_net.Drift.{Asset, compute_surface_drift}

-- The differences and the intersection of the sets, by the lists
new_iff :
    (a b : List Asset) (x : Asset) → In x (difference (to_set a) (to_set b)) ↔ (In x a × (¬ In x b))
new_iff a b x =
    let both = In-difference (to_set a) (to_set b) x in
    (
      λ i. let (j, n) = both.0 i in ((In-to_set a x).0 j, λ k. n ((In-to_set b x).1 k)),
      λ (i, n). both.1 ((In-to_set a x).1 i, λ k. n ((In-to_set b x).0 k)),
    )

stable_iff :
    (a b : List Asset) (x : Asset) → In x (intersection (to_set a) (to_set b)) ↔ (In x a × In x b)
stable_iff a b x =
    let both = In-intersection (to_set a) (to_set b) x in
    (
      λ i. let (j, k) = both.0 i in ((In-to_set a x).0 j, (In-to_set b x).0 k),
      λ (i, j). both.1 ((In-to_set a x).1 i, (In-to_set b x).1 j),
    )

no_members : (l : List Asset) → (ltb 0 (length l) ≡ false) → (x : Asset) → ¬ In x l
no_members [] h x i = i
no_members (a ∷ l) h x i = ground arith

-- The assets of two lists of findings are told apart into new, removed and stable ones, and a drift
-- is reported unless both lists have the same assets.
pub compute_surface_drift_iff :
    (previous current : List Asset)
    → ((x : Asset)
        → In x (compute_surface_drift previous current).new_assets
          ↔ (In x current × (¬ In x previous)))
      × ((x : Asset)
          → In x (compute_surface_drift previous current).removed_assets
            ↔ (In x previous × (¬ In x current)))
      × ((x : Asset)
          → In x (compute_surface_drift previous current).stable_assets
            ↔ (In x current × In x previous))
      × (((compute_surface_drift previous current).drift_detected ≡ false)
          ↔ ((x : Asset) → In x previous ↔ In x current))
unfolding compute_surface_drift
compute_surface_drift_iff previous current = (
  new_iff current previous,
  new_iff previous current,
  stable_iff current previous,
  (
    λ h x. (
      λ i. held current previous x (no_members _ (ground (arith, h)) x) i,
      λ i. held previous current x (no_members _ (ground (arith, h)) x) i,
    ),
    λ same.
        quiet (difference (to_set current) (to_set previous))
          (difference (to_set previous) (to_set current))
          (λ x i. let (j, n) = (new_iff current previous x).0 i in n ((same x).1 j))
          (λ x i. let (j, n) = (new_iff previous current x).0 i in n ((same x).0 j)),
  ),
)
  where
    held :
        (a b : List Asset) (x : Asset)
        → (¬ In x (difference (to_set b) (to_set a)))
        → In x b
        → In x a
    held a b x n i = elim (Bool-cases (mem x (to_set a))) [
      | inl e ↦ (In-to_set a x).0 ((mem_iff x (to_set a)).0 e)
      | inr e ↦
          absurd (n ((new_iff b a x).1 (i, λ k. mem-false x (to_set a) e ((In-to_set a x).1 k))))
    ]

    quiet :
        (l m : List Asset)
        → ((x : Asset) → ¬ In x l)
        → ((x : Asset) → ¬ In x m)
        → (ltb 0 (length l) || ltb 0 (length m)) ≡ false
    quiet [] [] f g = refl
    quiet [] (a ∷ m) f g = absurd (g a (inl refl))
    quiet (a ∷ l) m f g = absurd (f a (inl refl))
