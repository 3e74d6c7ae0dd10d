-- ===== src/Graph/ShortestPath/Levels.antt =====
-- The search goes through the nodes by their distance from the source.
use helios_net.Prelude.{
  ℕ, suc, ◌+◌, ◌≤◌, ◌≡◌, ◌≢◌, refl, sym, ap, subst, ◌∙◌, ◌↔◌, ◌⊎◌, inl, inr, Bool-cases, List, [],
  ◌∷◌, ◌++◌, any, length, In, In-append, In-append_left, In-append_right, All, All-append, All-In,
  All-of_In, append_assoc, append-nil, arith,
}
use helios_net.Prelude.Text.{Text, eqb_text, eqb_text_refl, eqb_text→eq}
use helios_net.Graph.{AssetGraph, neighbours}
use helios_net.Prelude.TextOrder.{eqb_text-cases}
use helios_net.Graph.ShortestPath.{Search, Scan, going, arrived, visit, then_scan, scan}
use helios_net.Graph.ShortestPath.Rebuild.{IsWalk, stay, go, depth}
use helios_net.Graph.ShortestPath.Invariant.{not_seen}

-- What a scan of the neighbours of a node of depth `d` adds to a search
pub record Layer (d : ℕ) (s t : Search) (new : List Text) : Type 0 where
  pub pending : t.pending ≡ s.pending ++ new
  pub deep : All (λ x. depth t.prev x ≡ suc d) new
  pub same : (x : Text) → In x s.seen → depth t.prev x ≡ depth s.prev x
  pub seen : (x : Text) → In x t.seen ↔ (In x s.seen ⊎ In x new)

Layer-refl : (d : ℕ) (s : Search) → Layer d s s []
Layer-refl d s = record {
  pending = sym (append-nil s.pending);
  deep = tt;
  same = λ x i. refl;
  seen = λ x. (λ i. inl i, λ i. elim i [ inl j ↦ j | inr k ↦ absurd k ]);
}

Layer-trans :
    (d : ℕ) (s t u : Search) (new later : List Text)
    → Layer d s t new
    → Layer d t u later
    → Layer d s u (new ++ later)
Layer-trans d s t u new later h k = record {
  pending = k.pending ∙ ap (λ l. l ++ later) h.pending ∙ append_assoc s.pending new later;
  deep =
      All-append (λ x. depth u.prev x ≡ suc d) new later
        (All-of_In (λ x. depth u.prev x ≡ suc d) new
          (λ x i.
            k.same x ((h.seen x).1 (inr i)) ∙ All-In (λ y. depth t.prev y ≡ suc d) x new h.deep i))
        k.deep;
  same = λ x i. k.same x ((h.seen x).1 (inl i)) ∙ h.same x i;
  seen = λ x. (
    λ i. elim ((k.seen x).0 i) [
      | inl j ↦ elim ((h.seen x).0 j) [ inl a ↦ inl a | inr b ↦ inr (In-append_left x new later b) ]
      | inr j ↦ inr (In-append_right x new later j)
    ],
    λ i. (k.seen x).1 (elim i [
      | inl j ↦ inl ((h.seen x).1 (inl j))
      | inr j ↦ elim (In-append x new later j) [
        | inl a ↦ inl ((h.seen x).1 (inr a))
        | inr b ↦ inr b
      ]
    ]),
  );
}

module _ (target : Text) where
  -- A scan adds a layer, or reaches the target one step behind the node.
  unfoldable pub Layered : ℕ → Search → Scan → Type 0
  Layered d s (going t) = (new : List Text) × Layer d s t new
  Layered d s (arrived prev) = depth prev target ≡ suc d

  visit-Layered :
      (d : ℕ) (cur nb : Text) (s : Search)
      → In cur s.seen
      → depth s.prev cur ≡ d
      → Layered d s (visit target cur nb s)
  unfolding visit Layered
  visit-Layered d cur nb s c e = elim (Bool-cases (any (eqb_text nb) s.seen)) [
    | inl f ↦ rw f ([], Layer-refl d s)
    | inr f ↦ elim (Bool-cases (eqb_text nb target)) [
      | inl k ↦ rw (f, k, sym (eqb_text→eq nb target k), eqb_text_refl nb) (ap suc e)
      | inr k ↦
          rw (f, k)
            (
              nb ∷ [],
              record {
                pending = refl;
                deep = (rw (eqb_text_refl nb) (ap suc e), tt);
                same = λ x i. older x (λ g. not_seen s.seen nb f (subst (λ z. In z s.seen) g i));
                seen = λ x. (
                  λ i. elim i [ inl g ↦ inr (inl g) | inr j ↦ inl j ],
                  λ i. elim i [
                    | inl j ↦ inr j
                    | inr j ↦ elim j [ inl g ↦ inl g | inr n ↦ absurd n ]
                  ],
                );
              },
            )
    ]
  ]
    where
      older : (x : Text) → x ≢ nb → depth ((nb, cur) ∷ s.prev) x ≡ depth s.prev x
      older x n = elim (eqb_text-cases x nb) [ inl g ↦ absurd (n g) | inr g ↦ rw g refl ]

  pub scan-Layered :
      (d : ℕ) (cur : Text) (nbs : List Text) (s : Search)
      → In cur s.seen
      → depth s.prev cur ≡ d
      → Layered d s (scan target cur nbs s)
  unfolding scan then_scan Layered
  scan-Layered d cur [] s c e = ([], Layer-refl d s)
  scan-Layered d cur (nb ∷ nbs) s c e =
      next (visit target cur nb s) (visit-Layered d cur nb s c e) (scan-Layered d cur nbs)
    where
      join :
          (t : Search) (new : List Text) (r : Scan)
          → Layer d s t new
          → Layered d t r
          → Layered d s r
      join t new (arrived prev) h k = k
      join t new (going u) h (later, k) = (new ++ later, Layer-trans d s t u new later h k)

      next :
          (r : Scan)
          → Layered d s r
          → ((t : Search)
              → In cur t.seen
              → depth t.prev cur ≡ d
              → Layered d t (scan target cur nbs t))
          → Layered d s (then_scan r (scan target cur nbs))
      next (arrived prev) k rec = k
      next (going t) (new, h) rec =
          join t new (scan target cur nbs t) h (rec t ((h.seen cur).1 (inl c)) (h.same cur c ∙ e))

-- The queue holds nodes of depth `d`, then nodes one deeper; all others that are seen are expanded.
pub record IsLevel (g : AssetGraph) (d : ℕ) (near far : List Text) (s : Search) : Type 0 where
  pub pending : s.pending ≡ near ++ far
  pub near_depth : All (λ x. depth s.prev x ≡ d) near
  pub far_depth : All (λ x. depth s.prev x ≡ suc d) far
  pub shallow : (x : Text) → In x s.seen → depth s.prev x ≤ suc d
  pub expanded :
      (u v : Text)
      → In u s.seen
      → In v (neighbours g u)
      → In u s.pending ⊎ (In v s.seen × (depth s.prev v ≤ suc (depth s.prev u)))

module _ (g : AssetGraph) where
  -- Where no node of the level is left, the next level begins.
  pub IsLevel-next :
      (d : ℕ) (far : List Text) (s : Search) → IsLevel g d [] far s → IsLevel g (suc d) far [] s
  IsLevel-next d far s h = record {
    pending = h.pending ∙ sym (append-nil far);
    near_depth = h.far_depth;
    far_depth = tt;
    shallow = λ x i. omega (arith, h.shallow x i);
    expanded = h.expanded;
  }

  waiting-le :
      (d : ℕ) (near far : List Text) (s : Search) (u : Text)
      → IsLevel g d near far s
      → In u s.pending
      → d ≤ depth s.prev u
  waiting-le d near far s u h i = elim (In-append u near far (subst (In u) h.pending i)) [
    | inl j ↦ omega (arith, All-In (λ x. depth s.prev x ≡ d) u near h.near_depth j)
    | inr j ↦ omega (arith, All-In (λ x. depth s.prev x ≡ suc d) u far h.far_depth j)
  ]

  pub IsWalk-nonempty : {a c : Text} {path : List Text} → IsWalk g a path c → 1 ≤ length path
  IsWalk-nonempty (stay _) = omega arith
  IsWalk-nonempty (go edge w) = omega arith

  -- A walk of at most `d` edges from the source ends in a node that is seen.
  pub walk-seen_by :
      (d : ℕ) (near far : List Text) (s : Search)
      → IsLevel g d near far s
      → (u x : Text) (nodes : List Text) → IsWalk g u nodes x
      → (k : ℕ) → In u s.seen
      → depth s.prev u ≤ k
      → k + length nodes ≤ suc d
      → In x s.seen
  walk-seen_by d near far s h u x nodes (stay _) k i le short = i
  walk-seen_by d near far s h u x nodes (go {b = b} {path = path} edge w) k i le short =
      elim (h.expanded u b i edge) [
        | inl j ↦
            absurd (omega (arith, IsWalk-nonempty w, waiting-le d near far s u h j, le, short))
        | inr (j, deeper) ↦
            walk-seen_by d near far s h b x path w (suc k) j (omega (arith, deeper, le))
              (omega (arith, short))
      ]

  -- After the scan of the neighbours of `cur`
  pub IsLevel-scan :
      (d : ℕ) (cur : Text) (near far new : List Text) (s t : Search)
      → IsLevel g d (cur ∷ near) far s
      → Layer d (record s { pending = near ++ far }) t new
      → ((x : Text) → In x (neighbours g cur) → In x t.seen)
      → ((x : Text) → In x s.pending → In x s.seen)
      → IsLevel g d near (far ++ new) t
  IsLevel-scan d cur near far new s t h l all queued = record {
    pending = l.pending ∙ append_assoc near far new;
    near_depth =
        All-of_In (λ x. depth t.prev x ≡ d) near
          (λ x i.
            l.same x (queued x (subst (In x) (sym h.pending) (inr (In-append_left x near far i))))
            ∙ All-In (λ y. depth s.prev y ≡ d) x near h.near_depth.1 i);
    far_depth =
        All-append (λ x. depth t.prev x ≡ suc d) far new
          (All-of_In (λ x. depth t.prev x ≡ suc d) far
            (λ x i.
              l.same x
                (queued x (subst (In x) (sym h.pending) (inr (In-append_right x near far i))))
              ∙ All-In (λ y. depth s.prev y ≡ suc d) x far h.far_depth i))
          l.deep;
    shallow = shallow;
    expanded = λ u v i edge. elim ((l.seen u).0 i) [
      | inr j ↦ inl (subst (In u) (sym l.pending) (In-append_right u (near ++ far) new j))
      | inl j ↦ old u v j edge (h.expanded u v j edge)
    ];
  }
    where
      shallow : (x : Text) → In x t.seen → depth t.prev x ≤ suc d
      shallow x i = elim ((l.seen x).0 i) [
        | inl j ↦ omega (arith, l.same x j, h.shallow x j)
        | inr j ↦ omega (arith, All-In (λ y. depth t.prev y ≡ suc d) x new l.deep j)
      ]

      at_cur :
          (u v : Text)
          → In u s.seen
          → In v (neighbours g u)
          → u ≡ cur
          → In v t.seen × (depth t.prev v ≤ suc (depth t.prev u))
      at_cur u v i edge e =
          let there = all v (subst (λ z. In v (neighbours g z)) e edge) in
          (there, omega (arith, shallow v there, l.same u i, ap (depth s.prev) e, h.near_depth.0))

      old :
          (u v : Text)
          → In u s.seen
          → In v (neighbours g u)
          → In u s.pending ⊎ (In v s.seen × (depth s.prev v ≤ suc (depth s.prev u)))
          → In u t.pending ⊎ (In v t.seen × (depth t.prev v ≤ suc (depth t.prev u)))
      old u v i edge (inr (j, le)) =
          inr ((l.seen v).1 (inl j), omega (arith, le, l.same v j, l.same u i))
      old u v i edge (inl j) = elim (subst (In u) h.pending j) [
        | inl e ↦ inr (at_cur u v i edge e)
        | inr k ↦ inl (subst (In u) (sym l.pending) (In-append_left u (near ++ far) new k))
      ]
