-- ===== src/Graph/ShortestPath/Ends.antt =====
-- The search ends, with a walk of the graph just where there is one.
use helios_net.Prelude.{
  ℕ, zero, suc, ◌+◌, ◌≤◌, ◌≡◌, refl, sym, ap, subst, ◌∙◌, ◌⊎◌, inl, inr, true, false, List, [], ◌∷◌,
  ◌++◌, map, length, length-append, In, Unique, arith, leb, ◌-◌, Bool-cases,
}
use helios_net.Prelude.SortedSets.{length-Unique}
use helios_net.Prelude.Text.{Text, eqb_text, eqb_text_refl}
use helios_net.Graph.{AssetGraph, neighbours}
use helios_net.Prelude.TextOrder.{eqb_text-cases}
use helios_net.Graph.WellFormed.{In-neighbours, in_nodes-In, length-map_id}
use helios_net.Graph.ShortestPath.{
  Route, route, no_route, Prev, Search, Scan, going, arrived, scan, path_loop, then_loop,
  search_loop, shortest_path_python,
}
use helios_net.Graph.ShortestPath.Rebuild.{
  keys, IsLinked, IsWalk, depth, depth-source, stay, go, path_loop-IsWalk,
}
use helios_net.Graph.ShortestPath.Levels.{
  IsLevel, IsLevel-next, IsLevel-scan, Layered, scan-Layered, walk-seen_by, IsWalk-nonempty,
}
use helios_net.Graph.ShortestPath.Invariant.{IsSearch, Scanned, scan-Scanned}

le_cases : (a b : ℕ) → (a ≤ b) ⊎ (suc b ≤ a)
le_cases a b = elim (Bool-cases (leb a b)) [
  | inl e ↦ inl (ground (arith, e))
  | inr e ↦ inr (ground (arith, e))
]

module _ (g : AssetGraph) (source target : Text) where
  keys-Unique : (prev : Prev) → IsLinked g source prev → Unique (keys prev)
  keys-Unique [] h = tt
  keys-Unique ((n, p) ∷ prev) h = (h.1, keys-Unique prev h.4)

  keys-In_nodes :
      (prev : Prev)
      → IsLinked g source prev
      → (x : Text) → In x (keys prev)
      → In x (map (λ m. m.id) g.nodes)
  keys-In_nodes [] h x i = absurd i
  keys-In_nodes ((n, p) ∷ prev) h x (inl e) =
      subst (λ z. In z (map (λ m. m.id) g.nodes)) (sym e)
        (in_nodes-In g.nodes n ((In-neighbours g p n).0 h.2).2)
  keys-In_nodes ((n, p) ∷ prev) h x (inr i) = keys-In_nodes prev h.4 x i

  length-seen : (s : Search) → IsSearch g source target s → length s.seen ≤ suc (length g.nodes)
  length-seen s h =
      let few =
        length-Unique (keys s.prev) (map (λ m. m.id) g.nodes) (keys-Unique s.prev h.linked)
          (keys-In_nodes s.prev h.linked) in
      omega (
        arith,
        few,
        length-map_id g.nodes,
        ap length h.seen_eq,
        length-append (keys s.prev) (source ∷ []),
      )

  -- The search returns a walk that no other walk is shorter than, or nothing where there is none.
  pub Answers : Route → Type 0
  Answers (route nodes) =
      IsWalk g source nodes target
      × ((others : List Text) → IsWalk g source others target → length nodes ≤ length others)
  Answers no_route = (nodes : List Text) → ¬ IsWalk g source nodes target
  Answers _ = ⊥

  -- The queue is sorted by the distance from the source.
  abbrev HasLevel : Search → Type 0
  HasLevel s = (d : ℕ) × (near : List Text) × (far : List Text) × IsLevel g d near far s

  abbrev Front : Search → Type 0
  Front s =
      (d : ℕ) × (cur : Text) × (near : List Text) × (far : List Text) × (s.pending
        ≡ cur ∷ (near ++ far))
      × IsLevel g d (cur ∷ near) far s

  front : (s : Search) → HasLevel s → (s.pending ≡ []) ⊎ Front s
  front s (d, [], [], h) = inl h.pending
  front s (d, [], x ∷ far, h) =
      let n = IsLevel-next g d (x ∷ far) s h in inr (suc d, x, far, [], n.pending, n)
  front s (d, x ∷ near, far, h) = inr (d, x, near, far, h.pending, h)

  walk-seen :
      (s : Search)
      → HasLevel s
      → s.pending ≡ []
      → (u : Text) (nodes : List Text) → IsWalk g u nodes target
      → In u s.seen
      → In target s.seen
  walk-seen s l e u nodes (stay _) i = i
  walk-seen s l e u nodes (go {b = b} {path = path} edge w) i = elim (l.3.expanded u b i edge) [
    | inl j ↦ absurd (subst (In u) e j)
    | inr j ↦ walk-seen s l e b path w j.0
  ]

  -- The rounds that are left are enough for the nodes that have not left the queue.
  abbrev HasFuel : ℕ → Search → Type 0
  HasFuel fuel s = suc (length g.nodes) + length s.pending ≤ fuel + length s.seen

  exhausted :
      (s : Search)
      → IsSearch g source target s
      → HasLevel s
      → s.pending ≡ []
      → In source s.seen
      → Answers no_route
  unfolding Answers
  exhausted s h l e i nodes w = h.missing (walk-seen s l e source nodes w i)

  rebuilt :
      (prev : Prev) (d : ℕ)
      → IsLinked g source prev
      → In target (keys prev)
      → depth prev target ≡ suc d
      → ((others : List Text) → IsWalk g source others target → suc d ≤ length others - 1)
      → Answers (path_loop source prev (length prev) target [])
  unfolding Answers
  rebuilt prev d h i deep least =
      let (nodes, e, w, count) =
        path_loop-IsWalk g source prev prev h (λ x j. refl) (length prev) (omega arith) target
          target [] (inr i) (stay target) in
      subst Answers (sym e) (w, λ others v. omega (arith, count, deep, least others v))

  -- No walk of at most `d` edges leads to the target, which is not seen.
  least_walk :
      (s : Search) (d : ℕ) (near far : List Text)
      → IsSearch g source target s
      → IsLevel g d near far s
      → In source s.seen
      → (others : List Text) → IsWalk g source others target
      → suc d ≤ length others - 1
  least_walk s d near far h l i others w = elim (le_cases (length others) (suc d)) [
    | inl short ↦ absurd (
        h.missing (
          walk-seen_by g d near far s l source target others w 0 i
            (omega (arith, depth-source g source s.prev h.linked)) (omega (arith, short))))
    | inr long ↦ omega (arith, long)
  ]

  search-Answers :
      (fuel : ℕ) (s : Search)
      → IsSearch g source target s
      → HasLevel s
      → HasFuel fuel s
      → In source s.seen
      → Answers (search_loop g source target fuel s)
  unfolding search_loop Layered
  search-Answers zero s h l n i = elim (front s l) [
    | inl e ↦ rw e (exhausted s h l e i)
    | inr (d, cur, near, far, e, level) ↦ absurd (omega (arith, n, length-seen s h, ap length e))
  ]
  search-Answers (suc fuel) s h l n i = elim (front s l) [
    | inl e ↦ rw e (exhausted s h l e i)
    | inr (d, cur, near, far, e, level) ↦
        let popped : Search = record s { pending = near ++ far } in
        let ok : IsSearch g source target popped = record {
          seen_eq = h.seen_eq;
          linked = h.linked;
          missing = h.missing;
          queued = λ x j. h.queued x (subst (In x) (sym e) (inr j));
        } in
        let seen : In cur s.seen = h.queued cur (subst (In cur) (sym e) (inl refl)) in
        rw e (
          next d cur near far e level (scan target cur (neighbours g cur) popped)
            (scan-Scanned g source target (neighbours g cur) popped cur ok seen (λ x j. j))
            (scan-Layered target d cur (neighbours g cur) popped seen level.near_depth.0)
            (search-Answers fuel))
  ]
    where
      next :
          (d : ℕ) (cur : Text) (near far : List Text)
          → s.pending ≡ cur ∷ (near ++ far)
          → IsLevel g d (cur ∷ near) far s
          → (r : Scan)
          → Scanned g source target (record s { pending = near ++ far }) (neighbours g cur) r
          → Layered target d (record s { pending = near ++ far }) r
          → ((t : Search)
              → IsSearch g source target t
              → HasLevel t
              → HasFuel fuel t
              → In source t.seen
              → Answers (search_loop g source target fuel t))
          → Answers (then_loop source target r (search_loop g source target fuel))
      next d cur near far e level (arrived prev) k deep rec =
          unfold then_loop Scanned in
          rebuilt prev d k.0 k.1 deep (least_walk s d (cur ∷ near) far h level i)
      next d cur near far e level (going t) k (new, layer) rec =
          unfold then_loop Scanned in
          rec t k.0
            (d, near, far ++ new, IsLevel-scan g d cur near far new s t level layer k.2 h.queued)
            (omega (arith, n, k.1.balance, ap length e)) (k.1.seen source i)

-- The search from one node of a graph to another ends, and returns the nodes of a walk from the one
-- to the other that no other walk is shorter than, or `None` where there is no walk.
pub shortest_path_python-Answers :
    (g : AssetGraph) (source target : Text)
    → Answers g source target (shortest_path_python g source target)
unfolding shortest_path_python
shortest_path_python-Answers g source target = elim (eqb_text-cases source target) [
  | inl e ↦ rw (e, eqb_text_refl target) (unfold Answers in (stay target, λ others w. nonempty w))
  | inr e ↦ rw e (
      search-Answers g source target (suc (length g.nodes)) start
        (record {
          seen_eq = refl;
          linked = tt;
          missing = λ i. elim i [
            | inl f ↦ clash (sym (eqb_text_refl source) ∙ ap (eqb_text source) (sym f) ∙ e)
            | inr j ↦ j
          ];
          queued = λ x i. i;
        })
        (
          0,
          source ∷ [],
          [],
          record {
            pending = refl;
            near_depth = (refl, tt);
            far_depth = tt;
            shallow = λ x i. omega arith;
            expanded = λ u v i edge. inl i;
          },
        )
        (omega arith) (inl refl))
]
  where
    start : Search
    start = record { seen = source ∷ []; prev = []; pending = source ∷ [] }

    clash : ¬ (true ≡ false)
    clash h = ground arith

    nonempty : {a b : Text} {nodes : List Text} → IsWalk g a nodes b → 1 ≤ length nodes
    nonempty w = IsWalk-nonempty g w
