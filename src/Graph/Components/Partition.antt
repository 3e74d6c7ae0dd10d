-- ===== src/Graph/Components/Partition.antt =====
-- The components of a graph are its classes of connected nodes, and each node stands in one.
use mathlib.Core.List.Permᴰ
use helios_net.Prelude.{
  refl, sym, subst, ◌↔◌, inl, inr, Option, none, some, List, [], ◌∷◌, ◌++◌, append_assoc, map,
  Permᴰ, length, concat, In, In-perm, All, All-perm, Unique, Bool-cases, arith,
}
use helios_net.Prelude.Sort.{IsSorted, IsOrder, sort_by-perm, sort_by-IsSorted}
use helios_net.Prelude.SortedSets.{Unique-perm}
use helios_net.Prelude.Text.{Text}
use helios_net.Prelude.TextOrder.{le_text_total, le_text_trans}
use helios_net.Prelude.Eq.{text_eq}
use helios_net.Prelude.Sets.{mem, mem_iff, mem-false}
use helios_net.Graph.{AssetGraph, Node, Finding, ingest, empty_graph}
use helios_net.Graph.WellFormed.{neighbours-symmetric}
use helios_net.Graph.ShortestPath.Rebuild.{stay}
use helios_net.Graph.Components.{
  Flood, first, le_component, Found, add_component, from_start, then_start, component_loop,
  sorted_components, connected_components,
}
use helios_net.Graph.Components.Reach.{Connected, ids, IsReached, flood-IsReached}
use helios_net.Graph.Components.Classes.{IsSymmetric, IsClass, IsFound, add_component-IsFound}

swap_front : {A : Type 0} (a b l : List A) → Permᴰ (a ++ (b ++ l)) (b ++ (a ++ l))
swap_front a b l =
    subst (λ z. Permᴰ z (b ++ (a ++ l))) (append_assoc a b l)
      (subst (λ z. Permᴰ ((a ++ b) ++ l) z) (append_assoc b a l)
        (Permᴰ.append_right l (Permᴰ.append_comm a b)))

concat-perm : {A : Type 0} {xs ys : List (List A)} → Permᴰ xs ys → Permᴰ (concat xs) (concat ys)
concat-perm Permᴰ.nil = Permᴰ.nil
concat-perm (Permᴰ.cons {a = x} {l₁ = xs} {l₂ = ys} e p) =
    subst (λ z. Permᴰ (x ++ concat xs) (z ++ concat ys)) e (Permᴰ.append_left x (concat-perm p))
concat-perm (Permᴰ.swap {a = a} {b = b} {b' = b'} {l = l} e f) =
    subst (λ z. Permᴰ (a ++ (b ++ concat l)) (z ++ (b' ++ concat l))) f
      (subst (λ z. Permᴰ (a ++ (b ++ concat l)) (b ++ (z ++ concat l))) e
        (swap_front a b (concat l)))
concat-perm (Permᴰ.trans p q) = Permᴰ.trans (concat-perm p) (concat-perm q)

le_component-IsOrder : IsOrder le_component
unfolding le_component
le_component-IsOrder = record {
  total = λ c d h. ground (arith, le_text_total (first c) (first d));
  trans = λ c d e h k. ground (arith, le_text_trans (first c) (first d) (first e));
}

module _ (g : AssetGraph) (symmetric : IsSymmetric g) where
  -- What is seen stays seen, and the start is.
  abbrev Goes : Text → Found → Option Found → Type 0
  Goes start found none = ⊥
  Goes start found (some after) =
      IsFound g symmetric after × ((x : Text) → In x found.0 → In x after.0) × In start after.0

  from_start-Goes :
      (start : Text) (found : Found)
      → In start (ids g)
      → IsFound g symmetric found
      → Goes start found (from_start g start found)
  unfolding from_start
  from_start-Goes start (seen, comps) i h = elim (Bool-cases (mem start seen)) [
    | inl e ↦ rw e (h, λ x j. j, (mem_iff start seen).0 e)
    | inr e ↦ rw e (
        added (mem-false start seen e) _ (
          flood-IsReached g start seen (length g.nodes)
            (record { seen = start ∷ seen; comp = []; pending = start ∷ [] })
            (
              record {
                known = λ x. (
                  λ j. elim j [ inl k ↦ inr (inl k) | inr k ↦ inl k ],
                  λ j. elim j [ inl k ↦ inr k | inr (inl k) ↦ inl k | inr (inr k) ↦ absurd k ],
                );
                fresh = λ x j b. elim j [
                  | inl k ↦ mem-false start seen e (subst (λ z. In z seen) k b)
                  | inr k ↦ k
                ];
                once = (λ k. k, tt);
                reached = λ x j. elim j [
                  | inl k ↦ subst (Connected g start) (sym k) (start ∷ [], stay start)
                  | inr k ↦ absurd k
                ];
                inside = λ x j. elim j [
                  | inl k ↦ subst (λ z. In z (ids g)) (sym k) i
                  | inr k ↦ absurd k
                ];
              },
              λ x y k edge. absurd k,
              inl refl,
            )
            (omega arith)))
  ]
    where
      added :
          (¬ In start seen)
          → (o : Option Flood) → IsReached g start seen o
          → Goes start (seen, comps) (add_component comps o)
      added n none r = absurd r
      added n (some s) r =
          unfold add_component in
          (
            add_component-IsFound g symmetric start seen comps h n s r,
            λ x j. (r.0.known x).1 (inl j),
            r.2,
          )

  -- What the loop leaves
  abbrev Ends : List Node → Found → Option Found → Type 0
  Ends nodes found none = ⊥
  Ends nodes found (some after) =
      IsFound g symmetric after
      × ((x : Text) → In x found.0 → In x after.0)
      × ((x : Text) → In x (map (λ m. m.id) nodes) → In x after.0)

  component_loop-Ends :
      (nodes : List Node) (found : Found)
      → ((x : Text) → In x (map (λ m. m.id) nodes) → In x (ids g))
      → IsFound g symmetric found
      → Ends nodes found (component_loop g nodes found)
  unfolding component_loop
  component_loop-Ends [] found f h = (h, λ x i. i, λ x i. absurd i)
  component_loop-Ends (start ∷ nodes) found f h =
      step (from_start g start.id found) (from_start-Goes start.id found (f start.id (inl refl)) h)
        (λ after k. component_loop-Ends nodes after (λ x i. f x (inr i)) k)
    where
      last :
          (mid : Found)
          → ((x : Text) → In x found.0 → In x mid.0)
          → In start.id mid.0
          → (o : Option Found) → Ends nodes mid o
          → Ends (start ∷ nodes) found o
      last mid grows i none r = r
      last mid grows i (some after) (k, m, n) = (
        k,
        λ x j. m x (grows x j),
        λ x j. elim j [ inl e ↦ m x (subst (λ z. In z mid.0) (sym e) i) | inr l ↦ n x l ],
      )

      step :
          (o : Option Found)
          → Goes start.id found o
          → ((after : Found)
              → IsFound g symmetric after
              → Ends nodes after (component_loop g nodes after))
          → Ends (start ∷ nodes) found (then_start (component_loop g nodes) o)
      step none r rec = absurd r
      step (some mid) (h', grows, i) rec =
          unfold then_start in last mid grows i (component_loop g nodes mid) (rec mid h')

-- The components are classes of connected nodes, the largest first, and equally large ones by their
-- first nodes; they hold each node once.
abbrev pub IsPartition : AssetGraph → Option (List (List Text)) → Type 0
IsPartition g none = ⊥
IsPartition g (some comps) =
    All (IsClass g) comps
    × Unique (concat comps)
    × ((x : Text) → In x (concat comps) ↔ In x (ids g))
    × IsSorted le_component comps

-- In a graph built from findings by `ingest` the search for components in Python ends, and finds the classes of
-- connected nodes, each sorted, the largest first and equally large ones by their first nodes; they
-- hold each node of the graph once.
pub connected_components-IsPartition :
    (findings : List Finding)
    → IsPartition
        (ingest empty_graph 0 findings).0
        (connected_components (ingest empty_graph 0 findings).0)
unfolding connected_components
connected_components-IsPartition findings = result (component_loop g g.nodes ([], [])) (
    component_loop-Ends g symmetric g.nodes ([], []) (λ x i. i)
      (record {
        closed = λ x y i edge. absurd i;
        held = λ x. (λ i. i, λ i. i);
        once = tt;
        inside = λ x i. absurd i;
        classes = tt;
      }))
  where
    g : AssetGraph
    g = (ingest empty_graph 0 findings).0

    symmetric : IsSymmetric g
    symmetric a b i = (neighbours-symmetric findings a b i).2

    result :
        (o : Option Found)
        → Ends g symmetric g.nodes ([], []) o
        → IsPartition g (sorted_components o)
    result none r = absurd r
    result (some (seen, comps)) (h, m, n) =
        let perm = sort_by-perm le_component comps in
        let flat = concat-perm perm in
        unfold sorted_components in
        (
          All-perm (IsClass g) (Permᴰ.symm perm) h.classes,
          Unique-perm (Permᴰ.symm flat) h.once,
          λ x. (
            λ i. h.inside x (In-perm x flat i),
            λ i. In-perm x (Permᴰ.symm flat) ((h.held x).0 (n x i)),
          ),
          sort_by-IsSorted le_component le_component-IsOrder comps,
        )
