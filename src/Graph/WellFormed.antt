-- ===== src/Graph/WellFormed.antt =====
-- The asset graph is undirected, and every edge leads between nodes: an invariant of its operations.
use mathlib.Core.List.Permᴰ
use helios_net.Prelude.{
  ap, map, length, suc, ℕ, ◌≡◌, ◌≢◌, refl, sym, subst, ◌∙◌, ◌↔◌, ◌⊎◌, inl, inr, true, not,
  Bool-cases, Option, List, [], ◌∷◌, ◌++◌, keep, In, ◌&&◌, ◌||◌, In-keep, keep-In, In-perm,
  In-append_left, In-append_right, any→In, In→any, arith,
}
use helios_net.Prelude.Sort.{sort_by-perm}
use helios_net.Prelude.Text.{Text, eqb_text, eqb_text_refl, eqb_text→eq}
use helios_net.Graph.{
  AssetGraph, Node, Meta, in_nodes, has_id, put_node, add_node, default_node, adj_of, adj_touch,
  adj_add, add_edge, neighbours, Finding, Reading, runs, names, skipped, reading, ingest_reading,
  ingest, empty_graph,
}
use helios_net.Prelude.TextOrder.{eqb_text-cases, eqb_text-false}
use helios_net.Graph.Adjacency.{adj_of-adj_touch, In-adj_add}

pub in_nodes-In :
    (nodes : List Node) (n : Text) → in_nodes nodes n ≡ true → In n (map (λ m. m.id) nodes)
in_nodes-In [] n h = ground arith
in_nodes-In (m ∷ nodes) n h = elim (eqb_text-cases n m.id) [
  | inl e ↦ inl e
  | inr e ↦ inr (in_nodes-In nodes n (rw e at h))
]

pub length-map_id : (nodes : List Node) → length (map (λ m. m.id) nodes) ≡ length nodes
length-map_id [] = refl
length-map_id (m ∷ nodes) = ap suc (length-map_id nodes)

in_nodes-append :
    (nodes : List Node) (node : Node) (n : Text)
    → in_nodes nodes n ≡ true
    → in_nodes (nodes ++ node ∷ []) n ≡ true
in_nodes-append nodes node n h =
    let (m, i, e) = any→In (has_id n) nodes h in
    In→any (has_id n) m (nodes ++ node ∷ []) (In-append_left m nodes (node ∷ []) i) e

in_nodes-put_node :
    (nodes : List Node) (node : Node) (n : Text)
    → in_nodes nodes n ≡ true
    → in_nodes (put_node nodes node) n ≡ true
unfolding put_node
in_nodes-put_node [] node n h = ground arith
in_nodes-put_node (m ∷ nodes) node n h = elim (Bool-cases (eqb_text node.id m.id)) [
  | inl e ↦
      rw e
        (subst (λ z. eqb_text n z || in_nodes nodes n ≡ true) (sym (eqb_text→eq node.id m.id e)) h)
  | inr e ↦ rw e (ground (arith, in_nodes-put_node nodes node n))
]

default_node-keeps :
    (nodes : List Node) (a n : Text)
    → in_nodes nodes n ≡ true
    → in_nodes (default_node nodes a) n ≡ true
unfolding default_node
default_node-keeps nodes a n h = elim (Bool-cases (in_nodes nodes a)) [
  | inl e ↦ rw e h
  | inr e ↦ rw e (in_nodes-append nodes _ n h)
]

default_node-has : (nodes : List Node) (a : Text) → in_nodes (default_node nodes a) a ≡ true
unfolding default_node
default_node-has nodes a = elim (Bool-cases (in_nodes nodes a)) [
  | inl e ↦ rw e e
  | inr e ↦ rw e (
      In→any (has_id a) _ (nodes ++ _ ∷ []) (In-append_right _ nodes (_ ∷ []) (inl refl))
        (eqb_text_refl a))
]

-- Adjacency is symmetric, and leads to nodes only.
pub record IsWellFormed (g : AssetGraph) : Type 0 where
  pub symmetric : (a b : Text) → In b (adj_of g.adj a) → In a (adj_of g.adj b)
  pub closed : (a b : Text) → In b (adj_of g.adj a) → in_nodes g.nodes b ≡ true

add_node-IsWellFormed :
    (g : AssetGraph) (n kind : Text) (meta : Meta)
    → IsWellFormed g
    → IsWellFormed (add_node g n kind meta)
unfolding add_node
add_node-IsWellFormed g n kind meta h = record {
  symmetric = h.symmetric;
  closed = λ a b i. in_nodes-put_node g.nodes _ b (h.closed a b i);
}

-- The sets of a graph after an edge
In-add_edge :
    (g : AssetGraph) (a b n x : Text)
    → In x (adj_of (add_edge g a b).adj n)
      ↔ (In x (adj_of g.adj n) ⊎ ((n ≡ a) × (x ≡ b) ⊎ (n ≡ b) × (x ≡ a)))
unfolding add_edge
In-add_edge g a b n x =
    let touched = adj_touch (adj_touch g.adj a) b in
    let second = In-adj_add (adj_add touched a b) b a n x in
    let first = In-adj_add touched a b n x in
    let same : adj_of touched n ≡ adj_of g.adj n =
      adj_of-adj_touch (adj_touch g.adj a) b n ∙ adj_of-adj_touch g.adj a n in
    (
      λ i. elim (second.0 i) [
        | inl j ↦ elim (first.0 j) [ inl k ↦ inl (subst (In x) same k) | inr e ↦ inr (inl e) ]
        | inr e ↦ inr (inr e)
      ],
      λ i. elim i [
        | inl k ↦ second.1 (inl (first.1 (inl (subst (In x) (sym same) k))))
        | inr (inl e) ↦ second.1 (inl (first.1 (inr e)))
        | inr (inr e) ↦ second.1 (inr e)
      ],
    )

add_edge-IsWellFormed :
    (g : AssetGraph) (a b : Text) → IsWellFormed g → IsWellFormed (add_edge g a b)
add_edge-IsWellFormed g a b h = record {
  symmetric = λ m n i. (In-add_edge g a b n m).1 (elim ((In-add_edge g a b m n).0 i) [
    | inl j ↦ inl (h.symmetric m n j)
    | inr (inl e) ↦ inr (inr (e.1, e.0))
    | inr (inr e) ↦ inr (inl (e.1, e.0))
  ]);
  closed = λ m n i. elim ((In-add_edge g a b m n).0 i) [
    | inl j ↦ kept n (h.closed m n j)
    | inr (inl e) ↦ subst (λ z. in_nodes (add_edge g a b).nodes z ≡ true) (sym e.1) right
    | inr (inr e) ↦ subst (λ z. in_nodes (add_edge g a b).nodes z ≡ true) (sym e.1) left
  ];
}
  where
    kept : (n : Text) → in_nodes g.nodes n ≡ true → in_nodes (add_edge g a b).nodes n ≡ true
    kept n k = unfold add_edge in default_node-keeps _ b n (default_node-keeps g.nodes a n k)

    right : in_nodes (add_edge g a b).nodes b ≡ true
    right = unfold add_edge in default_node-has (default_node g.nodes a) b

    left : in_nodes (add_edge g a b).nodes a ≡ true
    left = unfold add_edge in default_node-keeps _ b a (default_node-has g.nodes a)

ingest_reading-IsWellFormed :
    (g : AssetGraph) (port : Option Text) (r : Reading)
    → IsWellFormed g
    → IsWellFormed (ingest_reading g port r).0
unfolding ingest_reading
ingest_reading-IsWellFormed g port skipped h = h
ingest_reading-IsWellFormed g port (names s) h = add_node-IsWellFormed g _ _ _ h
ingest_reading-IsWellFormed g port (runs host s) h =
    add_edge-IsWellFormed _ _ _ (add_node-IsWellFormed _ _ _ _ (add_node-IsWellFormed g _ _ _ h))

-- Building from findings keeps adjacency symmetric and between nodes of the graph.
pub ingest-IsWellFormed :
    (findings : List Finding) (g : AssetGraph) (added : ℕ)
    → IsWellFormed g
    → IsWellFormed (ingest g added findings).0
unfolding ingest
ingest-IsWellFormed [] g added h = h
ingest-IsWellFormed (f ∷ findings) g added h =
    ingest-IsWellFormed findings _ _ (ingest_reading-IsWellFormed g f.port (reading f) h)

-- The neighbours of a node are the nodes beside itself that its set holds.
pub In-neighbours :
    (g : AssetGraph) (a b : Text)
    → In b (neighbours g a) ↔ (In b (adj_of g.adj a) × (b ≢ a) × (in_nodes g.nodes b ≡ true))
unfolding neighbours
In-neighbours g a b =
    let test = λ (nb : Text). not (eqb_text nb a) && in_nodes g.nodes nb in
    let perm = sort_by-perm _ (keep test (adj_of g.adj a)) in
    (
      λ i.
          let (j, e) = In-keep b test (adj_of g.adj a) (In-perm b perm i) in
          (j, eqb_text-false b a (ground (arith, e)), ground (arith, e)),
      λ h. In-perm b (Permᴰ.symm perm) (keep-In b test (adj_of g.adj a) h.0 (passes h.1 h.2)),
    )
  where
    passes : b ≢ a → in_nodes g.nodes b ≡ true → not (eqb_text b a) && in_nodes g.nodes b ≡ true
    passes n e = elim (eqb_text-cases b a) [ inl f ↦ absurd (n f) | inr f ↦ rw (f, e) refl ]

-- In a graph built from findings by `ingest`, being neighbours is symmetric among its nodes, and
-- every neighbour is a node.
pub neighbours-symmetric :
    (findings : List Finding) (a b : Text)
    → In b (neighbours (ingest empty_graph 0 findings).0 a)
    → (in_nodes (ingest empty_graph 0 findings).0.nodes b ≡ true)
      × (in_nodes (ingest empty_graph 0 findings).0.nodes a ≡ true)
      × In a (neighbours (ingest empty_graph 0 findings).0 b)
neighbours-symmetric findings a b i =
    let g = (ingest empty_graph 0 findings).0 in
    let ok = ingest-IsWellFormed findings empty_graph 0 blank in
    let (j, n, e) = (In-neighbours g a b).0 i in
    let back = ok.symmetric a b j in
    let here = ok.closed b a back in
    (e, here, (In-neighbours g b a).1 (back, (λ f. n (sym f)), here))
  where
    blank : IsWellFormed empty_graph
    blank = unfold adj_of in record { symmetric = λ x y k. absurd k; closed = λ x y k. absurd k }
