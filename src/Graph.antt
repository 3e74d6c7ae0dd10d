-- ===== src/Graph.antt =====
-- engine/graph/core.py: the asset graph, its neighbours in their canonical order, and `ingest`.
pub mod ShortestPath
pub mod Components
pub mod Samples
pub mod Adjacency
pub mod WellFormed
use helios_net.Prelude.{
  ℕ, suc, ◌+◌, Bool, false, not, ◌&&◌, if◌then◌else◌, leb, Option, none, some, List, [], ◌∷◌, ◌++◌,
  any, keep,
}
use helios_net.Prelude.Sort.{sort_by}
use helios_net.Prelude.Text.{Text, eqb_text, codes}
use helios_net.Prelude.Eq.{text_eq, pair_eq}
use helios_net.Prelude.Sets.{set_add}

-- The keyword arguments of `add_node`
pub data Meta : Type 0 where
  no_meta : Meta
  ip fqdn : Text → Meta
  service : Option Text → Text → Meta

pub record Node : Type 0 where
  pub id : Text
  pub kind : Text
  pub meta : Meta

-- `nodes` and `adj` are dictionaries in insertion order; the lists of `adj` and `edges` are sets.
pub record AssetGraph : Type 0 where
  pub nodes : List Node
  pub adj : List (Text × List Text)
  pub edges : List (Text × Text)

abbrev pub empty_graph : AssetGraph
empty_graph = record { nodes = []; adj = []; edges = [] }

abbrev pub has_id : Text → Node → Bool
has_id n node = eqb_text n node.id

-- `n in self.nodes`
abbrev pub in_nodes : List Node → Text → Bool
in_nodes nodes n = any (has_id n) nodes

-- `self.nodes[node.id] = node`
unfoldable pub put_node : List Node → Node → List Node
put_node [] node = node ∷ []
put_node (m ∷ nodes) node =
    let rest = put_node nodes node in if eqb_text node.id m.id then node ∷ nodes else m ∷ rest

unfoldable pub add_node : AssetGraph → Text → Text → Meta → AssetGraph
unfolding put_node
add_node g node_id kind meta = record g {
  nodes = put_node g.nodes (record { id = node_id; kind = kind; meta = meta });
}

-- `self.nodes.setdefault(n, {"id": n, "kind": "asset"})`
unfoldable pub default_node : List Node → Text → List Node
default_node nodes n =
    if in_nodes nodes n
    then nodes
    else nodes ++ record { id = n; kind = codes "asset"; meta = no_meta } ∷ []

-- `self.adj.get(n, ())`
unfoldable pub adj_of : List (Text × List Text) → Text → List Text
adj_of [] n = []
adj_of ((m, ns) ∷ adj) n = let rest = adj_of adj n in if eqb_text n m then ns else rest

-- `self.adj[n]` on the default dictionary, which makes an empty set
unfoldable pub adj_touch : List (Text × List Text) → Text → List (Text × List Text)
adj_touch [] n = (n, []) ∷ []
adj_touch ((m, ns) ∷ adj) n =
    let rest = adj_touch adj n in if eqb_text n m then (m, ns) ∷ adj else (m, ns) ∷ rest

-- `self.adj[a].add(b)`
unfoldable pub adj_add : List (Text × List Text) → Text → Text → List (Text × List Text)
unfolding set_add
adj_add [] a b = (a, b ∷ []) ∷ []
adj_add ((m, ns) ∷ adj) a b =
    let rest = adj_add adj a b in if eqb_text a m then (m, set_add ns b) ∷ adj else (m, ns) ∷ rest

unfoldable pub add_edge : AssetGraph → Text → Text → AssetGraph
unfolding default_node adj_touch adj_add set_add
add_edge g a b = record {
  nodes = default_node (default_node g.nodes a) b;
  adj = adj_add (adj_add (adj_touch (adj_touch g.adj a) b) a b) b a;
  edges = set_add g.edges (a, b);
}

-- `index.get(n, len(index))` for the index of `_index`
unfoldable pub index_of : List Node → Text → ℕ
index_of [] n = 0
index_of (m ∷ nodes) n = let rest = index_of nodes n in if eqb_text n m.id then 0 else suc rest

-- `_neighbours`
unfoldable pub neighbours : AssetGraph → Text → List Text
unfolding adj_of index_of sort_by
neighbours g node_id =
    sort_by (λ a b. leb (index_of g.nodes a) (index_of g.nodes b))
      (keep (λ nb. not (eqb_text nb node_id) && in_nodes g.nodes nb) (adj_of g.adj node_id))

-- A finding, with its values as they print; a missing key is `none`.
pub record Finding : Type 0 where
  pub module_name : Option Text
  pub host : Option Text
  pub service_name : Option Text
  pub port : Option Text
  pub subdomain : Option Text

-- What `ingest` reads out of a finding
pub data Reading : Type 0 where
  runs : Text → Text → Reading
  names : Text → Reading
  skipped : Reading

unfoldable pub is_value : Option Text → Text → Bool
is_value none s = false
is_value (some t) s = eqb_text t s

-- `f.get("host") and f.get("service")`
unfoldable pub read_service : Option Text → Option Text → Reading
read_service none s = skipped
read_service (some []) s = skipped
read_service (some (a ∷ h)) none = skipped
read_service (some (a ∷ h)) (some []) = skipped
read_service (some (a ∷ h)) (some (b ∷ s)) = runs (a ∷ h) (b ∷ s)

unfoldable pub read_subdomain : Option Text → Reading
read_subdomain none = skipped
read_subdomain (some []) = skipped
read_subdomain (some (a ∷ s)) = names (a ∷ s)

-- The second test of the loop is tried where the first one fails.
unfoldable pub reading : Finding → Reading
unfolding is_value read_service read_subdomain
reading f =
    if is_value f.module_name (codes "discovery")
    then read_service f.host f.service_name
    else if is_value f.module_name (codes "dns_enum")
    then read_subdomain f.subdomain
    else skipped

-- `f.get("port", 0)` in the name of a service
unfoldable pub port_text : Option Text → Text
port_text none = codes "0"
port_text (some p) = p

abbrev pub host_id : Text → Text
host_id h = codes "host:" ++ h

unfoldable pub service_id : Text → Option Text → Text → Text
unfolding port_text
service_id h port s = codes "svc:" ++ (h ++ (codes ":" ++ (port_text port ++ (codes "/" ++ s))))

-- The body of the loop of `ingest`: the graph and what is added to `added`
unfoldable pub ingest_reading : AssetGraph → Option Text → Reading → AssetGraph × ℕ
unfolding add_node add_edge service_id
ingest_reading g port skipped = (g, 0)
ingest_reading g port (names s) = (add_node g (codes "sub:" ++ s) (codes "subdomain") (fqdn s), 1)
ingest_reading g port (runs h s) =
    let svc = service_id h port s in
    let g1 = add_node g (host_id h) (codes "host") (ip h) in
    let g2 = add_node g1 svc (codes "service") (service port s) in (add_edge g2 (host_id h) svc, 1)

unfoldable pub ingest : AssetGraph → ℕ → List Finding → AssetGraph × ℕ
unfolding reading ingest_reading
ingest g added [] = (g, added)
ingest g added (f ∷ findings) =
    let step = ingest_reading g f.port (reading f) in ingest step.0 (added + step.1) findings
