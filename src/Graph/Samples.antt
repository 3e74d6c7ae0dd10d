-- ===== src/Graph/Samples.antt =====
-- A host with two services, and the theorems of the graph at it.
use helios_net.Prelude.{◌≡◌, refl, none, some, List, [], ◌∷◌}
use helios_net.Prelude.Text.{Text, codes}
use helios_net.Graph.{AssetGraph, Finding, ingest, empty_graph, neighbours}
use helios_net.Graph.ShortestPath.{route, no_route, shortest_path_python}
use helios_net.Graph.ShortestPath.Ends.{Answers, shortest_path_python-Answers}
use helios_net.Graph.Components.{connected_components}
use helios_net.Graph.Components.Partition.{IsPartition, connected_components-IsPartition}

abbrev finding : Text → Text → Finding
finding port name = record {
  module_name = some (codes "discovery");
  host = some (codes "h");
  service_name = some name;
  port = some port;
  subdomain = none;
}

abbrev findings : List Finding
findings = finding (codes "22") (codes "ssh") ∷ finding (codes "80") (codes "http") ∷ []

abbrev host_node : Text
host_node = codes "host:h"

abbrev ssh_node : Text
ssh_node = codes "svc:h:22/ssh"

abbrev http_node : Text
http_node = codes "svc:h:80/http"

abbrev graph : AssetGraph
graph = (ingest empty_graph 0 findings).0

between_services :
    shortest_path_python graph ssh_node http_node ≡ route (ssh_node ∷ host_node ∷ http_node ∷ [])
unfolding shortest_path_python ingest
between_services = refl

to_nowhere : shortest_path_python graph ssh_node (codes "x") ≡ no_route
unfolding shortest_path_python ingest
to_nowhere = refl

host_neighbours : neighbours graph host_node ≡ ssh_node ∷ http_node ∷ []
unfolding neighbours ingest
host_neighbours = refl

-- A second host without a service, put first
abbrev two_hosts : List Finding
two_hosts =
    record {
      module_name = some (codes "discovery");
      host = some (codes "a");
      service_name = some (codes "dns");
      port = none;
      subdomain = none;
    }
    ∷ findings

components_graph :
    connected_components (ingest empty_graph 0 two_hosts).0
    ≡ some
        ((host_node ∷ ssh_node ∷ http_node ∷ []) ∷ (codes "host:a" ∷ codes "svc:a:0/dns" ∷ []) ∷ [])
unfolding connected_components ingest
components_graph = refl

connected_components-IsPartition_example :
    IsPartition
      (ingest empty_graph 0 two_hosts).0
      (connected_components (ingest empty_graph 0 two_hosts).0)
connected_components-IsPartition_example = connected_components-IsPartition two_hosts

shortest_path_python-Answers_example :
    Answers graph ssh_node http_node (shortest_path_python graph ssh_node http_node)
shortest_path_python-Answers_example = shortest_path_python-Answers graph ssh_node http_node
