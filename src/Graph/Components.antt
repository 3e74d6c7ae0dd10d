-- ===== src/Graph/Components.antt =====
-- The loops in Python of `connected_components` of engine/graph/core.py.
pub mod Reach
pub mod Classes
pub mod Partition
use helios_net.Prelude.{
  ℕ, zero, suc, Bool, true, ◌&&◌, if◌then◌else◌, ltb, ◌==◌, Option, none, some, List, [], ◌∷◌, ◌++◌,
  length,
}
use helios_net.Prelude.Sort.{sort_by}
use helios_net.Prelude.Text.{Text, le_text}
use helios_net.Prelude.Eq.{text_eq}
use helios_net.Prelude.Sets.{mem}
use helios_net.Graph.{AssetGraph, Node, neighbours}

-- `seen`, `comp` and the queue
pub record Flood : Type 0 where
  pub seen : List Text
  pub comp : List Text
  pub pending : List Text

-- `for nb in self._neighbours(cur)`
unfoldable pub see : List Text → Flood → Flood
see [] s = s
see (nb ∷ nbs) s =
    see nbs
      (if mem nb s.seen then s else record s { seen = nb ∷ s.seen; pending = s.pending ++ nb ∷ [] })

-- A round: the head of the queue, and the rest of it
unfoldable pub flood_node : AssetGraph → Text → List Text → Flood → Flood
unfolding see neighbours
flood_node g cur rest s =
    see (neighbours g cur) (record s { comp = s.comp ++ cur ∷ []; pending = rest })

-- What `while q` does with a queue, given the rounds after this one
unfoldable pub flood_queue : AssetGraph → (Flood → Option Flood) → List Text → Flood → Option Flood
unfolding flood_node
flood_queue g next [] s = some s
flood_queue g next (cur ∷ rest) s = next (flood_node g cur rest s)

-- `while q`; `none` means that the rounds did not suffice. Each round takes another node out of the
-- queue, so that one for each node is enough.
unfoldable pub flood : AssetGraph → ℕ → Flood → Option Flood
unfolding flood_queue
flood g zero s = flood_queue g (λ t. none) s.pending s
flood g (suc fuel) s = flood_queue g (flood g fuel) s.pending s

-- The key `(-len(c), c[0])`; no component is empty.
abbrev pub first : List Text → Text
first [] = []
first (x ∷ c) = x

unfoldable pub le_component : List Text → List Text → Bool
unfolding le_text
le_component c d =
    if ltb (length d) (length c) then true else length c == length d && le_text (first c) (first d)

-- `seen` and `python_comps`
abbrev pub Found : Type 0
Found = List Text × List (List Text)

-- A component is sorted and put behind the others.
unfoldable pub add_component : List (List Text) → Option Flood → Option Found
unfolding sort_by le_text
add_component comps none = none
add_component comps (some s) = some (s.seen, comps ++ sort_by le_text s.comp ∷ [])

-- The body of `for start in self.nodes`
unfoldable pub from_start : AssetGraph → Text → Found → Option Found
unfolding add_component flood
from_start g start (seen, comps) =
    if mem start seen
    then some (seen, comps)
    else add_component comps
        (flood g (length g.nodes) (record { seen = start ∷ seen; comp = []; pending = start ∷ [] }))

unfoldable pub then_start : (Found → Option Found) → Option Found → Option Found
then_start next none = none
then_start next (some found) = next found

unfoldable pub component_loop : AssetGraph → List Node → Found → Option Found
unfolding from_start then_start
component_loop g [] found = some found
component_loop g (start ∷ nodes) found =
    then_start (component_loop g nodes) (from_start g start.id found)

unfoldable pub sorted_components : Option Found → Option (List (List Text))
unfolding sort_by le_component
sorted_components none = none
sorted_components (some (seen, comps)) = some (sort_by le_component comps)

unfoldable pub connected_components : AssetGraph → Option (List (List Text))
unfolding component_loop sorted_components
connected_components g = sorted_components (component_loop g g.nodes ([], []))
