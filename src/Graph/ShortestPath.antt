-- ===== src/Graph/ShortestPath.antt =====
-- `_shortest_path_python` of engine/graph/core.py.
pub mod Rebuild
pub mod Invariant
pub mod Levels
pub mod Ends
use helios_net.Prelude.{
  ℕ, zero, suc, Bool, if◌then◌else◌, Option, none, some, List, [], ◌∷◌, ◌++◌, any, length,
}
use helios_net.Prelude.Text.{Text, eqb_text}
use helios_net.Graph.{AssetGraph, neighbours}

-- What the search returns: a path, or `None`. The others are a `KeyError` of `prev`, and rounds that
-- did not suffice.
pub data Route : Type 0 where
  route : List Text → Route
  no_route key_error out_of_fuel : Route

-- `prev`, with the last entry in front
abbrev pub Prev : Type 0
Prev = List (Text × Text)

-- `prev[n]`
unfoldable pub find_prev : Text → Prev → Option Text
find_prev n [] = none
find_prev n ((m, p) ∷ prev) = let rest = find_prev n prev in if eqb_text n m then some p else rest

-- One `path.append(prev[path[-1]])`, before the rounds after it
unfoldable pub path_step : Option Text → (Text → Route) → Route
path_step none continue = key_error
path_step (some p) continue = continue p

-- `while path[-1] != source`, then `path.reverse()`: `n ∷ path` is the list reversed.
unfoldable pub path_loop : Text → Prev → ℕ → Text → List Text → Route
unfolding find_prev path_step
path_loop source prev zero n path = if eqb_text n source then route (n ∷ path) else out_of_fuel
path_loop source prev (suc fuel) n path =
    let later = path_step (find_prev n prev) (λ p. path_loop source prev fuel p (n ∷ path)) in
    if eqb_text n source then route (n ∷ path) else later

-- `seen`, `prev` and `queue`
pub record Search : Type 0 where
  pub seen : List Text
  pub prev : Prev
  pub pending : List Text

pub data Scan : Type 0 where
  going : Search → Scan
  arrived : Prev → Scan

-- The body of `for nb in self._neighbours(cur)`
unfoldable pub visit : Text → Text → Text → Search → Scan
visit target cur nb s =
    let prev : Prev = (nb, cur) ∷ s.prev in
    if any (eqb_text nb) s.seen
    then going s
    else if eqb_text nb target
    then arrived prev
    else going (record { seen = nb ∷ s.seen; prev = prev; pending = s.pending ++ nb ∷ [] })

unfoldable pub then_scan : Scan → (Search → Scan) → Scan
then_scan (going s) continue = continue s
then_scan (arrived prev) continue = arrived prev

unfoldable pub scan : Text → Text → List Text → Search → Scan
unfolding visit then_scan
scan target cur [] s = going s
scan target cur (nb ∷ nbs) s = then_scan (visit target cur nb s) (scan target cur nbs)

-- What follows the scan of one round
unfoldable pub then_loop : Text → Text → Scan → (Search → Route) → Route
unfolding path_loop
then_loop source target (going s) continue = continue s
then_loop source target (arrived prev) continue = path_loop source prev (length prev) target []

-- `while queue`
unfoldable pub search_loop : AssetGraph → Text → Text → ℕ → Search → Route
unfolding scan then_loop neighbours
search_loop g source target zero s = elim s.pending [ [] ↦ no_route | _ ∷ _ ↦ out_of_fuel ]
search_loop g source target (suc fuel) s = elim s.pending [
  | [] ↦ no_route
  | cur ∷ rest ↦
      then_loop source target (scan target cur (neighbours g cur) (record s { pending = rest }))
        (search_loop g source target fuel)
]

-- Every round takes another node out of the queue, so one round for each node is enough, and one for
-- the source, which need not be a node.
unfoldable pub shortest_path_python : AssetGraph → Text → Text → Route
unfolding search_loop
shortest_path_python g source target =
    if eqb_text source target
    then route (source ∷ [])
    else search_loop g source target (suc (length g.nodes))
        (record { seen = source ∷ []; prev = []; pending = source ∷ [] })
