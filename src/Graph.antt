-- ===== src/Graph.antt =====
-- The depth-first search that looks for a cycle of predecessors, as `has_cycle` of
-- apps/api/src/app/domain/readiness.py and `_validate_task_graph` of
-- apps/api/src/app/simulation/engine.py write it. A set is a list of its members; the set of
-- visiting nodes is restored whenever a call returns without a cycle.
pub mod Paths
pub mod Fuel
pub mod Decision
pub mod Order
use intelliq.Prelude.{ℕ, zero, suc, string_eq, [], String, true, false, List, ◌∷◌, mem}

-- How a visit ends; `done` has the nodes that are visited, latest first.
pub data Search : Type 0 where
  done : List String → Search
  cycle out_of_fuel : Search

-- A loop over nodes that stops at the first visit that does not return.
unfoldable pub each : (String → List String → Search) → List String → List String → Search
each visit [] visited = done visited
each visit (p ∷ ps) visited = elim (visit p visited) [
  | done visited' ↦ each visit ps visited'
  | cycle ↦ cycle
  | out_of_fuel ↦ out_of_fuel
]

abbrev pub finished : String → Search → Search
finished id (done visited) = done (id ∷ visited)
finished id cycle = cycle
finished id out_of_fuel = out_of_fuel

module _ (edges : String → List String) where
  unfoldable pub visit : ℕ → List String → String → List String → Search
  unfolding each
  visit zero visiting id visited = out_of_fuel
  visit (suc n) visiting id visited = elim (mem id visiting) [
    | true ↦ cycle
    | false ↦ elim (mem id visited) [
      | true ↦ done visited
      | false ↦ finished id (each (visit n (id ∷ visiting)) (edges id) visited)
    ]
  ]

  -- The search from every node.
  unfoldable pub search : ℕ → List String → Search
  unfolding visit each
  search n nodes = each (visit n []) nodes []
