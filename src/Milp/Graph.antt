-- ===== src/Milp/Graph.antt =====
-- The graph helpers of passes/src/milp/CheckpointOptimizer.cpp: `buildPredecessorMap`,
-- `buildSuccessorMap` and `computeReachableDefs`.
-- A map from nodes to lists is a function; a node without an entry has the empty list.
pub mod Closed
pub mod Reach
pub mod Entry
use bao.Prelude.{
  ℕ, zero, suc, ◌+◌, Bool, true, false, ◌||◌, List, [], ◌∷◌, ◌++◌, ◌==◌, if◌then◌else◌, length,
  contains,
}
use bao.Milp.Views.{NodeId, Value, MilpInput}

abbrev pub Edges : Type 0
Edges = List (NodeId × NodeId)

unfoldable pub build_predecessor_map : Edges → NodeId → List NodeId
build_predecessor_map [] b = []
build_predecessor_map ((src, dst) ∷ es) b =
    let rest = build_predecessor_map es b in if dst == b then src ∷ rest else rest

unfoldable pub build_successor_map : Edges → NodeId → List NodeId
build_successor_map [] b = []
build_successor_map ((src, dst) ∷ es) b =
    let rest = build_successor_map es b in if src == b then dst ∷ rest else rest

module _ (inp : MilpInput) where
  -- D_{b,v}: the eligible indicator for globals, or else the ineligible one.
  unfoldable pub is_def : NodeId → Value → Bool
  is_def b v =
      (if inp.is_global v then inp.elig_def_indicator b v else false)
      || inp.inelig_def_indicator b v

-- The definition sites.
module _ (is_site : NodeId → Bool) where
  pub seed : List NodeId → List NodeId × List NodeId → List NodeId × List NodeId
  seed [] found = found
  seed (b ∷ bs) (reached, work) = seed bs (
      if is_site b
      then (if contains reached b then (reached, b ∷ work) else (b ∷ reached, b ∷ work))
      else (reached, work))

-- `for (succ : ...) if (reachSet.insert(succ).second) worklist.push_back(succ)`
pub push_new : List NodeId → List NodeId × List NodeId → List NodeId × List NodeId
push_new [] found = found
push_new (b ∷ bs) (reached, work) =
    push_new bs (if contains reached b then (reached, work) else (b ∷ reached, b ∷ work))

-- The worklist loop. It ends when the worklist is empty; see `Closed` for the fuel.
pub search : (NodeId → List NodeId) → ℕ → List NodeId × List NodeId → List NodeId
search succs zero found = found.0
search succs (suc fuel) (reached, []) = reached
search succs (suc fuel) (reached, cur ∷ work) =
    search succs fuel (push_new (succs cur) (reached, work))

-- Reach(v): the blocks that some definition of v reaches.
unfoldable pub compute_reachable_defs : MilpInput → Value → List NodeId
unfolding seed push_new search
compute_reachable_defs inp v =
    search (build_successor_map inp.edges) (length inp.blocks + length inp.edges + 1)
      (seed (λ b. is_def inp b v) inp.blocks ([], []))
