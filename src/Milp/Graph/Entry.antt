-- ===== src/Milp/Graph/Entry.antt =====
-- A search from one node against the paths of the graph: the worklists of
-- passes/src/milp/CheckpointOptimizer.cpp and passes/src/milp/EnergyModel.cpp.
use bao.Prelude.{◌+◌, ◌≡◌, inl, true, [], ◌∷◌, Memᴰ, ==_refl, length, contains, arith}
use bao.Milp.Views.{NodeId}
use bao.Milp.Graph.{Edges, build_successor_map, search}
use bao.Milp.Graph.Closed.{
  mem-build_successor_map, IsClosedOver, search-IsClosedOver, uncovered-le-length,
}

-- Some path along the edges leads from the entry to the block.
pub data IsReachable (es : Edges) (entry : NodeId) : NodeId → Type 0 where
  at_entry : IsReachable es entry entry
  step : (a b : NodeId) → IsReachable es entry a → Memᴰ (a, b) es → IsReachable es entry b

module _ (es : Edges) (entry : NodeId) where
  search-entry :
      IsClosedOver
        (build_successor_map es)
        (entry ∷ [])
        (search (build_successor_map es) (length es + 2) (entry ∷ [], entry ∷ []))
  unfolding contains
  search-entry =
      search-IsClosedOver es (length es + 2) (entry ∷ []) (entry ∷ [])
        (omega (arith, uncovered-le-length es (entry ∷ []))) (λ x y h k. inl h)

  -- The search finds every block that a path leads to: its fuel is enough.
  pub search-IsReachable :
      (b : NodeId)
      → IsReachable es entry b
      → contains (search (build_successor_map es) (length es + 2) (entry ∷ [], entry ∷ [])) b ≡ true
  unfolding contains
  search-IsReachable b at_entry = search-entry.keeps entry (ground (arith, ==_refl entry))
  search-IsReachable b (step a _ r m) =
      search-entry.closed a b (search-IsReachable a r) (mem-build_successor_map es a b m)
