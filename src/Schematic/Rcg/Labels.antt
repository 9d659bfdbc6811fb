-- ===== src/Schematic/Rcg/Labels.antt =====
-- `RCGSolver::getShortestPathInRCG`: the distances in topological order, and the way back.
use bao.Prelude.{
  ℕ, zero, suc, ◌+◌, ◌-◌, Bool, true, false, Option, none, some, List, [], ◌∷◌, ◌++◌, ◌==◌,
  if◌then◌else◌, ltb, length, get_elem?,
}
use bao.Schematic.Types.{CfgEdge, candidate_edge, RcgNode, RcgEdge, RcgResult}

-- The edges of `adj_[i]`.
unfoldable pub out_edges : List RcgEdge → ℕ → List RcgEdge
out_edges [] i = []
out_edges (e ∷ es) i = let rest = out_edges es i in if e.source == i then e ∷ rest else rest

-- `dist` is `none` for infinity, the others for -1.
pub record Labels : Type 0 where
  pub dist : ℕ → Option ℕ
  pub pred : ℕ → Option ℕ
  pub pred_edge_idx : ℕ → Option ℕ

unfoldable pub put : ℕ → ℕ → (ℕ → Option ℕ) → ℕ → Option ℕ
put n v f k = if k == n then some v else f k

-- `a < b`, where `b` may be infinite.
abbrev pub is_closer : ℕ → Option ℕ → Bool
is_closer a none = true
is_closer a (some b) = ltb a b

unfoldable pub relax : ℕ → ℕ → ℕ → RcgEdge → Labels → Labels
relax i d idx e l =
    if is_closer (d + e.weight) (l.dist e.target)
    then record {
      dist = put e.target (d + e.weight) l.dist;
      pred = put e.target i l.pred;
      pred_edge_idx = put e.target idx l.pred_edge_idx;
    }
    else l

-- The edges of one node, whose distance is read in each round.
unfoldable pub relax_edges : ℕ → ℕ → List RcgEdge → Labels → Labels
relax_edges i idx [] l = l
relax_edges i idx (e ∷ es) l = elim (l.dist i) [
  | none ↦ l
  | some d ↦ relax_edges i (suc idx) es (relax i d idx e l)
]

-- `count` nodes from `i` on.
unfoldable pub relax_nodes : List RcgEdge → ℕ → ℕ → Labels → Labels
relax_nodes adj i zero l = l
relax_nodes adj i (suc count) l =
    relax_nodes adj (suc i) count (relax_edges i 0 (out_edges adj i) l)

abbrev pub first_labels : Labels
first_labels = record {
  dist = λ n. if n == 0 then some 0 else none;
  pred = λ n. none;
  pred_edge_idx = λ n. none;
}

-- From the last node to the start. Each predecessor has a smaller index, so `n` steps are enough.
unfoldable pub backtrack : Labels → ℕ → ℕ → List ℕ → List ℕ
backtrack l zero n later = n ∷ later
backtrack l (suc less) n later = elim (l.pred n) [
  | none ↦ n ∷ later
  | some p ↦ backtrack l less p (n ∷ later)
]

-- `adj_[from][predEdgeIdx[to]]`
unfoldable pub edge_into : List RcgEdge → Labels → ℕ → ℕ → Option RcgEdge
edge_into adj l from to = elim (l.pred_edge_idx to) [
  | none ↦ none
  | some idx ↦ get_elem? (out_edges adj from) idx
]

-- The edges between the nodes of a path.
unfoldable pub path_edges : List RcgEdge → Labels → List ℕ → List RcgEdge
path_edges adj l [] = []
path_edges adj l (n ∷ []) = []
path_edges adj l (n ∷ m ∷ ns) =
    let rest = path_edges adj l (m ∷ ns) in
    elim (edge_into adj l n m) [ none ↦ rest | some e ↦ e ∷ rest ]

abbrev pub checkpoint_at : List RcgNode → ℕ → List CfgEdge
checkpoint_at nodes n = elim (get_elem? nodes n) [
  | none ↦ []
  | some node ↦ elim node.kind [
    | candidate_edge ↦ elim node.edge [ none ↦ [] | some e ↦ e ∷ [] ]
    | _ ↦ []
  ]
]

-- The entries that the edges add to the result, in order.
unfoldable pub collect : List RcgNode → ℕ → List RcgEdge → RcgResult
collect nodes cost [] = record {
  feasible = true;
  total_cost = cost;
  selected_checkpoints = [];
  allocations = [];
  interval_blocks = [];
}
collect nodes cost (e ∷ es) =
    let rest = collect nodes cost es in
    record {
      feasible = true;
      total_cost = cost;
      selected_checkpoints = checkpoint_at nodes e.target ++ rest.selected_checkpoints;
      allocations = e.allocation ∷ rest.allocations;
      interval_blocks = e.blocks ∷ rest.interval_blocks;
    }

unfoldable pub get_shortest_path_in_rcg : List RcgNode → List RcgEdge → RcgResult
unfolding relax_nodes relax_edges relax out_edges put backtrack path_edges collect edge_into
get_shortest_path_in_rcg nodes adj =
    let end = length nodes - 1 in
    let l = relax_nodes adj 0 (length nodes) first_labels in
    elim (l.dist end) [
      | none ↦ record {
        feasible = false;
        total_cost = 0;
        selected_checkpoints = [];
        allocations = [];
        interval_blocks = [];
      }
      | some cost ↦ collect nodes cost (path_edges adj l (backtrack l end end []))
    ]
