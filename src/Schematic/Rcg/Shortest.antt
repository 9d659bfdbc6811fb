-- ===== src/Schematic/Rcg/Shortest.antt =====
-- The result of `getShortestPathInRCG`, passes/src/schematic/RCGSolver.cpp, against the paths of the
-- graph.
use mathlib.Core.Path.{subst}
use mathlib.Core.List.{append-nil}
use mathlib.Core.Option.{some-injective, none-ne-some}
use bao.Prelude.{
  ℕ, ◌-◌, ◌≤◌, ◌≡◌, refl, sym, ◌∙◌, ap, ◌⊎◌, inl, inr, true, false, Option, none, some, List, [],
  ◌∷◌, ◌++◌, map, flat_map, get_elem?, Option-cases, length, arith,
}
use bao.Schematic.Types.{CfgEdge, start_node, candidate_edge, end_node, RcgNode, RcgEdge, RcgResult}
use bao.Schematic.Rcg.Labels.{
  Labels, relax_nodes, first_labels, backtrack, path_edges, collect, get_shortest_path_in_rcg,
}
use bao.Schematic.Rcg.Relax.{AtMost}
use bao.Schematic.Rcg.Walks.{
  IsForward, IsWalk, walk_weight, IsDone, first-IsDone, relax_nodes-IsDone, dist_le_walk, WayBack,
  backtrack-WayBack,
}

-- What a node of a path adds to the chosen checkpoints: its edge of the program, if it is a candidate.
abbrev pub chosen : Option RcgNode → List CfgEdge
chosen none = []
chosen (some node) = elim node.kind [
  | candidate_edge ↦ elim node.edge [ none ↦ [] | some e ↦ e ∷ [] ]
  | start_node ↦ []
  | end_node ↦ []
]

-- The result is read off a path from the first node to the last: its weight, the blocks and the
-- allocations of its edges, and the checkpoints at its nodes.
pub record ReadsOff (nodes : List RcgNode) (adj : List RcgEdge) (end : ℕ) (r : RcgResult)
    : Type 0 where
  pub walk : List RcgEdge
  pub joins : IsWalk adj 0 walk end
  pub costs : r.total_cost ≡ walk_weight walk
  pub intervals : r.interval_blocks ≡ map (λ e. e.blocks) walk
  pub allocations : r.allocations ≡ map (λ e. e.allocation) walk
  pub checkpoints : r.selected_checkpoints ≡ flat_map (λ e. chosen (get_elem? nodes e.target)) walk

-- A result is right for the graph: it is read off a path, and no path weighs less; or it reports
-- that there is no path, and there is none.
abbrev pub IsLeast : List RcgNode → List RcgEdge → ℕ → RcgResult → Type 0
IsLeast nodes adj end r =
    (r.feasible ≡ true)
      × ReadsOff nodes adj end r
      × ((es : List RcgEdge) → IsWalk adj 0 es end → r.total_cost ≤ walk_weight es)
    ⊎ (r.feasible ≡ false) × ((es : List RcgEdge) → ¬ IsWalk adj 0 es end)

module _ (nodes : List RcgNode) (cost : ℕ) where
  collect-feasible : (es : List RcgEdge) → (collect nodes cost es).feasible ≡ true
  unfolding collect
  collect-feasible [] = refl
  collect-feasible (e ∷ es) = refl

  collect-total_cost : (es : List RcgEdge) → (collect nodes cost es).total_cost ≡ cost
  unfolding collect
  collect-total_cost [] = refl
  collect-total_cost (e ∷ es) = refl

  collect-interval_blocks :
      (es : List RcgEdge) → (collect nodes cost es).interval_blocks ≡ map (λ e. e.blocks) es
  unfolding collect
  collect-interval_blocks [] = refl
  collect-interval_blocks (e ∷ es) = ap (λ xs. e.blocks ∷ xs) (collect-interval_blocks es)

  collect-allocations :
      (es : List RcgEdge) → (collect nodes cost es).allocations ≡ map (λ e. e.allocation) es
  unfolding collect
  collect-allocations [] = refl
  collect-allocations (e ∷ es) = ap (λ xs. e.allocation ∷ xs) (collect-allocations es)

  collect-checkpoints :
      (es : List RcgEdge)
      → (collect nodes cost es).selected_checkpoints
        ≡ flat_map (λ e. chosen (get_elem? nodes e.target)) es
  unfolding collect flat_map
  collect-checkpoints [] = refl
  collect-checkpoints (e ∷ es) =
      ap (λ xs. xs ++ (collect nodes cost es).selected_checkpoints)
        (same (get_elem? nodes e.target))
      ∙ ap (λ xs. chosen (get_elem? nodes e.target) ++ xs) (collect-checkpoints es)
    where
      same :
          (o : Option RcgNode)
          → elim o as (λ x. List CfgEdge) [
            | none ↦ []
            | some node ↦ elim node.kind [
              | candidate_edge ↦ elim node.edge [ none ↦ [] | some c ↦ c ∷ [] ]
              | _ ↦ []
            ]
          ]
            ≡ chosen o
      same none = refl
      same (some node) = refl

collect-IsLeast :
    (adj : List RcgEdge) (end : ℕ) (nodes : List RcgNode) (cost : ℕ) (walk : List RcgEdge)
    → IsWalk adj 0 walk end
    → walk_weight walk ≡ cost
    → ((es : List RcgEdge) → IsWalk adj 0 es end → cost ≤ walk_weight es)
    → IsLeast nodes adj end (collect nodes cost walk)
collect-IsLeast adj end nodes cost walk joins weighs least = inl (
  collect-feasible nodes cost walk,
  record {
    walk = walk;
    joins = joins;
    costs = collect-total_cost nodes cost walk ∙ sym weighs;
    intervals = collect-interval_blocks nodes cost walk;
    allocations = collect-allocations nodes cost walk;
    checkpoints = collect-checkpoints nodes cost walk;
  },
  λ es w. omega (arith, collect-total_cost nodes cost walk, least es w),
)

module _ (nodes : List RcgNode) (adj : List RcgEdge) (forward : IsForward (length nodes) adj) where
  abbrev final : Labels
  final = relax_nodes adj 0 (length nodes) first_labels

  final-IsDone : IsDone adj (length nodes) final
  final-IsDone =
      relax_nodes-IsDone adj (length nodes) forward (length nodes) 0 (length nodes) first_labels
        (omega arith) (first-IsDone adj (length nodes) forward)

  abbrev last : ℕ
  last = length nodes - 1

  final_bound :
      (es : List RcgEdge) → IsWalk adj 0 es last → AtMost (final.dist last) (walk_weight es)
  final_bound es w = subst (AtMost (final.dist last)) (omega arith) (
      dist_le_walk adj (length nodes) forward final final-IsDone es 0 last 0 w
        final-IsDone.zero_dist)

  edges_back :
      (d : ℕ)
      (back : WayBack adj (length nodes) forward final last d [] (backtrack final last last []))
      → path_edges adj final (backtrack final last last []) ≡ back.walk
  unfolding path_edges
  edges_back d back = back.edges ∙ append-nil back.walk

  -- Where every edge leads from a node to a later one, the result is a path of least weight from the
  -- first node to the last, with its weight, intervals and allocations; or it is infeasible, and
  -- there is no path.
  pub get_shortest_path-IsLeast : IsLeast nodes adj last (get_shortest_path_in_rcg nodes adj)
  unfolding get_shortest_path_in_rcg
  get_shortest_path-IsLeast = elim (Option-cases (final.dist last)) [
    | inl far ↦
        rw (far, get_shortest_path_in_rcg)
          (inr (refl, λ es w. let (c, at, le) = final_bound es w in none-ne-some c (sym far ∙ at)))
    | inr (d, at) ↦
        rw (at, get_shortest_path_in_rcg)
          (let back =
              backtrack-WayBack adj (length nodes) forward final final-IsDone last last d [] at
                (omega arith) in
            subst (λ es. IsLeast nodes adj last (collect nodes d es)) (sym (edges_back d back))
              (collect-IsLeast adj last nodes d back.walk back.joins back.weighs (λ es w.
                let (c, at', le) = final_bound es w in
                omega (arith, some-injective c d (sym at' ∙ at)))))
  ]
