-- ===== src/Schematic/Rcg/Tiling.antt =====
-- The intervals between the nodes of a path: `getIntervalRange` and `getIntervalBlocks` of
-- passes/src/schematic/RCGSolver.cpp.
use mathlib.Core.Path.{subst}
use mathlib.Core.Option.{some-injective}
use mathlib.Core.Bool.{false≢true}
use bao.Prelude.{
  ℕ, zero, suc, ◌+◌, ◌-◌, ◌≤◌, ◌<◌, ◌≡◌, refl, sym, ◌∙◌, ap, inl, inr, true, none, some, List, [],
  ◌∷◌, ◌++◌, map, Bool-cases, ltb, length, length-append, take, drop, arith,
}
use bao.Schematic.Types.{candidate_edge, end_node, RcgNode, RcgEdge, RcgResult}
use bao.Schematic.Rcg.{
  Trace, candidates, start_of_trace, get_checkpoints_from_trace, node_at, get_interval_blocks,
  create_reachable_checkpoint_graph, solve,
}
use bao.Schematic.Rcg.Walks.{IsWalk}
use bao.Schematic.Rcg.Budget.{end_index, AllPaid, solve_finds-IsLeast}
use bao.Schematic.Rcg.Cuts.{
  concat, drop-take_same, slice_append, cut_of, IsRising, nth, nth-last, nth-candidate, cut_mono,
  all_candidates-IsRising, first_index, last_index, candidate_reads, slice_lem,
}

module _ {Tracker : Type 0} (t : Trace Tracker) (long : 3 ≤ length t.path_blocks) where
  abbrev inner_nodes : List RcgNode
  inner_nodes = candidates t.is_call_block 0 t.path_blocks

  abbrev last_node : RcgNode
  last_node = record { kind = end_node; edge = none; block_index = length t.path_blocks }

  abbrev final_cut : ℕ
  final_cut = length t.path_blocks - 1

  abbrev cut : ℕ → ℕ
  cut zero = 1
  cut (suc k) = cut_of final_cut (nth last_node final_cut refl inner_nodes k)

  rising : IsRising final_cut 0 inner_nodes
  rising = all_candidates-IsRising t.is_call_block final_cut t.path_blocks (omega arith)

  end_index_lem : end_index t ≡ suc (length inner_nodes)
  unfolding get_checkpoints_from_trace
  end_index_lem = omega (arith, length-append inner_nodes (last_node ∷ []))

  cut-last : cut (end_index t) ≡ final_cut
  cut-last =
      ap cut end_index_lem ∙ ap (cut_of final_cut) (nth-last last_node final_cut refl inner_nodes)

  inner_lem :
      (k : ℕ)
      → suc k < end_index t
      → ((node_at t (suc k)).kind ≡ candidate_edge) × (0 < (node_at t (suc k)).block_index)
  unfolding get_checkpoints_from_trace
  inner_lem k lt =
      nth-candidate last_node final_cut refl 0 inner_nodes k rising (omega (arith, end_index_lem))

  cut_node : (k : ℕ) → cut (suc k) ≡ cut_of final_cut (node_at t (suc k))
  unfolding get_checkpoints_from_trace
  cut_node k = refl

  node_at-start : node_at t 0 ≡ start_of_trace
  unfolding get_checkpoints_from_trace
  node_at-start = refl

  node_at-end : node_at t (end_index t) ≡ last_node
  unfolding get_checkpoints_from_trace
  node_at-end = ap (node_at t) end_index_lem ∙ nth-last last_node final_cut refl inner_nodes

  first_cut : (i : ℕ) → i < end_index t → first_index (node_at t i) ≡ cut i
  first_cut zero lt = ap first_index node_at-start
  first_cut (suc k) lt =
      let (kind, pos) = inner_lem k lt in
      let (reads_cut, reads_first, reads_last) =
        candidate_reads final_cut (length t.path_blocks) (node_at t (suc k)) kind in
      reads_first ∙ sym reads_cut ∙ sym (cut_node k)

  last_cut :
      (j : ℕ)
      → 0 < j
      → j ≤ end_index t
      → last_index (length t.path_blocks) (node_at t j) + 1 ≡ cut j
  last_cut zero pos in_graph = absurd (omega arith)
  last_cut (suc k) pos in_graph = elim (Bool-cases (ltb (suc k) (end_index t))) [
    | inl t' ↦
        let (kind, low) = inner_lem k (ground arith) in
        let (reads_cut, reads_first, reads_last) =
          candidate_reads final_cut (length t.path_blocks) (node_at t (suc k)) kind in
        omega (arith, reads_last, reads_cut, cut_node k, low)
    | inr f ↦
        let at_end : end_index t ≡ suc k = ground arith in
        subst (λ j. last_index (length t.path_blocks) (node_at t j) + 1 ≡ cut j) at_end
          (omega (arith, ap (last_index (length t.path_blocks)) node_at-end, cut-last))
  ]

  cut_le : (i j : ℕ) → i ≤ j → j ≤ end_index t → cut i ≤ cut j
  cut_le zero zero ij in_graph = omega arith
  cut_le (suc i) zero ij in_graph = absurd (omega arith)
  cut_le zero (suc j) ij in_graph = elim (Bool-cases (ltb (suc j) (end_index t))) [
    | inl t' ↦
        let (kind, low) = inner_lem j (ground arith) in
        let (reads_cut, reads_first, reads_last) =
          candidate_reads final_cut (length t.path_blocks) (node_at t (suc j)) kind in
        omega (arith, reads_cut, cut_node j, low)
    | inr f ↦
        let at_end : end_index t ≡ suc j = ground arith in
        subst (λ k. 1 ≤ cut k) at_end (omega (arith, cut-last))
  ]
  cut_le (suc i) (suc j) ij in_graph =
      cut_mono last_node final_cut refl 0 inner_nodes i j rising (omega arith)
        (omega (arith, end_index_lem))

  -- The blocks of an interval lie between the cuts.
  interval_lem :
      (i j : ℕ)
      → i < j
      → j ≤ end_index t
      → get_interval_blocks t i j ≡ drop (cut i) (take (cut j) t.path_blocks)
  interval_lem i j lt in_graph =
      slice_lem (first_index (node_at t i)) (last_index (length t.path_blocks) (node_at t j))
        (cut i) (cut j) t.path_blocks (first_cut i (omega arith))
        (last_cut j (omega arith) in_graph) (cut_le i j (omega arith) in_graph)

  walk_covers :
      (adj : List RcgEdge)
      → AllPaid t adj
      → (es : List RcgEdge) (a : ℕ) → IsWalk adj a es (end_index t)
      → concat (map (λ e. e.blocks) es) ≡ drop (cut a) (take final_cut t.path_blocks)
  walk_covers adj paid [] a w =
      sym (drop-take_same final_cut t.path_blocks)
      ∙ ap (λ k. drop k (take final_cut t.path_blocks)) (sym cut-last ∙ ap cut (sym w))
  walk_covers adj paid (e ∷ es) a (m, from, w) =
      let p = paid e m in
      ap (λ bs. bs ++ concat (map (λ e. e.blocks) es))
        (p.covers ∙ interval_lem e.source e.target p.forward p.in_graph)
      ∙ ap (λ bs. drop (cut e.source) (take (cut e.target) t.path_blocks) ++ bs)
          (walk_covers adj paid es e.target w)
      ∙ slice_append (cut e.source) (cut e.target) final_cut t.path_blocks
          (cut_le e.source e.target (omega (arith, p.forward)) p.in_graph)
          (omega (arith, cut_le e.target (end_index t) p.in_graph (omega arith), cut-last))
      ∙ ap (λ i. drop (cut i) (take final_cut t.path_blocks)) from

  -- On a trace of at least three blocks, the intervals of a feasible result of `solve`, one after the
  -- other, are the trace without its first and last block: no block is left out or counted twice.
  pub solve_tiles :
      (tracker : Tracker) (r : RcgResult)
      → solve t tracker ≡ some r
      → r.feasible ≡ true
      → concat r.interval_blocks ≡ drop 1 (take (length t.path_blocks - 1) t.path_blocks)
  solve_tiles tracker r found ok =
      let (r', found', least, paid) = solve_finds-IsLeast t tracker long in
      let same = some-injective r r' (sym found ∙ found') in
      elim least [
        | inl (is_feasible, reads, least_weight) ↦
            ap (λ (q : RcgResult). concat q.interval_blocks) same
            ∙ ap concat reads.intervals
            ∙ walk_covers (create_reachable_checkpoint_graph t tracker).adj paid reads.walk 0
                reads.joins
        | inr (not_feasible, no_walk) ↦
            absurd
              (false≢true (sym not_feasible ∙ ap (λ (q : RcgResult). q.feasible) (sym same) ∙ ok))
      ]
