-- ===== src/Schematic/Rcg.antt =====
-- `RCGSolver` of passes/src/schematic/RCGSolver.cpp: the candidate checkpoints of a trace, the graph
-- of the intervals that fit the energy budget, and a shortest path in it.
-- `computeCost` of passes/src/schematic/MemoryAllocator.cpp is a field of `Trace`: any function of
-- the address tracker, which it may change. Log output and the text of the error are left out.
pub mod Labels
pub mod Relax
pub mod Walks
pub mod Shortest
pub mod Budget
pub mod Cuts
pub mod Tiling
use bao.Prelude.{
  ℕ, zero, suc, ◌+◌, ◌-◌, ◌*◌, Bool, true, false, ◌&&◌, ◌||◌, Option, none, some, List, [], ◌∷◌,
  ◌++◌, map, if◌then◌else◌, ltb, leb, length, get_or, take, drop,
}
use bao.Schematic.Types.{
  Block, CfgEdge, SchematicParams, RegionAllocation, BlockMetadata, start_node, candidate_edge,
  end_node, RcgNode, RcgEdge, RcgResult,
}
use bao.Schematic.Rcg.Labels.{get_shortest_path_in_rcg}

-- What a solver is made of.
pub record Trace (Tracker : Type 0) : Type 0 where
  pub params : SchematicParams
  pub path_blocks : List Block
  pub existing_meta : Block → Option BlockMetadata
  pub block_allocation : Block → Option RegionAllocation
  pub is_call_block : Block → Bool
  -- The name of the block is `START_Func` or `START_Loop`.
  pub is_synthetic_start : Block → Bool
  pub compute_cost :
      Tracker
      → List Block
      → Option RegionAllocation
      → Option RegionAllocation
      → Tracker × RegionAllocation × ℕ

-- What the loops change: the edges in the order of the pushes, and the smallest rejected interval
-- as its energy, budget and blocks.
pub record SolverState (Tracker : Type 0) : Type 0 where
  pub adj : List RcgEdge
  pub tracker : Tracker
  pub min_rejected : Option (ℕ × ℕ × List Block)

abbrev pub first_or_none : List Block → Option Block
first_or_none [] = none
first_or_none (b ∷ bs) = some b

abbrev pub last_or_none : List Block → Option Block
last_or_none [] = none
last_or_none (b ∷ []) = some b
last_or_none (b ∷ c ∷ bs) = last_or_none (c ∷ bs)

abbrev pub bind_option {ℓ} : {A : Type ℓ} → (Block → Option A) → Option Block → Option A
bind_option f none = none
bind_option f (some b) = f b

-- `first`, `first + 1`, ...: `count` of them
abbrev pub indices : ℕ → ℕ → List ℕ
indices first zero = []
indices first (suc count) = first ∷ indices (suc first) count

abbrev pub backward : List ℕ → List ℕ
backward [] = []
backward (i ∷ is) = backward is ++ i ∷ []

module _ (is_call_block : Block → Bool) where
  -- The pairs of consecutive blocks, but those inside an isolated call. `i` is the index of the
  -- first block.
  pub candidates : ℕ → List Block → List RcgNode
  candidates i [] = []
  candidates i (a ∷ []) = []
  candidates i (a ∷ b ∷ bs) =
      let rest = candidates (suc i) (b ∷ bs) in
      if is_call_block a && is_call_block b
      then rest
      else record { kind = candidate_edge; edge = some (a, b); block_index = suc i } ∷ rest

abbrev pub start_of_trace : RcgNode
start_of_trace = record { kind = start_node; edge = none; block_index = 0 }

-- `trackDiagnostics`
abbrev pub track_diagnostics :
    List Block → ℕ → ℕ → Option (ℕ × ℕ × List Block) → Option (ℕ × ℕ × List Block)
track_diagnostics blocks energy budget none =
    if leb budget energy then some (energy, budget, blocks) else none
track_diagnostics blocks energy budget (some least) =
    if leb budget energy && ltb energy least.0 then some (energy, budget, blocks) else some least

module _ {Tracker : Type 0} (t : Trace Tracker) where
  unfoldable pub get_checkpoints_from_trace : List RcgNode
  unfolding candidates
  get_checkpoints_from_trace =
      start_of_trace ∷ candidates t.is_call_block 0 t.path_blocks
      ++ record { kind = end_node; edge = none; block_index = length t.path_blocks } ∷ []

  abbrev pub node_at : ℕ → RcgNode
  node_at i = get_or get_checkpoints_from_trace i start_of_trace

  -- First and last index of the blocks between two nodes.
  abbrev pub get_interval_range : ℕ → ℕ → ℕ × ℕ
  get_interval_range from to = (
    elim (node_at from).kind [ start_node ↦ 1 | _ ↦ (node_at from).block_index ],
    elim (node_at to).kind [
      | end_node ↦ length t.path_blocks - 2
      | _ ↦ (node_at to).block_index - 1
    ],
  )

  abbrev pub get_interval_blocks : ℕ → ℕ → List Block
  get_interval_blocks from to =
      let (first, last) = get_interval_range from to in
      if ltb last first then [] else drop first (take (last + 1) t.path_blocks)

  abbrev pub chkpt_restore : ℕ
  chkpt_restore = t.params.e_pro + t.params.n_reg * t.params.reg_restore_energy

  abbrev pub chkpt_save : ℕ
  chkpt_save = t.params.e_epi + t.params.n_reg * t.params.reg_store_energy

  abbrev pub start_alloc : Option RegionAllocation
  start_alloc = bind_option t.block_allocation (first_or_none t.path_blocks)

  abbrev pub end_alloc : Option RegionAllocation
  end_alloc = bind_option t.block_allocation (last_or_none t.path_blocks)

  -- A budget below zero is 0 here: no cost is below either.
  unfoldable pub energy_left : ℕ
  energy_left =
      let fresh =
        t.params.capacity - t.params.e_pro - t.params.n_reg * t.params.reg_restore_energy in
      let seed : ℕ = elim (bind_option t.existing_meta (first_or_none t.path_blocks)) [
        | none ↦ fresh
        | some m ↦ elim m.e_left [ none ↦ fresh | some e ↦ e ]
      ] in
      elim (first_or_none t.path_blocks) [
        | none ↦ seed
        | some b ↦ if t.is_synthetic_start b then seed - t.params.call_cost else seed
      ]

  unfoldable pub energy_to_leave : ℕ
  energy_to_leave = elim (bind_option t.existing_meta (last_or_none t.path_blocks)) [
    | none ↦ chkpt_save
    | some m ↦ elim m.e_to_leave [ zero ↦ chkpt_save | suc e ↦ suc e ]
  ]

  abbrev pub empty_allocation : RegionAllocation
  empty_allocation = record { vars = []; vm_offsets = []; vm_bytes_used = 0; interval_energy = 0 }

  abbrev pub compute_interval_cost :
      Tracker
      → List Block
      → Option RegionAllocation
      → Option RegionAllocation
      → Tracker × RegionAllocation × ℕ
  compute_interval_cost tracker [] sa ea = (tracker, empty_allocation, 0)
  compute_interval_cost tracker (b ∷ bs) sa ea = t.compute_cost tracker (b ∷ bs) sa ea

  -- How one of the four loops makes an edge: the allocations at its ends, the checkpoint energy that
  -- its cost includes, what its cost plus `margin` has to stay below, and the budget it reports.
  pub record EdgeRule : Type 0 where
    pub sa : Option RegionAllocation
    pub ea : Option RegionAllocation
    pub overhead : ℕ
    pub margin : ℕ
    pub budget : ℕ
    pub reported : ℕ

  -- The body of a loop, with the cost that the next round compares.
  pub try_edge : EdgeRule → ℕ → ℕ → SolverState Tracker → SolverState Tracker × ℕ
  try_edge rule from to s =
      let blocks = get_interval_blocks from to in
      let (tracker, alloc, base) = compute_interval_cost s.tracker blocks rule.sa rule.ea in
      let cost = base + rule.overhead in
      let edge : RcgEdge = record {
        source = from;
        target = to;
        weight = cost;
        allocation = record alloc { interval_energy = cost };
        blocks = blocks;
      } in
      (
        record {
          adj = if ltb (cost + rule.margin) rule.budget then s.adj ++ edge ∷ [] else s.adj;
          tracker = tracker;
          min_rejected = track_diagnostics blocks cost rule.reported s.min_rejected;
        },
        cost,
      )

  abbrev pub between : EdgeRule
  between = record {
    sa = none;
    ea = none;
    overhead = chkpt_restore + chkpt_save;
    margin = 0;
    budget = t.params.capacity;
    reported = t.params.capacity;
  }

  abbrev pub from_start : EdgeRule
  from_start = record {
    sa = start_alloc;
    ea = none;
    overhead = chkpt_save;
    margin = 0;
    budget = energy_left;
    reported = energy_left;
  }

  abbrev pub to_end : EdgeRule
  to_end = record {
    sa = none;
    ea = end_alloc;
    overhead = chkpt_restore;
    margin = energy_to_leave;
    budget = t.params.capacity;
    reported = t.params.capacity - energy_to_leave;
  }

  abbrev pub whole : EdgeRule
  whole = record {
    sa = start_alloc;
    ea = end_alloc;
    overhead = 0;
    margin = energy_to_leave;
    budget = energy_left;
    reported = energy_left;
  }

  -- The rounds from one node to the later ones, until the cost of one reaches the budget.
  pub edges_from : EdgeRule → ℕ → List ℕ → ℕ → SolverState Tracker → SolverState Tracker
  unfolding try_edge
  edges_from rule i [] prev s = s
  edges_from rule i (j ∷ js) prev s =
      let (s', cost) = try_edge rule i j s in
      let rest = edges_from rule i js cost s' in if leb rule.budget prev then s else rest

  -- Loop 1
  pub edges_between : List ℕ → SolverState Tracker → SolverState Tracker
  unfolding edges_from
  edges_between [] s = s
  edges_between (i ∷ js) s = edges_between js (edges_from between i js 0 s)

  -- Loop 3, over the nodes from the last to the first.
  pub edges_to : ℕ → List ℕ → ℕ → SolverState Tracker → SolverState Tracker
  unfolding try_edge
  edges_to end [] prev s = s
  edges_to end (i ∷ is) prev s =
      let (s', cost) = try_edge to_end i end s in
      let rest = edges_to end is cost s' in
      if leb t.params.capacity (prev + energy_to_leave) then s else rest

  abbrev pub internal_ckpts : List ℕ
  internal_ckpts = indices 1 (length get_checkpoints_from_trace - 2)

  abbrev pub first_state : Tracker → SolverState Tracker
  first_state tracker = record { adj = []; tracker = tracker; min_rejected = none }

  unfoldable pub create_reachable_checkpoint_graph : Tracker → SolverState Tracker
  unfolding edges_between edges_from edges_to try_edge
  create_reachable_checkpoint_graph tracker =
      let end = length get_checkpoints_from_trace - 1 in
      let s1 = edges_between internal_ckpts (first_state tracker) in
      let s2 = edges_from from_start 0 internal_ckpts 0 s1 in
      let s3 = edges_to end (backward internal_ckpts) 0 s2 in (try_edge whole 0 end s3).0

  -- `none` where the source stops with a fatal error: a trace of one or two blocks.
  unfoldable pub solve : Tracker → Option RcgResult
  unfolding create_reachable_checkpoint_graph get_shortest_path_in_rcg
  solve tracker =
      if ltb 0 (length t.path_blocks)
      then (if ltb (length t.path_blocks) 3
          then none
          else some (
              get_shortest_path_in_rcg get_checkpoints_from_trace
                (create_reachable_checkpoint_graph tracker).adj))
      else some record {
        feasible = true;
        total_cost = 0;
        selected_checkpoints = [];
        allocations = [];
        interval_blocks = [];
      }
