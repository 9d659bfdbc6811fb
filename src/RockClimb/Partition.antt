-- ===== src/RockClimb/Partition.antt =====
-- `partitionRegions` of passes/rockclimb-backend/RockClimbMachineOptimizer.cpp, with the loop headers,
-- the exit blocks and the order of the blocks that the constructor computes. Energies are natural
-- multiples of a fixed unit. Of the error's text only the block is kept.
pub mod Retreating
pub mod Orders
pub mod Segments
pub mod Regions
pub mod Runs
pub mod Safe
pub mod Errors
pub mod Headers
pub mod Marks
pub mod Tiles
use bao.Prelude.{
  ℕ, zero, suc, ◌+◌, ◌*◌, max, Bool, true, false, not, ◌&&◌, ◌||◌, Option, none, some, List, [],
  ◌∷◌, ◌++◌, ◌==◌, if◌then◌else◌, ltb, leb, contains, insert,
}
use bao.RockClimb.Machine.{
  BlockId, MachineLoop, MachineLoops, loop, no_loops, and_loop, MachineFunction,
}

abbrev pub insert_some : Option BlockId → List BlockId → List BlockId
insert_some none bs = bs
insert_some (some b) bs = insert b bs

-- The queue of loops: the inner loops of a loop go to its end.
abbrev pub push_sub_loops : List MachineLoop → MachineLoops → List MachineLoop
push_sub_loops queue no_loops = queue
push_sub_loops queue (and_loop l ls) = push_sub_loops (queue ++ l ∷ []) ls

-- The number of loops of a forest.
unfoldable mutual
  pub count_loop : MachineLoop → ℕ
  count_loop (loop header subs) = suc (count_loops subs)

  pub count_loops : MachineLoops → ℕ
  count_loops no_loops = 0
  count_loops (and_loop l ls) = count_loop l + count_loops ls

-- The inner while loop of `identifyLoopHeaders`; each round takes one loop off the queue.
unfoldable pub headers_of_queue : ℕ → List MachineLoop → List BlockId → List BlockId
headers_of_queue zero queue headers = headers
headers_of_queue (suc fuel) [] headers = headers
headers_of_queue (suc fuel) (loop header subs ∷ queue) headers =
    headers_of_queue fuel (push_sub_loops queue subs) (insert_some header headers)

unfoldable pub headers_of_loops : MachineLoops → List BlockId → List BlockId
unfolding headers_of_queue count_loop
headers_of_loops no_loops headers = headers
headers_of_loops (and_loop l ls) headers =
    headers_of_loops ls (headers_of_queue (suc (count_loop l)) (l ∷ []) headers)

unfoldable pub exits_among : (BlockId → Bool) → List BlockId → List BlockId
exits_among is_return [] = []
exits_among is_return (b ∷ bs) =
    let rest = exits_among is_return bs in if is_return b then b ∷ rest else rest

-- `rpoIndex`: the map after all blocks are numbered from `i` on.
unfoldable pub index_from : ℕ → List BlockId → BlockId → Option ℕ
index_from i [] b = none
index_from i (x ∷ xs) b = elim (index_from (suc i) xs b) [
  | some k ↦ some k
  | none ↦ if x == b then some i else none
]

-- The edge from a block to a successor does not go forward in the order.
abbrev pub is_retreating : Option ℕ → Option ℕ → Bool
is_retreating from none = false
is_retreating none (some k) = leb k 0
is_retreating (some j) (some k) = leb k j

module _ (f : MachineFunction) where
  unfoldable pub identify_loop_headers : List BlockId
  unfolding headers_of_loops
  identify_loop_headers = headers_of_loops f.loops []

  unfoldable pub identify_exit_blocks : List BlockId
  unfolding exits_among
  identify_exit_blocks = exits_among f.is_return_block f.blocks

  unfoldable pub rpo_index : BlockId → Option ℕ
  unfolding index_from
  rpo_index = index_from 0 f.reverse_post_order

  unfoldable pub retreating_of : BlockId → List BlockId → List BlockId → List BlockId
  retreating_of b [] targets = targets
  retreating_of b (succ ∷ succs) targets =
      retreating_of b succs
        (if is_retreating (rpo_index b) (rpo_index succ) then insert succ targets else targets)

  unfoldable pub retreating_over : List BlockId → List BlockId → List BlockId
  retreating_over [] targets = targets
  retreating_over (b ∷ bs) targets = retreating_over bs (retreating_of b (f.successors b) targets)

  unfoldable pub retreating_targets : List BlockId
  unfolding retreating_over
  retreating_targets = retreating_over f.reverse_post_order []

  unfoldable pub unvisited : List BlockId → List BlockId
  unvisited [] = []
  unvisited (b ∷ bs) =
      let rest = unvisited bs in if contains f.reverse_post_order b then rest else b ∷ rest

  -- Without blocks the source returns before the traversal, which has none either.
  unfoldable pub topo_order : List BlockId
  unfolding unvisited
  topo_order = f.reverse_post_order ++ unvisited f.blocks

  unfoldable pub is_mandatory : BlockId → Bool
  unfolding identify_loop_headers retreating_targets identify_exit_blocks
  is_mandatory b =
      contains identify_loop_headers b
      || contains retreating_targets b
      || contains identify_exit_blocks b

-- The boundaries so far, and the largest energy that comes in at each block: 0 where nothing does.
pub record PartitionState : Type 0 where
  pub boundaries : List BlockId
  pub income : BlockId → ℕ

abbrev pub propagate : ℕ → List BlockId → (BlockId → ℕ) → BlockId → ℕ
propagate accum [] income b = income b
propagate accum (succ ∷ succs) income b =
    propagate accum succs (λ x. if x == succ then max (income x) accum else income x) b

pub record MachineRegionInfo : Type 0 where
  pub start_block : BlockId
  pub blocks : List BlockId
  pub total_energy : ℕ

-- What stops the loop is the block that is too large.
pub data Partitioning : Type 0 where
  infeasible_at : BlockId → Partitioning
  partitioned : PartitionState → Partitioning

-- `none`: feasible.
pub record MachineRockClimbResult : Type 0 where
  pub region_boundaries : List BlockId
  pub regions : List MachineRegionInfo
  pub infeasible_block : Option BlockId

-- The region under construction.
pub record OpenRegion : Type 0 where
  pub start : BlockId
  pub blocks : List BlockId
  pub energy : ℕ

module _ (f : MachineFunction) (cost : BlockId → ℕ) (e_safe : ℕ) where
  -- The boundaries when the block is looked at.
  unfoldable pub with_mandatory : BlockId → BlockId → List BlockId → List BlockId
  with_mandatory entry b bs = if not (b == entry) && is_mandatory f b then insert b bs else bs

  -- One block: the boundaries after it and the energy accumulated at its end.
  unfoldable pub accumulate : BlockId → BlockId → PartitionState → List BlockId × ℕ
  accumulate entry b s =
      let bs = with_mandatory entry b s.boundaries in
      if contains bs b
      then (bs, cost b)
      else (if leb e_safe (cost b + s.income b)
          then (insert b bs, cost b)
          else (bs, cost b + s.income b))

  unfoldable pub partition_blocks : BlockId → List BlockId → PartitionState → Partitioning
  partition_blocks entry [] s = partitioned s
  partition_blocks entry (b ∷ bs) s =
      let next = accumulate entry b s in
      let rest =
        partition_blocks entry bs
          record { boundaries = next.0; income = propagate next.1 (f.successors b) s.income } in
      if leb e_safe next.1 then infeasible_at b else rest

  -- What is done with a region at the next boundary, and at the end.
  unfoldable pub finish_region : OpenRegion → List MachineRegionInfo
  finish_region r = elim r.blocks [
    | [] ↦ []
    | x ∷ xs ↦ record { start_block = r.start; blocks = r.blocks; total_energy = r.energy } ∷ []
  ]

  -- The boundaries and the regions, in the order of the blocks.
  unfoldable pub form_regions :
      List BlockId → OpenRegion → List BlockId → List BlockId × List MachineRegionInfo
  unfolding finish_region
  form_regions boundaries r [] = ([], finish_region r)
  form_regions boundaries r (b ∷ bs) =
      let rest =
        form_regions boundaries
          (if contains boundaries b
            then record { start = b; blocks = b ∷ []; energy = cost b }
            else record {
              start = r.start;
              blocks = r.blocks ++ b ∷ [];
              energy = r.energy + cost b;
            })
          bs in
      if contains boundaries b then (b ∷ rest.0, finish_region r ++ rest.1) else rest

  unfoldable pub result_of : BlockId → List BlockId → Partitioning → MachineRockClimbResult
  unfolding form_regions
  result_of entry order (infeasible_at b) = record {
    region_boundaries = [];
    regions = [];
    infeasible_block = some b;
  }
  result_of entry order (partitioned s) =
      let formed =
        form_regions s.boundaries record { start = entry; blocks = []; energy = 0 } order in
      record { region_boundaries = formed.0; regions = formed.1; infeasible_block = none }

  abbrev pub first_state : BlockId → PartitionState
  first_state entry = record { boundaries = if f.is_main then [] else entry ∷ []; income = λ b. 0 }

  unfoldable pub partition_order : List BlockId → MachineRockClimbResult
  unfolding partition_blocks result_of
  partition_order [] = record { region_boundaries = []; regions = []; infeasible_block = none }
  partition_order (entry ∷ bs) =
      result_of entry (entry ∷ bs) (partition_blocks entry (entry ∷ bs) (first_state entry))

  unfoldable pub partition_regions : MachineRockClimbResult
  partition_regions = partition_order (topo_order f)
