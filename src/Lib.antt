-- ===== src/Lib.antt =====
-- Bao inserts checkpoints into programs for devices that run on harvested energy, so that what runs
-- between two checkpoints always fits the energy buffer. Its LLVM passes decide where the checkpoints go
-- and which values live in volatile memory. This library models the parts that take the decisions.
--
-- The parts, and the files that model them:
--   Analyzer/EnergyModel     the energy of instructions and calls by key,
--                            passes/bb-energy-analyzer/EnergyModel.cpp
--   Common/LoopTripCount     the trip count and strip-mined marks in loop metadata,
--                            passes/src/common/LoopTripCount.cpp
--   Milp/Views               what the analyses hand to the optimizer, passes/include/milp/ModelViews.h
--   Milp/Order               the order of values, passes/include/common/ValueOrder.h
--   Milp/Energy              the energy model and its config, passes/src/milp/EnergyModel.cpp
--   Milp/Graph               predecessors and reachable definitions in
--                            passes/src/milp/CheckpointOptimizer.cpp, as the next three
--   Milp/Expr, Milp/Model    the variables, the objective and the expressions of the model
--   Milp/Model/Constraints   its constraints
--   Milp/Solve               CheckpointOptimizer::solve, its failures and extractSolution
--   Milp/Region              not code: what a region of the program spends, by which the model is judged
--   RockClimb/Machine        what the RockClimb backend reads of LLVM's machine code
--   RockClimb/Liveness       scanBlockForReg, isRegLiveFromBlock and computeBulkLiveIn,
--                            passes/rockclimb-backend/MachineLivenessAnalysis.cpp
--   RockClimb/Partition      the loop headers, the order of the blocks and partitionRegions,
--                            passes/rockclimb-backend/RockClimbMachineOptimizer.cpp
--   RockClimb/Optimizer      the costs with addDistributedSaveCosts, and optimize, of the same file
--   RockClimb/Distributed    MachineDistributedCheckpointing: after which instructions live registers are
--                            saved, passes/rockclimb-backend/MachineDistributedCheckpointing.cpp
--   RockClimb/Config         parseRockClimbParams, passes/src/common/RockClimbConfig.cpp
--   Schematic/Rcg            RCGSolver, passes/src/schematic/RCGSolver.cpp: the candidate checkpoints of a
--                            trace, the graph of affordable intervals (Rcg), the shortest path
--                            (Rcg/Labels); the proofs are in Relax, Walks, Shortest, Budget, Cuts and Tiling
--   Schematic/Entries        std::map as a list of entries in the order of the keys
--   Schematic/Allocator      VMAddressTracker, estimateEnergyGain and mergeAllocations,
--                            passes/src/schematic/MemoryAllocator.cpp, as the next two
--   Schematic/Choose         chooseMemoryAllocation and computeCost
--   Schematic/Extend         extendsAllocation and the sums of save and restore costs
--   Schematic/Config         parseSchematicParams, passes/src/schematic/SchematicParams.cpp
-- MILPInput of the source is MilpInput; solve takes it, the solver and the object's state, and returns
-- the state after the call. The functions keep the source's names in snake case.
--
-- A region (Milp/Region) is a run of blocks along edges of the graph that starts at a block with a
-- checkpoint and meets no other. It spends the prologue and the restores of values that live in volatile
-- memory, its blocks with the penalty of each value in non-volatile memory, and at its end the epilogue
-- and the saves of what it wrote and is still needed. IsConsistent collects what the views promise each
-- other: edges and exits join known blocks, nothing leads back to the entry, live values are tracked, and
-- a value is eligible or not.
--
-- Numbers: energies and frequencies are natural multiples of a fixed unit, so the rounding of doubles is
-- not modelled; the values of a solution are multiples of 1 / one, for any one; a value is set when twice
-- it exceeds one, as the source rounds. An expression keeps what is added and what is taken away apart.
-- A gain of MemoryAllocator keeps what is earned and what is spent apart too; sums of addresses and sizes
-- there wrap at 32 bits. In RCGSolver a budget below zero is zero, under which no cost is affordable either; only the budget in
-- the text of the error differs. In EnergyModel a frequency is kept as a pair of counts, and in the configs
-- the floating-point numbers are a parameter.
--
-- Fuel: the worklist of compute_reachable_defs has one step for each block and each edge, and one more;
-- each step takes an element off the worklist, and an element is added only with a definition site or
-- with the first edge into a block, so that the worklist is empty before. The way back in get_shortest_path_in_rcg has as many steps as the index of the
-- last node; each goes to a smaller index. The search of EnergyModel for reachable blocks has as many
-- steps as there are edges, and two more. The queue of loops has one round for each loop and one more.
-- The walk of is_reg_live_from_block has a round for each successor of each block, and two more: a block's
-- successors are pushed once. Each round of compute_bulk_live_in but the last adds one of twelve registers
-- to the set of a block. Each round of need_fixpoint but the last marks one more block, and the backward
-- walk of pred_block_set has a round for each predecessor of each block and of the start.
--
-- Machine code: a function is its blocks, instructions, successors, loops and reverse post-order as LLVM
-- hands them over. IsTraversal says what LLVM promises of the order, that it visits the successors of what
-- it visits. HasSuccessors and HasPredecessors say that the successors and predecessors of blocks are
-- blocks. The energy of a block without saves is a field. partitionRegions makes no boundary of the first
-- block of the program's entry function, although its comment says that every target of a retreating edge
-- becomes one; NoRestart leaves out the paths that come back to that block, which may spend any amount.
-- computeBulkLiveIn takes operands one by one, in their order, and scanBlockForReg instruction by
-- instruction, so that the two differ on an instruction that defines and uses a register.
--
-- Parameters: Gurobi is what one run of it reports, with IsSound, its promise that a reported assignment
-- is feasible, as a hypothesis. LLVM's casts and the key that orders values are ValueInfo, a total function
-- each. The profile counts, access counts and sizes are fields of EnergyInput. In RCGSolver the cost of an
-- interval is a field of Trace: any function of the address tracker, which it may change. In
-- MemoryAllocator the state analysis is StateView, std::sort is a function that returns entries it was
-- given, and 99999, the loss of a conflict, is a number in the unit of the energies.
--
-- Not modelled: names of variables and constraints, log output, written model files and problem-size
-- statistics; exceptions of map::at on a missing key, which consistent views exclude; the order of values
-- with equal keys; updateCheckpointType and applyMemoryAllocation; the passes that rewrite LLVM IR or
-- machine code, the runtime in C and assembly, the disassembler and the scripts.
pub mod Prelude
pub mod Analyzer
pub mod Common
pub mod Milp
pub mod RockClimb
pub mod Schematic
