-- ===== src/Schematic/Tests.antt =====
-- A trace of four blocks, and the theorems on the solver applied to it.
use bao.Prelude.{ℕ, ◌*◌, ◌≡◌, true, false, none, some, [], ◌∷◌, length, refl, arith}
use bao.Schematic.Types.{RcgResult}
use bao.Schematic.Rcg.{
  Trace, get_checkpoints_from_trace, energy_left, energy_to_leave,
  create_reachable_checkpoint_graph, solve,
}
use bao.Schematic.Rcg.Shortest.{IsLeast}
use bao.Schematic.Rcg.Labels.{
  out_edges, put, relax, relax_edges, relax_nodes, backtrack, edge_into, path_edges, collect,
  get_shortest_path_in_rcg,
}
use bao.Schematic.Rcg.Cuts.{concat}
use bao.Schematic.Rcg.Tiling.{solve_tiles}
use bao.Schematic.Rcg.Budget.{end_index, AllPaid, solve_finds-IsLeast}

-- Every block costs 10, and the trace starts with `START_Func`.
abbrev four_blocks : Trace ℕ
four_blocks = record {
  params = record {
    capacity = 40;
    e_pro = 3;
    e_epi = 2;
    n_reg = 1;
    reg_store_energy = 1;
    reg_restore_energy = 1;
    nvm_access_penalty = 2;
    mem_store_energy_per_byte = 1;
    mem_restore_energy_per_byte = 1;
    vm_capacity_bytes = 8;
    call_cost = 4;
  };
  path_blocks = 10 ∷ 11 ∷ 12 ∷ 13 ∷ [];
  existing_meta = λ b. none;
  block_allocation = λ b. none;
  is_call_block = λ b. false;
  is_synthetic_start = λ b. true;
  compute_cost = λ tracker bs sa ea. (
    tracker,
    record { vars = []; vm_offsets = []; vm_bytes_used = 0; interval_energy = 0 },
    10 * length bs,
  );
}

solve_finds-IsLeast_example :
    (r : RcgResult) × (solve four_blocks 0 ≡ some r)
    × IsLeast
        (get_checkpoints_from_trace four_blocks)
        (create_reachable_checkpoint_graph four_blocks 0).adj
        (end_index four_blocks)
        r
    × AllPaid four_blocks (create_reachable_checkpoint_graph four_blocks 0).adj
solve_finds-IsLeast_example = solve_finds-IsLeast four_blocks 0 (omega arith)

-- The whole trace is one interval.
abbrev sample_result : RcgResult
sample_result = record {
  feasible = true;
  total_cost = 20;
  selected_checkpoints = [];
  allocations = record { vars = []; vm_offsets = []; vm_bytes_used = 0; interval_energy = 20 } ∷ [];
  interval_blocks = (11 ∷ 12 ∷ []) ∷ [];
}

sample_solved : solve four_blocks 0 ≡ some sample_result
unfolding solve create_reachable_checkpoint_graph get_shortest_path_in_rcg
    get_checkpoints_from_trace energy_left energy_to_leave out_edges put relax relax_edges
    relax_nodes backtrack edge_into path_edges collect
sample_solved = refl

solve_tiles_example : concat sample_result.interval_blocks ≡ 11 ∷ 12 ∷ []
solve_tiles_example = solve_tiles four_blocks (omega arith) 0 sample_result sample_solved refl
