-- ===== src/Schematic/Choose/Tests.antt =====
-- Tests of the model of passes/src/schematic/MemoryAllocator.cpp, and the results at a concrete input.
use bao.Prelude.{◌≡◌, refl, inr, true, false, Option, none, some, List, [], ◌∷◌, Memᴰ}
use bao.Schematic.Types.{Block, SchematicParams, vm, nvm, VariableAllocation, RegionAllocation}
use bao.Schematic.Allocator.{merge_rest, merge_vars, merge_var, occupied_by}
use bao.Schematic.Allocator.Placements.{IsPlaced, merge_allocations_places}
use bao.Schematic.Extend.{extends_allocation, or_else, extends_allocation_lem}
use bao.Schematic.Entries.{find, assign}
use bao.Schematic.Allocator.{
  reset, get_existing_address, record_allocation, StateView, estimate_energy_gain,
  first_access_is_load, CandidateEntry, merge_allocations, empty_allocation,
}
use bao.Schematic.Choose.{
  variable_accesses, constrained_alloc, constrained_spent, classify, classify_all, pack, pack_all,
  choose_memory_allocation, compute_cost,
}
use bao.Schematic.Choose.Disjoint.{cost_of}

-- Values 5 and 6 take two bytes each and are read ten times in a block.
abbrev state : StateView
state = record {
  candidates = 5 ∷ 6 ∷ [];
  has_code = λ b. true;
  load_count = λ b v. 10;
  store_count = λ b v. 0;
  first_op_is_load = λ b v. some true;
  var_size_bytes = λ v. 2;
  is_pointer_type = λ v. false;
  energy_cost = λ b. 30;
}

abbrev params : SchematicParams
params = record {
  capacity = 100;
  e_pro = 3;
  e_epi = 2;
  n_reg = 1;
  reg_store_energy = 1;
  reg_restore_energy = 1;
  nvm_access_penalty = 2;
  mem_store_energy_per_byte = 1;
  mem_restore_energy_per_byte = 1;
  vm_capacity_bytes = 8;
  call_cost = 4;
}

abbrev in_order : List CandidateEntry → List CandidateEntry
in_order cs = cs

abbrev nothing : Block → Option RegionAllocation
nothing b = none

-- 30 for the block; 40 earned by twenty accesses, 8 spent on saves and restores.
energy : (cost_of state params in_order 99999 nothing reset (0 ∷ []) none none).charged ≡ 38
unfolding compute_cost choose_memory_allocation constrained_alloc merge_allocations
    constrained_spent classify_all classify pack_all pack variable_accesses first_access_is_load
    estimate_energy_gain get_existing_address record_allocation find assign
energy = refl

-- Two allocations that place value 5 in volatile memory at the same address, and one more value.
abbrev in_vm : VariableAllocation
in_vm = record { placement = vm; raw_need_restore = true; raw_need_save = true }

abbrev in_nvm : VariableAllocation
in_nvm = record { placement = nvm; raw_need_restore = true; raw_need_save = true }

abbrev one_value : RegionAllocation
one_value = record empty_allocation { vars = (5, in_vm) ∷ []; vm_offsets = (5, 0) ∷ [] }

abbrev two_values : RegionAllocation
two_values = record empty_allocation {
  vars = (5, in_vm) ∷ (6, in_nvm) ∷ [];
  vm_offsets = (5, 0) ∷ [];
}

merged_values : merge_allocations state (one_value ∷ two_values ∷ []) false ≡ some two_values
unfolding merge_allocations merge_rest merge_vars merge_var occupied_by find assign
merged_values = refl

merge_allocations_places_example : IsPlaced two_values.vars 6 nvm
merge_allocations_places_example =
    merge_allocations_places state false one_value (two_values ∷ []) two_values 6 nvm merged_values
      (inr (two_values, in_nvm, Memᴰ.head refl, Memᴰ.tail (Memᴰ.head refl), refl))

extends_allocation_lem_example :
    find (extends_allocation one_value two_values).vars 6
    ≡ or_else (find one_value.vars 6) (find two_values.vars 6)
extends_allocation_lem_example = extends_allocation_lem one_value two_values 6
