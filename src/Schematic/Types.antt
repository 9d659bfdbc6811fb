-- ===== src/Schematic/Types.antt =====
-- The data of passes/include/schematic: RCGSolver.h, SchematicSolution.h and SchematicParams.h.
-- Energies are natural multiples of a fixed unit. A block stands for its address.
use bao.Prelude.{ℕ, Bool, Option, List}

abbrev pub Block : Type 0
Block = ℕ

abbrev pub CfgEdge : Type 0
CfgEdge = Block × Block

pub record SchematicParams : Type 0 where
  pub capacity : ℕ
  pub e_pro : ℕ
  pub e_epi : ℕ
  pub n_reg : ℕ
  pub reg_store_energy : ℕ
  pub reg_restore_energy : ℕ
  pub nvm_access_penalty : ℕ
  pub mem_store_energy_per_byte : ℕ
  pub mem_restore_energy_per_byte : ℕ
  pub vm_capacity_bytes : ℕ
  pub call_cost : ℕ

pub data Placement : Type 0 where
  vm nvm : Placement

pub record VariableAllocation : Type 0 where
  pub placement : Placement
  pub raw_need_restore : Bool
  pub raw_need_save : Bool

-- The maps of the source as lists of their entries.
pub record RegionAllocation : Type 0 where
  pub vars : List (ℕ × VariableAllocation)
  pub vm_offsets : List (ℕ × ℕ)
  pub vm_bytes_used : ℕ
  pub interval_energy : ℕ

-- `none` is the default `max()` of `E_left`, and 0 the default of `E_to_leave`.
pub record BlockMetadata : Type 0 where
  pub e_left : Option ℕ
  pub e_to_leave : ℕ

pub data NodeKind : Type 0 where
  start_node candidate_edge end_node : NodeKind

pub record RcgNode : Type 0 where
  pub kind : NodeKind
  pub edge : Option CfgEdge
  pub block_index : ℕ

pub record RcgEdge : Type 0 where
  pub source : ℕ
  pub target : ℕ
  pub weight : ℕ
  pub allocation : RegionAllocation
  pub blocks : List Block

pub record RcgResult : Type 0 where
  pub feasible : Bool
  pub total_cost : ℕ
  pub selected_checkpoints : List CfgEdge
  pub allocations : List RegionAllocation
  pub interval_blocks : List (List Block)
