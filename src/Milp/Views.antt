-- ===== src/Milp/Views.antt =====
-- passes/include/milp/ModelViews.h and the parameters of passes/include/milp/EnergyModel.h: what the
-- optimizer reads of the program that it instruments.
-- A basic block is its `NodeId`; an LLVM value is a number. Energies and frequencies are natural
-- multiples of a fixed unit.
use bao.Prelude.{ℕ, Bool, List}

abbrev pub NodeId : Type 0
NodeId = ℕ

abbrev pub Value : Type 0
Value = ℕ

pub record MilpEnergyParams : Type 0 where
  pub capacity : ℕ
  pub e_pro : ℕ
  pub e_epi : ℕ
  pub vm_capacity_bytes : ℕ

pub record CfgView : Type 0 where
  pub blocks : List NodeId
  pub edges : List (NodeId × NodeId)
  pub entry_block : NodeId
  pub exit_blocks : List NodeId
  pub block_energy_cost : NodeId → ℕ

-- `var_size_bytes` is never negative in the implementations of the view.
pub record StateView : Type 0 where
  pub vm_objs : List Value
  pub elig_live_in : NodeId → List Value
  pub elig_def_indicator : NodeId → Value → Bool
  pub ineligible_objs : List Value
  pub is_ineligible : Value → Bool
  pub inelig_live_in : NodeId → List Value
  pub inelig_def_indicator : NodeId → Value → Bool
  pub var_size_bytes : Value → ℕ

pub record EnergyView : Type 0 where
  pub params : MilpEnergyParams
  pub e_base : NodeId → ℕ
  pub e_nvm : NodeId → Value → ℕ
  pub e_save : Value → ℕ
  pub e_restore : Value → ℕ
  pub f_entry : NodeId → ℕ
  pub f_boundary : NodeId → ℕ

-- What the optimizer asks LLVM about a value: the casts to `GlobalVariable` and `AllocaInst`, and
-- the comparison of the keys of `getStableValueOrderKey`.
pub record ValueInfo : Type 0 where
  pub is_global : Value → Bool
  pub is_alloca : Value → Bool
  pub key_lt : Value → Value → Bool

-- The analyses that `MILPInput` bundles, with the switch `setCoarseAllocation`.
pub record MilpInput : Type 0 where
  pub cfg : CfgView
  pub open cfg use *
  pub state : StateView
  pub open state use *
  pub energy : EnergyView
  pub open energy use *
  pub values : ValueInfo
  pub open values use *
  pub coarse_allocation : Bool
