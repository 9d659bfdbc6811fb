-- ===== src/RockClimb/Optimizer.antt =====
-- `RockClimbMachineOptimizer` of passes/rockclimb-backend/RockClimbMachineOptimizer.cpp: the costs of
-- the blocks, with the saves of `addDistributedSaveCosts`, and `optimize`; `callMayClobberNvmRegs` of
-- passes/rockclimb-backend/MachineDistributedCheckpointing.cpp.
pub mod Fits
use bao.Prelude.{
  ℕ, zero, suc, ◌+◌, ◌*◌, Bool, true, false, not, ◌&&◌, ◌||◌, Option, none, some, List, [], ◌∷◌,
  if◌then◌else◌, ltb, contains, insert,
}
use bao.RockClimb.Machine.{
  BlockId, Reg, OperandKind, register, global, symbol, other, MachineOperand, MachineInstr,
  MachineFunction, Target,
}
use bao.RockClimb.Liveness.{checkpointed_reg, live_out, compute_bulk_live_in}
use bao.RockClimb.Partition.{MachineRockClimbResult, partition_regions}

-- Whether the callee may write the saved registers: a function of the module that is instrumented,
-- or an unknown one.
unfoldable pub call_may_clobber_nvm_regs : List MachineOperand → Bool
call_may_clobber_nvm_regs [] = true
call_may_clobber_nvm_regs (o ∷ os) = elim o.kind [
  | global none ↦ true
  | global (some (is_declaration, is_runtime)) ↦ not is_declaration && not is_runtime
  | symbol ↦ false
  | _ ↦ call_may_clobber_nvm_regs os
]

-- `MI.isCall() && callMayClobberNvmRegs(MI)`
unfoldable pub is_clobbering_call : MachineInstr → Bool
unfolding call_may_clobber_nvm_regs
is_clobbering_call i = i.is_call && call_may_clobber_nvm_regs i.operands

unfoldable pub has_clobbering_call : List MachineInstr → Bool
unfolding is_clobbering_call
has_clobbering_call [] = false
has_clobbering_call (i ∷ is) = is_clobbering_call i || has_clobbering_call is

module _ (t : Target) where
  -- The registers of R4 to R15 that the operands define.
  unfoldable pub defined_operands : List MachineOperand → List Reg → List Reg
  unfolding insert checkpointed_reg
  defined_operands [] defined = defined
  defined_operands (o ∷ os) defined = defined_operands os (
      if o.is_def
      then elim (checkpointed_reg t o) [ none ↦ defined | some r ↦ insert r defined ]
      else defined)

  unfoldable pub defined_regs : List MachineInstr → List Reg → List Reg
  unfolding defined_operands
  defined_regs [] defined = defined
  defined_regs (i ∷ is) defined = defined_regs is (defined_operands i.operands defined)

  -- The registers that may need a save, counted.
  unfoldable pub count_saves : Bool → List Reg → List Reg → ℕ
  count_saves clobbered defined [] = 0
  count_saves clobbered defined (r ∷ rs) =
      (if clobbered || contains defined r then 1 else 0) + count_saves clobbered defined rs

  module _ (f : MachineFunction) where
    -- The saves that a block is charged for: none where nothing is live out.
    unfoldable pub saves_of : (BlockId → List Reg) → BlockId → ℕ
    unfolding count_saves has_clobbering_call defined_regs
    saves_of live_in b =
        count_saves (has_clobbering_call (f.instrs b)) (defined_regs (f.instrs b) [])
          (live_out t f live_in b)

    -- `energyCosts_` after the constructor, with 0 for a block without an entry.
    unfoldable pub energy_costs : ℕ → Option (BlockId → ℕ)
    energy_costs reg_store_energy =
        if ltb 0 reg_store_energy
        then elim (compute_bulk_live_in t f) [
          | none ↦ none
          | some live_in ↦ some (λ b.
              if contains f.blocks b
              then f.estimate_block b + saves_of live_in b * reg_store_energy
              else 0)
        ]
        else some (λ b. if contains f.blocks b then f.estimate_block b else 0)

    -- `none`: the loop of the liveness analysis does not end.
    unfoldable pub optimize : ℕ → ℕ → Option MachineRockClimbResult
    optimize e_safe reg_store_energy = elim (energy_costs reg_store_energy) [
      | none ↦ none
      | some cost ↦ some (partition_regions f cost e_safe)
    ]
