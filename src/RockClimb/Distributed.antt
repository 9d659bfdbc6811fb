-- ===== src/RockClimb/Distributed.antt =====
-- `MachineDistributedCheckpointing` of passes/rockclimb-backend/MachineDistributedCheckpointing.cpp:
-- after which instructions the registers that are live at a region boundary are saved.
-- The assertions are left out, and so is `regIdMap_`, which keeps the numbers it has given.
pub mod Needs
pub mod Fixpoint
pub mod Saves
pub mod Regs
pub mod Analysis
pub mod Wanted
pub mod Result
pub mod Backward
mod Tests
use bao.Prelude.{
  ℕ, zero, suc, ◌+◌, ◌-◌, Bool, true, false, not, ◌&&◌, ◌||◌, Option, none, some, List, [], ◌∷◌,
  ◌++◌, map, flat_map, ◌==◌, if◌then◌else◌, leb, length, contains, insert, sum_map,
}
use bao.RockClimb.Machine.{BlockId, Reg, MachineOperand, MachineInstr, MachineFunction, Target}
use bao.RockClimb.Liveness.{
  physical_reg, has_use, has_def, gprs, first_overlapping, is_reg_live_from_block,
}
use bao.RockClimb.Partition.{MachineRegionInfo}
use bao.RockClimb.Optimizer.{is_clobbering_call}

pub record MachineCheckpointPoint : Type 0 where
  pub after_inst : MachineInstr
  pub reg : Reg
  pub reg_id : ℕ
  pub region_start : BlockId

module _ (t : Target) where
  unfoldable pub is_checkpointable_reg : Reg → Bool
  is_checkpointable_reg reg = leb t.r4 reg && leb reg (t.r4 + 11)

  unfoldable pub normalize_to_gpr16 : Reg → Option Reg
  normalize_to_gpr16 reg =
      if is_checkpointable_reg reg then some reg else first_overlapping t reg (gprs t)

  -- R4 is 0, R5 is 1, and so on; `none` where the register is part of none of them.
  unfoldable pub assign_reg_id : Reg → Option ℕ
  assign_reg_id reg = elim (normalize_to_gpr16 reg) [ none ↦ none | some gpr ↦ some (gpr - t.r4) ]

  -- A definition of the register, or a call after which its saved copy may be another.
  unfoldable pub is_def_like : Reg → MachineInstr → Bool
  is_def_like reg i = has_def t reg i.operands || is_clobbering_call i

  -- One instruction, from the last to the first: whether the register is still needed, and the
  -- saves so far.
  unfoldable pub reverse_transfer_instr :
      Reg
      → ℕ
      → BlockId
      → MachineInstr
      → Bool × List MachineCheckpointPoint
      → Bool × List MachineCheckpointPoint
  reverse_transfer_instr reg reg_id region_start i (need, checkpoints) =
      if not (has_use t reg i.operands || has_def t reg i.operands) && not (is_def_like reg i)
      then (need, checkpoints)
      else (
        if is_def_like reg i then false else need,
        if is_def_like reg i && need && not i.is_terminator
            then checkpoints
              ++ record { after_inst = i; reg = reg; reg_id = reg_id; region_start = region_start }
                ∷ []
            else checkpoints,
      )

  unfoldable pub reverse_transfer_block :
      Reg
      → ℕ
      → BlockId
      → List MachineInstr
      → Bool × List MachineCheckpointPoint
      → Bool × List MachineCheckpointPoint
  reverse_transfer_block reg reg_id region_start [] s = s
  reverse_transfer_block reg reg_id region_start (i ∷ is) s =
      reverse_transfer_instr reg reg_id region_start i
        (reverse_transfer_block reg reg_id region_start is s)

  module _ (f : MachineFunction) where
    -- A successor in the set needs the register at its start.
    unfoldable pub need_out : List BlockId → (BlockId → Bool) → List BlockId → Bool
    need_out pred_block_set need_in [] = false
    need_out pred_block_set need_in (s ∷ ss) =
        contains pred_block_set s && need_in s || need_out pred_block_set need_in ss

    -- The new value of `needIn` at a block of the set.
    unfoldable pub new_need_in : List BlockId → Reg → BlockId → (BlockId → Bool) → BlockId → Bool
    new_need_in pred_block_set reg region_start need_in b =
        if b == region_start
        then true
        else (reverse_transfer_block reg 0 region_start (f.instrs b)
            (need_out pred_block_set need_in (f.successors b), [])).0

    abbrev differs : Bool → Bool → Bool
    differs true b = not b
    differs false b = b

    unfoldable pub need_round :
        List BlockId
        → Reg
        → BlockId
        → List BlockId
        → (BlockId → Bool) × Bool
        → (BlockId → Bool) × Bool
    need_round pred_block_set reg region_start [] s = s
    need_round pred_block_set reg region_start (b ∷ bs) (need_in, changed) =
        let new = new_need_in pred_block_set reg region_start need_in b in
        need_round pred_block_set reg region_start bs (
          if contains pred_block_set b && differs (need_in b) new
          then ((λ x. if x == b then new else need_in x), true)
          else (need_in, changed))

    -- `none`: the rounds have run out.
    unfoldable pub need_rounds :
        List BlockId → Reg → BlockId → ℕ → (BlockId → Bool) → Option (BlockId → Bool)
    need_rounds pred_block_set reg region_start zero need_in = none
    need_rounds pred_block_set reg region_start (suc fuel) need_in =
        let next = need_round pred_block_set reg region_start f.blocks (need_in, false) in
        let rest = need_rounds pred_block_set reg region_start fuel next.0 in
        if next.1 then rest else some next.0

    -- Each round but the last changes a block from not needed to needed.
    unfoldable pub need_fixpoint : List BlockId → Reg → BlockId → Option (BlockId → Bool)
    need_fixpoint pred_block_set reg region_start =
        need_rounds pred_block_set reg region_start (suc (length f.blocks)) (λ b. false)

    -- The saves that the last loop emits, given `needIn`.
    unfoldable pub emit_saves :
        List BlockId
        → Reg
        → ℕ
        → BlockId
        → (BlockId → Bool)
        → List BlockId
        → List MachineCheckpointPoint
        → List MachineCheckpointPoint
    emit_saves pred_block_set reg reg_id region_start need_in [] checkpoints = checkpoints
    emit_saves pred_block_set reg reg_id region_start need_in (b ∷ bs) checkpoints =
        emit_saves pred_block_set reg reg_id region_start need_in bs (
          if contains pred_block_set b
          then (reverse_transfer_block reg reg_id region_start (f.instrs b)
              (need_out pred_block_set need_in (f.successors b), checkpoints)).1
          else checkpoints)

    -- `none` where the register has no number or the rounds run out.
    unfoldable pub find_last_reaching_defs :
        List BlockId
        → Reg
        → BlockId
        → List MachineCheckpointPoint
        → Option (List MachineCheckpointPoint)
    find_last_reaching_defs pred_block_set reg region_start checkpoints = elim (assign_reg_id reg) [
      | none ↦ none
      | some reg_id ↦ elim (need_fixpoint pred_block_set reg region_start) [
        | none ↦ none
        | some need_in ↦
            some (emit_saves pred_block_set reg reg_id region_start need_in f.blocks checkpoints)
      ]
    ]

    -- The stack of the backward walk: the last predecessor is looked at first.
    unfoldable pub push_preds : List BlockId → List BlockId → List BlockId
    push_preds [] work = work
    push_preds (p ∷ ps) work = push_preds ps (p ∷ work)

    -- The backward walk, which goes on from a new block unless it starts a region.
    unfoldable pub pred_walk : List BlockId → ℕ → List BlockId → List BlockId → List BlockId
    pred_walk boundary_set zero found work = found
    pred_walk boundary_set (suc fuel) found [] = found
    pred_walk boundary_set (suc fuel) found (b ∷ work) =
        let next : List BlockId × List BlockId =
          if contains found b
          then (found, work)
          else (if contains boundary_set b
              then (b ∷ found, work)
              else (b ∷ found, push_preds (f.predecessors b) work)) in
        pred_walk boundary_set fuel next.0 next.1

    -- A block is new once, so its predecessors are pushed at most once besides those of the start.
    unfoldable pub pred_block_set : List BlockId → BlockId → List BlockId
    pred_block_set boundary_set start =
        pred_walk boundary_set
          (suc (length (f.predecessors start) + sum_map (λ b. length (f.predecessors b)) f.blocks))
          (start ∷ []) (push_preds (f.predecessors start) [])

    -- The register of R4 to R15 that an operand defines.
    unfoldable pub defined_gpr : MachineOperand → Option Reg
    defined_gpr o =
        if o.is_def
        then elim (physical_reg o) [
          | none ↦ none
          | some r ↦ if t.is_reserved r then none else elim (normalize_to_gpr16 r) [
            | none ↦ none
            | some gpr ↦ if is_checkpointable_reg gpr then some gpr else none
          ]
        ]
        else none

    unfoldable pub defs_of_operands : List MachineOperand → List Reg → List Reg
    defs_of_operands [] regs = regs
    defs_of_operands (o ∷ os) regs =
        defs_of_operands os (elim (defined_gpr o) [ none ↦ regs | some gpr ↦ insert gpr regs ])

    unfoldable pub defs_of_block : List MachineInstr → List Reg → List Reg
    defs_of_block [] regs = regs
    defs_of_block (i ∷ is) regs = defs_of_block is (defs_of_operands i.operands regs)

    unfoldable pub defs_in_preds : List BlockId → List BlockId → List Reg → List Reg
    defs_in_preds preds [] regs = regs
    defs_in_preds preds (b ∷ bs) regs =
        defs_in_preds preds bs (if contains preds b then defs_of_block (f.instrs b) regs else regs)

    -- The registers of step 3.
    unfoldable pub save_regs :
        List BlockId
        → BlockId
        → List Reg
        → List MachineCheckpointPoint
        → Option (List MachineCheckpointPoint)
    save_regs preds start [] checkpoints = some checkpoints
    save_regs preds start (reg ∷ regs) checkpoints =
        elim (if is_reg_live_from_block t f start reg
          then find_last_reaching_defs preds reg start checkpoints
          else some checkpoints) [ none ↦ none | some more ↦ save_regs preds start regs more ]

    unfoldable pub save_regions :
        List BlockId
        → List MachineRegionInfo
        → List MachineCheckpointPoint
        → Option (List MachineCheckpointPoint)
    save_regions boundary_set [] checkpoints = some checkpoints
    save_regions boundary_set (r ∷ rs) checkpoints =
        let preds = pred_block_set boundary_set r.start_block in
        elim (save_regs preds r.start_block (defs_in_preds preds f.blocks []) checkpoints) [
          | none ↦ none
          | some more ↦ save_regions boundary_set rs more
        ]

    -- The instruction and the register of a save are in the list.
    unfoldable pub is_seen : MachineCheckpointPoint → List MachineCheckpointPoint → Bool
    is_seen c [] = false
    is_seen c (d ∷ ds) = c.after_inst.id == d.after_inst.id && c.reg == d.reg || is_seen c ds

    -- The first save of each instruction and register.
    unfoldable pub unique_from :
        List MachineCheckpointPoint → List MachineCheckpointPoint → List MachineCheckpointPoint
    unique_from seen [] = []
    unique_from seen (c ∷ cs) =
        let rest = unique_from (if is_seen c seen then seen else c ∷ seen) cs in
        if is_seen c seen then rest else c ∷ rest

    unfoldable pub analyze : List MachineRegionInfo → Option (List MachineCheckpointPoint)
    analyze regions = elim (save_regions (map (λ r. r.start_block) regions) regions []) [
      | none ↦ none
      | some checkpoints ↦ some (unique_from [] checkpoints)
    ]
