-- ===== src/RockClimb/Liveness.antt =====
-- passes/rockclimb-backend/MachineLivenessAnalysis.cpp: `scanBlockForReg`, `isRegLiveFromBlock` and
-- `computeBulkLiveIn`.
pub mod Walk
pub mod Bulk
pub mod Gprs
pub mod Rounds
pub mod Fixpoint
pub mod Paths
pub mod BulkPaths
use bao.Prelude.{
  ℕ, zero, suc, ◌+◌, ◌*◌, Bool, true, false, not, ◌&&◌, ◌||◌, Option, none, some, List, [], ◌∷◌,
  ◌++◌, ◌==◌, if◌then◌else◌, length, contains, insert, insert_all, sum_map,
}
use bao.RockClimb.Machine.{
  BlockId, Reg, OperandKind, register, global, symbol, other, MachineOperand, MachineInstr,
  MachineFunction, Target,
}

-- `MO.isReg() && MO.getReg().isPhysical()`, with the register.
abbrev pub physical_reg : MachineOperand → Option Reg
physical_reg o = elim o.kind [ register r ↦ if o.is_physical then some r else none | _ ↦ none ]

-- `MO.isUse() && !MO.isUndef()`
abbrev pub reads : MachineOperand → Bool
reads o = not o.is_def && not o.is_undef

pub data RegScanResult : Type 0 where
  used_first defined_first neither : RegScanResult

-- `r`, `r + 1`, ...: `count` registers
abbrev pub registers_from : Reg → ℕ → List Reg
registers_from r zero = []
registers_from r (suc count) = r ∷ registers_from (suc r) count

module _ (t : Target) where
  abbrev pub overlaps : MachineOperand → Reg → Bool
  overlaps o reg = elim (physical_reg o) [ none ↦ false | some r ↦ t.regs_overlap r reg ]

  -- `hasUse` and `hasDef` after the operands.
  abbrev pub has_use : Reg → List MachineOperand → Bool
  has_use reg [] = false
  has_use reg (o ∷ os) = overlaps o reg && reads o || has_use reg os

  abbrev pub has_def : Reg → List MachineOperand → Bool
  has_def reg [] = false
  has_def reg (o ∷ os) = overlaps o reg && o.is_def || has_def reg os

  unfoldable pub scan_block_for_reg : Reg → List MachineInstr → RegScanResult
  scan_block_for_reg reg [] = neither
  scan_block_for_reg reg (i ∷ is) =
      let rest = scan_block_for_reg reg is in
      if has_use reg i.operands
      then used_first
      else (if has_def reg i.operands then defined_first else rest)

  -- R4 to R15
  abbrev pub gprs : List Reg
  gprs = registers_from t.r4 12

  abbrev pub first_overlapping : Reg → List Reg → Option Reg
  first_overlapping reg [] = none
  first_overlapping reg (g ∷ gs) = if t.regs_overlap reg g then some g else first_overlapping reg gs

  -- The register that the bulk analysis counts the operand for.
  unfoldable pub checkpointed_reg : MachineOperand → Option Reg
  checkpointed_reg o = elim (physical_reg o) [
    | none ↦ none
    | some r ↦ if t.is_reserved r then none else first_overlapping r gprs
  ]

  -- One operand of the first loop of `computeBulkLiveIn`, over the uses and the definitions.
  unfoldable pub use_def_operand : MachineOperand → List Reg × List Reg → List Reg × List Reg
  unfolding insert
  use_def_operand o (uses, defs) = elim (checkpointed_reg o) [
    | none ↦ (uses, defs)
    | some g ↦ (
      if reads o && not (contains defs g) then insert g uses else uses,
      if o.is_def then insert g defs else defs,
    )
  ]

  unfoldable pub use_def_operands : List MachineOperand → List Reg × List Reg → List Reg × List Reg
  use_def_operands [] s = s
  use_def_operands (o ∷ os) s = use_def_operands os (use_def_operand o s)

  unfoldable pub use_def_block : List MachineInstr → List Reg × List Reg → List Reg × List Reg
  use_def_block [] s = s
  use_def_block (i ∷ is) s = use_def_block is (use_def_operands i.operands s)

  module _ (f : MachineFunction) where
    -- The stack: the last successor is looked at first.
    unfoldable pub push_succs : List BlockId → List BlockId → List BlockId
    push_succs [] work = work
    push_succs (s ∷ ss) work = push_succs ss (s ∷ work)

    -- The while loop of `isRegLiveFromBlock`, with the visited blocks.
    unfoldable pub live_walk : Reg → ℕ → List BlockId → List BlockId → Bool
    live_walk reg zero visited work = false
    live_walk reg (suc fuel) visited [] = false
    live_walk reg (suc fuel) visited (b ∷ work) =
        let again = live_walk reg fuel visited work in
        let past = live_walk reg fuel (b ∷ visited) work in
        let through = live_walk reg fuel (b ∷ visited) (push_succs (f.successors b) work) in
        if contains visited b then again else elim (scan_block_for_reg reg (f.instrs b)) [
          | used_first ↦ true
          | defined_first ↦ past
          | neither ↦ through
        ]

    -- A block is visited once, so its successors are pushed at most once.
    unfoldable pub is_reg_live_from_block : BlockId → Reg → Bool
    is_reg_live_from_block start reg =
        live_walk reg (2 + sum_map (λ b. length (f.successors b)) f.blocks) [] (start ∷ [])

    abbrev pub use_set : BlockId → List Reg
    use_set b = (use_def_block (f.instrs b) ([], [])).0

    abbrev pub def_set : BlockId → List Reg
    def_set b = (use_def_block (f.instrs b) ([], [])).1

    unfoldable pub union_live_ins : (BlockId → List Reg) → List BlockId → List Reg → List Reg
    union_live_ins live_in [] regs = regs
    union_live_ins live_in (s ∷ ss) regs = union_live_ins live_in ss (insert_all (live_in s) regs)

    unfoldable pub live_out : (BlockId → List Reg) → BlockId → List Reg
    live_out live_in b = union_live_ins live_in (f.successors b) []

    -- What is live out and not defined goes into the set; whether it grew.
    unfoldable pub add_undefined : List Reg → List Reg → List Reg × Bool → List Reg × Bool
    add_undefined defs [] s = s
    add_undefined defs (r ∷ rs) (li, changed) =
        add_undefined defs rs
          (if contains defs r then (li, changed) else (insert r li, changed || not (contains li r)))

    -- One round over the blocks.
    unfoldable pub live_in_round :
        List BlockId → (BlockId → List Reg) × Bool → (BlockId → List Reg) × Bool
    live_in_round [] s = s
    live_in_round (b ∷ bs) (live_in, changed) =
        let (li, grown) = add_undefined (def_set b) (live_out live_in b) (live_in b, changed) in
        live_in_round bs ((λ x. if x == b then li else live_in x), grown)

    -- `none`: the rounds have run out.
    unfoldable pub live_in_rounds : ℕ → (BlockId → List Reg) → Option (BlockId → List Reg)
    live_in_rounds zero live_in = none
    live_in_rounds (suc fuel) live_in =
        let next = live_in_round f.blocks (live_in, false) in
        let rest = live_in_rounds fuel next.0 in if next.1 then rest else some next.0

    abbrev pub first_live_in : BlockId → List Reg
    first_live_in b = if contains f.blocks b then use_set b else []

    -- Each round but the last adds a register to a block.
    unfoldable pub compute_bulk_live_in : Option (BlockId → List Reg)
    compute_bulk_live_in = live_in_rounds (suc (12 * length f.blocks)) first_live_in
