-- ===== src/RockClimb/Machine.antt =====
-- What passes/rockclimb-backend reads of LLVM's machine code: operands, instructions, blocks, the
-- loops of `MachineLoopInfo`, and the registers of the target. A block stands for its address.
use bao.Prelude.{ℕ, Bool, Option, List, Memᴰ}

abbrev pub BlockId : Type 0
BlockId = ℕ

abbrev pub Reg : Type 0
Reg = ℕ

-- An operand is a register, a global, an external symbol or something else. A global that is a
-- function says whether it is a declaration and whether `isRuntimeFunction` holds of its name;
-- `none` is a global that is no function.
pub data OperandKind : Type 0 where
  register : Reg → OperandKind
  global : Option (Bool × Bool) → OperandKind
  symbol other : OperandKind

-- `isUse` is the negation of `isDef` in LLVM. `physical` is read of registers only.
pub record MachineOperand : Type 0 where
  pub kind : OperandKind
  pub is_physical : Bool
  pub is_def : Bool
  pub is_undef : Bool

pub record MachineInstr : Type 0 where
  pub id : ℕ
  pub operands : List MachineOperand
  pub is_call : Bool
  pub is_terminator : Bool

-- A loop with its header, if it has one, and its inner loops.
mutual
  pub data MachineLoop : Type 0 where
    loop : Option BlockId → MachineLoops → MachineLoop

  pub data MachineLoops : Type 0 where
    no_loops : MachineLoops
    and_loop : MachineLoop → MachineLoops → MachineLoops

-- `reverse_post_order` is the order of LLVM's `ReversePostOrderTraversal`, and `estimate_block` the
-- energy of a block without the saves.
pub record MachineFunction : Type 0 where
  pub blocks : List BlockId
  pub instrs : BlockId → List MachineInstr
  pub successors : BlockId → List BlockId
  pub predecessors : BlockId → List BlockId
  pub is_return_block : BlockId → Bool
  pub is_main : Bool
  pub loops : MachineLoops
  pub reverse_post_order : List BlockId
  pub estimate_block : BlockId → ℕ

-- The successors of a block of the function are blocks of the function.
abbrev pub HasSuccessors : MachineFunction → Type 0
HasSuccessors f = (b c : BlockId) → Memᴰ b f.blocks → Memᴰ c (f.successors b) → Memᴰ c f.blocks

-- The registers: `regs_overlap` of `TargetRegisterInfo`, `is_reserved` of `MachineRegisterInfo`, and
-- the number of R4. R15 is 11 more: `MSP430Constants::resolve` stops with an error otherwise.
pub record Target : Type 0 where
  pub regs_overlap : Reg → Reg → Bool
  pub is_reserved : Reg → Bool
  pub r4 : Reg
