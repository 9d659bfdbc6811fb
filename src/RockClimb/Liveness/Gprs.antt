-- ===== src/RockClimb/Liveness/Gprs.antt =====
-- The registers of the sets of `computeBulkLiveIn`, passes/rockclimb-backend/MachineLivenessAnalysis.cpp.
use mathlib.Core.Bool.{false≢true}
use mathlib.Core.Path.{subst}
use mathlib.Core.Option.{some-injective, none-ne-some}
use bao.Prelude.{
  ◌≡◌, sym, inl, inr, true, not, ◌&&◌, some, List, [], ◌∷◌, Bool-cases, Option-cases, contains,
  insert, contains-insert_cases, Memᴰ,
}
use bao.RockClimb.Machine.{BlockId, Reg, MachineOperand, MachineInstr, MachineFunction, Target}
use bao.RockClimb.Liveness.{
  reads, gprs, first_overlapping, checkpointed_reg, physical_reg, use_def_operand, use_def_operands,
  use_def_block,
}
use bao.RockClimb.Liveness.Bulk.{IsSetLive, used, passes}

module _ (t : Target) (f : MachineFunction) where
  first_overlapping-mem :
      (r g : Reg) (gs : List Reg) → first_overlapping t r gs ≡ some g → Memᴰ g gs
  first_overlapping-mem r g [] h = absurd (none-ne-some g h)
  first_overlapping-mem r g (x ∷ xs) h = elim (Bool-cases (t.regs_overlap r x)) [
    | inl y ↦ Memᴰ.head (some-injective g x (sym (rw y at h)))
    | inr n ↦ Memᴰ.tail (first_overlapping-mem r g xs (rw n at h))
  ]

  checkpointed_reg-mem :
      (o : MachineOperand) (g : Reg) → checkpointed_reg t o ≡ some g → Memᴰ g (gprs t)
  unfolding checkpointed_reg
  checkpointed_reg-mem o g h = elim (Option-cases (physical_reg o)) [
    | inl e ↦ absurd (none-ne-some g (rw (e, checkpointed_reg) at h))
    | inr (r, e) ↦ elim (Bool-cases (t.is_reserved r)) [
      | inl y ↦ absurd (none-ne-some g (rw (e, y, checkpointed_reg) at h))
      | inr n ↦ first_overlapping-mem r g (gprs t) (rw (e, n, checkpointed_reg) at h)
    ]
  ]

  abbrev AllGprs : List Reg → Type 0
  AllGprs regs = (r : Reg) → contains regs r ≡ true → Memᴰ r (gprs t)

  AllGprs-insert :
      (g : Reg) (regs : List Reg) → Memᴰ g (gprs t) → AllGprs regs → AllGprs (insert g regs)
  AllGprs-insert g regs m ok r h = elim (contains-insert_cases g r regs h) [
    | inl e ↦ subst (λ x. Memᴰ x (gprs t)) (sym e) m
    | inr k ↦ ok r k
  ]

  operand-AllGprs :
      (o : MachineOperand) (s : List Reg × List Reg)
      → AllGprs s.0
      → AllGprs (use_def_operand t o s).0
  unfolding use_def_operand
  operand-AllGprs o (uses, defs) ok = elim (Option-cases (checkpointed_reg t o)) [
    | inl e ↦ rw (e, use_def_operand) ok
    | inr (g, e) ↦ elim (Bool-cases (reads o && not (contains defs g))) [
      | inl y ↦ rw (e, y, use_def_operand) (AllGprs-insert g uses (checkpointed_reg-mem o g e) ok)
      | inr n ↦ rw (e, n, use_def_operand) ok
    ]
  ]

  operands-AllGprs :
      (os : List MachineOperand) (s : List Reg × List Reg)
      → AllGprs s.0
      → AllGprs (use_def_operands t os s).0
  unfolding use_def_operands
  operands-AllGprs [] s ok = ok
  operands-AllGprs (o ∷ os) s ok =
      operands-AllGprs os (use_def_operand t o s) (operand-AllGprs o s ok)

  block-AllGprs :
      (is : List MachineInstr) (s : List Reg × List Reg)
      → AllGprs s.0
      → AllGprs (use_def_block t is s).0
  unfolding use_def_block
  block-AllGprs [] s ok = ok
  block-AllGprs (i ∷ is) s ok = block-AllGprs is _ (operands-AllGprs i.operands s ok)

  -- Only R4 to R15 are live.
  pub IsSetLive-gpr : (r : Reg) (b : BlockId) → IsSetLive t f r b → Memᴰ r (gprs t)
  unfolding contains
  IsSetLive-gpr r b (used _ u) =
      block-AllGprs (f.instrs b) ([], []) (λ x h. absurd (false≢true h)) r u
  IsSetLive-gpr r b (passes _ c n m l) = IsSetLive-gpr r c l
