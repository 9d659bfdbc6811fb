-- ===== src/RockClimb/Distributed/Regs.antt =====
-- The registers of steps 2 and 3 of `analyze`, passes/rockclimb-backend/MachineDistributedCheckpointing.cpp.
use mathlib.Core.Bool.{false≢true}
use mathlib.Core.Option.{some-injective, none-ne-some}
use bao.Prelude.{
  ◌-◌, ◌≡◌, refl, sym, ◌∙◌, ap, inl, inr, true, some, List, [], ◌∷◌, Bool-cases, Option-cases,
  contains, insert, contains-insert_cases,
}
use bao.RockClimb.Machine.{BlockId, Reg, MachineOperand, MachineInstr, MachineFunction, Target}
use bao.RockClimb.Liveness.{physical_reg}
use bao.RockClimb.Distributed.{
  is_checkpointable_reg, normalize_to_gpr16, assign_reg_id, defined_gpr, defs_of_operands,
  defs_of_block, defs_in_preds,
}

module _ (t : Target) where
  -- R4 to R15 are numbered from R4 on.
  pub assign_reg_id_gpr :
      (reg : Reg) → is_checkpointable_reg t reg ≡ true → assign_reg_id t reg ≡ some (reg - t.r4)
  unfolding assign_reg_id normalize_to_gpr16
  assign_reg_id_gpr reg h = rw (h, assign_reg_id, normalize_to_gpr16) refl

  abbrev AllGprs : List Reg → Type 0
  AllGprs regs = (r : Reg) → contains regs r ≡ true → is_checkpointable_reg t r ≡ true

  module _ (f : MachineFunction) where
    defined_gpr-checkpointable :
        (o : MachineOperand) (g : Reg)
        → defined_gpr t f o ≡ some g
        → is_checkpointable_reg t g ≡ true
    unfolding defined_gpr
    defined_gpr-checkpointable o g h = elim (Bool-cases o.is_def) [
      | inr n ↦ absurd (none-ne-some g (rw (n, defined_gpr) at h))
      | inl d ↦ elim (Option-cases (physical_reg o)) [
        | inl e ↦ absurd (none-ne-some g (rw (d, e, defined_gpr) at h))
        | inr (r, e) ↦ elim (Bool-cases (t.is_reserved r)) [
          | inl y ↦ absurd (none-ne-some g (rw (d, e, y, defined_gpr) at h))
          | inr n ↦ elim (Option-cases (normalize_to_gpr16 t r)) [
            | inl q ↦ absurd (none-ne-some g (rw (d, e, n, q, defined_gpr) at h))
            | inr (x, q) ↦ elim (Bool-cases (is_checkpointable_reg t x)) [
              | inl c ↦
                  let same = some-injective x g (rw (d, e, n, q, c, defined_gpr) at h) in
                  ap (is_checkpointable_reg t) (sym same) ∙ c
              | inr c ↦ absurd (none-ne-some g (rw (d, e, n, q, c, defined_gpr) at h))
            ]
          ]
        ]
      ]
    ]

    operands-AllGprs :
        (os : List MachineOperand) (regs : List Reg)
        → AllGprs regs
        → AllGprs (defs_of_operands t f os regs)
    unfolding defs_of_operands
    operands-AllGprs [] regs ok = ok
    operands-AllGprs (o ∷ os) regs ok = elim (Option-cases (defined_gpr t f o)) [
      | inl e ↦ rw (e, defs_of_operands) (operands-AllGprs os regs ok)
      | inr (g, e) ↦
          rw (e, defs_of_operands)
            (operands-AllGprs os (insert g regs) (λ r h. elim (contains-insert_cases g r regs h) [
              | inl q ↦ ap (is_checkpointable_reg t) q ∙ defined_gpr-checkpointable o g e
              | inr k ↦ ok r k
            ]))
    ]

    block-AllGprs :
        (is : List MachineInstr) (regs : List Reg)
        → AllGprs regs
        → AllGprs (defs_of_block t f is regs)
    unfolding defs_of_block
    block-AllGprs [] regs ok = ok
    block-AllGprs (i ∷ is) regs ok =
        block-AllGprs is (defs_of_operands t f i.operands regs)
          (operands-AllGprs i.operands regs ok)

    preds-AllGprs :
        (preds bs : List BlockId) (regs : List Reg)
        → AllGprs regs
        → AllGprs (defs_in_preds t f preds bs regs)
    unfolding defs_in_preds
    preds-AllGprs preds [] regs ok = ok
    preds-AllGprs preds (b ∷ bs) regs ok = elim (Bool-cases (contains preds b)) [
      | inl y ↦
          rw (y, defs_in_preds)
            (preds-AllGprs preds bs (defs_of_block t f (f.instrs b) regs)
              (block-AllGprs (f.instrs b) regs ok))
      | inr n ↦ rw (n, defs_in_preds) (preds-AllGprs preds bs regs ok)
    ]

    -- Only R4 to R15 are saved.
    pub defs_in_preds_checkpointable :
        (preds : List BlockId) (r : Reg)
        → contains (defs_in_preds t f preds f.blocks []) r ≡ true
        → is_checkpointable_reg t r ≡ true
    unfolding contains
    defs_in_preds_checkpointable preds r h =
        preds-AllGprs preds f.blocks [] (λ x k. absurd (false≢true k)) r h
