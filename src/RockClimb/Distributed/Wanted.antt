-- ===== src/RockClimb/Distributed/Wanted.antt =====
-- The saves that the regions want of `analyze`, of
-- passes/rockclimb-backend/MachineDistributedCheckpointing.cpp, by the paths of the function.
use mathlib.Core.List.Memᴰ
use mathlib.Core.Path.{subst}
use bao.Prelude.{
  ◌-◌, ◌≡◌, refl, ap, ◌⊎◌, inl, inr, true, false, some, List, [], ◌∷◌, map, ==_refl, Bool-cases,
  Option-cases, contains, contains→mem, insert, contains-insert_self, contains-insert_old, Memᴰ,
  arith,
}
use bao.RockClimb.Machine.{
  BlockId, Reg, MachineOperand, MachineInstr, MachineFunction, HasSuccessors, Target,
}
use bao.RockClimb.Liveness.Paths.{IsLiveFrom, is_reg_live_from_block_iff}
use bao.RockClimb.Partition.{MachineRegionInfo}
use bao.RockClimb.Distributed.{
  MachineCheckpointPoint, defined_gpr, defs_of_operands, defs_of_block, defs_in_preds,
}
use bao.RockClimb.Distributed.Needs
use bao.RockClimb.Distributed.Needs.{any_def_like, IsNeeded}
use bao.RockClimb.Distributed.Saves.{IsLastDef, point}
use bao.RockClimb.Distributed.Backward.{HasPredecessors, Precedes, pred_block_set_iff}
use bao.RockClimb.Distributed.Analysis.{IsSaveIn, preds_of}

module _ (t : Target) (f : MachineFunction) where
  module _ (boundaries : List BlockId) (start : BlockId) where
    -- The block is the start of a region, or a path leads from it to the start without a boundary in
    -- between.
    abbrev pub IsBefore : BlockId → Type 0
    IsBefore b = (b ≡ start) ⊎ Precedes t f boundaries start b

    -- From the start of the block a path through such blocks leads to the region's start, and no block
    -- of the path but the last defines the register.
    pub data Arrives (reg : Reg) : BlockId → Type 0 where
      arrived : Arrives reg start
      onwards :
          (b c : BlockId)
          → any_def_like t reg (f.instrs b) ≡ false
          → Memᴰ c (f.successors b)
          → IsBefore c
          → Arrives reg c
          → Arrives reg b

    -- An operand defines the register in one of the blocks.
    abbrev pub IsDefinedBefore : Reg → Type 0
    IsDefinedBefore reg =
        (b : BlockId) × Memᴰ b f.blocks
        × IsBefore b
        × (i : MachineInstr) × Memᴰ i (f.instrs b)
        × (o : MachineOperand) × Memᴰ o i.operands
        × (defined_gpr t f o ≡ some reg)

    -- The save follows the last definition of one of the blocks, whose value can arrive.
    abbrev pub IsLastBefore : Reg → MachineCheckpointPoint → Type 0
    IsLastBefore reg c =
        (b : BlockId) × Memᴰ b f.blocks
        × IsBefore b
        × ((next : BlockId) × Memᴰ next (f.successors b) × IsBefore next × Arrives reg next)
        × (i : MachineInstr) × IsLastDef t reg i (f.instrs b)
        × (c ≡ point t reg (reg - t.r4) start i)

  -- A save that a region wants, of a register that is live at its start.
  abbrev pub IsWanted : List MachineRegionInfo → MachineCheckpointPoint → Type 0
  IsWanted regions c =
      (r : MachineRegionInfo) × Memᴰ r regions
      × Memᴰ r.start_block f.blocks
      × (reg : Reg) × IsDefinedBefore (map (λ x. x.start_block) regions) r.start_block reg
      × IsLiveFrom t f reg r.start_block
      × IsLastBefore (map (λ x. x.start_block) regions) r.start_block reg c

  defs_of_operands-keeps :
      (os : List MachineOperand) (s : List Reg) (r : Reg)
      → contains s r ≡ true
      → contains (defs_of_operands t f os s) r ≡ true
  unfolding defs_of_operands
  defs_of_operands-keeps [] s r h = h
  defs_of_operands-keeps (o ∷ os) s r h = elim (Option-cases (defined_gpr t f o)) [
    | inl e ↦ rw (e, defs_of_operands) (defs_of_operands-keeps os s r h)
    | inr (g, e) ↦
        rw (e, defs_of_operands)
          (defs_of_operands-keeps os (insert g s) r (contains-insert_old g r s h))
  ]

  defs_of_operands-mem :
      (os : List MachineOperand) (s : List Reg) (r : Reg) (o : MachineOperand)
      → Memᴰ o os
      → defined_gpr t f o ≡ some r
      → contains (defs_of_operands t f os s) r ≡ true
  unfolding defs_of_operands
  defs_of_operands-mem [] s r o m d = absurd (Memᴰ.not-nil m)
  defs_of_operands-mem (x ∷ xs) s r o m d = elim (Memᴰ.cases_cons m) [
    | inr k ↦ defs_of_operands-mem xs _ r o k d
    | inl e ↦
        let here = subst (λ z. defined_gpr t f z ≡ some r) e d in
        rw (here, defs_of_operands)
          (defs_of_operands-keeps xs (insert r s) r (contains-insert_self r s))
  ]

  defs_of_block-keeps :
      (is : List MachineInstr) (s : List Reg) (r : Reg)
      → contains s r ≡ true
      → contains (defs_of_block t f is s) r ≡ true
  unfolding defs_of_block
  defs_of_block-keeps [] s r h = h
  defs_of_block-keeps (i ∷ is) s r h =
      defs_of_block-keeps is _ r (defs_of_operands-keeps i.operands s r h)

  defs_of_block-mem :
      (is : List MachineInstr) (s : List Reg) (r : Reg) (i : MachineInstr) (o : MachineOperand)
      → Memᴰ i is
      → Memᴰ o i.operands
      → defined_gpr t f o ≡ some r
      → contains (defs_of_block t f is s) r ≡ true
  unfolding defs_of_block
  defs_of_block-mem [] s r i o m k d = absurd (Memᴰ.not-nil m)
  defs_of_block-mem (x ∷ xs) s r i o m k d = elim (Memᴰ.cases_cons m) [
    | inr j ↦ defs_of_block-mem xs _ r i o j k d
    | inl e ↦
        defs_of_block-keeps xs _ r
          (defs_of_operands-mem x.operands s r o (subst (λ z. Memᴰ o z.operands) e k) d)
  ]

  defs_in_preds-keeps :
      (preds bs : List BlockId) (s : List Reg) (r : Reg)
      → contains s r ≡ true
      → contains (defs_in_preds t f preds bs s) r ≡ true
  unfolding defs_in_preds
  defs_in_preds-keeps preds [] s r h = h
  defs_in_preds-keeps preds (b ∷ bs) s r h = elim (Bool-cases (contains preds b)) [
    | inl y ↦
        rw (y, defs_in_preds)
          (defs_in_preds-keeps preds bs _ r (defs_of_block-keeps (f.instrs b) s r h))
    | inr n ↦ rw (n, defs_in_preds) (defs_in_preds-keeps preds bs s r h)
  ]

  defs_in_preds-mem :
      (preds bs : List BlockId) (s : List Reg) (r : Reg) (b : BlockId) (i : MachineInstr)
      (o : MachineOperand)
      → Memᴰ b bs
      → contains preds b ≡ true
      → Memᴰ i (f.instrs b)
      → Memᴰ o i.operands
      → defined_gpr t f o ≡ some r
      → contains (defs_in_preds t f preds bs s) r ≡ true
  unfolding defs_in_preds
  defs_in_preds-mem preds [] s r b i o m h j k d = absurd (Memᴰ.not-nil m)
  defs_in_preds-mem preds (x ∷ xs) s r b i o m h j k d = elim (Memᴰ.cases_cons m) [
    | inr n ↦ defs_in_preds-mem preds xs _ r b i o n h j k d
    | inl e ↦
        let y = subst (λ z. contains preds z ≡ true) e h in
        rw (y, defs_in_preds)
          (defs_in_preds-keeps preds xs _ r
            (defs_of_block-mem (f.instrs x) s r i o (subst (λ z. Memᴰ i (f.instrs z)) e j) k d))
  ]

  starts-mem :
      (regions : List MachineRegionInfo) (r : MachineRegionInfo)
      → Memᴰ r regions
      → contains (map (λ x. x.start_block) regions) r.start_block ≡ true
  unfolding contains
  starts-mem [] r m = absurd (Memᴰ.not-nil m)
  starts-mem (x ∷ xs) r m = elim (Memᴰ.cases_cons m) [
    | inl e ↦ rw (ap (λ z. z.start_block) e, ==_refl x.start_block) refl
    | inr k ↦ let rest = starts-mem xs r k in ground arith
  ]

  -- What a region wants is a save by the sets that the analysis computes.
  pub IsWanted-IsSaveIn :
      (regions : List MachineRegionInfo) (c : MachineCheckpointPoint)
      → HasSuccessors f
      → HasPredecessors f
      → IsWanted regions c
      → IsSaveIn t f (map (λ x. x.start_block) regions) regions c
  IsWanted-IsSaveIn regions c within before
        (
          r,
          mr,
          known,
          reg,
          (b, mb, ib, i, mi, o, mo, d),
          live,
          (lb, ml, il, (next, mn, inx, arr), li, last, is_c),
        ) =
      let start = r.start_block in
      let boundaries = map (λ x. x.start_block) regions in
      let into : (x : BlockId)
          → IsBefore boundaries start x
          → contains (preds_of t f boundaries r) x ≡ true =
        λ x h.
          (pred_block_set_iff t f boundaries start before (starts-mem regions r mr) x known).1 h in
      (
        r,
        mr,
        (
          reg,
          contains→mem _ reg (
              defs_in_preds-mem (preds_of t f boundaries r) f.blocks [] reg b i o mb (into b ib) mi
                mo d),
          (is_reg_live_from_block_iff t f reg within start known).1 live,
          (
            lb,
            ml,
            into lb il,
            (next, mn, into next inx, needed boundaries r into arr),
            li,
            last,
            is_c,
          ),
        ),
      )
    where
      needed :
          (boundaries : List BlockId) (r : MachineRegionInfo)
          → ((x : BlockId)
              → IsBefore boundaries r.start_block x
              → contains (preds_of t f boundaries r) x ≡ true)
          → {reg : Reg} {x : BlockId} → Arrives boundaries r.start_block reg x
          → IsNeeded t reg f (preds_of t f boundaries r) r.start_block x
      needed boundaries r into arrived = Needs.at_start
      needed boundaries r into (onwards x y n m h a) =
          Needs.through x y n m (into y h) (needed boundaries r into a)
