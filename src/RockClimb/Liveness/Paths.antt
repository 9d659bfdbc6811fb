-- ===== src/RockClimb/Liveness/Paths.antt =====
-- `scanBlockForReg` and `isRegLiveFromBlock` of passes/rockclimb-backend/MachineLivenessAnalysis.cpp
-- against what the operands read and write along the paths of the function.
use mathlib.Core.Bool.{false≢true}
use mathlib.Core.List.Memᴰ
use mathlib.Core.Path.{subst}
use bao.Prelude.{
  ◌≡◌, ◌↔◌, refl, sym, ◌∙◌, ◌⊎◌, inl, inr, Bool, true, false, ◌&&◌, Option, none, some,
  if◌then◌else◌, List, [], ◌∷◌, Bool-cases, Memᴰ, arith,
}
use bao.RockClimb.Machine.{
  BlockId, Reg, OperandKind, register, global, symbol, other, MachineOperand, MachineInstr,
  MachineFunction, HasSuccessors, Target,
}
use bao.RockClimb.Liveness.{
  RegScanResult, used_first, defined_first, neither, overlaps, reads, has_use, has_def,
  scan_block_for_reg, is_reg_live_from_block,
}
use bao.RockClimb.Liveness.Walk
use bao.RockClimb.Liveness.Walk.{IsScanLive, is_reg_live_from_block-IsScanLive}

module _ (t : Target) (reg : Reg) where
  -- The operand is a physical register that overlaps the one in question.
  abbrev pub Touches : MachineOperand → Type 0
  Touches o =
      (r : Reg) × (o.kind ≡ register r) × (o.is_physical ≡ true) × (t.regs_overlap r reg ≡ true)

  abbrev pub Reads : MachineOperand → Type 0
  Reads o = Touches o × (o.is_def ≡ false) × (o.is_undef ≡ false)

  abbrev pub Writes : MachineOperand → Type 0
  Writes o = Touches o × (o.is_def ≡ true)

  abbrev pub HasRead : MachineInstr → Type 0
  HasRead i = (o : MachineOperand) × Memᴰ o i.operands × Reads o

  abbrev pub HasWrite : MachineInstr → Type 0
  HasWrite i = (o : MachineOperand) × Memᴰ o i.operands × Writes o

  -- An instruction reads the register, and none before it writes it. An instruction reads before it
  -- writes.
  pub data ReadsFirst : List MachineInstr → Type 0 where
    reads_now : (i : MachineInstr) (is : List MachineInstr) → HasRead i → ReadsFirst (i ∷ is)
    reads_later :
        (i : MachineInstr) (is : List MachineInstr)
        → ¬ HasWrite i
        → ReadsFirst is
        → ReadsFirst (i ∷ is)

  abbrev pub NoWrites : List MachineInstr → Type 0
  NoWrites is = (i : MachineInstr) → Memᴰ i is → ¬ HasWrite i

  kind-cases :
      (k : OperandKind)
      → ((r : Reg) × (k ≡ register r))
        ⊎ ((p : Bool)
            → elim k as (λ x. Option Reg) [ register r ↦ if p then some r else none | _ ↦ none ]
              ≡ none)
  kind-cases (register r) = inl (r, refl)
  kind-cases (global g) = inr (λ p. refl)
  kind-cases symbol = inr (λ p. refl)
  kind-cases other = inr (λ p. refl)

  overlaps_iff : (o : MachineOperand) → (overlaps t o reg ≡ true) ↔ Touches o
  overlaps_iff o = (there, λ (r, k, p, h). rw (k, p) h)
    where
      there : overlaps t o reg ≡ true → Touches o
      there h = elim (kind-cases o.kind) [
        | inr n ↦ absurd (false≢true (rw (overlaps, n o.is_physical) at h))
        | inl (r, k) ↦ elim (Bool-cases o.is_physical) [
          | inl p ↦ (r, k, p, rw (k, p) at h)
          | inr n ↦ absurd (false≢true (rw (k, n) at h))
        ]
      ]

  has_use_iff :
      (os : List MachineOperand)
      → (has_use t reg os ≡ true) ↔ (o : MachineOperand) × Memᴰ o os × Reads o
  has_use_iff [] = (λ h. absurd (false≢true h), λ (o, m, r). absurd (Memᴰ.not-nil m))
  has_use_iff (o ∷ os) = (
    λ h. elim (Bool-cases (overlaps t o reg && reads o)) [
      | inl y ↦ (o, Memᴰ.head refl, ((overlaps_iff o).0 (ground arith), ground arith, ground arith))
      | inr n ↦ let (x, m, r) = (has_use_iff os).0 (ground arith) in (x, Memᴰ.tail m, r)
    ],
    λ (x, m, r). elim (Memᴰ.cases_cons m) [
      | inl e ↦ here (subst Reads e r)
      | inr k ↦ let rest = (has_use_iff os).1 (x, k, r) in ground arith
    ],
  )
    where
      here : Reads o → has_use t reg (o ∷ os) ≡ true
      here (touch, d, u) = rw ((overlaps_iff o).1 touch, d, u) refl

  has_def_iff :
      (os : List MachineOperand)
      → (has_def t reg os ≡ true) ↔ (o : MachineOperand) × Memᴰ o os × Writes o
  has_def_iff [] = (λ h. absurd (false≢true h), λ (o, m, r). absurd (Memᴰ.not-nil m))
  has_def_iff (o ∷ os) = (
    λ h. elim (Bool-cases (overlaps t o reg && o.is_def)) [
      | inl y ↦ (o, Memᴰ.head refl, ((overlaps_iff o).0 (ground arith), ground arith))
      | inr n ↦ let (x, m, r) = (has_def_iff os).0 (ground arith) in (x, Memᴰ.tail m, r)
    ],
    λ (x, m, r). elim (Memᴰ.cases_cons m) [
      | inl e ↦ here (subst Writes e r)
      | inr k ↦ let rest = (has_def_iff os).1 (x, k, r) in ground arith
    ],
  )
    where
      here : Writes o → has_def t reg (o ∷ os) ≡ true
      here (touch, d) = rw ((overlaps_iff o).1 touch, d) refl

  -- The answers of the scan.
  abbrev IsScanned : RegScanResult → List MachineInstr → Type 0
  IsScanned used_first is = ReadsFirst is
  IsScanned defined_first is = (¬ ReadsFirst is) × ¬ NoWrites is
  IsScanned neither is = (¬ ReadsFirst is) × NoWrites is

  ReadsFirst-cons :
      (i : MachineInstr) (is : List MachineInstr)
      → ReadsFirst (i ∷ is)
      → HasRead i ⊎ (¬ HasWrite i) × ReadsFirst is
  ReadsFirst-cons i is (reads_now _ _ r) = inl r
  ReadsFirst-cons i is (reads_later _ _ n r) = inr (n, r)

  later-IsScanned :
      (s : RegScanResult) (i : MachineInstr) (is : List MachineInstr)
      → ¬ HasRead i
      → ¬ HasWrite i
      → IsScanned s is
      → IsScanned s (i ∷ is)
  later-IsScanned used_first i is nr nw r = reads_later i is nw r
  later-IsScanned defined_first i is nr nw (r, w) = (
    λ h. elim (ReadsFirst-cons i is h) [ inl now ↦ nr now | inr (_, k) ↦ r k ],
    λ none. w (λ j m. none j (Memᴰ.tail m)),
  )
  later-IsScanned neither i is nr nw (r, w) = (
    λ h. elim (ReadsFirst-cons i is h) [ inl now ↦ nr now | inr (_, k) ↦ r k ],
    λ j m. elim (Memᴰ.cases_cons m) [
      | inl e ↦ subst (λ z. ¬ HasWrite z) (sym e) nw
      | inr k ↦ w j k
    ],
  )

  scan-IsScanned : (is : List MachineInstr) → IsScanned (scan_block_for_reg t reg is) is
  unfolding scan_block_for_reg
  scan-IsScanned [] = (λ r. elim r [ ], λ i m. absurd (Memᴰ.not-nil m))
  scan-IsScanned (i ∷ is) = elim (Bool-cases (has_use t reg i.operands)) [
    | inl u ↦ rw (u, scan_block_for_reg) (reads_now i is ((has_use_iff i.operands).0 u))
    | inr n ↦
        let nr : ¬ HasRead i = λ r. false≢true (sym n ∙ (has_use_iff i.operands).1 r) in
        elim (Bool-cases (has_def t reg i.operands)) [
          | inl d ↦
              let w = (has_def_iff i.operands).0 d in
              rw (n, d, scan_block_for_reg)
                (
                  λ h. elim (ReadsFirst-cons i is h) [ inl now ↦ nr now | inr (nw, _) ↦ nw w ],
                  λ none. none i (Memᴰ.head refl) w,
                )
          | inr o ↦
              rw (n, o, scan_block_for_reg)
                (later-IsScanned (scan_block_for_reg t reg is) i is nr
                  (λ w. false≢true (sym o ∙ (has_def_iff i.operands).1 w)) (scan-IsScanned is))
        ]
  ]

module _ (t : Target) (f : MachineFunction) (reg : Reg) where
  -- A path from the start of the block comes to a block that reads the register before it writes it,
  -- through blocks that do not write it.
  pub data IsLiveFrom : BlockId → Type 0 where
    used : (b : BlockId) → ReadsFirst t reg (f.instrs b) → IsLiveFrom b
    passes :
        (b c : BlockId)
        → NoWrites t reg (f.instrs b)
        → Memᴰ c (f.successors b)
        → IsLiveFrom c
        → IsLiveFrom b

  abbrev scan_of : BlockId → RegScanResult
  scan_of b = scan_block_for_reg t reg (f.instrs b)

  IsScanLive-IsLiveFrom : (b : BlockId) → IsScanLive t f reg b → IsLiveFrom b
  IsScanLive-IsLiveFrom b (Walk.used _ u) =
      used b (subst (λ s. IsScanned t reg s (f.instrs b)) u (scan-IsScanned t reg (f.instrs b)))
  IsScanLive-IsLiveFrom b (Walk.passes _ c n k l) =
      passes b c
        (subst (λ s. IsScanned t reg s (f.instrs b)) n (scan-IsScanned t reg (f.instrs b))).1 k
        (IsScanLive-IsLiveFrom c l)

  first_scan :
      (s : RegScanResult) (b : BlockId)
      → IsScanned t reg s (f.instrs b)
      → ReadsFirst t reg (f.instrs b)
      → s ≡ used_first
  first_scan used_first b h r = refl
  first_scan defined_first b h r = absurd (h.0 r)
  first_scan neither b h r = absurd (h.0 r)

  quiet_scan :
      (s : RegScanResult) (b : BlockId)
      → IsScanned t reg s (f.instrs b)
      → NoWrites t reg (f.instrs b)
      → (s ≡ used_first) ⊎ (s ≡ neither)
  quiet_scan used_first b h w = inl refl
  quiet_scan defined_first b h w = absurd (h.1 w)
  quiet_scan neither b h w = inr refl

  IsLiveFrom-IsScanLive : (b : BlockId) → IsLiveFrom b → IsScanLive t f reg b
  IsLiveFrom-IsScanLive b (used _ r) =
      Walk.used b (first_scan (scan_of b) b (scan-IsScanned t reg (f.instrs b)) r)
  IsLiveFrom-IsScanLive b (passes _ c w k l) =
      elim (quiet_scan (scan_of b) b (scan-IsScanned t reg (f.instrs b)) w) [
        | inl u ↦ Walk.used b u
        | inr n ↦ Walk.passes b c n k (IsLiveFrom-IsScanLive c l)
      ]

  -- Where the successors of the function's blocks are its blocks, the walk from a block answers true
  -- exactly when some path from its start comes to an instruction that reads a physical register
  -- overlapping the one in question, through instructions that do not write one; an instruction
  -- that does both reads first. A cycle of the function does not keep the walk from its end.
  pub is_reg_live_from_block_iff :
      HasSuccessors f
      → (b : BlockId) → Memᴰ b f.blocks
      → (is_reg_live_from_block t f b reg ≡ true) ↔ IsLiveFrom b
  is_reg_live_from_block_iff within b m =
      let scanned = is_reg_live_from_block-IsScanLive t f reg within b m in
      (λ h. IsScanLive-IsLiveFrom b (scanned.0 h), λ l. scanned.1 (IsLiveFrom-IsScanLive b l))
