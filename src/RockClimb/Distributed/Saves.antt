-- ===== src/RockClimb/Distributed/Saves.antt =====
-- The saves that `findLastReachingDefs` of passes/rockclimb-backend/MachineDistributedCheckpointing.cpp
-- emits.
use mathlib.Core.Bool.{false≢true}
use mathlib.Core.List.Memᴰ
use mathlib.Core.Path.{subst}
use bao.Prelude.{
  ℕ, ◌≡◌, ◌↔◌, refl, sym, ◌∙◌, ap, ◌⊎◌, inl, inr, Bool, true, false, not, ◌&&◌, some, List, [], ◌∷◌,
  ◌++◌, if◌then◌else◌, Bool-cases, contains, Memᴰ, arith,
}
use bao.RockClimb.Machine.{BlockId, Reg, MachineInstr, MachineFunction, HasSuccessors, Target}
use bao.RockClimb.Distributed.{
  MachineCheckpointPoint, assign_reg_id, is_def_like, reverse_transfer_instr,
  reverse_transfer_block, need_out, emit_saves, find_last_reaching_defs,
}
use bao.RockClimb.Distributed.Needs.{
  any_def_like, reverse_transfer_block-need, IsNeededAfter, mem-need_out, need_out-after,
}
use bao.RockClimb.Distributed.Fixpoint.{need_fixpoint-Solved}

module _ (t : Target) (reg : Reg) where
  -- The instruction is the last of the block that defines the register, and no terminator.
  pub data IsLastDef (i : MachineInstr) : List MachineInstr → Type 0 where
    here :
        (post : List MachineInstr)
        → is_def_like t reg i ≡ true
        → i.is_terminator ≡ false
        → any_def_like t reg post ≡ false
        → IsLastDef i (i ∷ post)
    later :
        (j : MachineInstr) (post : List MachineInstr) → IsLastDef i post → IsLastDef i (j ∷ post)

  IsLastDef-cons :
      (i j : MachineInstr) (post : List MachineInstr)
      → IsLastDef i (j ∷ post)
      → (i ≡ j)
          × (is_def_like t reg i ≡ true)
          × (i.is_terminator ≡ false)
          × (any_def_like t reg post ≡ false)
        ⊎ IsLastDef i post
  IsLastDef-cons i j post (here _ d n a) = inl (refl, d, n, a)
  IsLastDef-cons i j post (later _ _ h) = inr h

  module _ (id : ℕ) (start : BlockId) where
    abbrev pub point : MachineInstr → MachineCheckpointPoint
    point i = record { after_inst = i; reg = reg; reg_id = id; region_start = start }

    transfer_instr-saves :
        (i : MachineInstr) (s : Bool × List MachineCheckpointPoint)
        → (reverse_transfer_instr t reg id start i s).1
          ≡ (if is_def_like t reg i && s.0 && not i.is_terminator then s.1 ++ point i ∷ [] else s.1)
    unfolding reverse_transfer_instr
    transfer_instr-saves i (need, checkpoints) = elim (Bool-cases (is_def_like t reg i)) [
      | inl d ↦ rw (d, reverse_transfer_instr) (ground arith)
      | inr n ↦ rw (n, reverse_transfer_instr) (ground arith)
    ]

    -- What a block with this need at its end adds.
    abbrev pub Added : Bool → List MachineInstr → MachineCheckpointPoint → Type 0
    Added need is c = (i : MachineInstr) × (need ≡ true) × IsLastDef i is × (c ≡ point i)

    mem-transfer_block :
        (is : List MachineInstr) (need : Bool) (cs : List MachineCheckpointPoint)
        (c : MachineCheckpointPoint)
        → Memᴰ c (reverse_transfer_block t reg id start is (need, cs)).1
          ↔ Memᴰ c cs ⊎ Added need is c
    unfolding reverse_transfer_block
    mem-transfer_block [] need cs c =
        (λ m. inl m, λ o. elim o [ inl m ↦ m | inr (i, n, l, e) ↦ absurd (no_last i l) ])
      where
        no_last : (i : MachineInstr) → ¬ IsLastDef i []
        no_last i l = elim l [ ]
    mem-transfer_block (j ∷ is) need cs c =
        step (reverse_transfer_block t reg id start is (need, cs))
          (reverse_transfer_block-need t reg id start is (need, cs))
          (mem-transfer_block is need cs c)
      where
        step :
            (s : Bool × List MachineCheckpointPoint)
            → s.0 ≡ (need && not (any_def_like t reg is))
            → Memᴰ c s.1 ↔ Memᴰ c cs ⊎ Added need is c
            → Memᴰ c (reverse_transfer_instr t reg id start j s).1
              ↔ Memᴰ c cs ⊎ Added need (j ∷ is) c
        step s needs rest =
            rw (transfer_instr-saves j s)
              (elim (Bool-cases (is_def_like t reg j && s.0 && not j.is_terminator)) [
                | inl e ↦ rw e (
                  λ m. elim (Memᴰ.append_cases s.1 m) [
                    | inl k ↦ push (rest.0 k)
                    | inr k ↦ inr (
                      j,
                      ground arith,
                      here is (ground arith) (ground arith) (ground arith),
                      Memᴰ.eq_of_singleton k,
                    )
                  ],
                  λ o. elim o [
                    | inl k ↦ Memᴰ.append_left _ (rest.1 (inl k))
                    | inr (i, n, l, q) ↦ elim (IsLastDef-cons i j is l) [
                      | inl (same, _, _, _) ↦ Memᴰ.append_right s.1 (Memᴰ.head (q ∙ ap point same))
                      | inr l' ↦ Memᴰ.append_left _ (rest.1 (inr (i, n, l', q)))
                    ]
                  ],
                )
                | inr e ↦ rw e (
                  λ m. push (rest.0 m),
                  λ o. elim o [
                    | inl k ↦ rest.1 (inl k)
                    | inr (i, n, l, q) ↦ elim (IsLastDef-cons i j is l) [
                      | inl (same, d, nt, a) ↦ absurd (
                          clash e n (ap (is_def_like t reg) (sym same) ∙ d)
                            (ap (λ x. x.is_terminator) (sym same) ∙ nt) a)
                      | inr l' ↦ rest.1 (inr (i, n, l', q))
                    ]
                  ],
                )
              ])
          where
            push : Memᴰ c cs ⊎ Added need is c → Memᴰ c cs ⊎ Added need (j ∷ is) c
            push (inl k) = inl k
            push (inr (i, n, l, q)) = inr (i, n, later j is l, q)

            clash :
                (is_def_like t reg j && s.0 && not j.is_terminator) ≡ false
                → need ≡ true
                → is_def_like t reg j ≡ true
                → j.is_terminator ≡ false
                → any_def_like t reg is ≡ false
                → ⊥
            clash e n d nt a = ground (arith, needs)

module _ (t : Target) (reg : Reg) (f : MachineFunction) (preds : List BlockId)
    (start : BlockId) where
  module _ (id : ℕ) (need_in : BlockId → Bool) where
    abbrev out_of : BlockId → Bool
    out_of b = need_out t f preds need_in (f.successors b)

    abbrev Emitted : List BlockId → MachineCheckpointPoint → Type 0
    Emitted bs c =
        (b : BlockId) × Memᴰ b bs
        × (contains preds b ≡ true)
        × Added t reg id start (out_of b) (f.instrs b) c

    mem-emit_saves :
        (bs : List BlockId) (cs : List MachineCheckpointPoint) (c : MachineCheckpointPoint)
        → Memᴰ c (emit_saves t f preds reg id start need_in bs cs) ↔ Memᴰ c cs ⊎ Emitted bs c
    unfolding emit_saves
    mem-emit_saves [] cs c =
        (λ m. inl m, λ o. elim o [ inl m ↦ m | inr (b, m, _, _) ↦ absurd (Memᴰ.not-nil m) ])
    mem-emit_saves (b ∷ bs) cs c = elim (Bool-cases (contains preds b)) [
      | inr n ↦
          let rest = mem-emit_saves bs cs c in
          rw (n, emit_saves)
            (
              λ m. elim (rest.0 m) [
                | inl k ↦ inl k
                | inr (x, j, p, q) ↦ inr (x, Memᴰ.tail j, p, q)
              ],
              λ o. rest.1 (elim o [
                | inl k ↦ inl k
                | inr (x, j, p, q) ↦ elim (Memᴰ.cases_cons j) [
                  | inl e ↦ absurd (false≢true (sym n ∙ ap (contains preds) (sym e) ∙ p))
                  | inr j' ↦ inr (x, j', p, q)
                ]
              ]),
            )
      | inl y ↦
          let now = mem-transfer_block t reg id start (f.instrs b) (out_of b) cs c in
          let rest =
            mem-emit_saves bs (reverse_transfer_block t reg id start (f.instrs b) (out_of b, cs)).1
              c in
          rw (y, emit_saves)
            (
              λ m. elim (rest.0 m) [
                | inr (x, j, p, q) ↦ inr (x, Memᴰ.tail j, p, q)
                | inl k ↦ elim (now.0 k) [ inl k' ↦ inl k' | inr a ↦ inr (b, Memᴰ.head refl, y, a) ]
              ],
              λ o. rest.1 (elim o [
                | inl k ↦ inl (now.1 (inl k))
                | inr (x, j, p, a) ↦ elim (Memᴰ.cases_cons j) [
                  | inl e ↦ inl (
                      now.1 (inr (subst (λ z. Added t reg id start (out_of z) (f.instrs z) c) e a)))
                  | inr j' ↦ inr (x, j', p, a)
                ]
              ]),
            )
    ]

  -- The save follows the last instruction of a block of the set that defines the register, and from
  -- the end of that block the register's value can still reach the start of the region.
  abbrev pub IsLastReaching : ℕ → MachineCheckpointPoint → Type 0
  IsLastReaching id c =
      (b : BlockId) × Memᴰ b f.blocks
      × (contains preds b ≡ true)
      × IsNeededAfter t reg f preds start b
      × (i : MachineInstr) × IsLastDef t reg i (f.instrs b)
      × (c ≡ point t reg id start i)

  pub find_last_reaching_defs-exact :
      (id : ℕ) (cs : List MachineCheckpointPoint)
      → HasSuccessors f
      → assign_reg_id t reg ≡ some id
      → (found : List MachineCheckpointPoint) × (find_last_reaching_defs t f preds reg start cs
          ≡ some found)
        × ((c : MachineCheckpointPoint) → Memᴰ c found ↔ Memᴰ c cs ⊎ IsLastReaching id c)
  unfolding find_last_reaching_defs
  find_last_reaching_defs-exact id cs within numbered =
      let s = need_fixpoint-Solved t reg f preds start within in
      (
        emit_saves t f preds reg id start s.need_in f.blocks cs,
        rw (numbered, s.returns, find_last_reaching_defs) refl,
        λ c. (
          λ m. elim ((mem-emit_saves id s.need_in f.blocks cs c).0 m) [
            | inl k ↦ inl k
            | inr (b, j, p, (i, n, l, e)) ↦
                inr (b, j, p, need_out-after t reg f preds start s.need_in b s.sound n, i, l, e)
          ],
          λ o. (mem-emit_saves id s.need_in f.blocks cs c).1 (elim o [
            | inl k ↦ inl k
            | inr (b, j, p, (d, js, pd, nd), i, l, e) ↦ inr (
              b,
              j,
              p,
              (
                i,
                mem-need_out t reg f preds start s.need_in (f.successors b) d js pd
                    (s.finds d (within b d j js) pd nd),
                l,
                e,
              ),
            )
          ]),
        ),
      )

  -- Where the successors of the function's blocks are its blocks and the register has a number, the
  -- search ends, and it adds exactly the saves of the register after the last definition of a block
  -- of the set, a call that may clobber the saved copy counting as one, unless that is a terminator,
  -- from which a path inside
  -- the set, through blocks without a definition, leads to the start of the region.
  pub find_last_reaching_defs_iff :
      (id : ℕ) (cs : List MachineCheckpointPoint) (c : MachineCheckpointPoint)
      → HasSuccessors f
      → assign_reg_id t reg ≡ some id
      → (found : List MachineCheckpointPoint) × (find_last_reaching_defs t f preds reg start cs
          ≡ some found)
        × (Memᴰ c found ↔ Memᴰ c cs ⊎ IsLastReaching id c)
  find_last_reaching_defs_iff id cs c within numbered =
      let (found, returns, exact) = find_last_reaching_defs-exact id cs within numbered in
      (found, returns, exact c)
