-- ===== src/RockClimb/Liveness/BulkPaths.antt =====
-- `computeBulkLiveIn` of passes/rockclimb-backend/MachineLivenessAnalysis.cpp against what the operands
-- read and define along the paths of the function.
use mathlib.Core.Bool.{false≢true}
use mathlib.Core.List.Memᴰ
use mathlib.Core.Option.{some-injective, none-ne-some}
use mathlib.Core.Path.{subst}
use bao.Prelude.{
  ◌≡◌, ◌↔◌, refl, sym, ◌∙◌, ap, ◌⊎◌, inl, inr, true, false, not, ◌&&◌, some, List, [], ◌∷◌, ◌++◌,
  flat_map, Bool-cases, Option-cases, contains, insert, contains-insert_self, contains-insert_old,
  contains-insert_cases, Memᴰ, arith,
}
use bao.RockClimb.Machine.{
  BlockId, Reg, MachineOperand, MachineInstr, MachineFunction, HasSuccessors, Target,
}
use bao.RockClimb.Liveness.{
  reads, checkpointed_reg, use_def_operand, use_def_operands, use_def_block, use_set, def_set,
  compute_bulk_live_in,
}
use bao.RockClimb.Liveness.Bulk
use bao.RockClimb.Liveness.Bulk.{IsSetLive}
use bao.RockClimb.Liveness.Fixpoint.{compute_bulk_live_in-exact}

-- The operands of the instructions, in their order.
abbrev pub operands_of : List MachineInstr → List MachineOperand
operands_of is = flat_map (λ i. i.operands) is

module _ (t : Target) (reg : Reg) where
  -- The operand defines a register that counts as this one.
  abbrev pub Defines : MachineOperand → Type 0
  Defines o = (checkpointed_reg t o ≡ some reg) × (o.is_def ≡ true)

  abbrev pub Uses : MachineOperand → Type 0
  Uses o = (checkpointed_reg t o ≡ some reg) × (o.is_def ≡ false) × (o.is_undef ≡ false)

  -- An operand uses the register, and no operand before it defines it.
  pub data UsesFirst : List MachineOperand → Type 0 where
    uses_now : (o : MachineOperand) (os : List MachineOperand) → Uses o → UsesFirst (o ∷ os)
    uses_later :
        (o : MachineOperand) (os : List MachineOperand)
        → ¬ Defines o
        → UsesFirst os
        → UsesFirst (o ∷ os)

  abbrev pub NoDefines : List MachineOperand → Type 0
  NoDefines os = (o : MachineOperand) → Memᴰ o os → ¬ Defines o

  UsesFirst-cons :
      (o : MachineOperand) (os : List MachineOperand)
      → UsesFirst (o ∷ os)
      → Uses o ⊎ (¬ Defines o) × UsesFirst os
  UsesFirst-cons o os (uses_now _ _ u) = inl u
  UsesFirst-cons o os (uses_later _ _ n u) = inr (n, u)

  contains-insert_iff :
      (g : Reg) (s : List Reg)
      → (contains (insert g s) reg ≡ true) ↔ (g ≡ reg) ⊎ (contains s reg ≡ true)
  contains-insert_iff g s = (
    λ h. elim (contains-insert_cases g reg s h) [ inl e ↦ inl (sym e) | inr k ↦ inr k ],
    λ o. elim o [
      | inl e ↦ subst (λ r. contains (insert g s) r ≡ true) e (contains-insert_self g s)
      | inr k ↦ contains-insert_old g reg s k
    ],
  )

  operand-Defines :
      (o : MachineOperand) (u d : List Reg)
      → (contains (use_def_operand t o (u, d)).1 reg ≡ true) ↔ Defines o ⊎ (contains d reg ≡ true)
  unfolding use_def_operand
  operand-Defines o u d = elim (Option-cases (checkpointed_reg t o)) [
    | inl e ↦
        rw (e, use_def_operand)
          (λ h. inr h, λ x. elim x [ inl (c, _) ↦ absurd (none-ne-some reg c) | inr k ↦ k ])
    | inr (g, e) ↦ elim (Bool-cases o.is_def) [
      | inr n ↦
          rw (e, n, use_def_operand)
            (λ h. inr h, λ x. elim x [ inl (_, y) ↦ absurd (false≢true y) | inr k ↦ k ])
      | inl y ↦
          rw (e, y, use_def_operand)
            (
              λ h. elim ((contains-insert_iff g d).0 h) [
                | inl q ↦ inl (ap some q, refl)
                | inr k ↦ inr k
              ],
              λ x.
                  (contains-insert_iff g d).1
                    (elim x [ inl (c, _) ↦ inl (some-injective g reg c) | inr k ↦ inr k ]),
            )
    ]
  ]

  operand-Uses :
      (o : MachineOperand) (u d : List Reg)
      → (contains (use_def_operand t o (u, d)).0 reg ≡ true)
        ↔ Uses o × (contains d reg ≡ false) ⊎ (contains u reg ≡ true)
  unfolding use_def_operand
  operand-Uses o u d = elim (Option-cases (checkpointed_reg t o)) [
    | inl e ↦
        rw (e, use_def_operand)
          (λ h. inr h, λ x. elim x [ inl ((c, _, _), _) ↦ absurd (none-ne-some reg c) | inr k ↦ k ])
    | inr (g, e) ↦ elim (Bool-cases (reads o && not (contains d g))) [
      | inr n ↦
          rw (e, n, use_def_operand)
            (
              λ h. inr h,
              λ x. elim x [
                | inl ((c, df, ud), new) ↦
                    absurd
                      (ground (arith, n, df, ud, ap (contains d) (some-injective g reg c), new))
                | inr k ↦ k
              ],
            )
      | inl y ↦
          rw (e, y, use_def_operand)
            (
              λ h. elim ((contains-insert_iff g u).0 h) [
                | inl q ↦
                    inl ((ap some q, ground arith, ground arith), ground (arith, ap (contains d) q))
                | inr k ↦ inr k
              ],
              λ x.
                  (contains-insert_iff g u).1
                    (elim x [ inl ((c, _, _), _) ↦ inl (some-injective g reg c) | inr k ↦ inr k ]),
            )
    ]
  ]

  operands_defs :
      (os : List MachineOperand) (u d : List Reg)
      → (contains (use_def_operands t os (u, d)).1 reg ≡ true)
        ↔ ((o : MachineOperand) × Memᴰ o os × Defines o) ⊎ (contains d reg ≡ true)
  unfolding use_def_operands
  operands_defs [] u d =
      (λ h. inr h, λ x. elim x [ inl (o, m, _) ↦ absurd (Memᴰ.not-nil m) | inr h ↦ h ])
  operands_defs (o ∷ os) u d =
      let here = operand-Defines o u d in
      let next = use_def_operand t o (u, d) in
      let rest = operands_defs os next.0 next.1 in
      (
        λ h. elim (rest.0 h) [
          | inl (x, m, q) ↦ inl (x, Memᴰ.tail m, q)
          | inr k ↦ elim (here.0 k) [ inl q ↦ inl (o, Memᴰ.head refl, q) | inr j ↦ inr j ]
        ],
        λ x. rest.1 (elim x [
          | inl (y, m, q) ↦ elim (Memᴰ.cases_cons m) [
            | inl e ↦ inr (here.1 (inl (subst Defines e q)))
            | inr k ↦ inl (y, k, q)
          ]
          | inr k ↦ inr (here.1 (inr k))
        ]),
      )

  operands_uses :
      (os : List MachineOperand) (u d : List Reg)
      → (contains (use_def_operands t os (u, d)).0 reg ≡ true)
        ↔ UsesFirst os × (contains d reg ≡ false) ⊎ (contains u reg ≡ true)
  unfolding use_def_operands
  operands_uses [] u d = (λ h. inr h, λ x. elim x [ inl (r, _) ↦ elim r [ ] | inr h ↦ h ])
  operands_uses (o ∷ os) u d =
      let used = operand-Uses o u d in
      let defined = operand-Defines o u d in
      let next = use_def_operand t o (u, d) in
      let rest = operands_uses os next.0 next.1 in
      (
        λ h. elim (rest.0 h) [
          | inl (r, new) ↦ elim (Bool-cases (contains d reg)) [
            | inl old ↦ absurd (false≢true (sym new ∙ defined.1 (inr old)))
            | inr n ↦ inl (uses_later o os (λ q. false≢true (sym new ∙ defined.1 (inl q))) r, n)
          ]
          | inr k ↦ elim (used.0 k) [ inl (q, n) ↦ inl (uses_now o os q, n) | inr j ↦ inr j ]
        ],
        λ x. rest.1 (elim x [
          | inr k ↦ inr (used.1 (inr k))
          | inl (r, n) ↦ elim (UsesFirst-cons o os r) [
            | inl q ↦ inr (used.1 (inl (q, n)))
            | inr (nd, r') ↦ inl (
              r',
              elim (Bool-cases (contains next.1 reg)) [
                | inr k ↦ k
                | inl k ↦ elim (defined.0 k) [
                  | inl q ↦ absurd (nd q)
                  | inr j ↦ absurd (false≢true (sym n ∙ j))
                ]
              ],
            )
          ]
        ]),
      )

  use_def_operands-append :
      (os ps : List MachineOperand) (s : List Reg × List Reg)
      → use_def_operands t (os ++ ps) s ≡ use_def_operands t ps (use_def_operands t os s)
  unfolding use_def_operands
  use_def_operands-append [] ps s = refl
  use_def_operands-append (o ∷ os) ps s = use_def_operands-append os ps (use_def_operand t o s)

  use_def_block-operands :
      (is : List MachineInstr) (s : List Reg × List Reg)
      → use_def_block t is s ≡ use_def_operands t (operands_of is) s
  unfolding use_def_block use_def_operands flat_map
  use_def_block-operands [] s = refl
  use_def_block-operands (i ∷ is) s =
      use_def_block-operands is (use_def_operands t i.operands s)
      ∙ sym (use_def_operands-append i.operands (operands_of is) s)

module _ (t : Target) (f : MachineFunction) where
  abbrev pub block_operands : BlockId → List MachineOperand
  block_operands b = operands_of (f.instrs b)

  -- A path from the start of the block comes to a block with an operand that uses the register, no
  -- operand of the block before it defining it, through blocks that do not define it.
  pub data IsBulkLive (reg : Reg) : BlockId → Type 0 where
    used : (b : BlockId) → UsesFirst t reg (block_operands b) → IsBulkLive reg b
    passes :
        (b c : BlockId)
        → NoDefines t reg (block_operands b)
        → Memᴰ c (f.successors b)
        → IsBulkLive reg c
        → IsBulkLive reg b

  use_set_iff :
      (reg : Reg) (b : BlockId)
      → (contains (use_set t f b) reg ≡ true) ↔ UsesFirst t reg (block_operands b)
  unfolding contains
  use_set_iff reg b =
      let flat = use_def_block-operands t reg (f.instrs b) ([], []) in
      let both = operands_uses t reg (block_operands b) [] [] in
      (
        λ h. elim (both.0 (ap (λ s. contains s.0 reg) (sym flat) ∙ h)) [
          | inl (r, _) ↦ r
          | inr k ↦ absurd (false≢true k)
        ],
        λ r. ap (λ s. contains s.0 reg) flat ∙ both.1 (inl (r, refl)),
      )

  def_set_iff :
      (reg : Reg) (b : BlockId)
      → (contains (def_set t f b) reg ≡ false) ↔ NoDefines t reg (block_operands b)
  unfolding contains
  def_set_iff reg b =
      let flat = use_def_block-operands t reg (f.instrs b) ([], []) in
      let both = operands_defs t reg (block_operands b) [] [] in
      (
        λ n o m q. false≢true (sym n ∙ ap (λ s. contains s.1 reg) flat ∙ both.1 (inl (o, m, q))),
        λ none_defines. elim (Bool-cases (contains (def_set t f b) reg)) [
          | inr n ↦ n
          | inl h ↦ elim (both.0 (ap (λ s. contains s.1 reg) (sym flat) ∙ h)) [
            | inl (o, m, q) ↦ absurd (none_defines o m q)
            | inr k ↦ absurd (false≢true k)
          ]
        ],
      )

  IsSetLive-IsBulkLive : (reg : Reg) (b : BlockId) → IsSetLive t f reg b → IsBulkLive reg b
  IsSetLive-IsBulkLive reg b (Bulk.used _ u) = used b ((use_set_iff reg b).0 u)
  IsSetLive-IsBulkLive reg b (Bulk.passes _ c n k l) =
      passes b c ((def_set_iff reg b).0 n) k (IsSetLive-IsBulkLive reg c l)

  IsBulkLive-IsSetLive : (reg : Reg) (b : BlockId) → IsBulkLive reg b → IsSetLive t f reg b
  IsBulkLive-IsSetLive reg b (used _ u) = Bulk.used b ((use_set_iff reg b).1 u)
  IsBulkLive-IsSetLive reg b (passes _ c n k l) =
      Bulk.passes b c ((def_set_iff reg b).1 n) k (IsBulkLive-IsSetLive reg c l)

  pub bulk_sets :
      HasSuccessors f
      → (live_in : BlockId → List Reg) × (compute_bulk_live_in t f ≡ some live_in)
        × ((b : BlockId) (r : Reg)
            → Memᴰ b f.blocks
            → (contains (live_in b) r ≡ true) ↔ IsBulkLive r b)
  bulk_sets within =
      let (live_in, returns, exact) = compute_bulk_live_in-exact t f within in
      (
        live_in,
        returns,
        λ b r m. (
          λ h. IsSetLive-IsBulkLive r b ((exact b r m).0 h),
          λ l. (exact b r m).1 (IsBulkLive-IsSetLive r b l),
        ),
      )

  -- Where the successors of the function's blocks are its blocks, the loop comes to its end, and the
  -- set of a block holds a register exactly when some path from its start comes to an operand that
  -- uses it, no operand on the path before it defining it. Operands count in the order in which
  -- they are listed: a register that one instruction both defines and uses, the definition listed
  -- first, counts as defined, although the instruction reads it before it writes it.
  pub compute_bulk_live_in_iff :
      HasSuccessors f
      → (b : BlockId) (r : Reg) → Memᴰ b f.blocks
      → (live_in : BlockId → List Reg) × (compute_bulk_live_in t f ≡ some live_in)
        × ((contains (live_in b) r ≡ true) ↔ IsBulkLive r b)
  compute_bulk_live_in_iff within b r m =
      let (live_in, returns, exact) = bulk_sets within in (live_in, returns, exact b r m)
