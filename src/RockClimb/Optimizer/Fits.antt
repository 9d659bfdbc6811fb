-- ===== src/RockClimb/Optimizer/Fits.antt =====
-- `optimize` of passes/rockclimb-backend/RockClimbMachineOptimizer.cpp: the liveness analysis and the
-- partition together.
use mathlib.Core.Option.{some-injective}
use mathlib.Core.List.Memᴰ
use mathlib.Core.Path.{subst}
use native.Mathlib.Nat.{mul-le-mul_right}
use bao.Prelude.{
  ℕ, zero, suc, ◌+◌, ◌*◌, ◌≤◌, ◌<◌, ◌≡◌, refl, sym, ◌∙◌, ap, ◌⊎◌, inl, inr, Bool, true, false, ◌||◌,
  none, some, List, [], ◌∷◌, ◌++◌, flat_map, length, if◌then◌else◌, ltb, Bool-cases, Option-cases,
  contains, contains→mem, mem→contains, insert, contains-insert_self, contains-insert_old, Memᴰ,
  Distinct, sum_map, sum_map_sub, sum_map_le_mem, arith,
}
use bao.RockClimb.Machine.{
  BlockId, Reg, MachineOperand, MachineInstr, MachineFunction, HasSuccessors, Target,
}
use bao.RockClimb.Liveness.{checkpointed_reg, live_out, compute_bulk_live_in}
use bao.RockClimb.Liveness.Bulk.{live_out_iff}
use bao.RockClimb.Liveness.BulkPaths.{operands_of, Defines, block_operands, IsBulkLive, bulk_sets}
use bao.RockClimb.Liveness.Fixpoint.{compute_bulk_live_in-exact}
use bao.RockClimb.Partition.{MachineRockClimbResult, partition_regions}
use bao.RockClimb.Partition.Segments.{Follows, Avoids}
use bao.RockClimb.Partition.Safe.{IsTraversal, NoRestart, partition_regions_fits}
use bao.RockClimb.Optimizer.{
  call_may_clobber_nvm_regs, is_clobbering_call, has_clobbering_call, defined_operands,
  defined_regs, count_saves, saves_of, energy_costs, optimize,
}

has_clobbering_call-mem :
    (is : List MachineInstr) (i : MachineInstr)
    → Memᴰ i is
    → i.is_call ≡ true
    → call_may_clobber_nvm_regs i.operands ≡ true
    → has_clobbering_call is ≡ true
unfolding has_clobbering_call is_clobbering_call
has_clobbering_call-mem [] i m call clobbers = absurd (Memᴰ.not-nil m)
has_clobbering_call-mem (x ∷ xs) i m call clobbers = elim (Memᴰ.cases_cons m) [
  | inl e ↦
      let c = ap (λ z. z.is_call) (sym e) ∙ call in
      let k = ap (λ z. call_may_clobber_nvm_regs z.operands) (sym e) ∙ clobbers in ground arith
  | inr j ↦ let rest = has_clobbering_call-mem xs i j call clobbers in ground arith
]

length_sum : (xs : List Reg) → length xs ≡ sum_map (λ r. 1) xs
length_sum [] = refl
length_sum (x ∷ xs) = omega (arith, length_sum xs)

module _ (t : Target) where
  count_saves_sum :
      (clobbered : Bool) (defined regs : List Reg)
      → count_saves t clobbered defined regs
        ≡ sum_map (λ r. if clobbered || contains defined r then 1 else 0) regs
  unfolding count_saves
  count_saves_sum clobbered defined [] = refl
  count_saves_sum clobbered defined (r ∷ rs) = omega (arith, count_saves_sum clobbered defined rs)

  defined_operands-keeps :
      (os : List MachineOperand) (s : List Reg) (r : Reg)
      → contains s r ≡ true
      → contains (defined_operands t os s) r ≡ true
  unfolding defined_operands
  defined_operands-keeps [] s r h = h
  defined_operands-keeps (o ∷ os) s r h = elim (Bool-cases o.is_def) [
    | inr n ↦ rw (n, defined_operands) (defined_operands-keeps os s r h)
    | inl y ↦ elim (Option-cases (checkpointed_reg t o)) [
      | inl e ↦ rw (y, e, defined_operands) (defined_operands-keeps os s r h)
      | inr (g, e) ↦
          rw (y, e, defined_operands)
            (defined_operands-keeps os (insert g s) r (contains-insert_old g r s h))
    ]
  ]

  defined_operands-mem :
      (os : List MachineOperand) (s : List Reg) (r : Reg) (o : MachineOperand)
      → Memᴰ o os
      → Defines t r o
      → contains (defined_operands t os s) r ≡ true
  unfolding defined_operands
  defined_operands-mem [] s r o m d = absurd (Memᴰ.not-nil m)
  defined_operands-mem (x ∷ xs) s r o m d = elim (Memᴰ.cases_cons m) [
    | inr k ↦ defined_operands-mem xs _ r o k d
    | inl e ↦
        let (counts, def) = subst (Defines t r) e d in
        rw (counts, def, defined_operands)
          (defined_operands-keeps xs (insert r s) r (contains-insert_self r s))
  ]

  defined_operands-append :
      (os ps : List MachineOperand) (s : List Reg)
      → defined_operands t (os ++ ps) s ≡ defined_operands t ps (defined_operands t os s)
  unfolding defined_operands
  defined_operands-append [] ps s = refl
  defined_operands-append (o ∷ os) ps s = defined_operands-append os ps _

  defined_regs-operands :
      (is : List MachineInstr) (s : List Reg)
      → defined_regs t is s ≡ defined_operands t (operands_of is) s
  unfolding defined_regs defined_operands flat_map
  defined_regs-operands [] s = refl
  defined_regs-operands (i ∷ is) s =
      defined_regs-operands is (defined_operands t i.operands s)
      ∙ sym (defined_operands-append i.operands (operands_of is) s)

  defined_regs-mem :
      (is : List MachineInstr) (r : Reg) (o : MachineOperand)
      → Memᴰ o (operands_of is)
      → Defines t r o
      → contains (defined_regs t is []) r ≡ true
  defined_regs-mem is r o m d =
      ap (λ s. contains s r) (defined_regs-operands is [])
      ∙ defined_operands-mem (operands_of is) [] r o m d

module _ (t : Target) (f : MachineFunction) (e_safe store : ℕ) where
  -- The energy of a block with the saves that it may need.
  abbrev pub charged : (BlockId → List Reg) → BlockId → ℕ
  charged live_in b = f.estimate_block b + saves_of t f live_in b * store

  Follows-blocks :
      HasSuccessors f
      → (b : BlockId) (p : List BlockId) → Memᴰ b f.blocks
      → Follows f.successors b p
      → (x : BlockId) → Memᴰ x (b ∷ p)
      → Memᴰ x f.blocks
  Follows-blocks within b [] m w x k = subst (λ y. Memᴰ y f.blocks) (sym (Memᴰ.eq_of_singleton k)) m
  Follows-blocks within b (c ∷ p) m w x k = elim (Memᴰ.cases_cons k) [
    | inl e ↦ subst (λ y. Memᴰ y f.blocks) (sym e) m
    | inr j ↦ Follows-blocks within c p (within b c m w.0) w.1 x j
  ]

  no_charge : (e k s : ℕ) → ltb 0 s ≡ false → e ≡ e + k * s
  no_charge e k zero h = omega arith
  no_charge e k (suc s) h = absurd (ground arith)

  -- The costs are the charges of the blocks.
  record Costs (within : HasSuccessors f) : Type 0 where
    live_in : BlockId → List Reg
    cost : BlockId → ℕ
    analysed : compute_bulk_live_in t f ≡ some live_in
    runs : optimize t f e_safe store ≡ some (partition_regions f cost e_safe)
    charges : (b : BlockId) → Memᴰ b f.blocks → cost b ≡ charged live_in b

  optimize-Costs : (within : HasSuccessors f) → Costs within
  unfolding optimize energy_costs
  optimize-Costs within =
      let (live_in, analysed, _) = compute_bulk_live_in-exact t f within in
      elim (Bool-cases (ltb 0 store)) [
        | inl y ↦ record {
          live_in = live_in;
          cost = λ b. if contains f.blocks b then charged live_in b else 0;
          analysed = analysed;
          runs = rw (y, analysed, optimize, energy_costs) refl;
          charges = λ b m. rw (mem→contains f.blocks b m) refl;
        }
        | inr n ↦ record {
          live_in = live_in;
          cost = λ b. if contains f.blocks b then f.estimate_block b else 0;
          analysed = analysed;
          runs = rw (n, optimize, energy_costs) refl;
          charges = λ b m.
              rw (mem→contains f.blocks b m)
                (no_charge (f.estimate_block b) (saves_of t f live_in b) store n);
        }
      ]

  -- Where the successors of the function's blocks are its blocks, `optimize` returns: the loop of the
  -- liveness analysis comes to its end.
  pub optimize_returns :
      HasSuccessors f
      → (result : MachineRockClimbResult) × (optimize t f e_safe store ≡ some result)
  optimize_returns within =
      let c = optimize-Costs within in (partition_regions f c.cost e_safe, c.runs)

  -- The register is live out of the block, as `computeBulkLiveIn` counts it.
  abbrev pub IsLiveOut : BlockId → Reg → Type 0
  IsLiveOut b r = (c : BlockId) × Memᴰ c (f.successors b) × IsBulkLive t f r c

  -- The block may have to save the register: an operand of it defines it, or a call in it may write
  -- the saved registers.
  abbrev pub MayNeedSave : BlockId → Reg → Type 0
  MayNeedSave b r =
      ((i : MachineInstr) × Memᴰ i (f.instrs b)
        × (i.is_call ≡ true)
        × (call_may_clobber_nvm_regs i.operands ≡ true))
      ⊎ ((o : MachineOperand) × Memᴰ o (block_operands t f b) × Defines t r o)

  -- Saves of a block: registers, each once, that are live out of it and that it may have to save.
  abbrev pub AreSaves : BlockId → List Reg → Type 0
  AreSaves b regs = Distinct regs × ((r : Reg) → Memᴰ r regs → IsLiveOut b r × MayNeedSave b r)

  saves_le :
      (within : HasSuccessors f)
      → (live_in : BlockId → List Reg) → compute_bulk_live_in t f ≡ some live_in
      → (b : BlockId) (regs : List Reg) → Memᴰ b f.blocks
      → AreSaves b regs
      → length regs ≤ saves_of t f live_in b
  unfolding saves_of
  saves_le within live_in analysed b regs m (once, saves) =
      let (live, found, exact) = bulk_sets t f within in
      let same = some-injective live live_in (sym found ∙ analysed) in
      rw
        (
          count_saves_sum t (has_clobbering_call (f.instrs b)) (defined_regs t (f.instrs b) [])
              (live_out t f live_in b),
          length_sum regs,
        )
        (sum_map_sub (λ r. 1) _ regs (live_out t f live_in b) once
          (λ r k.
            let ((c, succ, l), need) = saves r k in
            (
              contains→mem (live_out t f live_in b) r (
                  (live_out_iff t f live_in b r).1 (
                    c,
                    succ,
                    subst (λ u. contains (u c) r ≡ true) same ((exact c r (within b c m succ)).1 l),
                  )),
              elim need [
                | inl (i, mi, call, clobbers) ↦
                    let y = has_clobbering_call-mem (f.instrs b) i mi call clobbers in ground arith
                | inr (o, mo, d) ↦ let y = defined_regs-mem t (f.instrs b) r o mo d in ground arith
              ],
            )))

  -- For a function whose traversal and edges stay among its blocks: when the answer of `optimize` is
  -- feasible, a path along the edges from a block that the traversal visits, which meets no region
  -- boundary after its first block and does not come back to the first block of the program's entry
  -- function, uses less energy than one charge gives, with the saves of its blocks: whichever
  -- registers they save, each once in a block, that are live out of the block by the bulk sets and
  -- that an operand of it defines, or any such register where a call in it may write them.
  pub optimize_fits :
      (result : MachineRockClimbResult) (b : BlockId) (p : List BlockId)
      (saved : BlockId → List Reg)
      → HasSuccessors f
      → IsTraversal f
      → ((x : BlockId) → Memᴰ x f.reverse_post_order → Memᴰ x f.blocks)
      → optimize t f e_safe store ≡ some result
      → result.infeasible_block ≡ none
      → Memᴰ b f.reverse_post_order
      → Follows f.successors b p
      → NoRestart f p
      → Avoids result.region_boundaries p
      → ((x : BlockId) → Memᴰ x (b ∷ p) → AreSaves x (saved x))
      → sum_map (λ x. f.estimate_block x + length (saved x) * store) (b ∷ p) < e_safe
  optimize_fits result b p saved within traversal inside runs h m w n a saves =
      let c = optimize-Costs within in
      let same = some-injective (partition_regions f c.cost e_safe) result (sym c.runs ∙ runs) in
      let fits =
        partition_regions_fits f c.cost e_safe traversal b p (ap (λ r. r.infeasible_block) same ∙ h)
          m w n (subst (λ r. Avoids r.region_boundaries p) (sym same) a) in
      let paid =
        sum_map_le_mem (λ x. f.estimate_block x + length (saved x) * store) c.cost (b ∷ p)
          (λ x k.
            let mx = Follows-blocks within b p (inside b m) w x k in
            rw (c.charges x mx) (
              omega (
                arith,
                mul-le-mul_right store
                    (saves_le within c.live_in c.analysed x (saved x) mx (saves x k)),
              ))) in
      omega (arith, fits, paid)
