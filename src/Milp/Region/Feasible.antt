-- ===== src/Milp/Region/Feasible.antt =====
-- The bounds and constraints that a feasible assignment keeps, one by one.
use mathlib.Core.List.Memᴰ
use mathlib.Core.Bool.{false≢true}
use bao.Prelude.{
  ℕ, ◌+◌, ◌*◌, ◌≤◌, ◌≡◌, refl, sym, ◌∙◌, mem→contains, ap, ◌⊎◌, inl, inr, true, false, List, Memᴰ,
  All-mem, mem-map, mem-flat_map, if◌then◌else◌, Bool-cases, arith,
}
use bao.Milp.Views.{NodeId, Value, MilpInput}
use bao.Milp.Order.{mem-sort_unique}
use bao.Milp.Expr.{
  Var, region_start, place, place_global, need_restore, e_accum, dirty, save, var, constant, term,
  ◌plus◌, ◌minus◌, Constr, le, ge, Holds, added, taken, expr_laws,
}
use bao.Milp.Graph.{is_def}
use bao.Milp.Model.{
  ordered_vm_objs, ordered_tracked_values, placement, need_restore_values, has_dirty, save_values,
  VarDecl, add_variables, block_vars, global_vars, binary, build_e_blk, build_e_start, build_e_end,
}
use bao.Milp.Model.Constraints.{
  constrain_need_restore_linearization, constrain_energy_init_at_region_start,
  constrain_energy_propagation, constrain_energy_within_capacity, dirty_at, dirty_along, save_along,
  save_bound, save_by_block, constrain_dirty_propagation, constrain_save_at_region_boundary,
  constraint_groups, add_constraints,
}
use bao.Milp.Region.{IsFeasible, InBounds}

module _ (inp : MilpInput) (one : ℕ) (x : Var → ℕ) (feasible : IsFeasible inp one x) where
  bounded : (v : VarDecl) → Memᴰ v (add_variables inp) → InBounds one x v
  bounded v h = All-mem (InBounds one x) v (add_variables inp) h feasible.bounds

  pub region_start_binary :
      (b : NodeId) → Memᴰ b inp.blocks → (x (region_start b) ≡ 0) ⊎ (x (region_start b) ≡ one)
  unfolding add_variables
  region_start_binary b h =
      (bounded (record { var = region_start b; kind = binary; upper = 1 })
        (Memᴰ.append_left _ (mem-map _ b inp.blocks h))).1

  global_declared :
      (v : Value)
      → inp.coarse_allocation ≡ true
      → Memᴰ v (ordered_vm_objs inp)
      → Memᴰ (record { var = place_global v; kind = binary; upper = 1 }) (global_vars inp)
  global_declared v coarse h = rw coarse (mem-map _ v (ordered_vm_objs inp) h)

  place_declared :
      (b : NodeId) (v : Value)
      → inp.coarse_allocation ≡ false
      → inp.is_ineligible v ≡ false
      → Memᴰ (record { var = place b v; kind = binary; upper = 1 }) (block_vars inp b v)
  place_declared b v fine elig = rw (fine, elig) (Memᴰ.head refl)

  -- The placement variable of an eligible value is binary.
  pub placement_binary :
      (b : NodeId) (v : Value)
      → Memᴰ b inp.blocks
      → Memᴰ v (ordered_vm_objs inp)
      → inp.is_ineligible v ≡ false
      → (x (placement inp b v) ≡ 0) ⊎ (x (placement inp b v) ≡ one)
  unfolding add_variables
  placement_binary b v hb hv elig = elim (Bool-cases inp.coarse_allocation) [
    | inl coarse ↦
        rw coarse
          (bounded (record { var = place_global v; kind = binary; upper = 1 })
            (Memᴰ.append_right _ (Memᴰ.append_left _ (global_declared v coarse hv)))).1
    | inr fine ↦
        rw fine
          (bounded (record { var = place b v; kind = binary; upper = 1 })
            (Memᴰ.append_right _ (
              Memᴰ.append_right _ (
                Memᴰ.append_left _ (
                  mem-flat_map _ b _ inp.blocks hb (
                    mem-flat_map _ v _ (ordered_tracked_values inp)
                      (mem-sort_unique inp.key_lt v _ (Memᴰ.append_left inp.ineligible_objs hv))
                      (place_declared b v fine elig))))))).1
  ]

  -- A constraint of one of the groups holds.
  pub met :
      (c : Constr) (group : List Constr)
      → Memᴰ group (constraint_groups inp)
      → Memᴰ c group
      → Holds one x c
  unfolding add_constraints
  met c group g h =
      All-mem (Holds one x) c (add_constraints inp)
        (mem-flat_map (λ group. group) group c (constraint_groups inp) g h) feasible.constraints

  c4 : (c : Constr) → Memᴰ c (constrain_need_restore_linearization inp) → Holds one x c
  c4 c h = met c (constrain_need_restore_linearization inp) (Memᴰ.tail (Memᴰ.head refl)) h

  c5 : (c : Constr) → Memᴰ c (constrain_dirty_propagation inp) → Holds one x c
  c5 c h =
      met c (constrain_dirty_propagation inp)
        (Memᴰ.tail (Memᴰ.tail (Memᴰ.tail (Memᴰ.tail (Memᴰ.head refl))))) h

  c9 : (c : Constr) → Memᴰ c (constrain_save_at_region_boundary inp) → Holds one x c
  c9 c h =
      met c (constrain_save_at_region_boundary inp)
        (Memᴰ.tail (Memᴰ.tail (Memᴰ.tail (Memᴰ.tail (Memᴰ.tail (Memᴰ.head refl)))))) h

  c10 : (c : Constr) → Memᴰ c (constrain_energy_init_at_region_start inp) → Holds one x c
  c10 c h =
      met c (constrain_energy_init_at_region_start inp)
        (Memᴰ.tail (Memᴰ.tail (Memᴰ.tail (Memᴰ.tail (Memᴰ.tail (Memᴰ.tail (Memᴰ.head refl))))))) h

  c11 : (c : Constr) → Memᴰ c (constrain_energy_propagation inp) → Holds one x c
  c11 c h =
      met c (constrain_energy_propagation inp)
        (Memᴰ.tail
          (Memᴰ.tail (Memᴰ.tail (Memᴰ.tail (Memᴰ.tail (Memᴰ.tail (Memᴰ.tail (Memᴰ.head refl))))))))
        h

  c12 : (c : Constr) → Memᴰ c (constrain_energy_within_capacity inp) → Holds one x c
  c12 c h =
      met c (constrain_energy_within_capacity inp)
        (Memᴰ.tail (
          Memᴰ.tail (
            Memᴰ.tail
              (Memᴰ.tail (Memᴰ.tail (Memᴰ.tail (Memᴰ.tail (Memᴰ.tail (Memᴰ.head refl)))))))))
        h

  -- The lower half of the linearization.
  pub need_restore_ge :
      (b : NodeId) (v : Value)
      → Memᴰ b inp.blocks
      → Memᴰ v (need_restore_values inp b)
      → x (region_start b) + x (placement inp b v) ≤ x (need_restore b v) + one
  unfolding constrain_need_restore_linearization
  need_restore_ge b v hb hv =
      let c =
        c4
          (ge (var (need_restore b v))
            (var (region_start b) plus var (placement inp b v) minus constant 1))
          (mem-flat_map _ b _ inp.blocks hb (
            mem-flat_map _ v _ (need_restore_values inp b) hv
              (Memᴰ.tail (Memᴰ.tail (Memᴰ.head refl))))) in
      omega (arith, simp expr_laws at c)

  -- A value that a block writes is dirty there, and stays dirty until a region starts.
  pub dirty_ge_def :
      (b : NodeId) (v : Value)
      → Memᴰ b inp.blocks
      → Memᴰ v (ordered_tracked_values inp)
      → has_dirty inp b v ≡ true
      → is_def inp b v ≡ true
      → one ≤ x (dirty b v)
  unfolding constrain_dirty_propagation dirty_at
  dirty_ge_def b v hb hv there def =
      let c = c5 (ge (var (dirty b v)) (constant (if is_def inp b v then 1 else 0))) (
        (Memᴰ.append_left _ (
          mem-flat_map _ b _ inp.blocks hb
            (mem-flat_map _ v _ (ordered_tracked_values inp) hv (rw there (Memᴰ.head refl)))))) in
      omega (arith, simp expr_laws at (rw def at c))

  pub dirty_ge_pred :
      (a b : NodeId) (v : Value)
      → Memᴰ (a, b) inp.edges
      → Memᴰ v (ordered_tracked_values inp)
      → has_dirty inp a v ≡ true
      → has_dirty inp b v ≡ true
      → x (dirty a v) ≤ x (dirty b v) + x (region_start b)
  unfolding constrain_dirty_propagation dirty_along
  dirty_ge_pred a b v e hv ha hb =
      let c = c5 (ge (var (dirty b v)) (var (dirty a v) minus var (region_start b))) (
        (Memᴰ.append_right _ (
          mem-flat_map _ (a, b) _ inp.edges e
            (mem-flat_map _ v _ (ordered_tracked_values inp) hv
              (rw (ha, hb) (Memᴰ.head refl)))))) in
      omega (arith, simp expr_laws at c)

  mem-save_by_block :
      (b : NodeId) (v : Value)
      → Memᴰ b inp.blocks
      → Memᴰ v (save_values inp b)
      → Memᴰ v (save_by_block inp b)
  mem-save_by_block b v hb hv = rw (mem→contains inp.blocks b hb) hv

  -- A dirty value that is placed is saved where a region starts.
  pub save_ge :
      (a b : NodeId) (v : Value)
      → Memᴰ (a, b) inp.edges
      → Memᴰ b inp.blocks
      → Memᴰ v (save_values inp b)
      → has_dirty inp a v ≡ true
      → (inp.is_ineligible v ≡ true) ⊎ (x (placement inp a v) ≡ one)
      → x (dirty a v) + x (region_start b) ≤ x (save b v) + one
  unfolding constrain_save_at_region_boundary save_along
  save_ge a b v e hb hv ha placed =
      let c = c9 (ge (var (save b v)) (save_bound inp (a, b) v)) (
        Memᴰ.append_right _ (
          mem-flat_map _ (a, b) _ inp.edges e
            (mem-flat_map _ v _ (save_by_block inp b) (mem-save_by_block b v hb hv)
              (rw ha (Memᴰ.head refl))))) in
      elim (Bool-cases (inp.is_ineligible v)) [
        | inl inelig ↦ omega (arith, simp expr_laws at (rw inelig at c))
        | inr elig ↦
            let c' = simp expr_laws at (rw elig at c) in
            elim placed [ inl i ↦ absurd (false≢true (sym elig ∙ i)) | inr p ↦ omega (arith, c') ]
      ]

  -- The lower half of the energy at a region start.
  pub energy_init :
      (b : NodeId)
      → Memᴰ b inp.blocks
      → x (region_start b) ≡ one
      → added one x (build_e_start inp b) ≤ x (e_accum b) + taken one x (build_e_start inp b)
  unfolding constrain_energy_init_at_region_start
  energy_init b hb start =
      let cap = inp.params.capacity in
      let c =
        c10
          (ge (var (e_accum b))
            (build_e_start inp b minus (constant cap minus term cap (region_start b))))
          ((mem-flat_map _ b _ inp.blocks hb (Memᴰ.head refl))) in
      omega (arith, simp expr_laws at c, ap (λ t. cap * t) start)

  -- The energy along an edge that starts no region.
  pub energy_propagation :
      (a b : NodeId)
      → Memᴰ (a, b) inp.edges
      → x (region_start b) ≡ 0
      → x (e_accum a) + added one x (build_e_blk inp a)
        ≤ x (e_accum b) + taken one x (build_e_blk inp a)
  unfolding constrain_energy_propagation
  energy_propagation a b e inner =
      let cap = inp.params.capacity in
      let c =
        c11
          (ge (var (e_accum b))
            (var (e_accum a) plus build_e_blk inp a minus term cap (region_start b)))
          ((mem-flat_map _ (a, b) _ inp.edges e (Memᴰ.head refl))) in
      omega (arith, simp expr_laws at c, ap (λ t. cap * t) inner)

  -- The capacity at an edge.
  pub energy_edge :
      (a b : NodeId)
      → Memᴰ (a, b) inp.edges
      → x (e_accum a) + added one x (build_e_blk inp a) + added one x (build_e_end inp b)
        ≤ inp.params.capacity * one
          + taken one x (build_e_blk inp a)
          + taken one x (build_e_end inp b)
  unfolding constrain_energy_within_capacity
  energy_edge a b e =
      let c =
        c12
          (le (var (e_accum a) plus build_e_blk inp a plus build_e_end inp b)
            (constant inp.params.capacity))
          ((Memᴰ.append_left _ (mem-flat_map _ (a, b) _ inp.edges e (Memᴰ.head refl)))) in
      omega (arith, simp expr_laws at c)

  -- The capacity at an exit.
  pub energy_exit :
      (b : NodeId)
      → Memᴰ b inp.exit_blocks
      → x (e_accum b) + added one x (build_e_blk inp b)
        ≤ inp.params.capacity * one + taken one x (build_e_blk inp b)
  unfolding constrain_energy_within_capacity
  energy_exit b h =
      let c =
        c12 (le (var (e_accum b) plus build_e_blk inp b) (constant inp.params.capacity))
          ((Memᴰ.append_right _ (mem-flat_map _ b _ inp.exit_blocks h (Memᴰ.head refl)))) in
      omega (arith, simp expr_laws at c)
