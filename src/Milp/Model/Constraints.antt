-- ===== src/Milp/Model/Constraints.antt =====
-- `addConstraints` of passes/src/milp/CheckpointOptimizer.cpp: one function for each `constrain…`
-- method. The numbers are the source's.
use bao.Prelude.{
  ℕ, ◌+◌, Bool, true, not, ◌&&◌, ◌||◌, List, [], ◌∷◌, ◌++◌, map, flat_map, ◌==◌, if◌then◌else◌,
  contains,
}
use bao.Milp.Views.{NodeId, Value, MilpInput}
use bao.Milp.Expr.{
  Var, region_start, place, place_global, need_restore, dirty, save, e_accum, LinExpr, constant,
  term, var, ◌plus◌, ◌minus◌, Constr, le, ge, eq,
}
use bao.Milp.Graph.{is_def}
use bao.Milp.Model.{
  invalid_node_id, ordered_vm_objs, ordered_tracked_values, predecessors, has_dirty,
  need_restore_values, save_values, placement, add_costs, build_e_blk, build_e_start, build_e_end,
}

-- `Σ_pred x(pred)` over the predecessors that pass a test
pub sum_preds : (NodeId → Bool) → (NodeId → Var) → LinExpr → List NodeId → LinExpr
sum_preds test x expr [] = expr
sum_preds test x expr (b ∷ bs) = sum_preds test x (if test b then expr plus var (x b) else expr) bs

-- The placement along one edge, for one value
abbrev pub placement_bounds : NodeId × NodeId → Value → List Constr
placement_bounds e v =
    le (var (place e.1 v)) (var (place e.0 v) plus var (region_start e.1))
    ∷ ge (var (place e.1 v)) (var (place e.0 v) minus var (region_start e.1))
    ∷ []

module _ (inp : MilpInput) where
  -- `r[entry] = 1`
  unfoldable pub constrain_entry_as_region_start : List Constr
  constrain_entry_as_region_start =
      let entry = inp.entry_block in
      if not (entry == invalid_node_id) && contains inp.blocks entry
      then eq (var (region_start entry)) (constant 1) ∷ []
      else []

  -- `rHat = r ∧ m`
  unfoldable pub constrain_need_restore_linearization : List Constr
  constrain_need_restore_linearization =
      flat_map
        (λ b.
          flat_map
            (λ v.
              le (var (need_restore b v)) (var (region_start b))
              ∷ le (var (need_restore b v)) (var (placement inp b v))
              ∷ ge (var (need_restore b v))
                  (var (region_start b) plus var (placement inp b v) minus constant 1)
              ∷ [])
            (need_restore_values inp b))
        inp.blocks

  -- Bytes of volatile memory that ineligible values always hold.
  unfoldable pub ineligible_usage : List Value → ℕ
  ineligible_usage [] = 0
  ineligible_usage (v ∷ vs) =
      (if inp.is_ineligible v && (inp.is_global v || inp.is_alloca v)
        then inp.var_size_bytes v
        else 0)
      + ineligible_usage vs

  abbrev pub vm_usage : (Value → Var) → LinExpr
  vm_usage x = add_costs inp inp.var_size_bytes x (constant 0) (ordered_vm_objs inp)

  abbrev pub reduced_capacity : LinExpr
  reduced_capacity =
      constant inp.params.vm_capacity_bytes
      minus constant (ineligible_usage (ordered_tracked_values inp))

  -- `Σ size(v) m[b,v] ≤ capacity`
  unfoldable pub constrain_vm_capacity : List Constr
  unfolding ineligible_usage
  constrain_vm_capacity =
      if inp.coarse_allocation
      then le (vm_usage place_global) reduced_capacity ∷ []
      else map (λ b. le (vm_usage (place b)) reduced_capacity) inp.blocks

  -- A merge at one block: every other predecessor agrees with the first.
  merge_placement : List NodeId → List Constr
  merge_placement [] = []
  merge_placement (first ∷ others) =
      flat_map (λ v. map (λ b. eq (var (place first v)) (var (place b v))) others)
        (ordered_vm_objs inp)

  -- Along the edges, and where paths merge.
  unfoldable pub constrain_placement_propagation : List Constr
  unfolding merge_placement
  constrain_placement_propagation =
      if inp.coarse_allocation
      then []
      else flat_map (λ e. flat_map (placement_bounds e) (ordered_vm_objs inp)) inp.edges
        ++ flat_map (λ b. if b == inp.entry_block then [] else merge_placement (predecessors inp b))
            inp.blocks

  abbrev def_constant : NodeId → Value → LinExpr
  def_constant b v = constant (if is_def inp b v then 1 else 0)

  -- The three kinds of constraints for one block
  unfoldable pub dirty_at : NodeId → List Constr
  unfolding sum_preds
  dirty_at b =
      flat_map
        (λ v.
          if has_dirty inp b v
          then ge (var (dirty b v)) (def_constant b v)
            ∷ le (var (dirty b v)) (
                def_constant b v
                plus sum_preds (λ p. has_dirty inp p v) (λ p. dirty p v) (constant 0)
                    (predecessors inp b))
            ∷ le (var (dirty b v)) (def_constant b v plus (constant 1 minus var (region_start b)))
            ∷ []
          else [])
        (ordered_tracked_values inp)

  -- The constraint for one edge
  unfoldable pub dirty_along : NodeId × NodeId → List Constr
  dirty_along e =
      flat_map
        (λ v.
          if has_dirty inp e.0 v && has_dirty inp e.1 v
          then ge (var (dirty e.1 v)) (var (dirty e.0 v) minus var (region_start e.1)) ∷ []
          else [])
        (ordered_tracked_values inp)

  unfoldable pub constrain_dirty_propagation : List Constr
  constrain_dirty_propagation = flat_map dirty_at inp.blocks ++ flat_map dirty_along inp.edges

  -- The bounds of one save variable
  save_bounds : NodeId → Value → List Constr
  unfolding sum_preds
  save_bounds b v =
      le (var (save b v)) (var (region_start b))
      ∷ le (var (save b v))
          (sum_preds (λ p. has_dirty inp p v) (λ p. dirty p v) (constant 0) (predecessors inp b))
      ∷ (if inp.is_ineligible v
          then []
          else le (var (save b v)) (
              if inp.coarse_allocation
              then var (place_global v)
              else sum_preds (λ p. true) (λ p. place p v) (constant 0) (predecessors inp b))
            ∷ [])

  abbrev pub save_bound : NodeId × NodeId → Value → LinExpr
  save_bound e v =
      if inp.is_ineligible v
      then var (dirty e.0 v) plus var (region_start e.1) minus constant 1
      else var (dirty e.0 v)
        plus var (placement inp e.0 v)
        plus var (region_start e.1)
        minus constant 2

  -- The entries of `saveByBlock` for a block.
  abbrev pub save_by_block : NodeId → List Value
  save_by_block b = if contains inp.blocks b then save_values inp b else []

  -- The constraints for one edge
  unfoldable pub save_along : NodeId × NodeId → List Constr
  save_along e =
      flat_map
        (λ v. if has_dirty inp e.0 v then ge (var (save e.1 v)) (save_bound e v) ∷ [] else [])
        (save_by_block e.1)

  unfoldable pub constrain_save_at_region_boundary : List Constr
  unfolding save_bounds
  constrain_save_at_region_boundary =
      flat_map (λ b. flat_map (save_bounds b) (save_values inp b)) inp.blocks
      ++ flat_map save_along inp.edges

  abbrev capacity : ℕ
  capacity = inp.params.capacity

  -- `r = 1` gives eAccum = E_start
  unfoldable pub constrain_energy_init_at_region_start : List Constr
  constrain_energy_init_at_region_start =
      flat_map
        (λ b.
          let slack = constant capacity minus term capacity (region_start b) in
          ge (var (e_accum b)) (build_e_start inp b minus slack)
          ∷ le (var (e_accum b)) (build_e_start inp b plus slack)
          ∷ [])
        inp.blocks

  -- `r[dst] = 0` gives eAccum[dst] ≥ eAccum[src] + E_blk(src)
  unfoldable pub constrain_energy_propagation : List Constr
  constrain_energy_propagation =
      flat_map
        (λ e.
          ge (var (e_accum e.1))
            (var (e_accum e.0) plus build_e_blk inp e.0 minus term capacity (region_start e.1))
          ∷ [])
        inp.edges

  -- At the edges, and at the exits.
  unfoldable pub constrain_energy_within_capacity : List Constr
  constrain_energy_within_capacity =
      flat_map
        (λ e.
          le (var (e_accum e.0) plus build_e_blk inp e.0 plus build_e_end inp e.1)
            (constant capacity)
          ∷ [])
        inp.edges
      ++ flat_map (λ b. le (var (e_accum b) plus build_e_blk inp b) (constant capacity) ∷ [])
          inp.exit_blocks

  -- `constrainIneligiblePlacement` adds no constraint.
  abbrev pub constraint_groups : List (List Constr)
  constraint_groups =
      constrain_entry_as_region_start ∷ constrain_need_restore_linearization ∷ constrain_vm_capacity
      ∷ constrain_placement_propagation ∷ constrain_dirty_propagation
      ∷ constrain_save_at_region_boundary ∷ constrain_energy_init_at_region_start
      ∷ constrain_energy_propagation ∷ constrain_energy_within_capacity ∷ []

  unfoldable pub add_constraints : List Constr
  add_constraints = flat_map (λ group. group) constraint_groups
