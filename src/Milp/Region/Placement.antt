-- ===== src/Milp/Region/Placement.antt =====
-- The entry, the placements and the volatile memory under a feasible assignment.
use native.Mathlib.Nat.{le_of_mul-le-mul_left}
use mathlib.Core.List.Memᴰ
use bao.Prelude.{
  ℕ, ◌+◌, ◌*◌, ◌≤◌, ◌≡◌, ◌≢◌, refl, ap, inl, inr, true, false, ◌||◌, Memᴰ, mem-map, mem-flat_map,
  mem→contains, ◌==◌, Bool-cases, ltb, if◌then◌else◌, sum_map, arith,
}
use bao.Milp.Views.{NodeId, Value, MilpInput}
use bao.Milp.Expr.{
  Var, region_start, place, constant, var, ◌plus◌, ◌minus◌, Constr, le, ge, eq, Holds, expr_laws,
}
use bao.Milp.Model.{invalid_node_id, ordered_vm_objs, ordered_tracked_values, placement, add_costs}
use bao.Milp.Model.Constraints.{
  constrain_entry_as_region_start, constrain_vm_capacity, constrain_placement_propagation,
  ineligible_usage, vm_usage, reduced_capacity, placement_bounds,
}
use bao.Milp.Region.{IsConsistent, IsFeasible, starts, is_placed}
use bao.Milp.Region.Feasible.{met}
use bao.Milp.Region.Costs.{added-add_costs, taken-add_costs, sum_due-le, placed_one}
use bao.Milp.Region.Dirty.{not_started}

module _ (inp : MilpInput) (one : ℕ) (x : Var → ℕ) (ok : IsConsistent inp)
    (feasible : IsFeasible inp one x) where
  -- The entry.
  pub entry_starts :
      inp.entry_block ≢ invalid_node_id
      → Memᴰ inp.entry_block inp.blocks
      → starts inp one x inp.entry_block ≡ true
  unfolding constrain_entry_as_region_start
  entry_starts valid h =
      let entry = inp.entry_block in
      let differs : (entry == invalid_node_id) ≡ false = ground arith in
      let scaled = feasible.scaled in
      let c =
        met inp one x feasible (eq (var (region_start entry)) (constant 1))
          (constrain_entry_as_region_start inp) (Memᴰ.head refl)
          (rw (differs, mem→contains inp.blocks entry h) (Memᴰ.head refl)) in
      let full : x (region_start entry) ≡ one = omega (arith, simp expr_laws at c) in ground arith

  c14 : (c : Constr) → Memᴰ c (constrain_placement_propagation inp) → Holds one x c
  c14 c h =
      met inp one x feasible c (constrain_placement_propagation inp)
        (Memᴰ.tail (Memᴰ.tail (Memᴰ.tail (Memᴰ.head refl)))) h

  c2 : (c : Constr) → Memᴰ c (constrain_vm_capacity inp) → Holds one x c
  c2 c h =
      met inp one x feasible c (constrain_vm_capacity inp) (Memᴰ.tail (Memᴰ.tail (Memᴰ.head refl)))
        h

  mem-placement_bounds :
      (c : Constr) (a b : NodeId) (v : Value)
      → inp.coarse_allocation ≡ false
      → Memᴰ (a, b) inp.edges
      → Memᴰ v (ordered_vm_objs inp)
      → Memᴰ c (placement_bounds (a, b) v)
      → Memᴰ c (constrain_placement_propagation inp)
  unfolding constrain_placement_propagation
  mem-placement_bounds c a b v fine e hv h = rw fine (
      Memᴰ.append_left _ (
        mem-flat_map _ (a, b) c inp.edges e
          (mem-flat_map (placement_bounds (a, b)) v c (ordered_vm_objs inp) hv h)))

  -- No region start, no change.
  place_unchanged :
      inp.coarse_allocation ≡ false
      → (a b : NodeId) (v : Value) → Memᴰ (a, b) inp.edges
      → Memᴰ v (ordered_vm_objs inp)
      → x (region_start b) ≡ 0
      → x (place b v) ≡ x (place a v)
  place_unchanged fine a b v e hv quiet =
      let up =
        c14 (le (var (place b v)) (var (place a v) plus var (region_start b)))
          (mem-placement_bounds _ a b v fine e hv (Memᴰ.head refl)) in
      let down =
        c14 (ge (var (place b v)) (var (place a v) minus var (region_start b)))
          (mem-placement_bounds _ a b v fine e hv (Memᴰ.tail (Memᴰ.head refl))) in
      omega (arith, simp expr_laws at up, simp expr_laws at down)

  pub placed_unchanged :
      (a b : NodeId) (v : Value)
      → Memᴰ (a, b) inp.edges
      → Memᴰ v (ordered_vm_objs inp)
      → starts inp one x b ≡ false
      → is_placed inp one x b v ≡ is_placed inp one x a v
  placed_unchanged a b v e hv off = elim (Bool-cases inp.coarse_allocation) [
    | inl coarse ↦ rw coarse
    | inr fine ↦
        let quiet = not_started inp one x ok feasible b (ok.dst_block a b e) off in
        rw fine
          (ap (λ t. inp.is_ineligible v || ltb one (2 * t)) (place_unchanged fine a b v e hv quiet))
  ]

  -- The capacity, with the variables of one block.
  mem-capacity :
      (b : NodeId)
      → Memᴰ b inp.blocks
      → Memᴰ
          (le (vm_usage inp (placement inp b)) (reduced_capacity inp))
          (constrain_vm_capacity inp)
  unfolding constrain_vm_capacity add_costs
  mem-capacity b hb = elim (Bool-cases inp.coarse_allocation) [
    | inl coarse ↦ rw coarse (Memᴰ.head refl)
    | inr fine ↦
        rw fine (mem-map (λ c. le (vm_usage inp (place c)) (reduced_capacity inp)) b inp.blocks hb)
  ]

  pub placed_bytes_fit :
      (b : NodeId)
      → Memᴰ b inp.blocks
      → ineligible_usage inp (ordered_tracked_values inp)
          + sum_map
              (λ v. if is_placed inp one x b v then inp.var_size_bytes v else 0)
              (ordered_vm_objs inp)
        ≤ inp.params.vm_capacity_bytes
  placed_bytes_fit b hb =
      let size = inp.var_size_bytes in
      let objs = ordered_vm_objs inp in
      let used = placement inp b in
      let c = c2 (le (vm_usage inp used) (reduced_capacity inp)) (mem-capacity b hb) in
      le_of_mul-le-mul_left
        (omega (
          arith,
          simp expr_laws at c,
          simp expr_laws at (added-add_costs one x inp size used (constant 0) objs),
          simp expr_laws at (taken-add_costs one x inp size used (constant 0) objs),
          sum_due-le one x (is_placed inp one x b) size used objs
              (λ v h p. omega (arith, placed_one inp one x ok feasible b v hb h p)),
        ))
        feasible.scaled
