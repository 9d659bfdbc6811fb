-- ===== src/Milp/Solve/Placement.antt =====
-- Where the values live under a solution with which `solve` returns true.
use mathlib.Core.List.Memᴰ
use bao.Prelude.{
  ◌+◌, ◌≤◌, ◌≡◌, ◌≢◌, refl, sym, ◌∙◌, ap, ◌⊎◌, inl, Bool, true, false, ◌&&◌, ◌||◌, List, [], ◌∷◌,
  Memᴰ, sum_map, sum_map_congr, sum_map_sub, Distinct, if◌then◌else◌, arith,
}
use bao.Milp.Views.{NodeId, Value, MilpInput}
use bao.Milp.Order.{mem-sort_unique}
use bao.Milp.Model.{invalid_node_id, ordered_vm_objs, ordered_tracked_values}
use bao.Milp.Model.Constraints.{ineligible_usage}
use bao.Milp.Region.{IsConsistent, is_placed}
use bao.Milp.Region.Placement.{entry_starts, placed_unchanged, placed_bytes_fit}
use bao.Milp.Solve.{Gurobi, Optimizer, solve}
use bao.Milp.Solve.Safe.{IsSound, starts_in, placed_in, one, x, feasible, same_starts, same_placed}

module _ (inp : MilpInput) (grb : Gurobi) (o : Optimizer) (ok : IsConsistent inp)
    (sound : IsSound inp grb) (solved : (solve inp grb o).0 ≡ true) where
  abbrev placed : NodeId → Value → Bool
  placed = placed_in (solve inp grb o).1.solution

  -- If the views are consistent, the solver keeps its word and `solve` returns true, then an entry
  -- block that is a valid node of the graph starts a region.
  pub solve_entry_starts :
      inp.entry_block ≢ invalid_node_id
      → Memᴰ inp.entry_block inp.blocks
      → starts_in (solve inp grb o).1.solution inp.entry_block ≡ true
  solve_entry_starts valid h =
      same_starts inp grb o ok sound solved inp.entry_block h
      ∙ entry_starts inp (one inp grb o ok sound solved) (x inp grb o ok sound solved) ok
          (feasible inp grb o ok sound solved) valid h

  -- If the views are consistent, the solver keeps its word and `solve` returns true, then an
  -- eligible value moves between the two memories only where a region
  -- starts: along any other edge its placement is the same at both ends.
  pub solve_placement_fixed :
      (a b : NodeId) (v : Value)
      → Memᴰ (a, b) inp.edges
      → Memᴰ v (ordered_vm_objs inp)
      → starts_in (solve inp grb o).1.solution b ≡ false
      → placed b v ≡ placed a v
  solve_placement_fixed a b v e hv off =
      let hb = ok.dst_block a b e in
      let off' = sym (same_starts inp grb o ok sound solved b hb) ∙ off in
      same_placed inp grb o ok sound solved b v hb (inl hv)
      ∙ placed_unchanged inp (one inp grb o ok sound solved) (x inp grb o ok sound solved) ok
          (feasible inp grb o ok sound solved) a b v e hv off'
      ∙ sym (same_placed inp grb o ok sound solved a v (ok.src_block a b e) (inl hv))

  ineligible_usage_sum :
      (vs : List Value)
      → ineligible_usage inp vs
        ≡ sum_map
            (λ v.
              if inp.is_ineligible v && (inp.is_global v || inp.is_alloca v)
              then inp.var_size_bytes v
              else 0)
            vs
  unfolding ineligible_usage
  ineligible_usage_sum [] = refl
  ineligible_usage_sum (v ∷ vs) = omega (arith, ineligible_usage_sum vs)

  fixed_le_usage :
      (fixed : List Value)
      → Distinct fixed
      → ((v : Value)
          → Memᴰ v fixed
          → Memᴰ v inp.ineligible_objs × ((inp.is_global v ≡ true) ⊎ (inp.is_alloca v ≡ true)))
      → sum_map inp.var_size_bytes fixed ≤ ineligible_usage inp (ordered_tracked_values inp)
  fixed_le_usage fixed d h = rw (ineligible_usage_sum (ordered_tracked_values inp)) (
      sum_map_sub inp.var_size_bytes _ fixed (ordered_tracked_values inp) d (λ v m.
        let (tracked, kind) = h v m in
        (
          mem-sort_unique inp.key_lt v _ (Memᴰ.append_right (ordered_vm_objs inp) tracked),
          ground (arith, ok.inelig v tracked, kind),
        )))

  -- If the views are consistent, the solver keeps its word and `solve` returns true, then in every
  -- block the bytes of eligible values that the solution places in volatile memory there and of
  -- ineligible values that are globals or allocas fit that memory together, whichever are taken,
  -- each once.
  pub solve_vm_fits :
      (b : NodeId) (fixed moved : List Value)
      → Memᴰ b inp.blocks
      → Distinct fixed
      → ((v : Value)
          → Memᴰ v fixed
          → Memᴰ v inp.ineligible_objs × ((inp.is_global v ≡ true) ⊎ (inp.is_alloca v ≡ true)))
      → Distinct moved
      → ((v : Value) → Memᴰ v moved → Memᴰ v inp.vm_objs × (placed b v ≡ true))
      → sum_map inp.var_size_bytes fixed + sum_map inp.var_size_bytes moved
        ≤ inp.params.vm_capacity_bytes
  solve_vm_fits b fixed moved hb d h d' h' = omega (
    arith,
    fixed_le_usage fixed d h,
    sum_map_sub inp.var_size_bytes (λ v. if placed b v then inp.var_size_bytes v else 0) moved
        (ordered_vm_objs inp) d'
        (λ v m.
          let (tracked, here) = h' v m in
          (mem-sort_unique inp.key_lt v _ tracked, ground (arith, here))),
    placed_bytes_fit inp (one inp grb o ok sound solved) (x inp grb o ok sound solved) ok
        (feasible inp grb o ok sound solved) b hb,
    sum_map_congr (λ v. if placed b v then inp.var_size_bytes v else 0)
        (λ v.
          if is_placed inp (one inp grb o ok sound solved) (x inp grb o ok sound solved) b v
          then inp.var_size_bytes v
          else 0)
        (ordered_vm_objs inp)
        (λ v h.
          ap (λ t. if t then inp.var_size_bytes v else 0)
            (same_placed inp grb o ok sound solved b v hb (inl h))),
  )
