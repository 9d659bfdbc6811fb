-- ===== src/Milp/Tests.antt =====
-- A program of three blocks, a solution of its model, and the theorems applied to them.
use mathlib.Core.Path.{subst}
use mathlib.Core.Option.{some-injective}
use mathlib.Core.List.Memᴰ
use bao.Prelude.{
  ℕ, ◌+◌, ◌≤◌, ◌≡◌, refl, ap, ◌⊎◌, inl, inr, ◌↔◌, true, false, none, some, [], ◌∷◌, Memᴰ, All-mem,
  flat_map, contains, Bool-cases, ◌==◌, ltb, if◌then◌else◌, arith,
}
use bao.Milp.Views.{MilpInput}
use bao.Milp.Order.{sort_unique}
use bao.Milp.Expr.{
  Var, region_start, place, place_global, need_restore, dirty, save, e_accum, added, taken,
}
use bao.Milp.Graph.{build_predecessor_map, build_successor_map, is_def, compute_reachable_defs}
use bao.Milp.Model.{
  add_variables, save_values, has_dirty, any_dirty, build_e_blk, build_e_start, build_e_end,
}
use bao.Milp.Model.Constraints.{
  constrain_entry_as_region_start, constrain_need_restore_linearization, constrain_vm_capacity,
  constrain_placement_propagation, dirty_at, dirty_along, constrain_dirty_propagation, save_along,
  constrain_save_at_region_boundary, constrain_energy_init_at_region_start,
  constrain_energy_propagation, constrain_energy_within_capacity, add_constraints,
}
use bao.Milp.Region.{IsConsistent, IsFeasible, spent, block_cost, end_cost, start_cost, is_written}
use bao.Milp.Solve.{no_failure, optimal, Outcome, Gurobi, Optimizer, grb_optimal, solve}
use bao.Milp.Solve.Safe.{IsSound, starts_in, placed_in, solve_region_fits, solve_last_region_fits}
use bao.Milp.Solve.Laws.{solve-failure_iff}
use bao.Milp.Solve.Placement.{solve_entry_starts, solve_placement_fixed, solve_vm_fits}
use bao.Milp.Graph.Reach.{IsReached, compute_reachable_defs_iff}

-- 0 → 1 → 2. Block 0 writes the global 7 and the register 9; block 2 reads both, block 1 the register.
abbrev three_blocks : MilpInput
three_blocks = record {
  cfg = record {
    blocks = 0 ∷ 1 ∷ 2 ∷ [];
    edges = (0, 1) ∷ (1, 2) ∷ [];
    entry_block = 0;
    exit_blocks = 2 ∷ [];
    block_energy_cost = λ b. 10;
  };
  state = record {
    vm_objs = 7 ∷ [];
    elig_live_in = λ b. if b == 2 then 7 ∷ [] else [];
    elig_def_indicator = λ b v. b == 0;
    ineligible_objs = 9 ∷ [];
    is_ineligible = λ v. v == 9;
    inelig_live_in = λ b. if b == 0 then [] else 9 ∷ [];
    inelig_def_indicator = λ b v. if v == 9 then b == 0 else false;
    var_size_bytes = λ v. 2;
  };
  energy = record {
    params = record { capacity = 100; e_pro = 5; e_epi = 3; vm_capacity_bytes = 10 };
    e_base = λ b. 10;
    e_nvm = λ b v. 4;
    e_save = λ v. 2;
    e_restore = λ v. 2;
    f_entry = λ b. 1;
    f_boundary = λ b. 1;
  };
  values = record { is_global = λ v. v == 7; is_alloca = λ v. v == 9; key_lt = ltb };
  coarse_allocation = false;
}

-- Checkpoints before blocks 0 and 2, the global in volatile memory throughout.
abbrev sample_values : Var → ℕ
sample_values (region_start b) = if b == 1 then 0 else 1
sample_values (place b v) = 1
sample_values (place_global v) = 0
sample_values (need_restore b v) = 1
sample_values (dirty b v) = if b == 2 then 0 else 1
sample_values (save b v) = if b == 2 then 1 else 0
sample_values (e_accum b) = if b == 0 then 5 else if b == 1 then 15 else 9

sample_IsFeasible : IsFeasible three_blocks 1 sample_values
unfolding add_variables add_constraints flat_map contains sort_unique build_predecessor_map
    build_successor_map is_def compute_reachable_defs added taken save_values has_dirty any_dirty
    build_e_blk build_e_start build_e_end constrain_entry_as_region_start
    constrain_need_restore_linearization constrain_vm_capacity constrain_placement_propagation
    dirty_at dirty_along constrain_dirty_propagation save_along constrain_save_at_region_boundary
    constrain_energy_init_at_region_start constrain_energy_propagation
    constrain_energy_within_capacity
sample_IsFeasible = record { scaled = omega arith; bounds = omega arith; constraints = omega arith }

three_blocks-IsConsistent : IsConsistent three_blocks
three_blocks-IsConsistent = record {
  src_block = λ a b h.
      All-mem (λ e. Memᴰ e.0 three_blocks.blocks) (a, b) three_blocks.edges h
        (Memᴰ.head refl, (Memᴰ.tail (Memᴰ.head refl), tt));
  dst_block = λ a b h.
      All-mem (λ e. Memᴰ e.1 three_blocks.blocks) (a, b) three_blocks.edges h
        (Memᴰ.tail (Memᴰ.head refl), (Memᴰ.tail (Memᴰ.tail (Memᴰ.head refl)), tt));
  not_entry = λ a b h.
      All-mem (λ e. ¬ (e.1 ≡ 0)) (a, b) three_blocks.edges h
        ((λ p. omega arith), ((λ p. omega arith), tt));
  exit_block = λ b h. Memᴰ.tail (Memᴰ.tail h);
  elig_tracked = λ b v h. elim (Bool-cases (b == 2)) [
    | inl t ↦ rw t at h
    | inr f ↦ absurd (Memᴰ.not-nil (rw f at h))
  ];
  inelig_tracked = λ b v h. elim (Bool-cases (b == 0)) [
    | inl t ↦ absurd (Memᴰ.not-nil (rw t at h))
    | inr f ↦ rw f at h
  ];
  elig = λ v h. let e = Memᴰ.eq_of_singleton h in ground arith;
  inelig = λ v h. let e = Memᴰ.eq_of_singleton h in ground arith;
}

abbrev sample_outcome : Outcome
sample_outcome = record {
  status = grb_optimal;
  sol_count = 1;
  gap = 0;
  one = 1;
  values = sample_values;
  obj_val = 0;
  iis_throws = false;
}

abbrev sample_gurobi : Gurobi
sample_gurobi = record { builds = true; run = some sample_outcome }

sample_IsSound : IsSound three_blocks sample_gurobi
sample_IsSound out e p =
    subst (λ (t : Outcome). IsFeasible three_blocks t.one t.values) (some-injective _ _ e)
      sample_IsFeasible

abbrev new_optimizer : Optimizer
new_optimizer = record {
  solve_failure = no_failure;
  solved = false;
  model_built = false;
  gurobi_failed = false;
  accept_feasible = false;
  solution = record {
    r = [];
    m = λ b v. none;
    r_hat = λ b v. none;
    s = λ b v. none;
    e_accum_at = λ b. none;
    objective_value = 0;
    solver_status = optimal;
    mip_gap = 0;
  };
}

sample_solved : (solve three_blocks sample_gurobi new_optimizer).0 ≡ true
unfolding solve
sample_solved = refl

-- The region of blocks 0 and 1, which ends at the checkpoint before block 2.
solve_region_fits_example : (5 + (10 + 0)) + 10 + (3 + 4) ≤ 100
unfolding solve contains sort_unique spent block_cost end_cost start_cost is_written is_def
    save_values
solve_region_fits_example =
    solve_region_fits three_blocks sample_gurobi new_optimizer three_blocks-IsConsistent
      sample_IsSound sample_solved 1 2 (0 ∷ []) (Memᴰ.head refl, refl, (Memᴰ.head refl, refl))
      (Memᴰ.tail (Memᴰ.head refl)) refl

-- The last region is block 2 alone.
solve_last_region_fits_example : (5 + 4) + 10 ≤ 100
unfolding solve contains sort_unique spent block_cost start_cost
solve_last_region_fits_example =
    solve_last_region_fits three_blocks sample_gurobi new_optimizer three_blocks-IsConsistent
      sample_IsSound sample_solved 2 [] (Memᴰ.tail (Memᴰ.tail (Memᴰ.head refl)), refl)
      (Memᴰ.head refl)

solve_entry_starts_example :
    starts_in (solve three_blocks sample_gurobi new_optimizer).1.solution 0 ≡ true
solve_entry_starts_example =
    solve_entry_starts three_blocks sample_gurobi new_optimizer three_blocks-IsConsistent
      sample_IsSound sample_solved (λ p. omega arith) (Memᴰ.head refl)

-- The global 7 stays where it is from block 0 to block 1.
solve_placement_fixed_example :
    placed_in (solve three_blocks sample_gurobi new_optimizer).1.solution 1 7
    ≡ placed_in (solve three_blocks sample_gurobi new_optimizer).1.solution 0 7
unfolding solve contains sort_unique
solve_placement_fixed_example =
    solve_placement_fixed three_blocks sample_gurobi new_optimizer three_blocks-IsConsistent
      sample_IsSound sample_solved 0 1 7 (Memᴰ.head refl) (Memᴰ.head refl) refl

nine_fixed : (v : ℕ) → Memᴰ v (9 ∷ []) → Memᴰ v (9 ∷ []) × (((v == 7) ≡ true) ⊎ ((v == 9) ≡ true))
nine_fixed v m = (m, inr (ap (λ u. u == 9) (Memᴰ.eq_of_singleton m)))

seven_placed :
    (v : ℕ)
    → Memᴰ v (7 ∷ [])
    → Memᴰ v (7 ∷ [])
      × (placed_in (solve three_blocks sample_gurobi new_optimizer).1.solution 1 v ≡ true)
unfolding solve contains sort_unique
seven_placed v m = (
  m,
  ap (placed_in (solve three_blocks sample_gurobi new_optimizer).1.solution 1)
      (Memᴰ.eq_of_singleton m),
)

solve_vm_fits_example : (2 + 0) + (2 + 0) ≤ 10
solve_vm_fits_example =
    solve_vm_fits three_blocks sample_gurobi new_optimizer three_blocks-IsConsistent sample_IsSound
      sample_solved 1 (9 ∷ []) (7 ∷ []) (Memᴰ.tail (Memᴰ.head refl)) (Memᴰ.not-nil, tt) nine_fixed
      (Memᴰ.not-nil, tt) seven_placed

solve-failure_iff_example :
    ((solve three_blocks sample_gurobi new_optimizer).0 ≡ true)
    ↔ ((solve three_blocks sample_gurobi new_optimizer).1.solve_failure ≡ no_failure)
solve-failure_iff_example = solve-failure_iff three_blocks sample_gurobi new_optimizer

compute_reachable_defs_iff_example :
    (contains (compute_reachable_defs three_blocks 7) 2 ≡ true) ↔ IsReached three_blocks 7 2
compute_reachable_defs_iff_example = compute_reachable_defs_iff three_blocks 7 2
