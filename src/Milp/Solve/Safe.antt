-- ===== src/Milp/Solve/Safe.antt =====
-- The energy of the regions under a solution of `CheckpointOptimizer::solve`.
use bao.Prelude.{
  ℕ, ◌+◌, ◌≤◌, ◌<◌, ◌≡◌, sym, ◌∙◌, ap, ◌⊎◌, inl, inr, Bool, true, false, Option, none, some, List,
  ◌∷◌, Memᴰ, contains, arith,
}
use bao.Milp.Views.{NodeId, Value, MilpInput}
use bao.Milp.Expr.{Var}
use bao.Milp.Model.{ordered_vm_objs}
use bao.Milp.Region.{
  IsConsistent, IsFeasible, starts, is_placed, IsRun, spent, block_cost, end_cost,
}
use bao.Milp.Region.Safe.{region_fits_capacity, last_region_fits_capacity}
use bao.Milp.Region.Congr.{IsRun-congr, spent_congr, block_cost_congr, end_cost_congr}
use bao.Milp.Solve.{MilpSolution, Outcome, Gurobi, Optimizer, grb_optimal, solve}
use bao.Milp.Solve.Laws.{IsAccepted, solve-IsAccepted, extract-starts, extract-placed}

-- What the solver documents: an assignment that it reports, with a proof of optimality or not, is
-- feasible for the model that it was given.
abbrev pub IsSound : MilpInput → Gurobi → Type 0
IsSound inp grb =
    (out : Outcome)
    → grb.run ≡ some out
    → (out.status ≡ grb_optimal) ⊎ (0 < out.sol_count)
    → IsFeasible inp out.one out.values

-- The region starts and the placements as the instrumenter reads them.
abbrev pub starts_in : MilpSolution → NodeId → Bool
starts_in s b = contains s.r b

abbrev is_some_true : Option Bool → Bool
is_some_true none = false
is_some_true (some b) = b

abbrev pub placed_in : MilpSolution → NodeId → Value → Bool
placed_in s b v = is_some_true (s.m b v)

module _ (inp : MilpInput) (grb : Gurobi) (o : Optimizer) (ok : IsConsistent inp)
    (sound : IsSound inp grb) (solved : (solve inp grb o).0 ≡ true) where
  abbrev solution : MilpSolution
  solution = (solve inp grb o).1.solution

  accepted : (out : Outcome) × IsAccepted inp grb o out o.solution solution
  accepted = solve-IsAccepted inp grb o solved

  pub one : ℕ
  one = accepted.0.one

  pub x : Var → ℕ
  x = accepted.0.values

  pub feasible : IsFeasible inp one x
  unfolding one x
  feasible =
      let acc = accepted.1 in
      sound accepted.0 acc.ran (elim acc.proven [ inl best ↦ inl best | inr found ↦ inr found.1 ])

  pub same_starts : (b : NodeId) → Memᴰ b inp.blocks → starts_in solution b ≡ starts inp one x b
  unfolding one x
  same_starts b hb =
      ap (λ r. contains r b) accepted.1.starts_at
      ∙ extract-starts inp ok one x accepted.0.obj_val o.solution b hb

  pub same_placed :
      (b : NodeId) (v : Value)
      → Memᴰ b inp.blocks
      → Memᴰ v (ordered_vm_objs inp) ⊎ Memᴰ v inp.ineligible_objs
      → placed_in solution b v ≡ is_placed inp one x b v
  unfolding one x
  same_placed b v hb hv =
      ap (λ m. is_some_true (m b v)) accepted.1.placed_at
      ∙ ap is_some_true (extract-placed inp ok one x accepted.0.obj_val o.solution b v hb hv)

  -- If the views are consistent, the solver keeps its word and `solve` returns true, then with the
  -- region starts and placements of the solution every region that ends at a checkpoint takes at most
  -- the capacity: its prologue and copies, its blocks, and the epilogue with the saves that are due.
  pub solve_region_fits :
      (a b : NodeId) (past : List NodeId)
      → IsRun inp (starts_in solution) a past
      → Memᴰ (a, b) inp.edges
      → starts_in solution b ≡ true
      → spent inp (placed_in solution) a past
          + block_cost inp (placed_in solution) a
          + end_cost inp (placed_in solution) (a ∷ past) a b
        ≤ inp.params.capacity
  solve_region_fits a b past run edge on =
      let ha = ok.src_block a b edge in
      let run' = IsRun-congr inp ok _ _ same_starts a past run in
      let on' = sym (same_starts b (ok.dst_block a b edge)) ∙ on in
      omega (
        arith,
        region_fits_capacity inp one x ok feasible a b past run' edge on',
        spent_congr inp ok _ _ same_placed (starts_in solution) a past run,
        block_cost_congr inp ok _ _ same_placed a ha,
        end_cost_congr inp ok _ _ same_placed (a ∷ past) a b ha,
      )

  -- If the views are consistent, the solver keeps its word and `solve` returns true, then with the
  -- region starts and placements of the solution every region that ends at an exit of the function
  -- takes at most the capacity: its prologue and copies, and its blocks.
  pub solve_last_region_fits :
      (b : NodeId) (past : List NodeId)
      → IsRun inp (starts_in solution) b past
      → Memᴰ b inp.exit_blocks
      → spent inp (placed_in solution) b past + block_cost inp (placed_in solution) b
        ≤ inp.params.capacity
  solve_last_region_fits b past run exit =
      let run' = IsRun-congr inp ok _ _ same_starts b past run in
      omega (
        arith,
        last_region_fits_capacity inp one x ok feasible b past run' exit,
        spent_congr inp ok _ _ same_placed (starts_in solution) b past run,
        block_cost_congr inp ok _ _ same_placed b (ok.exit_block b exit),
      )
