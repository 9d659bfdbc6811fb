-- ===== src/Milp/Solve/Laws.antt =====
-- What a result of `solve` means.
use mathlib.Core.List.Memᴰ
use mathlib.Core.Bool.{false≢true}
use bao.Prelude.{
  ℕ, ◌<◌, ◌≡◌, refl, sym, ◌∙◌, ◌⊎◌, inl, inr, ◌↔◌, Bool, true, ◌&&◌, ==_iff, Option-cases,
  Bool-cases, some, List, [], ◌∷◌, Memᴰ, contains, mem→contains, contains→mem, arith,
}
use bao.Milp.Views.{NodeId, Value, MilpInput}
use bao.Milp.Order.{mem-sort_unique, mem-of_sort_unique}
use bao.Milp.Expr.{Var, region_start}
use bao.Milp.Model.{ordered_vm_objs, ordered_tracked_values}
use bao.Milp.Region.{IsConsistent, is_set, starts, is_placed}
use bao.Milp.Solve.{
  select, no_failure, MilpSolution, Outcome, Gurobi, Optimizer, grb_optimal, extract_solution,
  solve,
}

module _ (inp : MilpInput) (grb : Gurobi) (o : Optimizer) where
  abbrev result : Optimizer
  result = (solve inp grb o).1

  -- `solve` reports a failure exactly when it returns false.
  pub solve-failure_iff : ((solve inp grb o).0 ≡ true) ↔ (result.solve_failure ≡ no_failure)
  unfolding solve
  solve-failure_iff = (ground arith, ground arith)

  -- Where `solve` returns true, Gurobi ran, proved optimality or was allowed a feasible incumbent,
  -- and the solution is the one extracted from its values.
  pub record IsAccepted (out : Outcome) (old : MilpSolution) (s : MilpSolution) : Type 0 where
    pub ran : grb.run ≡ some out
    pub proven : (out.status ≡ grb_optimal) ⊎ (o.accept_feasible ≡ true) × (0 < out.sol_count)
    pub starts_at : s.r ≡ (extract_solution inp out.one out.values out.obj_val old).r
    pub placed_at : s.m ≡ (extract_solution inp out.one out.values out.obj_val old).m

  pub solve-IsAccepted :
      (solve inp grb o).0 ≡ true → (out : Outcome) × IsAccepted out o.solution result.solution
  unfolding solve
  solve-IsAccepted h = elim (Option-cases grb.run) [
    | inl fails ↦ ground arith
    | inr (out, ran) ↦ (
      out,
      record {
        ran = ran;
        proven = ground arith;
        starts_at = ground arith;
        placed_at = ground arith;
      },
    )
  ]

module _ (test : NodeId → Bool) where
  contains-select :
      (bs : List NodeId) (b : NodeId) → contains (select test bs) b ≡ (contains bs b && test b)
  unfolding select contains
  contains-select [] b = refl
  contains-select (c ∷ cs) b = ground (arith, contains-select cs b, ==_iff b c)

module _ (inp : MilpInput) (ok : IsConsistent inp) (one : ℕ) (x : Var → ℕ) where
  pub extract-starts :
      (obj : ℕ) (old : MilpSolution) (b : NodeId)
      → Memᴰ b inp.blocks
      → contains (extract_solution inp one x obj old).r b ≡ starts inp one x b
  unfolding extract_solution
  extract-starts obj old b hb = rw (
    contains-select (λ c. is_set one x (region_start c)) inp.blocks b,
    mem→contains inp.blocks b hb,
  )

  pub extract-placed :
      (obj : ℕ) (old : MilpSolution) (b : NodeId) (v : Value)
      → Memᴰ b inp.blocks
      → Memᴰ v (ordered_vm_objs inp) ⊎ Memᴰ v inp.ineligible_objs
      → (extract_solution inp one x obj old).m b v ≡ some (is_placed inp one x b v)
  unfolding extract_solution
  extract-placed obj old b v hb (inl obj_v) =
      let elig = ok.elig v (mem-of_sort_unique inp.key_lt v inp.vm_objs obj_v) in
      let in_blocks = mem→contains inp.blocks b hb in
      let in_objs = mem→contains (ordered_vm_objs inp) v obj_v in
      let in_tracked =
        mem→contains (ordered_tracked_values inp) v
          (mem-sort_unique inp.key_lt v _ (Memᴰ.append_left inp.ineligible_objs obj_v)) in
      elim (Bool-cases (contains inp.ineligible_objs v)) [
        | inl clash ↦
            absurd (false≢true (sym elig ∙ ok.inelig v (contains→mem inp.ineligible_objs v clash)))
        | inr outside ↦ elim (Bool-cases inp.coarse_allocation) [
          | inl coarse ↦ rw (in_blocks, outside, coarse, in_objs, elig)
          | inr fine ↦ rw (in_blocks, outside, fine, in_tracked, elig)
        ]
      ]
  extract-placed obj old b v hb (inr inelig) =
      rw (
        mem→contains inp.blocks b hb,
        mem→contains inp.ineligible_objs v inelig,
        ok.inelig v inelig,
      )
