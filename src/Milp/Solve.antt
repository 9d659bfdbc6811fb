-- ===== src/Milp/Solve.antt =====
-- `solve`, `ensureModelBuilt`, `getInfeasibleBlocks` and `extractSolution` of
-- passes/src/milp/CheckpointOptimizer.cpp. The solver is a parameter: what one run of it reports.
-- Log output, the written model files and the problem-size statistics are left out.
pub mod Laws
pub mod Safe
pub mod Placement
use bao.Prelude.{
  ℕ, Bool, true, false, not, ◌&&◌, ◌||◌, Option, none, some, List, [], ◌∷◌, ◌==◌, ltb,
  if◌then◌else◌, contains,
}
use bao.Milp.Views.{NodeId, Value, MilpInput}
use bao.Milp.Order.{sort_unique}
use bao.Milp.Expr.{Var, region_start, place, place_global, need_restore, save, e_accum}
use bao.Milp.Model.{ordered_vm_objs, ordered_tracked_values, need_restore_values, save_values}
use bao.Milp.Region.{is_set}

pub data SolverStatus : Type 0 where
  optimal feasible : SolverStatus

pub data SolveFailure : Type 0 where
  no_failure blocks_exceed_capacity proven_infeasible time_limit_no_solution : SolveFailure
  feasible_not_accepted solver_error : SolveFailure

-- The maps of the source: `none` where a key has no entry.
pub record MilpSolution : Type 0 where
  pub r : List NodeId
  pub m : NodeId → Value → Option Bool
  pub r_hat : NodeId → Value → Option Bool
  pub s : NodeId → Value → Option Bool
  pub e_accum_at : NodeId → Option ℕ
  pub objective_value : ℕ
  pub solver_status : SolverStatus
  pub mip_gap : ℕ

-- `GRB_OPTIMAL`, `GRB_INFEASIBLE`, `GRB_TIME_LIMIT`, or any other status
pub data GurobiStatus : Type 0 where
  grb_optimal grb_infeasible grb_time_limit grb_other : GurobiStatus

-- What the model reports after `optimize`. `values` counts in units of 1 / `one`.
pub record Outcome : Type 0 where
  pub status : GurobiStatus
  pub sol_count : ℕ
  pub gap : ℕ
  pub one : ℕ
  pub values : Var → ℕ
  pub obj_val : ℕ
  pub iis_throws : Bool

-- `builds` is false and `run` is `none` where Gurobi throws.
pub record Gurobi : Type 0 where
  pub builds : Bool
  pub run : Option Outcome

pub record Optimizer : Type 0 where
  pub solve_failure : SolveFailure
  pub solved : Bool
  pub model_built : Bool
  pub gurobi_failed : Bool
  pub accept_feasible : Bool
  pub solution : MilpSolution

pub select : (NodeId → Bool) → List NodeId → List NodeId
select test [] = []
select test (b ∷ bs) = let rest = select test bs in if test b then b ∷ rest else rest

module _ (inp : MilpInput) where
  -- The blocks whose base energy exceeds the capacity.
  unfoldable pub get_infeasible_blocks : List NodeId
  unfolding select
  get_infeasible_blocks = select (λ b. ltb inp.params.capacity (inp.block_energy_cost b)) inp.blocks

  unfoldable pub ensure_model_built : Gurobi → Optimizer → Bool × Optimizer
  ensure_model_built grb o =
      if o.model_built
      then (true, o)
      else if o.gurobi_failed
      then (false, o)
      else if grb.builds
      then (true, record o { model_built = true })
      else (false, record o { gurobi_failed = true })

  module _ (one : ℕ) (x : Var → ℕ) where
    abbrev is_one : Var → Bool
    is_one = is_set one x

    extract_placement : NodeId → Value → Option Bool
    extract_placement b v =
        if contains inp.blocks b && contains inp.ineligible_objs v
        then some true
        else if inp.coarse_allocation
        then (if contains (ordered_vm_objs inp) v && contains inp.blocks b
            then some (is_one (place_global v))
            else none)
        else if contains inp.blocks b
            && (contains (ordered_tracked_values inp) v && not (inp.is_ineligible v))
        then some (is_one (place b v))
        else none

    -- The ineligible entries are written last.
    extract_restore : NodeId → Value → Option Bool
    extract_restore b v =
        if contains inp.blocks b && contains (inp.inelig_live_in b) v
        then some (is_one (region_start b))
        else if contains inp.blocks b && contains (need_restore_values inp b) v
        then some (is_one (need_restore b v))
        else none

    extract_save : NodeId → Value → Option Bool
    extract_save b v =
        if contains inp.blocks b && contains (save_values inp b) v
        then some (is_one (save b v))
        else none

    -- The status and the gap stay as they were.
    unfoldable pub extract_solution : ℕ → MilpSolution → MilpSolution
    unfolding select extract_placement extract_restore extract_save
    extract_solution obj_val old = record old {
      r = select (λ b. is_one (region_start b)) inp.blocks;
      m = extract_placement;
      r_hat = extract_restore;
      s = extract_save;
      e_accum_at = λ b. if contains inp.blocks b then some (x (e_accum b)) else none;
      objective_value = obj_val;
    }

  abbrev fail : SolveFailure → Optimizer → Bool × Optimizer
  fail why o = (false, record o { solve_failure = why })

  -- After `optimize` returned.
  accept_outcome : Outcome → Optimizer → Bool × Optimizer
  unfolding extract_solution
  accept_outcome out o =
      let extracted = extract_solution out.one out.values out.obj_val o.solution in
      let taken : Bool × Optimizer = (
        true,
        record o { solution = record extracted { solver_status = feasible; mip_gap = out.gap } },
      ) in
      let refused : Bool × Optimizer = elim out.status [
        | grb_infeasible ↦ fail proven_infeasible o
        | grb_time_limit ↦
            if ltb 0 out.sol_count
            then fail feasible_not_accepted o
            else fail time_limit_no_solution o
        | _ ↦ if ltb 0 out.sol_count then fail feasible_not_accepted o else fail solver_error o
      ] in
      let unproven : Bool × Optimizer =
        if o.accept_feasible && ltb 0 out.sol_count then taken else refused in
      elim out.status [
        | grb_optimal ↦ (true, record o { solution = record extracted { solver_status = optimal } })
        | grb_infeasible ↦ if out.iis_throws then fail solver_error o else unproven
        | _ ↦ unproven
      ]

  run_solver : Gurobi → Optimizer → Bool × Optimizer
  unfolding accept_outcome
  run_solver grb o = elim grb.run [
    | none ↦ fail solver_error o
    | some out ↦ accept_outcome out (record o { solved = true })
  ]

  unfoldable pub solve : Gurobi → Optimizer → Bool × Optimizer
  unfolding get_infeasible_blocks ensure_model_built run_solver
  solve grb o =
      let o' = record o { solve_failure = no_failure } in
      elim get_infeasible_blocks [
        | _ ∷ _ ↦ fail blocks_exceed_capacity o'
        | [] ↦
            let (built, o'') = ensure_model_built grb o' in
            if built then run_solver grb o'' else fail solver_error o''
      ]
