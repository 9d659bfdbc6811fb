-- ===== src/Milp/Region/Safe.antt =====
-- The energy of a region under a feasible assignment.
use native.Mathlib.Nat.{le_of_mul-le-mul_left}
use bao.Prelude.{ℕ, ◌+◌, ◌*◌, ◌≤◌, ◌≡◌, true, List, [], ◌∷◌, Memᴰ, arith}
use bao.Milp.Views.{NodeId, MilpInput}
use bao.Milp.Expr.{Var, e_accum}
use bao.Milp.Region.{
  IsConsistent, IsFeasible, starts, is_placed, block_cost, end_cost, IsRun, spent,
}
use bao.Milp.Region.Feasible.{energy_init, energy_propagation, energy_edge, energy_exit}
use bao.Milp.Region.Costs.{build_e_blk_value, build_e_start_value, build_e_end_value}
use bao.Milp.Region.Dirty.{not_started, started, save_paid}

module _ (inp : MilpInput) (one : ℕ) (x : Var → ℕ) (ok : IsConsistent inp)
    (feasible : IsFeasible inp one x) where
  -- The model's running total covers what the run has spent.
  spent-le-e_accum :
      (cur : NodeId) (past : List NodeId)
      → IsRun inp (starts inp one x) cur past
      → one * spent inp (is_placed inp one x) cur past ≤ x (e_accum cur)
  unfolding spent
  spent-le-e_accum cur [] run =
      let start = started inp one x ok feasible cur run.0 run.1 in
      omega (
        arith,
        energy_init inp one x feasible cur run.0 start,
        build_e_start_value inp one x ok feasible cur run.0 start,
      )
  spent-le-e_accum cur (a ∷ past) (edge, inner, run) =
      let quiet = not_started inp one x ok feasible cur (ok.dst_block a cur edge) inner in
      omega (
        arith,
        spent-le-e_accum a past run,
        energy_propagation inp one x feasible a cur edge quiet,
        build_e_blk_value inp one x ok feasible a (ok.src_block a cur edge),
      )

  -- A region that ends at a checkpoint, its epilogue included, takes at most the capacity.
  pub region_fits_capacity :
      (a b : NodeId) (past : List NodeId)
      → IsRun inp (starts inp one x) a past
      → Memᴰ (a, b) inp.edges
      → starts inp one x b ≡ true
      → spent inp (is_placed inp one x) a past
          + block_cost inp (is_placed inp one x) a
          + end_cost inp (is_placed inp one x) (a ∷ past) a b
        ≤ inp.params.capacity
  region_fits_capacity a b past run edge on =
      let start = started inp one x ok feasible b (ok.dst_block a b edge) on in
      let scaled = feasible.scaled in
      le_of_mul-le-mul_left
        (omega (
          arith,
          spent-le-e_accum a past run,
          energy_edge inp one x feasible a b edge,
          build_e_blk_value inp one x ok feasible a (ok.src_block a b edge),
          build_e_end_value inp one x ok feasible (a ∷ past) a b (ok.not_entry a b edge) start
              (λ v h due. save_paid inp one x ok feasible past a b v run edge start h due),
        ))
        scaled

  -- A region that ends at an exit takes at most the capacity.
  pub last_region_fits_capacity :
      (b : NodeId) (past : List NodeId)
      → IsRun inp (starts inp one x) b past
      → Memᴰ b inp.exit_blocks
      → spent inp (is_placed inp one x) b past + block_cost inp (is_placed inp one x) b
        ≤ inp.params.capacity
  last_region_fits_capacity b past run exit =
      let scaled = feasible.scaled in
      le_of_mul-le-mul_left
        (omega (
          arith,
          spent-le-e_accum b past run,
          energy_exit inp one x feasible b exit,
          build_e_blk_value inp one x ok feasible b (ok.exit_block b exit),
        ))
        scaled
