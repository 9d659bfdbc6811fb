-- ===== src/Milp/Model.antt =====
-- The model that passes/src/milp/CheckpointOptimizer.cpp builds: `addVariables`, `addObjective` and
-- the expressions `buildEBlk`, `buildEStart`, `buildEEnd`. The constraints are in the child.
pub mod Constraints
use bao.Prelude.{
  ℕ, ◌+◌, ◌-◌, ◌*◌, ◌^◌, Bool, true, false, not, ◌&&◌, ◌||◌, List, [], ◌∷◌, ◌++◌, map, flat_map,
  ◌==◌, ltb, if◌then◌else◌, contains,
}
use bao.Milp.Views.{NodeId, Value, MilpInput}
use bao.Milp.Order.{sort_unique}
use bao.Milp.Expr.{
  Var, region_start, place, place_global, need_restore, dirty, save, e_accum, LinExpr, constant,
  term, ◌plus◌, ◌minus◌, scale,
}
use bao.Milp.Graph.{build_predecessor_map, compute_reachable_defs}

abbrev pub invalid_node_id : NodeId
invalid_node_id = 2 ^ 32 - 1

-- Keep the elements that pass a test.
unfoldable pub keep_if : (Value → Bool) → List Value → List Value
keep_if test [] = []
keep_if test (v ∷ vs) = let rest = keep_if test vs in if test v then v ∷ rest else rest

module _ (inp : MilpInput) where
  abbrev pub ordered_vm_objs : List Value
  ordered_vm_objs = sort_unique inp.key_lt inp.vm_objs

  abbrev pub ordered_tracked_values : List Value
  ordered_tracked_values = sort_unique inp.key_lt (ordered_vm_objs ++ inp.ineligible_objs)

  abbrev pub collect_sorted_live_in_values : NodeId → List Value
  collect_sorted_live_in_values b =
      sort_unique inp.key_lt (inp.elig_live_in b ++ inp.inelig_live_in b)

  abbrev pub predecessors : NodeId → List NodeId
  predecessors = build_predecessor_map inp.edges

  -- `d_.count({b, v})`
  unfoldable pub has_dirty : NodeId → Value → Bool
  has_dirty b v =
      contains inp.blocks b
      && (contains ordered_tracked_values v && contains (compute_reachable_defs inp v) b)

  -- Some predecessor has a dirty variable.
  unfoldable pub any_dirty : List NodeId → Value → Bool
  any_dirty [] v = false
  any_dirty (b ∷ bs) v = has_dirty b v || any_dirty bs v

  -- rHatKeys_ and sKeys_, by block
  abbrev pub need_restore_values : NodeId → List Value
  need_restore_values b = sort_unique inp.key_lt (inp.elig_live_in b)

  unfoldable pub save_values : NodeId → List Value
  unfolding any_dirty keep_if
  save_values b =
      if b == inp.entry_block
      then []
      else keep_if (λ v. any_dirty (predecessors b) v) (collect_sorted_live_in_values b)

  -- `mGlobal_.at(v)` or `m_.at({b, v})`
  abbrev pub placement : NodeId → Value → Var
  placement b v = if inp.coarse_allocation then place_global v else place b v

-- `GRB_BINARY` or `GRB_CONTINUOUS`; the lower bound is 0.
pub data VarKind : Type 0 where
  binary continuous : VarKind

pub record VarDecl : Type 0 where
  pub var : Var
  pub kind : VarKind
  pub upper : ℕ

module _ (inp : MilpInput) where
  abbrev pub global_vars : List VarDecl
  global_vars =
      if inp.coarse_allocation
      then map (λ v. record { var = place_global v; kind = binary; upper = 1 })
          (ordered_vm_objs inp)
      else []

  abbrev pub block_vars : NodeId → Value → List VarDecl
  block_vars b v =
      (if not inp.coarse_allocation && not (inp.is_ineligible v)
        then record { var = place b v; kind = binary; upper = 1 } ∷ []
        else [])
      ++ (if contains (compute_reachable_defs inp v) b
          then record { var = dirty b v; kind = continuous; upper = 1 } ∷ []
          else [])

  -- In the source's order. Names and log output are left out.
  unfoldable pub add_variables : List VarDecl
  add_variables =
      map (λ b. record { var = region_start b; kind = binary; upper = 1 }) inp.blocks
      ++ (global_vars
          ++ (flat_map (λ b. flat_map (block_vars b) (ordered_tracked_values inp)) inp.blocks
              ++ (flat_map
                    (λ b.
                      map (λ v. record { var = need_restore b v; kind = continuous; upper = 1 })
                        (need_restore_values inp b))
                    inp.blocks
                  ++ (flat_map
                        (λ b.
                          map (λ v. record { var = save b v; kind = continuous; upper = 1 })
                            (save_values inp b))
                        inp.blocks
                      ++ map
                          (λ b. record {
                            var = e_accum b;
                            kind = continuous;
                            upper = inp.params.capacity;
                          })
                          inp.blocks))))

  -- E_blk(b) = E_base + Σ_v E_nvm (1 - m)
  unfoldable pub e_blk_over : NodeId → LinExpr → List Value → LinExpr
  e_blk_over b expr [] = expr
  e_blk_over b expr (gv ∷ gvs) =
      let e_nvm = inp.e_nvm b gv in
      e_blk_over b
        (if e_nvm == 0
          then expr
          else expr plus constant e_nvm minus term e_nvm (placement inp b gv))
        gvs

  unfoldable pub build_e_blk : NodeId → LinExpr
  unfolding e_blk_over
  build_e_blk b = e_blk_over b (constant (inp.e_base b)) (ordered_vm_objs inp)

  -- `expr += cost(v) * x(v)` over the values with a positive cost
  unfoldable pub add_costs : (Value → ℕ) → (Value → Var) → LinExpr → List Value → LinExpr
  add_costs cost x expr [] = expr
  add_costs cost x expr (v ∷ vs) =
      add_costs cost x (if ltb 0 (cost v) then expr plus term (cost v) (x v) else expr) vs

  -- E_start(b) = E_pro r + Σ_v E_rst rHat. For ineligible values rHat is r.
  unfoldable pub build_e_start : NodeId → LinExpr
  unfolding add_costs
  build_e_start b =
      add_costs inp.e_restore (λ v. region_start b)
        (add_costs inp.e_restore (need_restore b) (term inp.params.e_pro (region_start b))
          (need_restore_values inp b))
        (sort_unique inp.key_lt (inp.inelig_live_in b))

  -- E_end(b) = E_epi r + Σ_v E_sv s
  unfoldable pub build_e_end : NodeId → LinExpr
  unfolding add_costs
  build_e_end b =
      add_costs inp.e_save (save b) (term inp.params.e_epi (region_start b)) (save_values inp b)

  -- Term 1 of the objective, for one block: the penalty of values left in non-volatile memory.
  penalty_over : NodeId → LinExpr → List Value → LinExpr
  penalty_over b expr [] = expr
  penalty_over b expr (gv ∷ gvs) =
      let cost = inp.f_entry b * inp.e_nvm b gv in
      penalty_over b
        (if inp.e_nvm b gv == 0
          then expr
          else expr plus constant cost minus term cost (placement inp b gv))
        gvs

  add_penalties : LinExpr → List NodeId → LinExpr
  unfolding penalty_over
  add_penalties expr [] = expr
  add_penalties expr (b ∷ bs) = add_penalties (penalty_over b expr (ordered_vm_objs inp)) bs

  add_start_costs : LinExpr → List NodeId → LinExpr
  add_start_costs expr [] = expr
  add_start_costs expr (b ∷ bs) =
      add_start_costs (expr plus scale (inp.f_boundary b) (build_e_start b)) bs

  add_end_costs : LinExpr → List NodeId → LinExpr
  add_end_costs expr [] = expr
  add_end_costs expr (b ∷ bs) =
      add_end_costs
        (if b == inp.entry_block then expr else expr plus scale (inp.f_boundary b) (build_e_end b))
        bs

  -- The objective, to be minimised.
  unfoldable pub add_objective : LinExpr
  unfolding add_penalties add_start_costs add_end_costs
  add_objective =
      add_end_costs (add_start_costs (add_penalties (constant 0) inp.blocks) inp.blocks) inp.blocks
