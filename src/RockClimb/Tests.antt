-- ===== src/RockClimb/Tests.antt =====
-- Tests of the model of passes/rockclimb-backend, and the results at concrete inputs.
use mathlib.Core.List.Memᴰ
use mathlib.Core.Path.{subst}
use mathlib.Core.Bool.{false≢true}
use mathlib.Core.Option.{some-injective}
use bao.Prelude.{
  ℕ, zero, suc, ◌+◌, ◌*◌, ◌<◌, ◌≡◌, ◌≢◌, ◌↔◌, refl, sym, ◌∙◌, ap, inl, inr, Bool, true, false,
  Option, none, some, List, [], ◌∷◌, ◌==◌, flat_map, contains, insert, insert_all, get_elem?,
  if◌then◌else◌, Bool-cases, contains→mem, All, length, Memᴰ, sum_map, arith,
}
use bao.RockClimb.Machine.{
  BlockId, Reg, register, MachineOperand, MachineInstr, loop, no_loops, and_loop, MachineFunction,
  HasSuccessors, Target,
}
use bao.RockClimb.Liveness.{
  is_reg_live_from_block, live_walk, push_succs, scan_block_for_reg, compute_bulk_live_in,
  live_in_rounds, live_in_round, add_undefined, live_out, union_live_ins, use_def_block,
  use_def_operands, use_def_operand, checkpointed_reg,
}
use bao.RockClimb.Liveness.Paths.{IsLiveFrom, is_reg_live_from_block_iff}
use bao.RockClimb.Liveness.BulkPaths
use bao.RockClimb.Liveness.BulkPaths.{IsBulkLive, compute_bulk_live_in_iff}
use bao.RockClimb.Partition.{
  MachineRockClimbResult, topo_order, unvisited, partition_regions, partition_order,
  partition_blocks, accumulate, with_mandatory, is_mandatory, identify_loop_headers,
  headers_of_loops, headers_of_queue, count_loop, identify_exit_blocks, exits_among,
  retreating_targets, retreating_over, retreating_of, rpo_index, index_from, result_of,
  form_regions, finish_region,
}
use bao.RockClimb.Partition.Safe.{
  IsTraversal, NoRestart, partition_regions_fits, partition_regions_recharges,
}
use bao.RockClimb.Partition.Errors.{first_over, partition_regions-first_over}
use bao.RockClimb.Partition.Headers.{IsHeaderAmong, identify_loop_headers_iff}
use bao.RockClimb.Partition.Marks.{partition_regions_marks}
use bao.RockClimb.Partition.Regions.{IsRegion}
use bao.RockClimb.Partition.Tiles.{partition_regions_tiles}
use bao.RockClimb.Optimizer.{
  optimize, energy_costs, saves_of, count_saves, has_clobbering_call, is_clobbering_call,
  call_may_clobber_nvm_regs, defined_regs, defined_operands,
}
use bao.RockClimb.Optimizer.Fits.{IsLiveOut, MayNeedSave, AreSaves, optimize_fits, optimize_returns}

-- A loop of two blocks between the first block and the return.
abbrev succs : BlockId → List BlockId
succs zero = 1 ∷ []
succs (suc zero) = 2 ∷ 3 ∷ []
succs (suc (suc zero)) = 1 ∷ []
succs (suc (suc (suc n))) = []

abbrev preds : BlockId → List BlockId
preds zero = []
preds (suc zero) = 0 ∷ 2 ∷ []
preds (suc (suc zero)) = 1 ∷ []
preds (suc (suc (suc n))) = 1 ∷ []

abbrev reading : Reg → MachineOperand
reading r = record { kind = register r; is_physical = true; is_def = false; is_undef = false }

abbrev writing : Reg → MachineOperand
writing r = record { kind = register r; is_physical = true; is_def = true; is_undef = false }

abbrev plain : ℕ → List MachineOperand → MachineInstr
plain n os = record { id = n; operands = os; is_call = false; is_terminator = false }

-- The first block writes register 12, the return reads it.
abbrev code : BlockId → List MachineInstr
code zero = plain 0 (writing 12 ∷ []) ∷ []
code (suc zero) = []
code (suc (suc zero)) = []
code (suc (suc (suc n))) = plain 1 (reading 12 ∷ []) ∷ []

abbrev looping : MachineFunction
looping = record {
  blocks = 0 ∷ 1 ∷ 2 ∷ 3 ∷ [];
  instrs = code;
  successors = succs;
  predecessors = preds;
  is_return_block = λ b. b == 3;
  is_main = false;
  loops = and_loop (loop (some 1) no_loops) no_loops;
  reverse_post_order = 0 ∷ 1 ∷ 2 ∷ 3 ∷ [];
  estimate_block = λ b. 3;
}

abbrev target : Target
target = record { regs_overlap = λ a b. a == b; is_reserved = λ r. false; r4 = 4 }

abbrev three : BlockId → ℕ
three b = 3

boundaries_of_looping : (partition_regions looping three 7).region_boundaries ≡ 0 ∷ 1 ∷ 3 ∷ []
unfolding partition_regions partition_order partition_blocks accumulate with_mandatory is_mandatory
    identify_loop_headers headers_of_loops headers_of_queue count_loop identify_exit_blocks
    exits_among retreating_targets retreating_over retreating_of rpo_index index_from result_of
    form_regions finish_region insert contains topo_order unvisited
boundaries_of_looping = refl

looping_feasible : (partition_regions looping three 7).infeasible_block ≡ none
unfolding partition_regions partition_order partition_blocks accumulate with_mandatory is_mandatory
    identify_loop_headers headers_of_loops headers_of_queue count_loop identify_exit_blocks
    exits_among retreating_targets retreating_over retreating_of rpo_index index_from result_of
    form_regions finish_region insert contains topo_order unvisited
looping_feasible = refl

live_at_start : is_reg_live_from_block target looping 1 12 ≡ true
unfolding is_reg_live_from_block live_walk push_succs scan_block_for_reg contains
live_at_start = refl

-- An instruction that reads what it writes, as LLVM lists it: the definition first.
abbrev tied : MachineFunction
tied = record looping { instrs = λ b. plain 0 (writing 12 ∷ reading 12 ∷ []) ∷ [] }

tied_live : is_reg_live_from_block target tied 1 12 ≡ true
unfolding is_reg_live_from_block live_walk push_succs scan_block_for_reg contains
tied_live = refl

abbrev set_at : BlockId → Option (BlockId → List Reg) → List Reg
set_at b none = []
set_at b (some live_in) = live_in b

-- The bulk analysis does not find the register of the tied operands.
tied_not_bulk_live : set_at 1 (compute_bulk_live_in target tied) ≡ []
unfolding compute_bulk_live_in live_in_rounds live_in_round add_undefined live_out union_live_ins
    use_def_block use_def_operands use_def_operand checkpointed_reg insert insert_all contains
tied_not_bulk_live = refl

-- The first block of the program's entry function is a loop header and no boundary.
spinning_boundaries :
    (partition_regions
      record looping {
        is_main = true;
        successors = λ b. 0 ∷ [];
        is_return_block = λ b. false;
        blocks = 0 ∷ [];
        reverse_post_order = 0 ∷ [];
        loops = and_loop (loop (some 0) no_loops) no_loops;
      }
      three
      7).region_boundaries
    ≡ []
unfolding partition_regions partition_order partition_blocks accumulate with_mandatory is_mandatory
    identify_loop_headers headers_of_loops headers_of_queue count_loop identify_exit_blocks
    exits_among retreating_targets retreating_over retreating_of rpo_index index_from result_of
    form_regions finish_region insert contains topo_order unvisited
spinning_boundaries = refl

abbrev all_in : List ℕ → List ℕ → Bool
unfolding contains
all_in [] ys = true
all_in (x ∷ xs) ys = if contains ys x then all_in xs ys else false

mem-all_in : (xs ys : List ℕ) (c : ℕ) → all_in xs ys ≡ true → Memᴰ c xs → Memᴰ c ys
unfolding all_in
mem-all_in [] ys c h m = absurd (Memᴰ.not-nil m)
mem-all_in (x ∷ xs) ys c h m = elim (Bool-cases (contains ys x)) [
  | inl e ↦ elim (Memᴰ.cases_cons m) [
    | inl q ↦ contains→mem ys c (ap (contains ys) q ∙ e)
    | inr k ↦ mem-all_in xs ys c (rw (e, all_in) at h) k
  ]
  | inr n ↦ absurd (false≢true (rw (n, all_in) at h))
]

looping-HasSuccessors : HasSuccessors looping
unfolding all_in contains
looping-HasSuccessors zero c m k = mem-all_in (1 ∷ []) looping.blocks c refl k
looping-HasSuccessors (suc zero) c m k = mem-all_in (2 ∷ 3 ∷ []) looping.blocks c refl k
looping-HasSuccessors (suc (suc zero)) c m k = mem-all_in (1 ∷ []) looping.blocks c refl k
looping-HasSuccessors (suc (suc (suc n))) c m k = absurd (Memᴰ.not-nil k)

looping-IsTraversal : IsTraversal looping
looping-IsTraversal = record { closed = looping-HasSuccessors }

-- No path of a function that is not the program's entry function restarts it.
looping-NoRestart : (p : List BlockId) → NoRestart looping p
looping-NoRestart [] = tt
looping-NoRestart (c ∷ p) = (λ main. absurd (false≢true main), looping-NoRestart p)

partition_regions_fits_example : sum_map three (1 ∷ 2 ∷ []) < 7
unfolding contains
partition_regions_fits_example =
    partition_regions_fits looping three 7 looping-IsTraversal 1 (2 ∷ []) looping_feasible
      (Memᴰ.tail (Memᴰ.head refl)) (Memᴰ.head refl, tt) (looping-NoRestart (2 ∷ []))
      (rw boundaries_of_looping (refl, tt))

partition_regions_recharges_example :
    (c : BlockId) × Memᴰ c (2 ∷ 1 ∷ 2 ∷ 1 ∷ [])
    × (contains (partition_regions looping three 7).region_boundaries c ≡ true)
partition_regions_recharges_example =
    partition_regions_recharges looping three 7 looping-IsTraversal 1 (2 ∷ 1 ∷ 2 ∷ 1 ∷ [])
      looping_feasible (Memᴰ.tail (Memᴰ.head refl))
      (Memᴰ.head refl, (Memᴰ.head refl, (Memᴰ.head refl, (Memᴰ.head refl, tt))))
      (looping-NoRestart (2 ∷ 1 ∷ 2 ∷ 1 ∷ [])) (omega arith)

partition_regions-first_over_example :
    (partition_regions looping (λ b. if b == 2 then 9 else 3) 7).infeasible_block
    ≡ first_over (λ b. if b == 2 then 9 else 3) 7 (topo_order looping)
partition_regions-first_over_example =
    partition_regions-first_over looping (λ b. if b == 2 then 9 else 3) 7

identify_loop_headers_iff_example :
    (contains (identify_loop_headers looping) 1 ≡ true) ↔ IsHeaderAmong 1 looping.loops
identify_loop_headers_iff_example = identify_loop_headers_iff looping 1

third_in_order : Memᴰ 3 (topo_order looping)
unfolding topo_order unvisited contains
third_in_order = Memᴰ.tail (Memᴰ.tail (Memᴰ.tail (Memᴰ.head refl)))

third_not_first : get_elem? (topo_order looping) 0 ≢ some 3
unfolding topo_order
third_not_first e = absurd (omega (arith, some-injective 0 3 e))

zero_first : get_elem? (topo_order looping) 0 ≡ some 0
unfolding topo_order
zero_first = refl

partition_regions_marks_example :
    contains (partition_regions looping three 7).region_boundaries 3 ≡ true
partition_regions_marks_example =
    partition_regions_marks looping three 7 3 looping_feasible third_in_order
      (inr (third_not_first, inr (Memᴰ.tail (Memᴰ.tail (Memᴰ.tail (Memᴰ.head refl))), refl)))

partition_regions_tiles_example :
    (flat_map (λ g. g.blocks) (partition_regions looping three 7).regions ≡ topo_order looping)
    × All
        (IsRegion three 0 (partition_regions looping three 7).region_boundaries)
        (partition_regions looping three 7).regions
partition_regions_tiles_example =
    partition_regions_tiles looping three 7 0 looping_feasible zero_first

is_reg_live_from_block_iff_example :
    (is_reg_live_from_block target looping 1 12 ≡ true) ↔ IsLiveFrom target looping 12 1
is_reg_live_from_block_iff_example =
    is_reg_live_from_block_iff target looping 12 looping-HasSuccessors 1
      (Memᴰ.tail (Memᴰ.head refl))

compute_bulk_live_in_iff_example :
    (live_in : BlockId → List Reg) × (compute_bulk_live_in target looping ≡ some live_in)
    × ((contains (live_in 1) 12 ≡ true) ↔ IsBulkLive target looping 12 1)
compute_bulk_live_in_iff_example =
    compute_bulk_live_in_iff target looping looping-HasSuccessors 1 12 (Memᴰ.tail (Memᴰ.head refl))

optimize_returns_example :
    (result : MachineRockClimbResult) × (optimize target looping 7 1 ≡ some result)
optimize_returns_example = optimize_returns target looping 7 1 looping-HasSuccessors

-- The second block writes register 12, which the return reads.
abbrev saving : MachineFunction
saving = record looping {
  instrs = λ b.
      if b == 1
      then plain 0 (writing 12 ∷ []) ∷ []
      else (if b == 3 then plain 1 (reading 12 ∷ []) ∷ [] else []);
}

abbrev saving_cost : BlockId → ℕ
saving_cost b =
    if contains saving.blocks b
    then saving.estimate_block b
      + saves_of target saving (λ c. set_at c (compute_bulk_live_in target saving)) b * 1
    else 0

saving_feasible : (partition_regions saving saving_cost 9).infeasible_block ≡ none
unfolding partition_regions partition_order partition_blocks accumulate with_mandatory is_mandatory
    identify_loop_headers headers_of_loops headers_of_queue count_loop identify_exit_blocks
    exits_among retreating_targets retreating_over retreating_of rpo_index index_from result_of
    form_regions finish_region insert contains topo_order unvisited compute_bulk_live_in
    live_in_rounds live_in_round add_undefined live_out union_live_ins use_def_block
    use_def_operands use_def_operand checkpointed_reg insert_all saves_of count_saves
    has_clobbering_call is_clobbering_call call_may_clobber_nvm_regs defined_regs defined_operands
saving_feasible = refl

saving_boundaries : (partition_regions saving saving_cost 9).region_boundaries ≡ 0 ∷ 1 ∷ 3 ∷ []
unfolding partition_regions partition_order partition_blocks accumulate with_mandatory is_mandatory
    identify_loop_headers headers_of_loops headers_of_queue count_loop identify_exit_blocks
    exits_among retreating_targets retreating_over retreating_of rpo_index index_from result_of
    form_regions finish_region insert contains topo_order unvisited compute_bulk_live_in
    live_in_rounds live_in_round add_undefined live_out union_live_ins use_def_block
    use_def_operands use_def_operand checkpointed_reg insert_all saves_of count_saves
    has_clobbering_call is_clobbering_call call_may_clobber_nvm_regs defined_regs defined_operands
saving_boundaries = refl

runs : optimize target saving 9 1 ≡ some (partition_regions saving saving_cost 9)
unfolding optimize energy_costs compute_bulk_live_in live_in_rounds live_in_round add_undefined
    live_out union_live_ins use_def_block use_def_operands use_def_operand checkpointed_reg insert
    insert_all contains
runs = refl

abbrev one_save : BlockId → List Reg
one_save b = if b == 1 then 12 ∷ [] else []

one_save-AreSaves : (x : BlockId) → Memᴰ x (1 ∷ 2 ∷ []) → AreSaves target saving 9 1 x (one_save x)
unfolding checkpointed_reg flat_map
one_save-AreSaves x m = elim (Memᴰ.cases_cons m) [
  | inl e ↦
      subst (λ y. AreSaves target saving 9 1 y (one_save y)) (sym e)
        (
          (Memᴰ.not-nil, tt),
          λ r k.
              subst (λ q. IsLiveOut target saving 9 1 1 q × MayNeedSave target saving 9 1 1 q)
                (sym (Memᴰ.eq_of_singleton k))
                (
                  (
                    3,
                    Memᴰ.tail (Memᴰ.head refl),
                    BulkPaths.used 3 (BulkPaths.uses_now (reading 12) [] (refl, refl, refl)),
                  ),
                  inr (writing 12, Memᴰ.head refl, (refl, refl)),
                ),
        )
  | inr k ↦
      subst (λ y. AreSaves target saving 9 1 y (one_save y)) (sym (Memᴰ.eq_of_singleton k))
        (tt, λ r j. absurd (Memᴰ.not-nil j))
]

optimize_fits_example :
    sum_map (λ x. saving.estimate_block x + length (one_save x) * 1) (1 ∷ 2 ∷ []) < 9
unfolding contains
optimize_fits_example =
    optimize_fits target saving 9 1 (partition_regions saving saving_cost 9) 1 (2 ∷ []) one_save
      looping-HasSuccessors (record { closed = looping-HasSuccessors }) (λ b m. m) runs
      saving_feasible (Memᴰ.tail (Memᴰ.head refl)) (Memᴰ.head refl, tt)
      ((λ main. absurd (false≢true main)), tt) (rw saving_boundaries (refl, tt)) one_save-AreSaves
