-- ===== src/RockClimb/Distributed/Tests.antt =====
-- Tests of the model of passes/rockclimb-backend/MachineDistributedCheckpointing.cpp, and the results
-- at concrete inputs.
use mathlib.Core.List.Memᴰ
use bao.Prelude.{
  ℕ, zero, suc, ◌-◌, ◌≡◌, ◌↔◌, refl, ◌⊎◌, inl, inr, true, false, some, List, [], ◌∷◌, ◌==◌,
  contains, insert, if◌then◌else◌, Memᴰ,
}
use bao.RockClimb.Machine.{
  BlockId, register, MachineOperand, MachineInstr, no_loops, MachineFunction, HasSuccessors, Target,
}
use bao.RockClimb.Liveness.{is_reg_live_from_block, live_walk, push_succs, scan_block_for_reg}
use bao.RockClimb.Partition.{MachineRegionInfo}
use bao.RockClimb.Optimizer.{call_may_clobber_nvm_regs, is_clobbering_call}
use bao.RockClimb.Distributed.{
  MachineCheckpointPoint, is_checkpointable_reg, normalize_to_gpr16, assign_reg_id, is_def_like,
  reverse_transfer_instr, reverse_transfer_block, need_out, new_need_in, need_round, need_rounds,
  need_fixpoint, emit_saves, find_last_reaching_defs, push_preds, pred_walk, pred_block_set,
  defined_gpr, defs_of_operands, defs_of_block, defs_in_preds, save_regs, save_regions, is_seen,
  unique_from, analyze,
}
use bao.RockClimb.Distributed.Saves.{here, later, IsLastReaching, find_last_reaching_defs_iff}
use bao.RockClimb.Distributed.Backward.{HasPredecessors, Precedes, direct, pred_block_set_iff}
use bao.RockClimb.Distributed.Analysis.{IsSaveIn}
use bao.RockClimb.Distributed.Wanted.{IsBefore, arrived, IsWanted}
use bao.RockClimb.Liveness.Paths.{reads_now, used}
use bao.RockClimb.Distributed.Result.{
  IsTwin, starts, analyze_returns, analyze_wanted, analyze_covers,
}

abbrev writing : MachineOperand
writing = record { kind = register 12; is_physical = true; is_def = true; is_undef = false }

abbrev reading : MachineOperand
reading = record { kind = register 12; is_physical = true; is_def = false; is_undef = false }

abbrev write : ℕ → MachineInstr
write n = record { id = n; operands = writing ∷ []; is_call = false; is_terminator = false }

abbrev read : ℕ → MachineInstr
read n = record { id = n; operands = reading ∷ []; is_call = false; is_terminator = false }

abbrev succs : BlockId → List BlockId
succs zero = 1 ∷ []
succs (suc n) = []

abbrev preds : BlockId → List BlockId
preds zero = []
preds (suc zero) = 0 ∷ []
preds (suc (suc n)) = []

-- Two definitions in the first block, a use in the second, which is a boundary.
abbrev line : MachineFunction
line = record {
  blocks = 0 ∷ 1 ∷ [];
  instrs = λ b. if b == 0 then write 0 ∷ write 1 ∷ [] else read 2 ∷ [];
  successors = succs;
  predecessors = preds;
  is_return_block = λ b. b == 1;
  is_main = false;
  loops = no_loops;
  reverse_post_order = 0 ∷ 1 ∷ [];
  estimate_block = λ b. 1;
}

abbrev target : Target
target = record { regs_overlap = λ a b. a == b; is_reserved = λ r. false; r4 = 4 }

abbrev first_region : MachineRegionInfo
first_region = record { start_block = 0; blocks = 0 ∷ []; total_energy = 1 }

abbrev second_region : MachineRegionInfo
second_region = record { start_block = 1; blocks = 1 ∷ []; total_energy = 1 }

abbrev regions : List MachineRegionInfo
regions = first_region ∷ second_region ∷ []

abbrev saved : MachineCheckpointPoint
saved = record { after_inst = write 1; reg = 12; reg_id = 12 - 4; region_start = 1 }

line_saves : analyze target line regions ≡ some (saved ∷ [])
unfolding analyze unique_from is_seen save_regions save_regs defs_in_preds defs_of_block
    defs_of_operands defined_gpr pred_block_set pred_walk push_preds find_last_reaching_defs
    emit_saves need_fixpoint need_rounds need_round new_need_in need_out reverse_transfer_block
    reverse_transfer_instr is_def_like assign_reg_id normalize_to_gpr16 is_checkpointable_reg
    is_clobbering_call call_may_clobber_nvm_regs is_reg_live_from_block live_walk push_succs
    scan_block_for_reg insert contains
line_saves = refl

line-HasSuccessors : HasSuccessors line
line-HasSuccessors zero c m k = Memᴰ.tail (Memᴰ.head (Memᴰ.eq_of_singleton k))
line-HasSuccessors (suc n) c m k = absurd (Memᴰ.not-nil k)

line-HasPredecessors : HasPredecessors line
line-HasPredecessors zero c m k = absurd (Memᴰ.not-nil k)
line-HasPredecessors (suc zero) c m k = Memᴰ.head (Memᴰ.eq_of_singleton k)
line-HasPredecessors (suc (suc n)) c m k = absurd (Memᴰ.not-nil k)

bounded : contains (0 ∷ 1 ∷ []) 1 ≡ true
unfolding contains
bounded = refl

pred_block_set_iff_example :
    (contains (pred_block_set target line (0 ∷ 1 ∷ []) 1) 0 ≡ true)
    ↔ (◌≡◌ {A = ℕ} 0 1) ⊎ Precedes target line (0 ∷ 1 ∷ []) 1 0
pred_block_set_iff_example =
    pred_block_set_iff target line (0 ∷ 1 ∷ []) 1 line-HasPredecessors bounded 0
      (Memᴰ.tail (Memᴰ.head refl))

numbered : assign_reg_id target 12 ≡ some 8
unfolding assign_reg_id normalize_to_gpr16 is_checkpointable_reg
numbered = refl

find_last_reaching_defs_iff_example :
    (found : List MachineCheckpointPoint) × (find_last_reaching_defs target line
        (0 ∷ 1 ∷ [])
        12
        1
        []
      ≡ some found)
    × (Memᴰ saved found ↔ Memᴰ saved [] ⊎ IsLastReaching target 12 line (0 ∷ 1 ∷ []) 1 8 saved)
find_last_reaching_defs_iff_example =
    find_last_reaching_defs_iff target 12 line (0 ∷ 1 ∷ []) 1 8 [] saved line-HasSuccessors numbered

analyze_returns_example :
    (found : List MachineCheckpointPoint) × (analyze target line regions ≡ some found)
analyze_returns_example = analyze_returns target line regions line-HasSuccessors

analyze_wanted_example : IsSaveIn target line (starts target line regions) regions saved
analyze_wanted_example =
    analyze_wanted target line regions (saved ∷ []) saved line-HasSuccessors line_saves
      (Memᴰ.head refl)

first-IsBefore : IsBefore target line (0 ∷ 1 ∷ []) 1 0
first-IsBefore = inr (direct 0 (Memᴰ.head refl))

saved-IsWanted : IsWanted target line regions saved
unfolding defined_gpr normalize_to_gpr16 is_checkpointable_reg is_def_like
saved-IsWanted = (
  second_region,
  Memᴰ.tail (Memᴰ.head refl),
  Memᴰ.tail (Memᴰ.head refl),
  12,
  (0, Memᴰ.head refl, first-IsBefore, write 0, Memᴰ.head refl, writing, Memᴰ.head refl, refl),
  used 1 (reads_now (read 2) [] (reading, Memᴰ.head refl, ((12, refl, refl, refl), refl, refl))),
  (
    0,
    Memᴰ.head refl,
    first-IsBefore,
    (1, Memᴰ.head refl, inl refl, arrived),
    write 1,
    later (write 0) (write 1 ∷ []) (here [] refl refl refl),
    refl,
  ),
)

analyze_covers_example :
    (d : MachineCheckpointPoint) × Memᴰ d (saved ∷ []) × IsTwin target line saved d
analyze_covers_example =
    analyze_covers target line regions (saved ∷ []) saved line-HasSuccessors line-HasPredecessors
      line_saves saved-IsWanted
