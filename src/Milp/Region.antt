-- ===== src/Milp/Region.antt =====
-- What a solution of the model means for the instrumented program: the regions between checkpoints
-- and the energy that the run of one region takes. The theorem is in `Region/Safe.antt`.
pub mod Feasible
pub mod Costs
pub mod Dirty
pub mod Safe
pub mod Congr
pub mod Placement
use bao.Prelude.{
  ℕ, ◌+◌, ◌*◌, ◌≤◌, ◌≡◌, ◌⊎◌, Bool, true, false, ◌&&◌, ◌||◌, List, [], ◌∷◌, Memᴰ, All, ltb,
  if◌then◌else◌, sum_map,
}
use bao.Milp.Views.{NodeId, Value, MilpInput}
use bao.Milp.Order.{sort_unique}
use bao.Milp.Expr.{Var, region_start, Holds}
use bao.Milp.Graph.{is_def}
use bao.Milp.Model.{
  ordered_vm_objs, collect_sorted_live_in_values, need_restore_values, placement, VarDecl, VarKind,
  binary, continuous, add_variables,
}
use bao.Milp.Model.Constraints.{add_constraints}

-- What the views promise each other.
pub record IsConsistent (inp : MilpInput) : Type 0 where
  pub src_block : (a b : NodeId) → Memᴰ (a, b) inp.edges → Memᴰ a inp.blocks
  pub dst_block : (a b : NodeId) → Memᴰ (a, b) inp.edges → Memᴰ b inp.blocks
  pub not_entry : (a b : NodeId) → Memᴰ (a, b) inp.edges → ¬ (b ≡ inp.entry_block)
  pub exit_block : (b : NodeId) → Memᴰ b inp.exit_blocks → Memᴰ b inp.blocks
  pub elig_tracked : (b : NodeId) (v : Value) → Memᴰ v (inp.elig_live_in b) → Memᴰ v inp.vm_objs
  pub inelig_tracked :
      (b : NodeId) (v : Value) → Memᴰ v (inp.inelig_live_in b) → Memᴰ v inp.ineligible_objs
  pub elig : (v : Value) → Memᴰ v inp.vm_objs → inp.is_ineligible v ≡ false
  pub inelig : (v : Value) → Memᴰ v inp.ineligible_objs → inp.is_ineligible v ≡ true

module _ (one : ℕ) (x : Var → ℕ) where
  abbrev pub IsInteger : VarKind → ℕ → Type 0
  IsInteger binary y = (y ≡ 0) ⊎ (y ≡ one)
  IsInteger continuous y = Unit

  -- `X > 0.5`
  abbrev pub is_set : Var → Bool
  is_set v = ltb one (2 * x v)

  abbrev pub InBounds : VarDecl → Type 0
  InBounds v = (x v.var ≤ v.upper * one) × IsInteger v.kind (x v.var)

-- What the solver documents of an assignment that it returns: it keeps the bounds, the integrality
-- and the constraints. `one` is the common denominator of the values.
pub record IsFeasible (inp : MilpInput) (one : ℕ) (x : Var → ℕ) : Type 0 where
  pub scaled : 1 ≤ one
  pub bounds : All (InBounds one x) (add_variables inp)
  pub constraints : All (Holds one x) (add_constraints inp)

module _ (inp : MilpInput) (one : ℕ) (x : Var → ℕ) where
  abbrev pub starts : NodeId → Bool
  starts b = is_set one x (region_start b)

  -- The value lives in volatile memory while the block runs.
  abbrev pub is_placed : NodeId → Value → Bool
  is_placed b v = inp.is_ineligible v || is_set one x (placement inp b v)

module _ (inp : MilpInput) where
  -- Some of these blocks writes the value.
  unfoldable pub is_written : List NodeId → Value → Bool
  is_written [] v = false
  is_written (b ∷ bs) v = is_def inp b v || is_written bs v

-- A region in a program with these region starts.
module _ (inp : MilpInput) (start : NodeId → Bool) where
  -- The blocks `past`, the latest first, have run since the last region start, and `cur` is next.
  abbrev pub IsRun : NodeId → List NodeId → Type 0
  IsRun cur [] = Memᴰ cur inp.blocks × (start cur ≡ true)
  IsRun cur (a ∷ past) = Memᴰ (a, cur) inp.edges × (start cur ≡ false) × IsRun a past

abbrev pub first : NodeId → List NodeId → NodeId
first cur [] = cur
first cur (a ∷ past) = first a past

-- Its energy, where the values are placed like this.
module _ (inp : MilpInput) (placed : NodeId → Value → Bool) where
  -- The checkpoint's prologue, and the copies of the live-in values into volatile memory.
  unfoldable pub start_cost : NodeId → ℕ
  start_cost b =
      inp.params.e_pro
      + sum_map (λ v. if placed b v then inp.e_restore v else 0) (need_restore_values inp b)
      + sum_map inp.e_restore (sort_unique inp.key_lt (inp.inelig_live_in b))

  -- The block, with the extra cost of each access to a value in non-volatile memory.
  unfoldable pub block_cost : NodeId → ℕ
  block_cost b =
      inp.e_base b + sum_map (λ v. if placed b v then 0 else inp.e_nvm b v) (ordered_vm_objs inp)

  -- The checkpoint's epilogue at b, entered from the last of these blocks: it copies back what the
  -- region wrote, if it lives in volatile memory and is still needed.
  unfoldable pub end_cost : List NodeId → NodeId → NodeId → ℕ
  end_cost run a b =
      inp.params.e_epi
      + sum_map (λ v. if is_written inp run v && placed a v then inp.e_save v else 0)
          (collect_sorted_live_in_values inp b)

  -- The energy spent when `cur` is about to run.
  unfoldable pub spent : NodeId → List NodeId → ℕ
  spent cur past = start_cost (first cur past) + sum_map block_cost past
