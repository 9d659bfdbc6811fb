-- ===== src/RockClimb/Partition/Errors.antt =====
-- The error of `partitionRegions` of passes/rockclimb-backend/RockClimbMachineOptimizer.cpp.
use bao.Prelude.{
  ℕ, ◌≡◌, refl, ◌∙◌, inl, inr, Option, none, some, List, [], ◌∷◌, leb, if◌then◌else◌, Bool-cases,
}
use bao.RockClimb.Machine.{BlockId, MachineFunction}
use bao.RockClimb.Partition.{
  PartitionState, Partitioning, infeasible_at, partitioned, result_of, partition_blocks,
  partition_order, partition_regions, topo_order, first_state,
}
use bao.RockClimb.Partition.Segments.{accumulate-Stepped, after}

-- The first block that alone reaches the limit.
abbrev pub first_over : (BlockId → ℕ) → ℕ → List BlockId → Option BlockId
first_over cost e_safe [] = none
first_over cost e_safe (b ∷ bs) = if leb e_safe (cost b) then some b else first_over cost e_safe bs

module _ (f : MachineFunction) (cost : BlockId → ℕ) (e_safe : ℕ) where
  stop_of : Partitioning → Option BlockId
  stop_of (infeasible_at b) = some b
  stop_of (partitioned s) = none

  partition_blocks-stop :
      (entry : BlockId) (bs : List BlockId) (s : PartitionState)
      → stop_of (partition_blocks f cost e_safe entry bs s) ≡ first_over cost e_safe bs
  unfolding partition_blocks stop_of
  partition_blocks-stop entry [] s = refl
  partition_blocks-stop entry (b ∷ bs) s =
      let same = (accumulate-Stepped f cost e_safe entry b s).refuses in
      elim (Bool-cases (leb e_safe (cost b))) [
        | inl t ↦ rw (same, t, partition_blocks) refl
        | inr n ↦
            rw (same, n, partition_blocks)
              (partition_blocks-stop entry bs (after f cost e_safe entry b s))
      ]

  result_of-stop :
      (entry : BlockId) (order : List BlockId) (p : Partitioning)
      → (result_of f cost e_safe entry order p).infeasible_block ≡ stop_of p
  unfolding result_of stop_of
  result_of-stop entry order (infeasible_at b) = refl
  result_of-stop entry order (partitioned s) = refl

  partition_order-stop :
      (order : List BlockId)
      → (partition_order f cost e_safe order).infeasible_block ≡ first_over cost e_safe order
  unfolding partition_order
  partition_order-stop [] = refl
  partition_order-stop (entry ∷ bs) =
      result_of-stop entry (entry ∷ bs) _
      ∙ partition_blocks-stop entry (entry ∷ bs) (first_state f cost e_safe entry)

  -- The partition fails exactly when a block alone reaches the limit of a charge, whatever the edges
  -- and the boundaries are, and the block that the error names is the first such block in the order.
  pub partition_regions-first_over :
      (partition_regions f cost e_safe).infeasible_block ≡ first_over cost e_safe (topo_order f)
  unfolding partition_regions
  partition_regions-first_over = partition_order-stop (topo_order f)
