-- ===== src/RockClimb/Partition/Runs.antt =====
-- A feasible result of `partitionRegions` of passes/rockclimb-backend/RockClimbMachineOptimizer.cpp,
-- taken apart: the state at the end of the loop and the regions formed from it.
use mathlib.Core.Option.{none-ne-some}
use mathlib.Core.List.Memᴰ
use bao.Prelude.{
  ℕ, ◌≡◌, refl, sym, ◌⊎◌, inl, inr, true, none, some, List, [], ◌∷◌, flat_map, contains, get_elem?,
  All, Memᴰ,
}
use bao.RockClimb.Machine.{BlockId, MachineFunction}
use bao.RockClimb.Partition.{
  PartitionState, Partitioning, infeasible_at, partitioned, MachineRockClimbResult, result_of,
  first_state, partition_blocks, partition_order, partition_regions, topo_order,
}
use bao.RockClimb.Partition.Segments.{Ran, partition_blocks-Ran}
use bao.RockClimb.Partition.Regions.{IsRegion, form_regions_all}

-- The result as a whole: the boundaries are those of the last state among the blocks.
pub record Feasible (f : MachineFunction) (cost : BlockId → ℕ) (e_safe : ℕ) (entry : BlockId)
    (order : List BlockId) (r : MachineRockClimbResult) : Type 0 where
  pub last : PartitionState
  pub ran : Ran f cost e_safe entry order (first_state f cost e_safe entry) last
  pub joined : flat_map (λ g. g.blocks) r.regions ≡ order
  pub regions : All (IsRegion cost entry last.boundaries) r.regions
  pub listed :
      (x : BlockId)
      → Memᴰ x order
      → contains last.boundaries x ≡ true
      → contains r.region_boundaries x ≡ true
  pub only :
      (x : BlockId) → contains r.region_boundaries x ≡ true → contains last.boundaries x ≡ true

Partitioning-cases :
    (p : Partitioning)
    → ((b : BlockId) × (p ≡ infeasible_at b)) ⊎ ((s : PartitionState) × (p ≡ partitioned s))
Partitioning-cases (infeasible_at b) = inl (b, refl)
Partitioning-cases (partitioned s) = inr (s, refl)

module _ (f : MachineFunction) (cost : BlockId → ℕ) (e_safe : ℕ) where
  pub partition_order-Feasible :
      (entry : BlockId) (bs : List BlockId)
      → (partition_order f cost e_safe (entry ∷ bs)).infeasible_block ≡ none
      → Feasible f cost e_safe entry (entry ∷ bs) (partition_order f cost e_safe (entry ∷ bs))
  unfolding partition_order result_of
  partition_order-Feasible entry bs h =
      elim (Partitioning-cases
        (partition_blocks f cost e_safe entry (entry ∷ bs) (first_state f cost e_safe entry))) [
          | inl (b, e) ↦ absurd (none-ne-some b (sym (rw (e, partition_order) at h)))
          | inr (s, e) ↦
              let formed = form_regions_all cost entry f e_safe s.boundaries bs in
              rw (e, partition_order)
                (record {
                  last = s;
                  ran =
                      partition_blocks-Ran f cost e_safe entry (entry ∷ bs)
                        (first_state f cost e_safe entry) s e;
                  joined = formed.joined;
                  regions = formed.regions;
                  listed = formed.listed;
                  only = formed.only;
                })
        ]

  list_cases : (l : List BlockId) → (l ≡ []) ⊎ ((x : BlockId) × (xs : List BlockId) × (l ≡ x ∷ xs))
  list_cases [] = inl refl
  list_cases (x ∷ xs) = inr (x, xs, refl)

  -- A feasible result of a function that has the block has a first block, and is as above.
  pub partition_regions-Feasible :
      (b : BlockId)
      → Memᴰ b (topo_order f)
      → (partition_regions f cost e_safe).infeasible_block ≡ none
      → (entry : BlockId) × (get_elem? (topo_order f) 0 ≡ some entry)
        × Feasible f cost e_safe entry (topo_order f) (partition_regions f cost e_safe)
  unfolding partition_regions
  partition_regions-Feasible b m h = elim (list_cases (topo_order f)) [
    | inl e ↦ absurd (Memᴰ.not-nil (rw e at m))
    | inr (entry, bs, e) ↦
        rw (e, partition_regions)
          (entry, refl, partition_order-Feasible entry bs (rw (e, partition_regions) at h))
  ]
