-- ===== src/RockClimb/Partition/Tiles.antt =====
-- The list of regions of `partitionRegions` of passes/rockclimb-backend/RockClimbMachineOptimizer.cpp.
use bao.Prelude.{
  ◌≡◌, refl, sym, ◌∙◌, inl, inr, ℕ, zero, suc, All-weaken, mem-flat_map, true, none, some, List, [],
  ◌∷◌, flat_map, get_elem?, Bool-cases, contains, All, Memᴰ,
}
use mathlib.Core.Path.{subst}
use mathlib.Core.Option.{some-injective, none-ne-some}
use mathlib.Core.Bool.{false≢true}
use bao.RockClimb.Machine.{BlockId, MachineFunction}
use bao.RockClimb.Partition.{MachineRegionInfo, topo_order, partition_regions}
use bao.RockClimb.Partition.Segments.{Avoids}
use bao.RockClimb.Partition.Regions.{IsRegion}
use bao.RockClimb.Partition.Runs.{partition_regions-Feasible}

mem-get_elem? : (l : List BlockId) (i : ℕ) (b : BlockId) → get_elem? l i ≡ some b → Memᴰ b l
mem-get_elem? [] i b h = absurd (none-ne-some b h)
mem-get_elem? (x ∷ xs) zero b h = Memᴰ.head (some-injective b x (sym h))
mem-get_elem? (x ∷ xs) (suc i) b h = Memᴰ.tail (mem-get_elem? xs i b h)

module _ (f : MachineFunction) (cost : BlockId → ℕ) (e_safe : ℕ) where
  Avoids-fewer :
      (bs cs p : List BlockId)
      → ((x : BlockId) → contains cs x ≡ true → contains bs x ≡ true)
      → Avoids bs p
      → Avoids cs p
  Avoids-fewer bs cs [] h a = tt
  Avoids-fewer bs cs (x ∷ p) h a = (
    elim (Bool-cases (contains cs x)) [ inl t ↦ absurd (false≢true (sym a.0 ∙ h x t)) | inr n ↦ n ],
    Avoids-fewer bs cs p h a.1,
  )

  -- When the partition is feasible and the order has a first block, the regions one after the other
  -- are all the blocks in their order; and each region starts at a region boundary or at the first
  -- block, has no boundary after its start, and is recorded with the energy of all its blocks.
  pub partition_regions_tiles :
      (entry : BlockId)
      → (partition_regions f cost e_safe).infeasible_block ≡ none
      → get_elem? (topo_order f) 0 ≡ some entry
      → (flat_map (λ g. g.blocks) (partition_regions f cost e_safe).regions ≡ topo_order f)
        × All
            (IsRegion cost entry (partition_regions f cost e_safe).region_boundaries)
            (partition_regions f cost e_safe).regions
  partition_regions_tiles entry h first =
      let (other, same, r) =
        partition_regions-Feasible f cost e_safe entry (mem-get_elem? (topo_order f) 0 entry first)
          h in
      let is_first : other ≡ entry = some-injective other entry (sym same ∙ first) in
      (
        r.joined,
        All-weaken (IsRegion cost other r.last.boundaries)
            (IsRegion cost entry (partition_regions f cost e_safe).region_boundaries)
            (partition_regions f cost e_safe).regions
            (λ g m region. record {
              rest = region.rest;
              begins = region.begins;
              avoids = Avoids-fewer r.last.boundaries _ region.rest r.only region.avoids;
              at_boundary = elim region.at_boundary [
                | inl b ↦ inl (
                    r.listed g.start_block (start_in_order r.joined g m region.rest region.begins)
                      b)
                | inr e ↦ inr (e ∙ is_first)
              ];
              total = region.total;
            })
            r.regions,
      )
    where
      start_in_order :
          flat_map (λ g. g.blocks) (partition_regions f cost e_safe).regions ≡ topo_order f
          → (g : MachineRegionInfo) → Memᴰ g (partition_regions f cost e_safe).regions
          → (rest : List BlockId) → g.blocks ≡ g.start_block ∷ rest
          → Memᴰ g.start_block (topo_order f)
      start_in_order joined g m rest begins =
          subst (λ l. Memᴰ g.start_block l) joined
            (mem-flat_map (λ g. g.blocks) g g.start_block _ m
              (subst (λ l. Memᴰ g.start_block l) (sym begins) (Memᴰ.head refl)))
