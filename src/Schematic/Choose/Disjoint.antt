-- ===== src/Schematic/Choose/Disjoint.antt =====
-- `computeCost` of passes/src/schematic/MemoryAllocator.cpp: the volatile memory of the allocation that
-- it returns.
use bao.Prelude.{ℕ, ◌≡◌, Option, some, List, Memᴰ}
use bao.Schematic.Types.{Block, SchematicParams, RegionAllocation}
use bao.Schematic.Allocator.{VmAddressTracker, StateView, CandidateEntry}
use bao.Schematic.Choose.{ComputeCostResult, compute_cost}
use bao.Schematic.Choose.Packed.{IsSmall, IsSound}
use bao.Schematic.Choose.Cost.{Known, KnownAtEnd}

module _ (state : StateView) (params : SchematicParams)
    (sort : List CandidateEntry → List CandidateEntry) (conflict : ℕ)
    (block_allocation : Block → Option RegionAllocation) (before : VmAddressTracker)
    (blocks : List Block) (sa ea : Option RegionAllocation) where
  abbrev pub cost_of : ComputeCostResult state params sort conflict
  cost_of = compute_cost state params sort conflict block_allocation (some before) blocks sa ea

  -- What the caller provides: addresses and sizes that do not wrap, `std::sort` returning entries it
  -- was given, a sound tracker, and allocations whose addresses are the tracker's.
  pub record IsCalledWell : Type 0 where
    pub small : IsSmall state params
    pub sorts : (cs : List CandidateEntry) (c : CandidateEntry) → Memᴰ c (sort cs) → Memᴰ c cs
    pub sound : IsSound state params before
    pub allocated :
        (b : Block) (a : RegionAllocation)
        → block_allocation b ≡ some a
        → Known state params before a
    pub at_start : KnownAtEnd state params before sa
    pub at_end : KnownAtEnd state params before ea
