-- ===== src/RockClimb/Partition/Marks.antt =====
-- The boundaries that `partitionRegions` of passes/rockclimb-backend/RockClimbMachineOptimizer.cpp has
-- to place.
use mathlib.Core.Option.{some-injective}
use bao.Prelude.{
  ℕ, ◌≡◌, ◌≢◌, refl, sym, ◌∙◌, ap, ◌⊎◌, inl, inr, Bool, true, false, none, some, List, [], ◌∷◌,
  ◌==◌, ==_iff, ==_refl, get_elem?, Bool-cases, contains, Memᴰ, arith,
}
use bao.RockClimb.Machine.{BlockId, MachineFunction}
use bao.RockClimb.Partition.{
  exits_among, identify_exit_blocks, is_mandatory, topo_order, partition_regions,
}
use bao.RockClimb.Partition.Headers.{IsHeaderAmong, identify_loop_headers_iff}
use bao.RockClimb.Partition.Runs.{partition_regions-Feasible}

contains-exits_among :
    (is_return : BlockId → Bool) (b : BlockId) (bs : List BlockId)
    → Memᴰ b bs
    → is_return b ≡ true
    → contains (exits_among is_return bs) b ≡ true
unfolding exits_among contains
contains-exits_among is_return b [] m h = elim m [ ]
contains-exits_among is_return b (c ∷ cs) (Memᴰ.head e) h =
    rw (sym e, h, ==_refl b, exits_among) refl
contains-exits_among is_return b (c ∷ cs) (Memᴰ.tail m) h =
    ground (arith, contains-exits_among is_return b cs m h)

module _ (f : MachineFunction) (cost : BlockId → ℕ) (e_safe : ℕ) where
  -- Where a boundary has to be: at the first block of a function that is not the program's entry, and
  -- at every other block that heads a loop or returns.
  abbrev pub MustMark : BlockId → Type 0
  MustMark b =
      (get_elem? (topo_order f) 0 ≡ some b) × (f.is_main ≡ false)
      ⊎ (get_elem? (topo_order f) 0 ≢ some b)
        × (IsHeaderAmong b f.loops ⊎ Memᴰ b f.blocks × (f.is_return_block b ≡ true))

  mandatory :
      (b : BlockId)
      → IsHeaderAmong b f.loops ⊎ Memᴰ b f.blocks × (f.is_return_block b ≡ true)
      → is_mandatory f b ≡ true
  unfolding is_mandatory identify_exit_blocks
  mandatory b (inl h) = rw ((identify_loop_headers_iff f b).1 h) refl
  mandatory b (inr (m, h)) = ground (arith, contains-exits_among f.is_return_block b f.blocks m h)

  -- When the partition is feasible, the first block is a region boundary unless the function is the
  -- program's entry, and so is every other block of the order that is the header of a loop, at any
  -- depth, or returns.
  pub partition_regions_marks :
      (b : BlockId)
      → (partition_regions f cost e_safe).infeasible_block ≡ none
      → Memᴰ b (topo_order f)
      → MustMark b
      → contains (partition_regions f cost e_safe).region_boundaries b ≡ true
  unfolding contains
  partition_regions_marks b h m must =
      let (entry, first, r) = partition_regions-Feasible f cost e_safe b m h in
      r.listed b m (elim must [
        | inl (is_first, callee) ↦
            let same = some-injective b entry (sym is_first ∙ first) in
            r.ran.keeps b (rw (callee, same, ==_refl entry) refl)
        | inr (other, why) ↦ elim (Bool-cases (b == entry)) [
          | inl t ↦ absurd (other (first ∙ ap some (sym ((==_iff b entry).0 t))))
          | inr n ↦ r.ran.adds b m (rw (n, mandatory b why) refl)
        ]
      ])
