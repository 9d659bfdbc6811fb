-- ===== src/RockClimb/Partition/Safe.antt =====
-- The regions of `partitionRegions` of passes/rockclimb-backend/RockClimbMachineOptimizer.cpp against
-- the paths of the function.
use mathlib.Core.Bool.{false≢true}
use mathlib.Core.List.Memᴰ
use bao.Prelude.{
  ℕ, suc, ◌≤◌, ◌<◌, ◌≡◌, ◌≢◌, refl, sym, ◌∙◌, ap, ◌⊎◌, inl, inr, true, none, some, List, [], ◌∷◌,
  ◌++◌, length, ◌==◌, ==_iff, leb, get_elem?, Bool-cases, contains, Memᴰ, sum_map, arith,
}
use bao.RockClimb.Machine.{BlockId, MachineFunction}
use bao.RockClimb.Partition.{
  is_retreating, rpo_index, retreating_targets, is_mandatory, topo_order, partition_regions,
}
use bao.RockClimb.Partition.Retreating.{contains-retreating_targets}
use bao.RockClimb.Partition.Orders.{
  InOrder, InOrder-append, InOrder-length, index_from-mem, IsRising, IsRising-InOrder,
}
use bao.RockClimb.Partition.Segments.{Follows, Avoids}
use bao.RockClimb.Partition.Runs.{Feasible, partition_regions-Feasible}

-- What LLVM says of its traversal: it visits the successors of what it visits.
pub record IsTraversal (f : MachineFunction) : Type 0 where
  pub closed :
      (b c : BlockId)
      → Memᴰ b f.reverse_post_order
      → Memᴰ c (f.successors b)
      → Memᴰ c f.reverse_post_order

-- No block of the path is the first block of the program's entry function.
abbrev pub NoRestart : MachineFunction → List BlockId → Type 0
NoRestart f [] = Unit
NoRestart f (c ∷ p) = (f.is_main ≡ true → get_elem? f.reverse_post_order 0 ≢ some c) × NoRestart f p

get_elem?-append_first :
    (l r : List BlockId) (b : BlockId) → Memᴰ b l → get_elem? (l ++ r) 0 ≡ get_elem? l 0
get_elem?-append_first [] r b m = absurd (Memᴰ.not-nil m)
get_elem?-append_first (x ∷ xs) r b m = refl

module _ (f : MachineFunction) (cost : BlockId → ℕ) (e_safe : ℕ) (t : IsTraversal f) where
  mandatory-retreating :
      (b : BlockId) → contains (retreating_targets f) b ≡ true → is_mandatory f b ≡ true
  unfolding is_mandatory
  mandatory-retreating b h = ground arith

  mem-topo_order : (b : BlockId) → Memᴰ b f.reverse_post_order → Memᴰ b (topo_order f)
  unfolding topo_order
  mem-topo_order b m = Memᴰ.append_left _ m

  module _ (entry : BlockId) (first : get_elem? (topo_order f) 0 ≡ some entry)
      (r : Feasible f cost e_safe entry (topo_order f) (partition_regions f cost e_safe)) where
    retreating_is_boundary :
        (b c : BlockId)
        → Memᴰ b f.reverse_post_order
        → Memᴰ c (f.successors b)
        → is_retreating (rpo_index f b) (rpo_index f c) ≡ true
        → (f.is_main ≡ true → get_elem? f.reverse_post_order 0 ≢ some c)
        → contains r.last.boundaries c ≡ true
    unfolding contains topo_order
    retreating_is_boundary b c m k h n =
        let marked = mandatory-retreating c (contains-retreating_targets f b c m k h) in
        elim (Bool-cases (c == entry)) [
          | inr other ↦ r.ran.adds c (mem-topo_order c (t.closed b c m k)) (rw (other, marked) refl)
          | inl same ↦ elim (Bool-cases f.is_main) [
            | inl main ↦ absurd (
                n main (
                  sym (get_elem?-append_first f.reverse_post_order _ b m)
                  ∙ first
                  ∙ ap some (sym ((==_iff c entry).0 same))))
            | inr callee ↦ r.ran.keeps c (rw (callee, same) refl)
          ]
        ]

    rises :
        (b : BlockId) (k : ℕ) (p : List BlockId)
        → Memᴰ b f.reverse_post_order
        → rpo_index f b ≡ some k
        → Follows f.successors b p
        → Avoids r.last.boundaries p
        → NoRestart f p
        → IsRising (rpo_index f) (suc k) p
    unfolding rpo_index
    rises b k [] m at w a n = tt
    rises b k (c ∷ p) m at w a n =
        let mc = t.closed b c m w.0 in
        let (j, atc) = index_from-mem 0 f.reverse_post_order c mc in
        elim (Bool-cases (leb j k)) [
          | inl back ↦
              absurd
                (false≢true (sym a.0 ∙ retreating_is_boundary b c m w.0 (rw (at, atc) back) n.0))
          | inr forward ↦ (j, atc, ground arith, rises c j p mc atc w.1 a.1 n.1)
        ]

    in_order :
        (b : BlockId) (p : List BlockId)
        → Memᴰ b f.reverse_post_order
        → Follows f.successors b p
        → Avoids r.last.boundaries p
        → NoRestart f p
        → InOrder (b ∷ p) f.reverse_post_order
    unfolding rpo_index
    in_order b p m w a n =
        let (k, at) = index_from-mem 0 f.reverse_post_order b m in
        IsRising-InOrder 0 0 f.reverse_post_order (b ∷ p) (omega arith)
          (k, at, omega arith, rises b k p m at w a n)

    no_boundary_last :
        (b : BlockId) (p : List BlockId)
        → Memᴰ b f.reverse_post_order
        → Follows f.successors b p
        → Avoids (partition_regions f cost e_safe).region_boundaries p
        → Avoids r.last.boundaries p
    no_boundary_last b [] m w a = tt
    no_boundary_last b (c ∷ p) m w a =
        let mc = t.closed b c m w.0 in
        (
          elim (Bool-cases (contains r.last.boundaries c)) [
            | inl h ↦ absurd (false≢true (sym a.0 ∙ r.listed c (mem-topo_order c mc) h))
            | inr n ↦ n
          ],
          no_boundary_last c p mc w.1 a.1,
        )

  -- When the partition is feasible, a path along the edges from any block that the traversal visits
  -- uses less energy than one charge gives, its last block included, as long as no block after
  -- its first is a region boundary, or the first block of the program's entry function: an edge back
  -- to that block is not made a boundary, and a cycle through it may spend any amount.
  pub partition_regions_fits :
      (b : BlockId) (p : List BlockId)
      → (partition_regions f cost e_safe).infeasible_block ≡ none
      → Memᴰ b f.reverse_post_order
      → Follows f.successors b p
      → NoRestart f p
      → Avoids (partition_regions f cost e_safe).region_boundaries p
      → sum_map cost (b ∷ p) < e_safe
  unfolding topo_order
  partition_regions_fits b p h m w n a =
      let (entry, first, r) = partition_regions-Feasible f cost e_safe b (mem-topo_order b m) h in
      let quiet = no_boundary_last entry first r b p m w a in
      r.ran.fits b p
        (InOrder-append (b ∷ p) f.reverse_post_order _ (in_order entry first r b p m w quiet n)) w
        quiet

  meets_boundary :
      (bs p : List BlockId) → Avoids bs p ⊎ ((c : BlockId) × Memᴰ c p × (contains bs c ≡ true))
  meets_boundary bs [] = inl tt
  meets_boundary bs (c ∷ p) = elim (Bool-cases (contains bs c)) [
    | inl h ↦ inr (c, Memᴰ.head refl, h)
    | inr n ↦ elim (meets_boundary bs p) [
      | inl a ↦ inl (n, a)
      | inr (d, m, h) ↦ inr (d, Memᴰ.tail m, h)
    ]
  ]

  -- When the partition is feasible, a path along the edges from a block that the traversal visits
  -- comes to a region boundary after at most as many steps as the traversal has blocks, unless it
  -- comes back to the first block of the program's entry function, which is not made a boundary: a
  -- cycle that does not go through that block cannot run for ever between two checkpoints.
  pub partition_regions_recharges :
      (b : BlockId) (p : List BlockId)
      → (partition_regions f cost e_safe).infeasible_block ≡ none
      → Memᴰ b f.reverse_post_order
      → Follows f.successors b p
      → NoRestart f p
      → length f.reverse_post_order ≤ length p
      → (c : BlockId) × Memᴰ c p
        × (contains (partition_regions f cost e_safe).region_boundaries c ≡ true)
  partition_regions_recharges b p h m w n long =
      elim (meets_boundary (partition_regions f cost e_safe).region_boundaries p) [
        | inr found ↦ found
        | inl a ↦
            let (entry, first, r) =
              partition_regions-Feasible f cost e_safe b (mem-topo_order b m) h in
            let quiet = no_boundary_last entry first r b p m w a in
            absurd (
              omega (
                arith,
                InOrder-length (b ∷ p) f.reverse_post_order
                    (in_order entry first r b p m w quiet n),
              ))
      ]
