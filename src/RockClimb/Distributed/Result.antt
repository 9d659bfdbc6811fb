-- ===== src/RockClimb/Distributed/Result.antt =====
-- What `analyze` returns, of passes/rockclimb-backend/MachineDistributedCheckpointing.cpp.
use mathlib.Core.Bool.{false≢true}
use mathlib.Core.List.Memᴰ
use mathlib.Core.Option.{some-injective}
use mathlib.Core.Path.{subst}
use bao.Prelude.{
  ◌≡◌, refl, sym, ◌∙◌, ap, ◌⊎◌, inl, inr, true, ◌&&◌, some, List, [], ◌∷◌, map, ◌==◌, Bool-cases,
  Memᴰ, arith,
}
use bao.RockClimb.Machine.{BlockId, MachineFunction, HasSuccessors, Target}
use bao.RockClimb.Partition.{MachineRegionInfo}
use bao.RockClimb.Distributed.{MachineCheckpointPoint, is_seen, unique_from, analyze}
use bao.RockClimb.Distributed.Backward.{HasPredecessors}
use bao.RockClimb.Distributed.Wanted.{IsWanted, IsWanted-IsSaveIn}
use bao.RockClimb.Distributed.Analysis.{IsSaveIn, save_regions-Adds}

module _ (t : Target) (f : MachineFunction) where
  -- The save is after the same instruction and of the same register.
  abbrev pub IsTwin : MachineCheckpointPoint → MachineCheckpointPoint → Type 0
  IsTwin c d = (c.after_inst.id ≡ d.after_inst.id) × (c.reg ≡ d.reg)

  unique_from-old :
      (seen cs : List MachineCheckpointPoint) (c : MachineCheckpointPoint)
      → Memᴰ c (unique_from t f seen cs)
      → Memᴰ c cs
  unfolding unique_from
  unique_from-old seen [] c m = m
  unique_from-old seen (x ∷ xs) c m = elim (Bool-cases (is_seen t f x seen)) [
    | inl y ↦ Memᴰ.tail (unique_from-old seen xs c (rw (y, unique_from) at m))
    | inr n ↦ elim (Memᴰ.cases_cons (rw (n, unique_from) at m)) [
      | inl e ↦ Memᴰ.head e
      | inr k ↦ Memᴰ.tail (unique_from-old (x ∷ seen) xs c k)
    ]
  ]

  seen-IsTwin :
      (c : MachineCheckpointPoint) (seen : List MachineCheckpointPoint)
      → is_seen t f c seen ≡ true
      → (d : MachineCheckpointPoint) × Memᴰ d seen × IsTwin c d
  unfolding is_seen
  seen-IsTwin c [] h = absurd (false≢true h)
  seen-IsTwin c (d ∷ ds) h =
      elim (Bool-cases (c.after_inst.id == d.after_inst.id && c.reg == d.reg)) [
        | inl e ↦ (d, Memᴰ.head refl, (ground arith, ground arith))
        | inr n ↦ let (x, m, q) = seen-IsTwin c ds (rw n at h) in (x, Memᴰ.tail m, q)
      ]

  unique_from-IsTwin :
      (seen cs : List MachineCheckpointPoint) (c : MachineCheckpointPoint)
      → Memᴰ c cs
      → (d : MachineCheckpointPoint) × (Memᴰ d seen ⊎ Memᴰ d (unique_from t f seen cs)) × IsTwin c d
  unfolding unique_from
  unique_from-IsTwin seen [] c m = absurd (Memᴰ.not-nil m)
  unique_from-IsTwin seen (x ∷ xs) c m = elim (Bool-cases (is_seen t f x seen)) [
    | inl y ↦ elim (Memᴰ.cases_cons m) [
      | inl e ↦
          let (d, k, q) = seen-IsTwin x seen y in (d, inl k, subst (λ z. IsTwin z d) (sym e) q)
      | inr j ↦ let (d, k, q) = unique_from-IsTwin seen xs c j in (d, rw (y, unique_from) k, q)
    ]
    | inr n ↦ elim (Memᴰ.cases_cons m) [
      | inl e ↦ (
        x,
        rw (n, unique_from) (inr (Memᴰ.head refl)),
        (ap (λ z. z.after_inst.id) e, ap (λ z. z.reg) e),
      )
      | inr j ↦
          let (d, k, q) = unique_from-IsTwin (x ∷ seen) xs c j in
          (
            d,
            rw (n, unique_from)
                (elim k [
                  | inr u ↦ inr (Memᴰ.tail u)
                  | inl s ↦ elim (Memᴰ.cases_cons s) [ inl e ↦ inr (Memᴰ.head e) | inr s' ↦ inl s' ]
                ]),
            q,
          )
    ]
  ]

  abbrev pub starts : List MachineRegionInfo → List BlockId
  starts regions = map (λ r. r.start_block) regions

  -- Where the successors of the function's blocks are its blocks, the analysis returns: every search
  -- ends, and every register that it saves has a number.
  pub analyze_returns :
      (regions : List MachineRegionInfo)
      → HasSuccessors f
      → (found : List MachineCheckpointPoint) × (analyze t f regions ≡ some found)
  unfolding analyze
  analyze_returns regions within =
      let all = save_regions-Adds t f within (starts regions) regions [] in
      (unique_from t f [] all.found, rw (all.returns, analyze) refl)

  -- Where the successors of the function's blocks are its blocks, each save of the analysis is, for
  -- one of the regions, of a register that is live at the region's start, and after the last
  -- definition in a block whose value can still reach that start.
  pub analyze_wanted :
      (regions : List MachineRegionInfo) (found : List MachineCheckpointPoint)
      (c : MachineCheckpointPoint)
      → HasSuccessors f
      → analyze t f regions ≡ some found
      → Memᴰ c found
      → IsSaveIn t f (starts regions) regions c
  unfolding analyze
  analyze_wanted regions found c within runs m =
      let all = save_regions-Adds t f within (starts regions) regions [] in
      let same = some-injective _ found (sym (rw (all.returns, analyze) refl) ∙ runs) in
      elim ((all.exact c).0 (unique_from-old [] all.found c (subst (λ l. Memᴰ c l) (sym same) m))) [
        | inl k ↦ absurd (Memᴰ.not-nil k)
        | inr q ↦ q
      ]

  -- Where the successors and predecessors of the function's blocks are its blocks, a save that some
  -- region wants has its like in the analysis, after the same instruction and of the same register.
  -- Wanted are, for a register that an operand defines in the region's start or in a block from which
  -- a path leads to the start without a boundary in between, and which is live at the start, the saves
  -- after the last definition of it in each such block whose value can still arrive at the start. A
  -- register that only a call may write in those blocks is not among them.
  pub analyze_covers :
      (regions : List MachineRegionInfo) (found : List MachineCheckpointPoint)
      (c : MachineCheckpointPoint)
      → HasSuccessors f
      → HasPredecessors f
      → analyze t f regions ≡ some found
      → IsWanted t f regions c
      → (d : MachineCheckpointPoint) × Memᴰ d found × IsTwin c d
  unfolding analyze
  analyze_covers regions found c within before runs w =
      let all = save_regions-Adds t f within (starts regions) regions [] in
      let same = some-injective _ found (sym (rw (all.returns, analyze) refl) ∙ runs) in
      let listed = (all.exact c).1 (inr (IsWanted-IsSaveIn t f regions c within before w)) in
      let (d, k, q) = unique_from-IsTwin [] all.found c listed in
      (d, elim k [ inl m ↦ absurd (Memᴰ.not-nil m) | inr m ↦ subst (λ l. Memᴰ d l) same m ], q)
