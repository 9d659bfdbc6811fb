-- ===== src/Schematic/Extend.antt =====
-- `extendsAllocation`, `computeAllocationRestoreCost` and `computeAllocationSaveCost` of
-- passes/src/schematic/MemoryAllocator.cpp.
use bao.Prelude.{
  ℕ, ◌+◌, ◌*◌, ◌≡◌, refl, sym, ◌∙◌, ap, inl, inr, Option, none, some, List, [], ◌∷◌, ◌==◌, ==_iff,
  if◌then◌else◌, Bool-cases, Option-cases,
}
use bao.Schematic.Types.{SchematicParams, Placement, VariableAllocation, RegionAllocation}
use bao.Schematic.Entries.{find, assign, find-assign_same, find-assign_other}
use bao.Schematic.Allocator.{Value, StateView, is_vm}

-- The entries of `decidedPlacements` at the block; none where the block has none.
module _ (state : StateView) (params : SchematicParams) where
  unfoldable pub compute_allocation_restore_cost : List (Value × Placement) → ℕ
  compute_allocation_restore_cost [] = 0
  compute_allocation_restore_cost ((v, place) ∷ rest) =
      (if is_vm place then params.mem_restore_energy_per_byte * state.var_size_bytes v else 0)
      + compute_allocation_restore_cost rest

  unfoldable pub compute_allocation_save_cost : List (Value × Placement) → ℕ
  compute_allocation_save_cost [] = 0
  compute_allocation_save_cost ((v, place) ∷ rest) =
      (if is_vm place then params.mem_store_energy_per_byte * state.var_size_bytes v else 0)
      + compute_allocation_save_cost rest

-- One variable of the source that the target does not have.
abbrev pub extend_with :
    List (Value × ℕ) → Value → VariableAllocation → RegionAllocation → RegionAllocation
extend_with offsets v va target = record target {
  vars = assign v va target.vars;
  vm_offsets =
      if is_vm va.placement
      then elim (find offsets v) [
        | none ↦ target.vm_offsets
        | some off ↦ assign v off target.vm_offsets
      ]
      else target.vm_offsets;
}

unfoldable pub extend_vars :
    List (Value × ℕ) → List (Value × VariableAllocation) → RegionAllocation → RegionAllocation
extend_vars offsets [] target = target
extend_vars offsets ((v, va) ∷ vars) target =
    extend_vars offsets vars
      (elim (find target.vars v) [ some old ↦ target | none ↦ extend_with offsets v va target ])

unfoldable pub extends_allocation : RegionAllocation → RegionAllocation → RegionAllocation
extends_allocation target source = extend_vars source.vm_offsets source.vars target

abbrev pub or_else {ℓ} : {A : Type ℓ} → Option A → Option A → Option A
or_else none b = b
or_else (some a) b = some a

find-extend_vars :
    (offsets : List (Value × ℕ)) (vars : List (Value × VariableAllocation))
    (target : RegionAllocation) (v : Value)
    → find (extend_vars offsets vars target).vars v ≡ or_else (find target.vars v) (find vars v)
unfolding extend_vars find
find-extend_vars offsets [] target v = elim (Option-cases (find target.vars v)) [
  | inl e ↦ rw e refl
  | inr (a, e) ↦ rw e refl
]
find-extend_vars offsets ((w, va) ∷ vars) target v = elim (Option-cases (find target.vars w)) [
  | inr (old, e) ↦
      rw (e, extend_vars)
        (find-extend_vars offsets vars target v ∙ elim (Bool-cases (w == v)) [
          | inr n ↦ rw n refl
          | inl y ↦
              let at : find target.vars v ≡ some old =
                ap (find target.vars) (sym ((==_iff w v).0 y)) ∙ e in
              rw at refl
        ])
  | inl e ↦
      rw (e, extend_vars)
        (find-extend_vars offsets vars (extend_with offsets w va target) v
          ∙ elim (Bool-cases (w == v)) [
            | inr n ↦ rw (n, find-assign_other w v va target.vars n) refl
            | inl y ↦
                let same = (==_iff w v).0 y in
                let before : find target.vars v ≡ none = ap (find target.vars) (sym same) ∙ e in
                let now : find (assign w va target.vars) v ≡ some va =
                  ap (find (assign w va target.vars)) (sym same)
                  ∙ find-assign_same w va target.vars in
                rw (before, now, y) refl
          ])
]

-- After the call the target has its own entry of a variable, or else the source's.
pub extends_allocation_lem :
    (target source : RegionAllocation) (v : Value)
    → find (extends_allocation target source).vars v
      ≡ or_else (find target.vars v) (find source.vars v)
unfolding extends_allocation
extends_allocation_lem target source v = find-extend_vars source.vm_offsets source.vars target v
