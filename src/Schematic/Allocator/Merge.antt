-- ===== src/Schematic/Allocator/Merge.antt =====
-- `mergeAllocations` of passes/src/schematic/MemoryAllocator.cpp: where the addresses of a merged
-- allocation come from.
use mathlib.Core.Option.{some-injective, none-ne-some}
use mathlib.Core.Path.{subst}
use bao.Prelude.{
  ℕ, ◌≡◌, inl, inr, Bool, not, ◌&&◌, ◌||◌, some, List, [], ◌∷◌, ◌+◌, Bool-cases, Option-cases, All,
}
use bao.Schematic.Types.{VariableAllocation, RegionAllocation}
use bao.Schematic.Entries.{find}
use bao.Schematic.Allocator.{
  Value, wrap, VmAddressTracker, StateView, is_vm, need_restore, need_save, Occupied, overlaps_any,
  occupied_by, same_placement, differ, merge_var, merge_vars, merge_rest, merge_allocations,
  empty_allocation,
}
use bao.Schematic.Allocator.Addresses.{Agrees, Agrees-assign}

module _ (state : StateView) (increase : Bool) (tr : VmAddressTracker) where
  abbrev Known : List (Value × ℕ) → Type 0
  Known offsets = Agrees state.var_size_bytes tr offsets

  merge_var-Agrees :
      (offsets : List (Value × ℕ)) (v : Value) (va : VariableAllocation)
      (s s' : RegionAllocation × Occupied)
      → Known offsets
      → Known s.0.vm_offsets
      → merge_var state increase offsets v va s ≡ some s'
      → Known s'.0.vm_offsets
  unfolding merge_var
  merge_var-Agrees offsets v va (result, occupied) s' new old h =
      elim (Option-cases (find result.vars v)) [
        | inr (was, e) ↦
            elim (Bool-cases (
              same_placement was.placement va.placement
              && not (is_vm va.placement && differ (find result.vm_offsets v) (find offsets v)))) [
                | inl fits ↦
                    subst (λ x. Known x.0.vm_offsets)
                      (some-injective (result, occupied) s' (rw (e, fits, merge_var) at h)) old
                | inr clash ↦ absurd (none-ne-some s' (rw (e, clash, merge_var) at h))
              ]
        | inl absent ↦ elim (Bool-cases (is_vm va.placement)) [
          | inr in_nvm ↦
              subst (λ x. Known x.0.vm_offsets)
                (some-injective _ s' (rw (absent, in_nvm, merge_var) at h)) old
          | inl in_vm ↦ elim (Option-cases (find offsets v)) [
            | inl nowhere ↦ elim (Bool-cases ((need_restore va || need_save va) && not increase)) [
              | inl y ↦ absurd (none-ne-some s' (rw (absent, in_vm, nowhere, y, merge_var) at h))
              | inr n ↦
                  subst (λ x. Known x.0.vm_offsets)
                    (some-injective _ s' (rw (absent, in_vm, nowhere, n, merge_var) at h)) old
            ]
            | inr (off, at) ↦
                elim (Bool-cases (
                  overlaps_any off (wrap (off + state.var_size_bytes v)) occupied
                  || (need_restore va || need_save va) && not increase)) [
                    | inl y ↦ absurd (none-ne-some s' (rw (absent, in_vm, at, y, merge_var) at h))
                    | inr n ↦
                        subst (λ x. Known x.0.vm_offsets)
                          (some-injective _ s' (rw (absent, in_vm, at, n, merge_var) at h))
                          (Agrees-assign state.var_size_bytes tr v off result.vm_offsets
                            (new v off at) old)
                  ]
          ]
        ]
      ]

  merge_vars-Agrees :
      (offsets : List (Value × ℕ)) (vars : List (Value × VariableAllocation))
      (s s' : RegionAllocation × Occupied)
      → Known offsets
      → Known s.0.vm_offsets
      → merge_vars state increase offsets vars s ≡ some s'
      → Known s'.0.vm_offsets
  unfolding merge_vars
  merge_vars-Agrees offsets [] s s' new old h =
      subst (λ x. Known x.0.vm_offsets) (some-injective s s' h) old
  merge_vars-Agrees offsets ((v, va) ∷ vars) s s' new old h =
      elim (Option-cases (merge_var state increase offsets v va s)) [
        | inl e ↦ absurd (none-ne-some s' (rw (e, merge_vars) at h))
        | inr (s1, e) ↦
            merge_vars-Agrees offsets vars s1 s' new (merge_var-Agrees offsets v va s s1 new old e)
              (rw (e, merge_vars) at h)
      ]

  merge_rest-Agrees :
      (rest : List RegionAllocation) (s s' : RegionAllocation × Occupied)
      → All (λ a. Known a.vm_offsets) rest
      → Known s.0.vm_offsets
      → merge_rest state increase rest s ≡ some s'
      → Known s'.0.vm_offsets
  unfolding merge_rest
  merge_rest-Agrees [] s s' new old h =
      subst (λ x. Known x.0.vm_offsets) (some-injective s s' h) old
  merge_rest-Agrees (a ∷ rest) s s' new old h =
      elim (Option-cases (merge_vars state increase a.vm_offsets a.vars s)) [
        | inl e ↦ absurd (none-ne-some s' (rw (e, merge_rest) at h))
        | inr (s1, e) ↦
            merge_rest-Agrees rest s1 s' new.1
              (merge_vars-Agrees a.vm_offsets a.vars s s1 new.0 old e) (rw (e, merge_rest) at h)
      ]

  -- Every address of a merged allocation is one of the tracker's when those of its parts are.
  pub merge_allocations-Agrees :
      (parts : List RegionAllocation) (merged : RegionAllocation)
      → All (λ a. Known a.vm_offsets) parts
      → merge_allocations state parts increase ≡ some merged
      → Known merged.vm_offsets
  unfolding merge_allocations find
  merge_allocations-Agrees [] merged known h =
      subst (λ x. Known x.vm_offsets) (some-injective empty_allocation merged h)
        (λ v a k. absurd (none-ne-some a k))
  merge_allocations-Agrees (a ∷ rest) merged known h =
      elim (Option-cases
        (merge_rest state increase rest (a, occupied_by state a.vm_offsets a.vars))) [
          | inl e ↦ absurd (none-ne-some merged (rw (e, merge_allocations) at h))
          | inr (s, e) ↦
              subst (λ x. Known x.vm_offsets)
                (some-injective s.0 merged (rw (e, merge_allocations) at h))
                (merge_rest-Agrees rest (a, occupied_by state a.vm_offsets a.vars) s known.1 known.0
                  e)
        ]
