-- ===== src/Schematic/Allocator/Placements.antt =====
-- `mergeAllocations` of passes/src/schematic/MemoryAllocator.cpp: the placements of a merged allocation.
use mathlib.Core.Bool.{false≢true}
use mathlib.Core.Option.{some-injective, none-ne-some}
use mathlib.Core.Path.{subst}
use mathlib.Core.List.Memᴰ
use bao.Prelude.{
  ℕ, ◌≡◌, refl, sym, ◌∙◌, ap, ◌⊎◌, inl, inr, Bool, true, not, ◌&&◌, ◌||◌, none, some, List, [], ◌∷◌,
  ◌+◌, ◌==◌, ==_iff, Bool-cases, Option-cases, Memᴰ, arith,
}
use bao.Schematic.Types.{Placement, vm, nvm, VariableAllocation, RegionAllocation}
use bao.Schematic.Entries.{find, assign, find-assign_same, find-assign_other}
use bao.Schematic.Allocator.{
  Value, wrap, StateView, is_vm, need_restore, need_save, Occupied, overlaps_any, occupied_by,
  same_placement, differ, merge_var, merge_vars, merge_rest, merge_allocations,
}

same_placement_lem : (p q : Placement) → same_placement p q ≡ true → p ≡ q
same_placement_lem vm vm h = refl
same_placement_lem vm nvm h = absurd (false≢true h)
same_placement_lem nvm vm h = absurd (false≢true h)
same_placement_lem nvm nvm h = refl

-- The variable has an entry with this placement.
abbrev pub IsPlaced : List (Value × VariableAllocation) → Value → Placement → Type 0
IsPlaced vars v p = (va : VariableAllocation) × (find vars v ≡ some va) × (va.placement ≡ p)

abbrev Keeps : List (Value × VariableAllocation) → List (Value × VariableAllocation) → Type 0
Keeps vars vars' = (x : Value) (p : Placement) → IsPlaced vars x p → IsPlaced vars' x p

assign-Keeps :
    (v : Value) (va : VariableAllocation) (vars : List (Value × VariableAllocation))
    → find vars v ≡ none
    → Keeps vars (assign v va vars)
assign-Keeps v va vars fresh x p (old, at, placed) = elim (Bool-cases (v == x)) [
  | inl e ↦ absurd (none-ne-some old (sym fresh ∙ ap (find vars) ((==_iff v x).0 e) ∙ at))
  | inr n ↦ (old, find-assign_other v x va vars n ∙ at, placed)
]

module _ (state : StateView) (increase : Bool) where
  record Merged (v : Value) (va : VariableAllocation) (s s' : RegionAllocation × Occupied)
      : Type 0 where
    keeps : Keeps s.0.vars s'.0.vars
    adds : IsPlaced s'.0.vars v va.placement

  added :
      (v : Value) (va : VariableAllocation) (s s' : RegionAllocation × Occupied)
      → find s.0.vars v ≡ none
      → s'.0.vars ≡ assign v va s.0.vars
      → Merged v va s s'
  added v va s s' fresh e = record {
    keeps = λ x p h. subst (λ vs. IsPlaced vs x p) (sym e) (assign-Keeps v va s.0.vars fresh x p h);
    adds =
        subst (λ vs. IsPlaced vs v va.placement) (sym e) (va, find-assign_same v va s.0.vars, refl);
  }

  merge_var-Merged :
      (offsets : List (Value × ℕ)) (v : Value) (va : VariableAllocation)
      (s s' : RegionAllocation × Occupied)
      → merge_var state increase offsets v va s ≡ some s'
      → Merged v va s s'
  unfolding merge_var
  merge_var-Merged offsets v va (result, occupied) s' h = elim (Option-cases (find result.vars v)) [
    | inr (was, e) ↦
        elim (Bool-cases (
          same_placement was.placement va.placement
          && not (is_vm va.placement && differ (find result.vm_offsets v) (find offsets v)))) [
            | inl fits ↦
                subst (Merged v va (result, occupied))
                  (some-injective (result, occupied) s' (rw (e, fits, merge_var) at h))
                  (record {
                    keeps = λ x p k. k;
                    adds = (was, e, same_placement_lem was.placement va.placement (ground arith));
                  })
            | inr clash ↦ absurd (none-ne-some s' (rw (e, clash, merge_var) at h))
          ]
    | inl absent ↦ elim (Bool-cases (is_vm va.placement)) [
      | inr in_nvm ↦
          added v va (result, occupied) s' absent
            (ap (λ x. x.0.vars) (sym (some-injective _ s' (rw (absent, in_nvm, merge_var) at h))))
      | inl in_vm ↦ elim (Option-cases (find offsets v)) [
        | inl nowhere ↦ elim (Bool-cases ((need_restore va || need_save va) && not increase)) [
          | inl y ↦ absurd (none-ne-some s' (rw (absent, in_vm, nowhere, y, merge_var) at h))
          | inr n ↦
              added v va (result, occupied) s' absent
                (ap (λ x. x.0.vars)
                  (sym (some-injective _ s' (rw (absent, in_vm, nowhere, n, merge_var) at h))))
        ]
        | inr (off, at) ↦
            elim (Bool-cases (
              overlaps_any off (wrap (off + state.var_size_bytes v)) occupied
              || (need_restore va || need_save va) && not increase)) [
                | inl y ↦ absurd (none-ne-some s' (rw (absent, in_vm, at, y, merge_var) at h))
                | inr n ↦
                    added v va (result, occupied) s' absent
                      (ap (λ x. x.0.vars)
                        (sym (some-injective _ s' (rw (absent, in_vm, at, n, merge_var) at h))))
              ]
      ]
    ]
  ]

  -- Every entry of the list is placed as it says.
  abbrev AllPlaced : List (Value × VariableAllocation) → List (Value × VariableAllocation) → Type 0
  AllPlaced vars' vars =
      (v : Value) (va : VariableAllocation) → Memᴰ (v, va) vars → IsPlaced vars' v va.placement

  merge_vars-AllPlaced :
      (offsets : List (Value × ℕ)) (vars : List (Value × VariableAllocation))
      (s s' : RegionAllocation × Occupied)
      → merge_vars state increase offsets vars s ≡ some s'
      → Keeps s.0.vars s'.0.vars × AllPlaced s'.0.vars vars
  unfolding merge_vars
  merge_vars-AllPlaced offsets [] s s' h = (
    subst (λ x. Keeps s.0.vars x.0.vars) (some-injective s s' h) (λ x p k. k),
    λ v va m. absurd (Memᴰ.not-nil m),
  )
  merge_vars-AllPlaced offsets ((w, wa) ∷ vars) s s' h =
      elim (Option-cases (merge_var state increase offsets w wa s)) [
        | inl e ↦ absurd (none-ne-some s' (rw (e, merge_vars) at h))
        | inr (s1, e) ↦
            let one = merge_var-Merged offsets w wa s s1 e in
            let (keeps, placed) =
              merge_vars-AllPlaced offsets vars s1 s' (rw (e, merge_vars) at h) in
            (
              λ x p k. keeps x p (one.keeps x p k),
              λ v va m. elim (Memᴰ.cases_cons m) [
                | inl q ↦
                    keeps v va.placement
                      (subst (λ y. IsPlaced s1.0.vars y.0 y.1.placement) (sym q) one.adds)
                | inr j ↦ placed v va j
              ],
            )
      ]

  merge_rest-AllPlaced :
      (rest : List RegionAllocation) (s s' : RegionAllocation × Occupied)
      → merge_rest state increase rest s ≡ some s'
      → Keeps s.0.vars s'.0.vars
        × ((a : RegionAllocation) → Memᴰ a rest → AllPlaced s'.0.vars a.vars)
  unfolding merge_rest
  merge_rest-AllPlaced [] s s' h = (
    subst (λ x. Keeps s.0.vars x.0.vars) (some-injective s s' h) (λ x p k. k),
    λ a m. absurd (Memᴰ.not-nil m),
  )
  merge_rest-AllPlaced (b ∷ rest) s s' h =
      elim (Option-cases (merge_vars state increase b.vm_offsets b.vars s)) [
        | inl e ↦ absurd (none-ne-some s' (rw (e, merge_rest) at h))
        | inr (s1, e) ↦
            let (keeps1, placed1) = merge_vars-AllPlaced b.vm_offsets b.vars s s1 e in
            let (keeps, placed) = merge_rest-AllPlaced rest s1 s' (rw (e, merge_rest) at h) in
            (
              λ x p k. keeps x p (keeps1 x p k),
              λ a m. elim (Memᴰ.cases_cons m) [
                | inl q ↦
                    subst (λ y. AllPlaced s'.0.vars y.vars) (sym q)
                      (λ v va j. keeps v va.placement (placed1 v va j))
                | inr j ↦ placed a j
              ],
            )
      ]

  -- When a merge succeeds, each variable that the first allocation looks up, or that another one
  -- lists, is in the result with the same placement.
  pub merge_allocations_places :
      (first : RegionAllocation) (rest : List RegionAllocation) (merged : RegionAllocation)
      (v : Value) (p : Placement)
      → merge_allocations state (first ∷ rest) increase ≡ some merged
      → IsPlaced first.vars v p
        ⊎ ((a : RegionAllocation) × (va : VariableAllocation) × Memᴰ a rest
            × Memᴰ (v, va) a.vars
            × (va.placement ≡ p))
      → IsPlaced merged.vars v p
  unfolding merge_allocations
  merge_allocations_places first rest merged v p h where_v =
      elim (Option-cases
        (merge_rest state increase rest (first, occupied_by state first.vm_offsets first.vars))) [
          | inl e ↦ absurd (none-ne-some merged (rw (e, merge_allocations) at h))
          | inr (s, e) ↦
              let (keeps, placed) =
                merge_rest-AllPlaced rest (first, occupied_by state first.vm_offsets first.vars) s
                  e in
              subst (λ x. IsPlaced x.vars v p)
                (some-injective s.0 merged (rw (e, merge_allocations) at h))
                (elim where_v [
                  | inl k ↦ keeps v p k
                  | inr (a, va, m, j, q) ↦ subst (IsPlaced s.0.vars v) q (placed a m v va j)
                ])
        ]
