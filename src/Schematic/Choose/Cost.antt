-- ===== src/Schematic/Choose/Cost.antt =====
-- `computeCost` of passes/src/schematic/MemoryAllocator.cpp: the addresses of the values that an
-- interval keeps in volatile memory.
use mathlib.Core.Option.{some-injective, none-ne-some}
use mathlib.Core.Path.{subst}
use mathlib.Core.List.Memᴰ
use bao.Prelude.{
  ℕ, ◌≡◌, refl, sym, ◌∙◌, ap, inl, inr, Bool, true, false, ◌&&◌, ◌||◌, Option, none, some, List, [],
  ◌∷◌, ◌==◌, Bool-cases, Option-cases, Memᴰ, All,
}
use bao.Schematic.Types.{SchematicParams, RegionAllocation}
use bao.Schematic.Entries.{find}
use bao.Schematic.Allocator.{
  Value, VmAddressTracker, StateView, VariableAccessEstimate, CandidateEntry,
}
use bao.Schematic.Allocator.Addresses.{Extends, Agrees}
use bao.Schematic.Allocator.Merge.{merge_allocations-Agrees}
use bao.Schematic.Choose.{
  is_some, merge_boundary, constrained_alloc, classify, classify_all, choose_memory_allocation,
}
use bao.Schematic.Choose.Packed.{IsSmall, IsSound, pack_all-Kept}

module _ (state : StateView) (params : SchematicParams) where
  abbrev sizes : Value → ℕ
  sizes = state.var_size_bytes

  abbrev pub Known : VmAddressTracker → RegionAllocation → Type 0
  Known tr a = Agrees sizes tr a.vm_offsets

  -- The allocations at the ends of the interval, where there are any.
  abbrev pub KnownAtEnd : VmAddressTracker → Option RegionAllocation → Type 0
  KnownAtEnd tr o = (a : RegionAllocation) → o ≡ some a → Known tr a

  merge_boundary-Agrees :
      (tr : VmAddressTracker) (o m : Option RegionAllocation) (merged : RegionAllocation)
      → KnownAtEnd tr o
      → KnownAtEnd tr m
      → merge_boundary state o m ≡ some merged
      → Known tr merged
  merge_boundary-Agrees tr none none merged ko km h = absurd (none-ne-some merged h)
  merge_boundary-Agrees tr (some a) none merged ko km h = absurd (none-ne-some merged h)
  merge_boundary-Agrees tr none (some c) merged ko km h =
      subst (Known tr) (some-injective c merged h) (km c refl)
  merge_boundary-Agrees tr (some a) (some c) merged ko km h =
      merge_allocations-Agrees state false tr (a ∷ c ∷ []) merged (ko a refl, (km c refl, tt)) h

  constrained_alloc-Agrees :
      (tr : VmAddressTracker) (parts : List RegionAllocation) (sa ea : Option RegionAllocation)
      (merged : RegionAllocation)
      → All (Known tr) parts
      → KnownAtEnd tr sa
      → KnownAtEnd tr ea
      → constrained_alloc state parts sa ea ≡ some merged
      → Known tr merged
  unfolding constrained_alloc
  constrained_alloc-Agrees tr parts sa ea merged kp ks ke h =
      merge_boundary-Agrees tr ea _ merged ke
        (λ c e.
          merge_boundary-Agrees tr sa _ c ks
            (λ d q. merge_allocations-Agrees state true tr parts d kp q) e)
        h

  -- The classification keeps the addresses, and gives the entries their values' sizes.
  record Classified (offsets : List (Value × ℕ)) (s : RegionAllocation × List CandidateEntry)
      : Type 0 where
    same : s.0.vm_offsets ≡ offsets
    sized : (c : CandidateEntry) → Memᴰ c s.1 → c.size ≡ sizes c.value

  classify-Classified :
      (has_start has_end : Bool) (v : Value) (access : VariableAccessEstimate)
      (offsets : List (Value × ℕ)) (s : RegionAllocation × List CandidateEntry)
      → Classified offsets s
      → Classified offsets (classify state params has_start has_end v access s)
  unfolding classify
  classify-Classified has_start has_end v access offsets (result, entries) k =
      elim (Bool-cases (
        state.is_pointer_type v
        || access.needs_restore && has_start
        || access.needs_save && has_end)) [
          | inl y ↦ rw (y, classify) (record { same = k.same; sized = k.sized })
          | inr n ↦
              rw (n, classify)
                (record {
                  same = k.same;
                  sized = λ c m. elim (Memᴰ.append_cases entries m) [
                    | inl j ↦ k.sized c j
                    | inr j ↦
                        let e = Memᴰ.eq_of_singleton j in
                        ap (λ x. x.size) e ∙ ap (λ x. sizes x.value) (sym e)
                  ];
                })
        ]

  classify_all-Classified :
      (has_start has_end : Bool) (accesses : List (Value × VariableAccessEstimate))
      (vs : List Value) (offsets : List (Value × ℕ)) (s : RegionAllocation × List CandidateEntry)
      → Classified offsets s
      → Classified offsets (classify_all state params has_start has_end accesses vs s)
  unfolding classify_all
  classify_all-Classified has_start has_end accesses [] offsets s k = k
  classify_all-Classified has_start has_end accesses (v ∷ vs) offsets s k =
      elim (Bool-cases (is_some (find s.0.vars v))) [
        | inl y ↦
            rw (y, classify_all) (classify_all-Classified has_start has_end accesses vs offsets s k)
        | inr n ↦ elim (Option-cases (find accesses v)) [
          | inl e ↦
              rw (n, e, classify_all)
                (classify_all-Classified has_start has_end accesses vs offsets s k)
          | inr (access, e) ↦ elim (Bool-cases (access.access_count == 0)) [
            | inl z ↦
                rw (n, e, z, classify_all)
                  (classify_all-Classified has_start has_end accesses vs offsets s k)
            | inr z ↦
                rw (n, e, z, classify_all)
                  (classify_all-Classified has_start has_end accesses vs offsets
                    (classify state params has_start has_end v access s)
                    (classify-Classified has_start has_end v access offsets s k))
          ]
        ]
      ]

  module _ (sort : List CandidateEntry → List CandidateEntry) (conflict : ℕ)
      (small : IsSmall state params)
      (sorts : (cs : List CandidateEntry) (c : CandidateEntry) → Memᴰ c (sort cs) → Memᴰ c cs) where
    -- What a choice leaves: a tracker as sound as before, with the addresses of before, which are
    -- those of the allocation.
    pub record Chosen (before : VmAddressTracker) (after : Option VmAddressTracker)
        (allocation : RegionAllocation) : Type 0 where
      pub tr : VmAddressTracker
      pub is_tracker : after ≡ some tr
      pub sound : IsSound state params tr
      pub extends : Extends sizes before tr
      pub agrees : Known tr allocation

    pub choose-Chosen :
        (accesses : List (Value × VariableAccessEstimate)) (sa ea : Option RegionAllocation)
        (parts : List RegionAllocation) (before : VmAddressTracker)
        → IsSound state params before
        → All (Known before) parts
        → KnownAtEnd before sa
        → KnownAtEnd before ea
        → Chosen before
            (choose_memory_allocation state params sort conflict accesses sa ea parts
              (some before)).tracker
            (choose_memory_allocation state params sort conflict accesses sa ea parts
              (some before)).allocation
    unfolding choose_memory_allocation find
    choose-Chosen accesses sa ea parts before ok kp ks ke =
        elim (Option-cases (constrained_alloc state parts sa ea)) [
          | inl e ↦
              rw (e, choose_memory_allocation)
                (record {
                  tr = before;
                  is_tracker = refl;
                  sound = ok;
                  extends = λ v a h. h;
                  agrees = λ v a h. absurd (none-ne-some a h);
                })
          | inr (constrained, e) ↦
              let known = constrained_alloc-Agrees before parts sa ea constrained kp ks ke e in
              let c =
                classify_all-Classified (is_some sa) (is_some ea) accesses state.candidates
                  constrained.vm_offsets (constrained, [])
                  (record { same = refl; sized = λ x m. absurd (Memᴰ.not-nil m) }) in
              let k =
                pack_all-Kept state params small before
                  (sort
                    (classify_all state params (is_some sa) (is_some ea) accesses state.candidates
                      (constrained, [])).1)
                  _ (λ x m. c.sized x (sorts _ x m))
                  (record {
                    tr = before;
                    is_tracker = refl;
                    at_top = refl;
                    sound = ok;
                    extends = λ v a h. h;
                    agrees = subst (Agrees sizes before) (sym c.same) known;
                  }) in
              rw (e, choose_memory_allocation)
                (record {
                  tr = k.tr;
                  is_tracker = k.is_tracker;
                  sound = k.sound;
                  extends = k.extends;
                  agrees = k.agrees;
                })
        ]
