-- ===== src/Schematic/Choose/Packed.antt =====
-- `chooseMemoryAllocation` of passes/src/schematic/MemoryAllocator.cpp: what the choice does to the
-- address tracker, and where its addresses come from.
use bao.Prelude.{
  ℕ, ◌+◌, ◌≤◌, ◌<◌, ◌≡◌, refl, sym, ◌∙◌, ap, inl, inr, Option, none, some, List, [], ◌∷◌, leb,
  Bool-cases, Option-cases, Memᴰ, arith,
}
use native.Mathlib.Nat.{mod-eq_of_lt}
use bao.Schematic.Types.{SchematicParams}
use bao.Schematic.Entries.{find}
use bao.Schematic.Allocator.{
  Value, wrap, VmAddressTracker, get_existing_address, record_allocation, StateView, is_positive,
  CandidateEntry,
}
use bao.Schematic.Allocator.Addresses.{
  IsPacked, Extends, Agrees, Agrees-Extends, Agrees-assign, top-record_allocation,
  find-record_allocation, record_allocation-Extends, record_allocation-IsPacked,
}
use bao.Schematic.Choose.{Packing, pack, pack_all, existing_address}

module _ (state : StateView) (params : SchematicParams) where
  abbrev sizes : Value → ℕ
  sizes = state.var_size_bytes

  -- No sum of an address and a size wraps.
  pub record IsSmall : Type 0 where
    pub capacity : params.vm_capacity_bytes < 2147483648
    pub size : (v : Value) → state.var_size_bytes v < 2147483648

  -- The tracker's addresses are packed into the volatile memory.
  pub record IsSound (tr : VmAddressTracker) : Type 0 where
    pub packed : IsPacked sizes tr
    pub fits : tr.top_address ≤ params.vm_capacity_bytes

  pub record Kept (before : VmAddressTracker) (s : Packing state params) : Type 0 where
    pub tr : VmAddressTracker
    pub is_tracker : s.tracker ≡ some tr
    pub at_top : s.curr_address ≡ tr.top_address
    pub sound : IsSound tr
    pub extends : Extends sizes before tr
    pub agrees : Agrees sizes tr s.result.vm_offsets

  module _ (small : IsSmall) (before : VmAddressTracker) where
    pack-Kept :
        (c : CandidateEntry) (s : Packing state params)
        → c.size ≡ sizes c.value
        → Kept before s
        → Kept before (pack state params c s)
    unfolding pack get_existing_address
    pack-Kept c s sized k = elim (Bool-cases (is_positive c.gain)) [
      | inr no_gain ↦
          rw (no_gain, pack)
            (record {
              tr = k.tr;
              is_tracker = k.is_tracker;
              at_top = k.at_top;
              sound = k.sound;
              extends = k.extends;
              agrees = k.agrees;
            })
      | inl gain ↦ elim (Option-cases (find k.tr.allocated_vars c.value)) [
        | inr (a, old) ↦
            rw (gain, existing_of (some a) old, pack)
              (record {
                tr = k.tr;
                is_tracker = k.is_tracker;
                at_top = k.at_top;
                sound = k.sound;
                extends = k.extends;
                agrees = Agrees-assign sizes k.tr c.value a s.result.vm_offsets old k.agrees;
              })
        | inl fresh ↦
            elim (Bool-cases (leb (wrap (s.curr_address + c.size)) params.vm_capacity_bytes)) [
              | inr full ↦
                  rw (gain, existing_of none fresh, full, pack)
                    (record {
                      tr = k.tr;
                      is_tracker = k.is_tracker;
                      at_top = k.at_top;
                      sound = k.sound;
                      extends = k.extends;
                      agrees = k.agrees;
                    })
              | inl room ↦
                  let no_wrap : k.tr.top_address + sizes c.value < 4294967296 =
                    omega (arith, k.sound.fits, small.capacity, small.size c.value) in
                  let top = top-record_allocation sizes k.tr c.value fresh no_wrap in
                  let sum : s.curr_address + c.size ≡ k.tr.top_address + sizes c.value =
                    omega (arith, k.at_top, sized) in
                  let same : wrap (s.curr_address + c.size) ≡ k.tr.top_address + sizes c.value =
                    ap wrap sum ∙ mod-eq_of_lt no_wrap in
                  let longer = record_allocation-Extends sizes k.tr c.value fresh no_wrap in
                  rw (gain, existing_of none fresh, room, pack)
                    (record {
                      tr = record_allocation k.tr c.value (sizes c.value);
                      is_tracker = rw (k.is_tracker, sized) refl;
                      at_top = same ∙ sym top;
                      sound = record {
                        packed =
                            record_allocation-IsPacked sizes k.tr c.value fresh no_wrap
                              k.sound.packed;
                        fits = ground (arith, top, same, room);
                      };
                      extends = λ v a h. longer v a (k.extends v a h);
                      agrees =
                          Agrees-assign sizes (record_allocation k.tr c.value (sizes c.value))
                            c.value s.curr_address s.result.vm_offsets
                            (find-record_allocation sizes k.tr c.value fresh no_wrap
                              ∙ ap some (sym k.at_top))
                            (Agrees-Extends sizes k.tr
                              (record_allocation k.tr c.value (sizes c.value)) s.result.vm_offsets
                              longer k.agrees);
                    })
            ]
      ]
    ]
      where
        existing_of :
            (o : Option ℕ)
            → find k.tr.allocated_vars c.value ≡ o
            → existing_address state params s.tracker c.value ≡ o
        existing_of o h = rw k.is_tracker h

    pub pack_all-Kept :
        (cs : List CandidateEntry) (s : Packing state params)
        → ((c : CandidateEntry) → Memᴰ c cs → c.size ≡ sizes c.value)
        → Kept before s
        → Kept before (pack_all state params cs s)
    unfolding pack_all
    pack_all-Kept [] s sized k = k
    pack_all-Kept (c ∷ cs) s sized k =
        pack_all-Kept cs (pack state params c s) (λ d m. sized d (Memᴰ.tail m))
          (pack-Kept c s (sized c (Memᴰ.head refl)) k)
