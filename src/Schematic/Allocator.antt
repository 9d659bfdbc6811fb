-- ===== src/Schematic/Allocator.antt =====
-- passes/src/schematic/MemoryAllocator.cpp: the addresses in volatile memory, the merge of
-- allocations, the greedy choice for an interval and its cost.
-- Values stand for their addresses. A gain keeps what is earned and what is spent apart.
-- Log output is left out.
pub mod Addresses
pub mod Merge
pub mod Placements
use bao.Prelude.{
  ℕ, zero, suc, ◌+◌, ◌-◌, ◌*◌, ◌%◌, Bool, true, false, not, ◌&&◌, ◌||◌, Option, none, some, List,
  [], ◌∷◌, ◌++◌, ◌==◌, if◌then◌else◌, ltb, leb,
}
use bao.Schematic.Types.{
  Block, SchematicParams, Placement, vm, nvm, VariableAllocation, RegionAllocation,
}
use bao.Schematic.Entries.{find, assign}

abbrev pub Value : Type 0
Value = ℕ

-- `unsigned` arithmetic.
abbrev pub wrap : ℕ → ℕ
wrap n = n % 4294967296

pub record VmAddressTracker : Type 0 where
  pub allocated_vars : List (Value × ℕ)
  pub top_address : ℕ

abbrev pub reset : VmAddressTracker
reset = record { allocated_vars = []; top_address = 0 }

unfoldable pub get_existing_address : VmAddressTracker → Value → Option ℕ
get_existing_address tracker v = find tracker.allocated_vars v

-- The address is the old top.
unfoldable pub record_allocation : VmAddressTracker → Value → ℕ → VmAddressTracker
record_allocation tracker v size = record {
  allocated_vars = assign v tracker.top_address tracker.allocated_vars;
  top_address = wrap (tracker.top_address + size);
}

-- What the state analysis and the control flow say of values and blocks. `has_code` is false for a
-- block without one of LLVM's.
pub record StateView : Type 0 where
  pub candidates : List Value
  pub has_code : Block → Bool
  pub load_count : Block → Value → ℕ
  pub store_count : Block → Value → ℕ
  pub first_op_is_load : Block → Value → Option Bool
  pub var_size_bytes : Value → ℕ
  pub is_pointer_type : Value → Bool
  pub energy_cost : Block → ℕ

abbrev pub is_vm : Placement → Bool
is_vm vm = true
is_vm nvm = false

abbrev pub need_restore : VariableAllocation → Bool
need_restore va = va.raw_need_restore && is_vm va.placement

abbrev pub need_save : VariableAllocation → Bool
need_save va = va.raw_need_save && is_vm va.placement

abbrev pub empty_allocation : RegionAllocation
empty_allocation = record { vars = []; vm_offsets = []; vm_bytes_used = 0; interval_energy = 0 }

pub record Balance : Type 0 where
  pub earned : ℕ
  pub spent : ℕ

abbrev pub is_positive : Balance → Bool
is_positive g = ltb g.spent g.earned

abbrev pub add_balance : Balance → Balance → Balance
add_balance g h = record { earned = g.earned + h.earned; spent = g.spent + h.spent }

unfoldable pub estimate_energy_gain : SchematicParams → ℕ → ℕ → Bool → Bool → Balance
estimate_energy_gain params access_count size restore save = record {
  earned = params.nvm_access_penalty * access_count;
  spent =
      (if restore then params.mem_restore_energy_per_byte * size else 0)
      + (if save then params.mem_store_energy_per_byte * size else 0);
}

-- `needRestore` of `computeSaveRestoreFlags`; `needSave` is always true.
unfoldable pub first_access_is_load : StateView → Value → List Block → Bool
first_access_is_load state v [] = false
first_access_is_load state v (b ∷ bs) =
    let rest = first_access_is_load state v bs in
    if state.has_code b
    then elim (state.first_op_is_load b v) [ none ↦ rest | some load ↦ load ]
    else rest

-- The half-open intervals of addresses in use.
abbrev pub Occupied : Type 0
Occupied = List (ℕ × ℕ)

unfoldable pub overlaps_any : ℕ → ℕ → Occupied → Bool
overlaps_any start end [] = false
overlaps_any start end ((s, e) ∷ rest) = ltb start e && ltb s end || overlaps_any start end rest

unfoldable pub occupied_by :
    StateView → List (Value × ℕ) → List (Value × VariableAllocation) → Occupied
occupied_by state offsets [] = []
occupied_by state offsets ((v, va) ∷ vars) =
    let rest = occupied_by state offsets vars in
    if is_vm va.placement
    then elim (find offsets v) [
      | none ↦ rest
      | some off ↦ (off, wrap (off + state.var_size_bytes v)) ∷ rest
    ]
    else rest

abbrev pub same_placement : Placement → Placement → Bool
same_placement vm p = is_vm p
same_placement nvm p = not (is_vm p)

abbrev pub differ : Option ℕ → Option ℕ → Bool
differ (some a) (some b) = not (a == b)
differ _ _ = false

-- One variable of an allocation that is merged, or `none` where the two do not fit.
unfoldable pub merge_var :
    StateView
    → Bool
    → List (Value × ℕ)
    → Value
    → VariableAllocation
    → RegionAllocation × Occupied
    → Option (RegionAllocation × Occupied)
merge_var state increase_allowed offsets v va (result, occupied) = elim (find result.vars v) [
  | some old ↦
      if same_placement old.placement va.placement
        && not (is_vm va.placement && differ (find result.vm_offsets v) (find offsets v))
      then some (result, occupied)
      else none
  | none ↦
      if is_vm va.placement
      then elim (find offsets v) [
        | some off ↦
            let end = wrap (off + state.var_size_bytes v) in
            if overlaps_any off end occupied
              || (need_restore va || need_save va) && not increase_allowed
            then none
            else some (
              record result {
                vars = assign v va result.vars;
                vm_offsets = assign v off result.vm_offsets;
              },
              occupied ++ (off, end) ∷ [],
            )
        | none ↦
            if (need_restore va || need_save va) && not increase_allowed
            then none
            else some (record result { vars = assign v va result.vars }, occupied)
      ]
      else some (record result { vars = assign v va result.vars }, occupied)
]

unfoldable pub merge_vars :
    StateView
    → Bool
    → List (Value × ℕ)
    → List (Value × VariableAllocation)
    → RegionAllocation × Occupied
    → Option (RegionAllocation × Occupied)
merge_vars state increase_allowed offsets [] s = some s
merge_vars state increase_allowed offsets ((v, va) ∷ vars) s =
    elim (merge_var state increase_allowed offsets v va s) [
      | none ↦ none
      | some s' ↦ merge_vars state increase_allowed offsets vars s'
    ]

unfoldable pub merge_rest :
    StateView
    → Bool
    → List RegionAllocation
    → RegionAllocation × Occupied
    → Option (RegionAllocation × Occupied)
merge_rest state increase_allowed [] s = some s
merge_rest state increase_allowed (a ∷ rest) s =
    elim (merge_vars state increase_allowed a.vm_offsets a.vars s) [
      | none ↦ none
      | some s' ↦ merge_rest state increase_allowed rest s'
    ]

-- `none` where two allocations do not fit.
unfoldable pub merge_allocations :
    StateView → List RegionAllocation → Bool → Option RegionAllocation
merge_allocations state [] increase_allowed = some empty_allocation
merge_allocations state (a ∷ rest) increase_allowed =
    elim (merge_rest state increase_allowed rest (a, occupied_by state a.vm_offsets a.vars)) [
      | none ↦ none
      | some s ↦ some s.0
    ]

pub record VariableAccessEstimate : Type 0 where
  pub access_count : ℕ
  pub needs_restore : Bool
  pub needs_save : Bool

pub record CandidateEntry : Type 0 where
  pub value : Value
  pub gain : Balance
  pub size : ℕ
  pub restore : Bool
  pub save : Bool
