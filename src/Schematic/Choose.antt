-- ===== src/Schematic/Choose.antt =====
-- `chooseMemoryAllocation` and `computeCost` of passes/src/schematic/MemoryAllocator.cpp: which values
-- of an interval go into volatile memory, and what the interval costs.
pub mod Packed
pub mod Cost
pub mod Disjoint
mod Tests
use bao.Prelude.{
  ℕ, zero, suc, ◌+◌, ◌-◌, ◌*◌, ◌%◌, ◌^◌, Bool, true, false, not, ◌&&◌, ◌||◌, Option, none, some,
  List, [], ◌∷◌, ◌++◌, ◌==◌, if◌then◌else◌, leb, sum_map,
}
use bao.Schematic.Types.{
  Block, SchematicParams, Placement, vm, nvm, VariableAllocation, RegionAllocation,
}
use bao.Schematic.Entries.{find, assign}
use bao.Schematic.Allocator.{
  Value, wrap, VmAddressTracker, get_existing_address, record_allocation, StateView, need_restore,
  need_save, empty_allocation, Balance, is_positive, add_balance, estimate_energy_gain,
  first_access_is_load, merge_allocations, VariableAccessEstimate, CandidateEntry,
}

abbrev pub is_some {ℓ} : {A : Type ℓ} → Option A → Bool
is_some none = false
is_some (some a) = true

module _ (state : StateView) where
  -- `nR` and `nW`, which are unsigned.
  abbrev pub reads_in : List Block → Value → ℕ
  reads_in blocks v =
      sum_map (λ b. if state.has_code b then state.load_count b v else 0) blocks % 2 ^ 32

  abbrev pub writes_in : List Block → Value → ℕ
  writes_in blocks v =
      sum_map (λ b. if state.has_code b then state.store_count b v else 0) blocks % 2 ^ 32

  abbrev pub accesses_in : List Block → Value → ℕ
  accesses_in blocks v = (reads_in blocks v + writes_in blocks v) % 2 ^ 32

  -- The first of the two functions: the accesses of the candidates that have any.
  unfoldable pub variable_accesses :
      List Block
      → List Value
      → List (Value × VariableAccessEstimate)
      → List (Value × VariableAccessEstimate)
  unfolding first_access_is_load assign
  variable_accesses blocks [] accesses = accesses
  variable_accesses blocks (v ∷ vs) accesses = variable_accesses blocks vs (
      if reads_in blocks v == 0 && writes_in blocks v == 0
      then accesses
      else assign v
          record {
            access_count = accesses_in blocks v;
            needs_restore = first_access_is_load state v blocks;
            needs_save = true;
          }
          accesses)

  -- Another allocation is merged in, if there is one, and no checkpoint may grow.
  abbrev pub merge_boundary :
      Option RegionAllocation → Option RegionAllocation → Option RegionAllocation
  merge_boundary _ none = none
  merge_boundary none (some constrained) = some constrained
  merge_boundary (some a) (some constrained) = merge_allocations state (a ∷ constrained ∷ []) false

  -- What earlier decisions fix, or `none` where they conflict.
  unfoldable pub constrained_alloc :
      List RegionAllocation
      → Option RegionAllocation
      → Option RegionAllocation
      → Option RegionAllocation
  constrained_alloc memory_allocations start_alloc end_alloc =
      merge_boundary end_alloc
        (merge_boundary start_alloc (merge_allocations state memory_allocations true))

  module _ (params : SchematicParams) where
    unfoldable pub constrained_spent : List (Value × VariableAllocation) → ℕ
    constrained_spent [] = 0
    constrained_spent ((v, va) ∷ vars) =
        (if need_restore va then params.mem_restore_energy_per_byte * state.var_size_bytes v else 0)
        + (if need_save va then params.mem_store_energy_per_byte * state.var_size_bytes v else 0)
        + constrained_spent vars

    abbrev pub set_nvm : Value → Bool → Bool → RegionAllocation → RegionAllocation
    set_nvm v restore save result = record result {
      vars =
          assign v record { placement = nvm; raw_need_restore = restore; raw_need_save = save }
            result.vars;
    }

    -- One candidate with its accesses: into non-volatile memory, or on to the packing.
    unfoldable pub classify :
        Bool
        → Bool
        → Value
        → VariableAccessEstimate
        → RegionAllocation × List CandidateEntry
        → RegionAllocation × List CandidateEntry
    classify has_start has_end v access (result, entries) =
        if state.is_pointer_type v
          || access.needs_restore && has_start
          || access.needs_save && has_end
        then (set_nvm v access.needs_restore access.needs_save result, entries)
        else (
          result,
          entries
              ++ record {
                value = v;
                gain =
                    estimate_energy_gain params access.access_count (state.var_size_bytes v)
                      access.needs_restore access.needs_save;
                size = state.var_size_bytes v;
                restore = access.needs_restore;
                save = access.needs_save;
              }
                ∷ [],
        )

    unfoldable pub classify_all :
        Bool
        → Bool
        → List (Value × VariableAccessEstimate)
        → List Value
        → RegionAllocation × List CandidateEntry
        → RegionAllocation × List CandidateEntry
    classify_all has_start has_end accesses [] s = s
    classify_all has_start has_end accesses (v ∷ vs) s =
        classify_all has_start has_end accesses vs (
          if is_some (find s.0.vars v) then s else elim (find accesses v) [
            | none ↦ s
            | some access ↦
                if access.access_count == 0 then s else classify has_start has_end v access s
          ])

    -- The packing: the next address, the tracker if there is one, the allocation and the gain.
    pub record Packing : Type 0 where
      pub curr_address : ℕ
      pub tracker : Option VmAddressTracker
      pub result : RegionAllocation
      pub total_gain : Balance

    abbrev pub set_vm : CandidateEntry → ℕ → RegionAllocation → RegionAllocation
    set_vm c address result = record result {
      vars =
          assign c.value
            record { placement = vm; raw_need_restore = c.restore; raw_need_save = c.save }
            result.vars;
      vm_offsets = assign c.value address result.vm_offsets;
    }

    abbrev pub existing_address : Option VmAddressTracker → Value → Option ℕ
    existing_address none v = none
    existing_address (some tracker) v = get_existing_address tracker v

    abbrev pub record_in : Option VmAddressTracker → Value → ℕ → Option VmAddressTracker
    record_in none v size = none
    record_in (some tracker) v size = some (record_allocation tracker v size)

    unfoldable pub pack : CandidateEntry → Packing → Packing
    pack c s =
        if is_positive c.gain
        then elim (existing_address s.tracker c.value) [
          | some address ↦ record s {
            result = set_vm c address s.result;
            total_gain = add_balance s.total_gain c.gain;
          }
          | none ↦
              if leb (wrap (s.curr_address + c.size)) params.vm_capacity_bytes
              then record {
                curr_address = wrap (s.curr_address + c.size);
                tracker = record_in s.tracker c.value c.size;
                result = set_vm c s.curr_address s.result;
                total_gain = add_balance s.total_gain c.gain;
              }
              else record s { result = set_nvm c.value c.restore c.save s.result }
        ]
        else record s { result = set_nvm c.value c.restore c.save s.result }

    unfoldable pub pack_all : List CandidateEntry → Packing → Packing
    pack_all [] s = s
    pack_all (c ∷ cs) s = pack_all cs (pack c s)

    abbrev pub top_of : Option VmAddressTracker → ℕ
    top_of none = 0
    top_of (some tracker) = tracker.top_address

    pub record Choice : Type 0 where
      pub allocation : RegionAllocation
      pub gain : Balance
      pub tracker : Option VmAddressTracker

    -- `sort` is `std::sort` by falling gain, which leaves the order of equal gains open; `conflict`
    -- is 99999 in the unit of the energies.
    module _ (sort : List CandidateEntry → List CandidateEntry) (conflict : ℕ) where
      unfoldable pub choose_memory_allocation :
          List (Value × VariableAccessEstimate)
          → Option RegionAllocation
          → Option RegionAllocation
          → List RegionAllocation
          → Option VmAddressTracker
          → Choice
      choose_memory_allocation accesses start_alloc end_alloc memory_allocations tracker =
          elim (constrained_alloc memory_allocations start_alloc end_alloc) [
            | none ↦ record {
              allocation = empty_allocation;
              gain = record { earned = 0; spent = conflict };
              tracker = tracker;
            }
            | some constrained ↦
                let (classified, entries) =
                  classify_all (is_some start_alloc) (is_some end_alloc) accesses state.candidates
                    (constrained, []) in
                let packed = pack_all (sort entries) record {
                  curr_address = top_of tracker;
                  tracker = tracker;
                  result = classified;
                  total_gain = record { earned = 0; spent = constrained_spent constrained.vars };
                } in
                record {
                  allocation = record packed.result { vm_bytes_used = packed.curr_address };
                  gain = packed.total_gain;
                  tracker = packed.tracker;
                }
          ]

      abbrev pub allocations_of :
          (Block → Option RegionAllocation) → List Block → List RegionAllocation
      allocations_of block_allocation [] = []
      allocations_of block_allocation (b ∷ bs) = elim (block_allocation b) [
        | none ↦ allocations_of block_allocation bs
        | some a ↦ a ∷ allocations_of block_allocation bs
      ]

      -- The blocks at the cost of non-volatile memory.
      abbrev pub execution_energy : List Block → ℕ
      execution_energy blocks =
          sum_map (λ b. if state.has_code b then state.energy_cost b else 0) blocks

      -- The energy is `charged - credited`.
      pub record ComputeCostResult : Type 0 where
        pub allocation : RegionAllocation
        pub charged : ℕ
        pub credited : ℕ
        pub tracker : Option VmAddressTracker

      unfoldable pub compute_cost :
          (Block → Option RegionAllocation)
          → Option VmAddressTracker
          → List Block
          → Option RegionAllocation
          → Option RegionAllocation
          → ComputeCostResult
      compute_cost block_allocation tracker [] start_alloc end_alloc = record {
        allocation = empty_allocation;
        charged = 0;
        credited = 0;
        tracker = tracker;
      }
      compute_cost block_allocation tracker (b ∷ bs) start_alloc end_alloc =
          let choice =
            choose_memory_allocation (variable_accesses (b ∷ bs) state.candidates []) start_alloc
              end_alloc (allocations_of block_allocation (b ∷ bs)) tracker in
          record {
            allocation = choice.allocation;
            charged = execution_energy (b ∷ bs) + choice.gain.spent;
            credited = choice.gain.earned;
            tracker = choice.tracker;
          }
