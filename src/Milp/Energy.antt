-- ===== src/Milp/Energy.antt =====
-- `EnergyModel` and `parseMILPEnergyParams` of passes/src/milp/EnergyModel.cpp.
-- The profile counts, the access counts, the sizes and the kinds of the values are parameters: the
-- analyses fill them from LLVM. A ratio of two counts is kept as the pair. Log output is left out.
pub mod Config
pub mod RoundTrip
pub mod Maps
pub mod Laws
mod Tests
use bao.Prelude.{
  ℕ, zero, suc, ◌+◌, ◌*◌, ◌%◌, ◌^◌, max, Bool, true, false, ◌||◌, Option, none, some, List, [], ◌∷◌,
  ◌++◌, ◌==◌, if◌then◌else◌, length, contains,
}
use bao.Milp.Views.{NodeId, Value}
use bao.Milp.Graph.{Edges, build_successor_map, search}

pub record EnergyInput : Type 0 where
  -- `F`, with the edges between its blocks
  pub function_blocks : List NodeId
  pub edges : Edges
  pub entry : NodeId
  -- `BBFreqLoader::getBlockCount`
  pub block_count : NodeId → Option ℕ
  -- `CFGAnalysis`
  pub blocks : List NodeId
  pub block_energy_cost : NodeId → ℕ
  -- `StateAnalysis`
  pub vm_objs : List Value
  pub ineligible_objs : List Value
  pub load_count : NodeId → Value → ℕ
  pub store_count : NodeId → Value → ℕ
  pub var_size_bytes : Value → ℕ
  -- an `Instruction` other than an `AllocaInst`
  pub is_register : Value → Bool
  -- `MILPEnergyParams`
  pub nvm_access_penalty : ℕ
  pub reg_store_energy : ℕ
  pub reg_restore_energy : ℕ
  pub mem_store_energy_per_byte : ℕ
  pub mem_restore_energy_per_byte : ℕ

-- The maps of the class: a missing key is `none`.
pub record EnergyMaps : Type 0 where
  pub f_entry : NodeId → Option (ℕ × ℕ)
  pub e_nvm : NodeId → Value → Option ℕ
  pub e_save_by_var : Value → Option ℕ
  pub e_restore_by_var : Value → Option ℕ

abbrev pub no_maps : EnergyMaps
no_maps = record {
  f_entry = λ b. none;
  e_nvm = λ b v. none;
  e_save_by_var = λ v. none;
  e_restore_by_var = λ v. none;
}

abbrev pub put_at_key {ℓ} : {A : Type ℓ} → ℕ → A → (ℕ → Option A) → ℕ → Option A
put_at_key k a f j = if j == k then some a else f j

module _ (inp : EnergyInput) where
  -- The blocks that the worklist reaches from the entry.
  abbrev pub reachable_blocks : List NodeId
  reachable_blocks =
      search (build_successor_map inp.edges) (length inp.edges + 2) (inp.entry ∷ [], inp.entry ∷ [])

  -- A reachable block without a count.
  abbrev pub is_missing : NodeId → Bool
  is_missing b = elim (inp.block_count b) [ none ↦ contains reachable_blocks b | some n ↦ false ]

  abbrev pub frequency : ℕ → NodeId → ℕ × ℕ
  frequency entry_count b = elim (inp.block_count b) [ none ↦ (0, 1) | some n ↦ (n, entry_count) ]

  -- The loop over the blocks of the function. A fatal error is `none`.
  unfoldable pub frequencies_over :
      ℕ → List NodeId → (NodeId → Option (ℕ × ℕ)) → Option (NodeId → Option (ℕ × ℕ))
  frequencies_over entry_count [] f = some f
  frequencies_over entry_count (b ∷ bs) f =
      let rest = frequencies_over entry_count bs (put_at_key b (frequency entry_count b) f) in
      if is_missing b then none else rest

  -- `computeFrequenciesFromFile`
  unfoldable pub compute_frequencies_from_file : EnergyMaps → Option EnergyMaps
  unfolding frequencies_over
  compute_frequencies_from_file maps = elim (inp.block_count inp.entry) [
    | none ↦ none
    | some count ↦ elim (frequencies_over (max count 1) inp.function_blocks maps.f_entry) [
      | none ↦ none
      | some f ↦ some (record maps { f_entry = f })
    ]
  ]

  abbrev pub put_option : Value → Option ℕ → (Value → Option ℕ) → Value → Option ℕ
  put_option v none f = f
  put_option v (some e) f = put_at_key v e f

  -- `computeForGV`: what it sets the penalty to, if anything. The sum of the counts is unsigned.
  abbrev pub nvm_penalty : NodeId → Value → Option ℕ
  nvm_penalty b v = elim ((inp.load_count b v + inp.store_count b v) % 2 ^ 32) [
    | zero ↦ none
    | suc n ↦ some (suc n * inp.nvm_access_penalty)
  ]

  -- The inner loop of `computeNvmPenalties`.
  unfoldable pub nvm_penalties_of :
      NodeId → List Value → (NodeId → Value → Option ℕ) → NodeId → Value → Option ℕ
  nvm_penalties_of b [] e = e
  nvm_penalties_of b (v ∷ vs) e =
      nvm_penalties_of b vs
        (λ c w. if c == b then put_option v (nvm_penalty b v) (e b) w else e c w)

  -- `computeNvmPenalties`
  unfoldable pub nvm_penalties_over :
      List NodeId → (NodeId → Value → Option ℕ) → NodeId → Value → Option ℕ
  unfolding nvm_penalties_of
  nvm_penalties_over [] e = e
  nvm_penalties_over (b ∷ bs) e = nvm_penalties_over bs (nvm_penalties_of b inp.vm_objs e)

  -- `computeForVar`: what it saves and restores a value for, where it sets the maps.
  abbrev pub save_cost : Value → Option ℕ
  save_cost v =
      if inp.is_register v then some inp.reg_store_energy else elim (inp.var_size_bytes v) [
        | zero ↦ none
        | suc n ↦ some (suc n * inp.mem_store_energy_per_byte)
      ]

  abbrev pub restore_cost : Value → Option ℕ
  restore_cost v =
      if inp.is_register v then some inp.reg_restore_energy else elim (inp.var_size_bytes v) [
        | zero ↦ none
        | suc n ↦ some (suc n * inp.mem_restore_energy_per_byte)
      ]

  unfoldable pub save_restore_over : List Value → EnergyMaps → EnergyMaps
  save_restore_over [] maps = maps
  save_restore_over (v ∷ vs) maps = save_restore_over vs record maps {
    e_save_by_var = put_option v (save_cost v) maps.e_save_by_var;
    e_restore_by_var = put_option v (restore_cost v) maps.e_restore_by_var;
  }

  -- `computeSaveRestoreCosts`
  unfoldable pub compute_save_restore_costs : EnergyMaps → EnergyMaps
  unfolding save_restore_over
  compute_save_restore_costs maps =
      save_restore_over inp.ineligible_objs (save_restore_over inp.vm_objs maps)

  -- The constructor.
  unfoldable pub energy_model : Option EnergyMaps
  unfolding compute_frequencies_from_file nvm_penalties_over compute_save_restore_costs
  energy_model = elim (compute_frequencies_from_file no_maps) [
    | none ↦ none
    | some maps ↦ some (
        compute_save_restore_costs record maps { e_nvm = nvm_penalties_over inp.blocks maps.e_nvm })
  ]

abbrev pub or_default {ℓ} : {A : Type ℓ} → A → Option A → A
or_default d none = d
or_default d (some a) = a

unfoldable pub get_e_base : EnergyInput → NodeId → ℕ
get_e_base inp b = inp.block_energy_cost b

unfoldable pub get_e_nvm : EnergyMaps → NodeId → Value → ℕ
get_e_nvm maps b v = or_default 0 (maps.e_nvm b v)

unfoldable pub get_e_save : EnergyMaps → Value → ℕ
get_e_save maps v = or_default 0 (maps.e_save_by_var v)

unfoldable pub get_e_restore : EnergyMaps → Value → ℕ
get_e_restore maps v = or_default 0 (maps.e_restore_by_var v)

unfoldable pub get_f_entry : EnergyMaps → NodeId → ℕ × ℕ
get_f_entry maps b = or_default (1, 1) (maps.f_entry b)
