-- ===== src/Milp/Energy/Tests.antt =====
-- The energy model of two blocks and a config, and the theorems applied to them.
use bao.Prelude.{
  ℕ, ◌+◌, ◌*◌, ◌%◌, ◌^◌, max, ◌≡◌, refl, inl, true, none, some, [], ◌∷◌, ◌==◌, if◌then◌else◌,
  contains, arith,
}
use bao.Milp.Graph.Entry.{IsReachable}
use bao.Milp.Energy.{
  EnergyInput, EnergyMaps, frequencies_over, compute_frequencies_from_file, nvm_penalties_over,
  compute_save_restore_costs, energy_model, get_e_nvm, get_e_save, get_e_restore, get_f_entry,
}
use bao.Milp.Energy.Config.{Doubles, ParsedParams, parse_milp_energy_params}
use bao.Milp.Energy.RoundTrip.{render, parse-render}
use bao.Milp.Energy.Laws.{energy_model-frequency, energy_model-nvm, energy_model-copies}

abbrev two_blocks : EnergyInput
two_blocks = record {
  function_blocks = 0 ∷ 1 ∷ [];
  edges = (0, 1) ∷ [];
  entry = 0;
  block_count = λ b. if b == 0 then some 2 else some 10;
  blocks = 0 ∷ 1 ∷ [];
  block_energy_cost = λ b. 5;
  vm_objs = 7 ∷ [];
  ineligible_objs = 9 ∷ [];
  load_count = λ b v. 2;
  store_count = λ b v. 1;
  var_size_bytes = λ v. 4;
  is_register = λ v. v == 9;
  nvm_access_penalty = 3;
  reg_store_energy = 8;
  reg_restore_energy = 6;
  mem_store_energy_per_byte = 2;
  mem_restore_energy_per_byte = 1;
}

abbrev sample_maps : EnergyMaps
sample_maps = compute_save_restore_costs two_blocks record {
  f_entry = λ b. if b == 1 then some (10, 2) else if b == 0 then some (2, 2) else none;
  e_nvm = nvm_penalties_over two_blocks (0 ∷ 1 ∷ []) (λ b v. none);
  e_save_by_var = λ v. none;
  e_restore_by_var = λ v. none;
}

sample_model : energy_model two_blocks ≡ some sample_maps
unfolding energy_model compute_frequencies_from_file frequencies_over
sample_model = refl

energy_model-frequency_example :
    (k : ℕ) × (some 2 ≡ some k)
    × ((n : ℕ) → two_blocks.block_count 1 ≡ some n → get_f_entry sample_maps 1 ≡ (n, max k 1))
    × (two_blocks.block_count 1 ≡ none
        → (get_f_entry sample_maps 1 ≡ (0, 1)) × ¬ IsReachable ((0, 1) ∷ []) 0 1)
unfolding contains
energy_model-frequency_example = energy_model-frequency two_blocks sample_maps 1 sample_model refl

energy_model-nvm_example : get_e_nvm sample_maps 1 7 ≡ ((2 + 1) % 2 ^ 32) * 3
unfolding contains
energy_model-nvm_example = energy_model-nvm two_blocks sample_maps 1 7 sample_model refl refl

energy_model-copies_example :
    (get_e_save sample_maps 7 ≡ 4 * 2) × (get_e_restore sample_maps 7 ≡ 4 * 1)
unfolding contains
energy_model-copies_example = energy_model-copies two_blocks sample_maps 7 sample_model (inl refl)

-- Whole numbers in place of the floating-point ones.
abbrev whole_doubles : Doubles ℕ
whole_doubles = record { zero_double = 0; is_zero = λ x. x == 0; of_unsigned = λ n. n }

abbrev sample_params : ParsedParams ℕ
sample_params = record {
  capacity = 100;
  e_pro = 5;
  e_epi = 3;
  n_reg = 16;
  reg_store_energy = 8;
  reg_restore_energy = 6;
  nvm_access_penalty = 3;
  mem_store_energy_per_byte = 2;
  mem_restore_energy_per_byte = 1;
  vm_capacity_bytes = 2048;
  loop_strip_mining_cost = 0;
  loop_strip_mining_enabled = true;
}

parse-render_example :
    parse_milp_energy_params whole_doubles (some (render whole_doubles sample_params))
    ≡ some sample_params
parse-render_example = parse-render whole_doubles sample_params (omega arith) (omega arith)
