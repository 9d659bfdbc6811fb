-- ===== src/Milp/Energy/RoundTrip.antt =====
-- A config of `parseMILPEnergyParams`, passes/src/milp/EnergyModel.cpp, written out with every field.
use bao.Prelude.{ℕ, ◌%◌, ◌^◌, ◌<◌, ◌≡◌, refl, inl, inr, none, some, Bool-cases, arith}
use bao.Milp.Energy.Config.{
  Doubles, capacity, e_pro, e_epi, reg_store_energy, reg_restore_energy, nvm_access_penalty,
  mem_store_energy_per_byte, mem_restore_energy_per_byte, vm_capacity_bytes, n_reg,
  loop_strip_mining_enabled, loop_strip_mining_cost, loop_increment_cost_nvm,
  loop_increment_cost_nvm_o3, unsigned_number, other_number, boolean, JsonObject, MilpConfig,
  ParsedParams, read_cost, parse_milp_energy_params,
}

module _ {Double : Type 0} (d : Doubles Double) (p : ParsedParams Double) where
  -- The fields that stand at the root in every config.
  abbrev pub shared_fields : JsonObject Double
  shared_fields capacity = some (other_number p.capacity)
  shared_fields e_pro = some (other_number p.e_pro)
  shared_fields e_epi = some (other_number p.e_epi)
  shared_fields reg_store_energy = some (other_number p.reg_store_energy)
  shared_fields reg_restore_energy = some (other_number p.reg_restore_energy)
  shared_fields nvm_access_penalty = some (other_number p.nvm_access_penalty)
  shared_fields mem_store_energy_per_byte = some (other_number p.mem_store_energy_per_byte)
  shared_fields mem_restore_energy_per_byte = some (other_number p.mem_restore_energy_per_byte)
  shared_fields vm_capacity_bytes = some (unsigned_number p.vm_capacity_bytes)
  shared_fields n_reg = some (unsigned_number p.n_reg)
  shared_fields loop_strip_mining_enabled = none
  shared_fields loop_strip_mining_cost = none
  shared_fields loop_increment_cost_nvm = none
  shared_fields loop_increment_cost_nvm_o3 = none

  -- The fields of the `milp` section.
  abbrev pub milp_fields : JsonObject Double
  milp_fields loop_strip_mining_enabled = some (boolean p.loop_strip_mining_enabled)
  milp_fields loop_strip_mining_cost = some (other_number p.loop_strip_mining_cost)
  milp_fields f = none

  abbrev pub render : MilpConfig Double
  render = record { root = shared_fields; milp_section = some milp_fields }

  render-cost : read_cost d render ≡ some p.loop_strip_mining_cost
  render-cost = elim (Bool-cases (d.is_zero p.loop_strip_mining_cost)) [
    | inl t ↦ rw (t, t) refl
    | inr f ↦ rw (f, f) refl
  ]

  -- A config that holds the shared fields at the root and the others in its `milp` section parses to
  -- the parameters that it was written from, if the two counts fit 32 bits.
  pub parse-render :
      p.n_reg < 2 ^ 32
      → p.vm_capacity_bytes < 2 ^ 32
      → parse_milp_energy_params d (some render) ≡ some p
  unfolding parse_milp_energy_params
  parse-render regs bytes =
      rw (render-cost, small p.n_reg regs, small p.vm_capacity_bytes bytes) refl
    where
      small : (k : ℕ) → k < 2 ^ 32 → k % 2 ^ 32 ≡ k
      small k h = omega arith
