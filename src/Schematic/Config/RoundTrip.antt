-- ===== src/Schematic/Config/RoundTrip.antt =====
-- Configs of `parseSchematicParams`, passes/src/schematic/SchematicParams.cpp, written out: the
-- markers in the `schematic` section, or at the root as in the legacy format.
use bao.Prelude.{ℕ, ◌%◌, ◌^◌, ◌<◌, ◌≡◌, refl, Bool, true, false, Option, none, some, arith}
use bao.Milp.Energy.Config.{Doubles, Json, unsigned_number, other_number, boolean}
use bao.Schematic.Config.{
  capacity, e_pro, e_epi, reg_store_energy, reg_restore_energy, nvm_access_penalty,
  mem_store_energy_per_byte, mem_restore_energy_per_byte, loop_increment_cost_nvm, call_cost, n_reg,
  vm_capacity_bytes, add_debug_markers, SchematicObject, SchematicConfig, ParsedSchematicParams,
  parse_schematic_params,
}

mod_fits : (k : ℕ) → k < 2 ^ 32 → k % 2 ^ 32 ≡ k
mod_fits k h = omega arith

module _ {Double : Type 0} (d : Doubles Double) (p : ParsedSchematicParams Double) where
  abbrev pub root_fields : Option (Json Double) → SchematicObject Double
  root_fields markers capacity = some (other_number p.capacity)
  root_fields markers e_pro = some (other_number p.e_pro)
  root_fields markers e_epi = some (other_number p.e_epi)
  root_fields markers reg_store_energy = some (other_number p.reg_store_energy)
  root_fields markers reg_restore_energy = some (other_number p.reg_restore_energy)
  root_fields markers nvm_access_penalty = some (other_number p.nvm_access_penalty)
  root_fields markers mem_store_energy_per_byte = some (other_number p.mem_store_energy_per_byte)
  root_fields markers mem_restore_energy_per_byte =
      some (other_number p.mem_restore_energy_per_byte)
  root_fields markers loop_increment_cost_nvm = some (other_number p.loop_increment_cost_nvm)
  root_fields markers call_cost = some (other_number p.call_cost)
  root_fields markers n_reg = some (unsigned_number p.n_reg)
  root_fields markers vm_capacity_bytes = some (unsigned_number p.vm_capacity_bytes)
  root_fields markers add_debug_markers = markers

  abbrev pub section_fields : SchematicObject Double
  section_fields add_debug_markers = some (boolean p.add_debug_markers)
  section_fields f = none

  -- In the legacy format there is no section. `stale` is what the root holds for the markers beside a
  -- section that has them.
  abbrev pub render_schematic : Bool → Option (Json Double) → SchematicConfig Double
  render_schematic true stale = record {
    root = root_fields (some (boolean p.add_debug_markers));
    sch_section = none;
  }
  render_schematic false stale = record {
    root = root_fields stale;
    sch_section = some section_fields;
  }

  -- A config in either format parses to the parameters that it was written from, if the two counts
  -- fit 32 bits; what the root holds for `add_debug_markers` does not matter beside a section with it.
  pub parse_schematic_params-render_schematic :
      (is_legacy : Bool)
      → (stale : Option (Json Double)) → p.n_reg < 2 ^ 32
      → p.vm_capacity_bytes < 2 ^ 32
      → parse_schematic_params d (some (render_schematic is_legacy stale)) ≡ some p
  unfolding parse_schematic_params
  parse_schematic_params-render_schematic true stale regs bytes =
      rw (mod_fits p.n_reg regs, mod_fits p.vm_capacity_bytes bytes) refl
  parse_schematic_params-render_schematic false stale regs bytes =
      rw (mod_fits p.n_reg regs, mod_fits p.vm_capacity_bytes bytes) refl
