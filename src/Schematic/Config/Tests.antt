-- ===== src/Schematic/Config/Tests.antt =====
-- Tests of the model of passes/src/schematic/SchematicParams.cpp, and the result at a concrete config.
use bao.Prelude.{ℕ, ◌≡◌, refl, true, false, none, some, ◌==◌, arith}
use bao.Milp.Energy.Config.{Doubles, unsigned_number}
use bao.Schematic.Config.{ParsedSchematicParams, parse_schematic_params}
use bao.Schematic.Config.RoundTrip.{
  root_fields, render_schematic, parse_schematic_params-render_schematic,
}

abbrev integral_doubles : Doubles ℕ
integral_doubles = record { zero_double = 0; is_zero = λ x. x == 0; of_unsigned = λ n. n }

abbrev msp430_params : ParsedSchematicParams ℕ
msp430_params = record {
  capacity = 5000;
  e_pro = 40;
  e_epi = 35;
  n_reg = 16;
  reg_store_energy = 3;
  reg_restore_energy = 2;
  nvm_access_penalty = 4;
  mem_store_energy_per_byte = 6;
  mem_restore_energy_per_byte = 5;
  vm_capacity_bytes = 2048;
  loop_increment_cost_nvm = 11;
  call_cost = 9;
  add_debug_markers = true;
}

-- A number in place of the markers of a legacy config is refused.
bad_markers :
    parse_schematic_params integral_doubles (
      some (record {
        root = root_fields integral_doubles msp430_params (some (unsigned_number 1));
        sch_section = none;
      }))
    ≡ none
unfolding parse_schematic_params
bad_markers = refl

parse_schematic_params-render_schematic_example :
    parse_schematic_params integral_doubles
      (some (render_schematic integral_doubles msp430_params false (some (unsigned_number 1))))
    ≡ some msp430_params
parse_schematic_params-render_schematic_example =
    parse_schematic_params-render_schematic integral_doubles msp430_params false
      (some (unsigned_number 1)) (omega arith) (omega arith)
