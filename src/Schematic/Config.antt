-- ===== src/Schematic/Config.antt =====
-- `parseSchematicParams` of passes/src/schematic/SchematicParams.cpp, over the JSON values of
-- Milp/Energy/Config.
use bao.Prelude.{ℕ, Bool, true, false, ◌&&◌, Option, none, some, List, [], ◌∷◌, if◌then◌else◌}
use bao.Milp.Energy.Config.{
  Doubles, Json, is_number, is_number_unsigned, get_double, get_unsigned, read_bool,
}
mod RoundTrip
mod Tests

pub data SchematicField : Type 0 where
  capacity e_pro e_epi reg_store_energy reg_restore_energy nvm_access_penalty : SchematicField
  mem_store_energy_per_byte mem_restore_energy_per_byte loop_increment_cost_nvm : SchematicField
  call_cost n_reg vm_capacity_bytes add_debug_markers : SchematicField

abbrev pub SchematicObject : Type 0 → Type 0
SchematicObject Double = SchematicField → Option (Json Double)

-- A config file that opens and parses: the root, and the `schematic` section where that is an object.
pub record SchematicConfig (Double : Type 0) : Type 0 where
  pub root : SchematicObject Double
  pub sch_section : Option (SchematicObject Double)

pub record ParsedSchematicParams (Double : Type 0) : Type 0 where
  pub capacity : Double
  pub e_pro : Double
  pub e_epi : Double
  pub n_reg : ℕ
  pub reg_store_energy : Double
  pub reg_restore_energy : Double
  pub nvm_access_penalty : Double
  pub mem_store_energy_per_byte : Double
  pub mem_restore_energy_per_byte : Double
  pub vm_capacity_bytes : ℕ
  pub loop_increment_cost_nvm : Double
  pub call_cost : Double
  pub add_debug_markers : Bool

abbrev pub double_fields : List SchematicField
double_fields =
    capacity ∷ e_pro ∷ e_epi ∷ reg_store_energy ∷ reg_restore_energy ∷ nvm_access_penalty
    ∷ mem_store_energy_per_byte ∷ mem_restore_energy_per_byte ∷ loop_increment_cost_nvm ∷ call_cost
    ∷ []

abbrev pub unsigned_fields : List SchematicField
unsigned_fields = n_reg ∷ vm_capacity_bytes ∷ []

module _ {Double : Type 0} (d : Doubles Double) where
  abbrev pub has_doubles : SchematicObject Double → List SchematicField → Bool
  has_doubles root [] = true
  has_doubles root (f ∷ fs) = is_number d (root f) && has_doubles root fs

  abbrev pub has_unsigned : SchematicObject Double → List SchematicField → Bool
  has_unsigned root [] = true
  has_unsigned root (f ∷ fs) = is_number_unsigned d (root f) && has_unsigned root fs

  -- The first of the section and the root that has the key.
  abbrev pub find_in : SchematicConfig Double → SchematicField → Option (Json Double)
  find_in c key = elim c.sch_section [
    | none ↦ c.root key
    | some section ↦ elim (section key) [ some j ↦ some j | none ↦ c.root key ]
  ]

  abbrev pub with_markers :
      SchematicObject Double → Option Bool → Option (ParsedSchematicParams Double)
  with_markers root none = none
  with_markers root (some b) = some record {
    capacity = get_double d (root capacity);
    e_pro = get_double d (root e_pro);
    e_epi = get_double d (root e_epi);
    n_reg = get_unsigned d (root n_reg);
    reg_store_energy = get_double d (root reg_store_energy);
    reg_restore_energy = get_double d (root reg_restore_energy);
    nvm_access_penalty = get_double d (root nvm_access_penalty);
    mem_store_energy_per_byte = get_double d (root mem_store_energy_per_byte);
    mem_restore_energy_per_byte = get_double d (root mem_restore_energy_per_byte);
    vm_capacity_bytes = get_unsigned d (root vm_capacity_bytes);
    loop_increment_cost_nvm = get_double d (root loop_increment_cost_nvm);
    call_cost = get_double d (root call_cost);
    add_debug_markers = b;
  }

  -- `none` for the config is a file that does not open or is no JSON.
  unfoldable pub parse_schematic_params :
      Option (SchematicConfig Double) → Option (ParsedSchematicParams Double)
  parse_schematic_params none = none
  parse_schematic_params (some c) =
      if has_doubles c.root double_fields && has_unsigned c.root unsigned_fields
      then with_markers c.root (read_bool d (find_in c add_debug_markers) false)
      else none
