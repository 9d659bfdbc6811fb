-- ===== src/Milp/Energy/Config.antt =====
-- `parseMILPEnergyParams` of passes/src/milp/EnergyModel.cpp.
-- A JSON object is what its keys hold, for the keys that are read. The floating-point numbers are a
-- parameter.
use bao.Prelude.{
  ℕ, ◌%◌, ◌^◌, Bool, true, false, ◌&&◌, Option, none, some, List, [], ◌∷◌, if◌then◌else◌,
}

pub record Doubles (Double : Type 0) : Type 0 where
  pub zero_double : Double
  -- `x == 0.0`
  pub is_zero : Double → Bool
  -- the conversion of an integer
  pub of_unsigned : ℕ → Double

pub data Field : Type 0 where
  capacity e_pro e_epi reg_store_energy reg_restore_energy nvm_access_penalty : Field
  mem_store_energy_per_byte mem_restore_energy_per_byte vm_capacity_bytes n_reg : Field
  loop_strip_mining_enabled loop_strip_mining_cost loop_increment_cost_nvm : Field
  loop_increment_cost_nvm_o3 : Field

pub data Json (Double : Type 0) : Type 0 where
  unsigned_number : ℕ → Json Double
  other_number : Double → Json Double
  boolean : Bool → Json Double
  other_json : Json Double

abbrev pub JsonObject : Type 0 → Type 0
JsonObject Double = Field → Option (Json Double)

-- A config file that opens and parses: the root, and the `milp` section where that is an object.
pub record MilpConfig (Double : Type 0) : Type 0 where
  pub root : JsonObject Double
  pub milp_section : Option (JsonObject Double)

pub record ParsedParams (Double : Type 0) : Type 0 where
  pub capacity : Double
  pub e_pro : Double
  pub e_epi : Double
  pub n_reg : ℕ
  pub reg_store_energy : Double
  pub reg_restore_energy : Double
  pub nvm_access_penalty : Double
  pub mem_store_energy_per_byte : Double
  pub mem_restore_energy_per_byte : Double
  pub vm_capacity_bytes : ℕ
  pub loop_strip_mining_cost : Double
  pub loop_strip_mining_enabled : Bool

abbrev pub required_double : List Field
required_double =
    capacity ∷ e_pro ∷ e_epi ∷ reg_store_energy ∷ reg_restore_energy ∷ nvm_access_penalty
    ∷ mem_store_energy_per_byte ∷ mem_restore_energy_per_byte ∷ []

module _ {Double : Type 0} (d : Doubles Double) where
  abbrev pub is_number : Option (Json Double) → Bool
  is_number none = false
  is_number (some (unsigned_number n)) = true
  is_number (some (other_number x)) = true
  is_number (some (boolean b)) = false
  is_number (some other_json) = false

  abbrev pub is_number_unsigned : Option (Json Double) → Bool
  is_number_unsigned none = false
  is_number_unsigned (some (unsigned_number n)) = true
  is_number_unsigned (some (other_number x)) = false
  is_number_unsigned (some (boolean b)) = false
  is_number_unsigned (some other_json) = false

  abbrev pub get_double : Option (Json Double) → Double
  get_double none = d.zero_double
  get_double (some (unsigned_number n)) = d.of_unsigned n
  get_double (some (other_number x)) = x
  get_double (some (boolean b)) = d.zero_double
  get_double (some other_json) = d.zero_double

  -- `get<unsigned>` of an unsigned number
  abbrev pub get_unsigned : Option (Json Double) → ℕ
  get_unsigned none = 0
  get_unsigned (some (unsigned_number n)) = n % 2 ^ 32
  get_unsigned (some (other_number x)) = 0
  get_unsigned (some (boolean b)) = 0
  get_unsigned (some other_json) = 0

  abbrev pub has_required : JsonObject Double → List Field → Bool
  has_required root [] = true
  has_required root (f ∷ fs) = is_number (root f) && has_required root fs

  -- The first of the section and the root that has the key.
  abbrev pub find_key : MilpConfig Double → Field → Option (Json Double)
  find_key c key = elim c.milp_section [
    | none ↦ c.root key
    | some section ↦ elim (section key) [ some j ↦ some j | none ↦ c.root key ]
  ]

  -- `none` where the value has the wrong type, the default where there is none.
  abbrev pub read_bool : Option (Json Double) → Bool → Option Bool
  read_bool none out = some out
  read_bool (some (unsigned_number n)) out = none
  read_bool (some (other_number x)) out = none
  read_bool (some (boolean b)) out = some b
  read_bool (some other_json) out = none

  abbrev pub read_optional_double : Option (Json Double) → Double → Option Double
  read_optional_double none out = some out
  read_optional_double (some j) out =
      if is_number (some j) then some (get_double (some j)) else none

  abbrev pub read_n_reg : Option (Json Double) → Option ℕ
  read_n_reg none = some 16
  read_n_reg (some j) = if is_number_unsigned (some j) then some (get_unsigned (some j)) else none

  -- A later key is read while the cost is zero.
  abbrev pub read_while_zero : MilpConfig Double → Field → Option Double → Option Double
  read_while_zero c key none = none
  read_while_zero c key (some cost) =
      if d.is_zero cost then read_optional_double (find_key c key) cost else some cost

  abbrev pub read_cost : MilpConfig Double → Option Double
  read_cost c = read_while_zero c loop_increment_cost_nvm_o3 (
      read_while_zero c loop_increment_cost_nvm
        (read_optional_double (find_key c loop_strip_mining_cost) d.zero_double))

  abbrev pub with_options :
      JsonObject Double → Option ℕ → Option Bool → Option Double → Option (ParsedParams Double)
  with_options root none enabled cost = none
  with_options root (some n) none cost = none
  with_options root (some n) (some b) none = none
  with_options root (some n) (some b) (some x) = some record {
    capacity = get_double (root capacity);
    e_pro = get_double (root e_pro);
    e_epi = get_double (root e_epi);
    n_reg = n;
    reg_store_energy = get_double (root reg_store_energy);
    reg_restore_energy = get_double (root reg_restore_energy);
    nvm_access_penalty = get_double (root nvm_access_penalty);
    mem_store_energy_per_byte = get_double (root mem_store_energy_per_byte);
    mem_restore_energy_per_byte = get_double (root mem_restore_energy_per_byte);
    vm_capacity_bytes = get_unsigned (root vm_capacity_bytes);
    loop_strip_mining_cost = x;
    loop_strip_mining_enabled = b;
  }

  -- `none` for the config is a file that does not open or is no JSON.
  unfoldable pub parse_milp_energy_params :
      Option (MilpConfig Double) → Option (ParsedParams Double)
  parse_milp_energy_params none = none
  parse_milp_energy_params (some c) =
      if has_required c.root required_double && is_number_unsigned (c.root vm_capacity_bytes)
      then with_options c.root (read_n_reg (c.root n_reg))
          (read_bool (find_key c loop_strip_mining_enabled) false) (read_cost c)
      else none
