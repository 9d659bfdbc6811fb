-- ===== src/Analyzer/EnergyModel.antt =====
-- `EnergyModel` of passes/bb-energy-analyzer/EnergyModel.cpp: the energy of an instruction or a call by
-- its key, the fallbacks, and the keys that were asked for and not found.
-- A string is the list of its characters; a set of keys is a list, in which an insertion comes first.
-- The constructor's JSON reader and the warnings are left out.
pub mod Recorded
use bao.Prelude.{
  ℕ, ◌+◌, ◌*◌, Bool, true, false, not, ◌&&◌, Option, none, some, List, [], ◌∷◌, ◌++◌, if◌then◌else◌,
}

abbrev pub Name : Type 0
Name = List ℕ

-- `costs_` holds what the config lists.
pub record EnergyModel : Type 0 where
  pub costs : Name → Option ℕ
  pub default_energy : ℕ
  pub ignored_call_targets : Name → Bool
  pub required_keys : List Name
  pub missing_keys : List Name

-- "_", "call", "call_" and "_bytes" in ASCII.
abbrev pub underscore : Name
underscore = 95 ∷ []

abbrev pub call_name : Name
call_name = 99 ∷ 97 ∷ 108 ∷ 108 ∷ []

abbrev pub bytes_suffix : Name
bytes_suffix = 95 ∷ 98 ∷ 121 ∷ 116 ∷ 101 ∷ 115 ∷ []

abbrev pub make_key : Name → Name → Name
make_key mnemonic [] = mnemonic
make_key mnemonic (c ∷ cs) = mnemonic ++ (underscore ++ (c ∷ cs))

unfoldable pub has_energy : EnergyModel → Name → Name → Bool
has_energy m mnemonic mode = elim (m.costs (make_key mnemonic mode)) [
  | none ↦ false
  | some e ↦ true
]

abbrev pub require : Name → EnergyModel → EnergyModel
require key m = record m { required_keys = key ∷ m.required_keys }

abbrev pub miss : Name → EnergyModel → EnergyModel
miss key m = record m { missing_keys = key ∷ m.missing_keys }

-- The key with the mode, then the bare mnemonic, then the default.
unfoldable pub get_energy : EnergyModel → Name → Name → EnergyModel × ℕ
get_energy m mnemonic mode =
    let key = make_key mnemonic mode in
    elim (m.costs key) [
      | some e ↦ (require key m, e)
      | none ↦ elim (m.costs mnemonic) [
        | some e ↦ (require key m, e)
        | none ↦ (miss key (require key m), m.default_energy)
      ]
    ]

-- The cost of a known target, with the bytes where their number is known.
unfoldable pub known_call : EnergyModel → Name → ℕ → Option ℕ → EnergyModel × ℕ
known_call m primary base none = (m, base)
known_call m primary base (some size) =
    let per_byte = primary ++ bytes_suffix in
    elim (m.costs per_byte) [
      | some e ↦ (require per_byte m, base + size * e)
      | none ↦ (miss per_byte (require per_byte m), base)
    ]

-- The key for the bytes is recorded even though it is not used.
unfoldable pub record_per_byte : EnergyModel → Name → Option ℕ → EnergyModel
record_per_byte m primary none = m
record_per_byte m primary (some size) =
    let per_byte = primary ++ bytes_suffix in
    elim (m.costs per_byte) [
      | some e ↦ require per_byte m
      | none ↦ miss per_byte (require per_byte m)
    ]

-- `call_` and the mode, then the default.
unfoldable pub unknown_call : EnergyModel → Name → Name → EnergyModel × ℕ
unknown_call m primary mode = elim (m.costs (make_key call_name mode)) [
  | some e ↦ (m, e)
  | none ↦ (miss primary m, m.default_energy)
]

abbrev pub is_ignored : EnergyModel → Name → Bool
is_ignored m target = m.ignored_call_targets target

-- An empty target is a call that was not resolved.
unfoldable pub get_call_energy : EnergyModel → Name → Name → Option ℕ → EnergyModel × ℕ
unfolding get_energy known_call record_per_byte unknown_call
get_call_energy m mode [] size_arg = get_energy m call_name mode
get_call_energy m mode (c ∷ cs) size_arg =
    let primary = call_name ++ (underscore ++ (c ∷ cs)) in
    let asked = require primary m in
    let known : EnergyModel × ℕ = elim (m.costs primary) [
      | some base ↦ known_call asked primary base size_arg
      | none ↦ unknown_call (record_per_byte asked primary size_arg) primary mode
    ] in
    if is_ignored m (c ∷ cs) then (m, 0) else known

-- What the analyzer asks, in order.
pub data Query : Type 0 where
  instruction : Name → Name → Query
  call_to : Name → Name → Option ℕ → Query

abbrev pub ask : EnergyModel → Query → EnergyModel × ℕ
ask m (instruction mnemonic mode) = get_energy m mnemonic mode
ask m (call_to mode target size_arg) = get_call_energy m mode target size_arg

unfoldable pub ask_all : EnergyModel → List Query → EnergyModel
ask_all m [] = m
ask_all m (q ∷ qs) = ask_all (ask m q).0 qs
