-- ===== src/RockClimb/Config/RoundTrip.antt =====
-- Configs of `parseRockClimbParams`, passes/src/common/RockClimbConfig.cpp, written out: with the
-- capacity under its own key or the legacy one, and the `rockclimb` section present or not.
use bao.Prelude.{ℕ, ◌^◌, ◌≤◌, ◌<◌, ◌≡◌, refl, Bool, true, false, Option, none, some, arith}
use bao.Milp.Energy.Config.{Doubles}
use bao.RockClimb.Config.{
  pos, capacity, e_input, n_reg, reg_store_energy, reg_restore_energy, e_pro, e_epi,
  distributed_checkpointing, JsonValue, RockClimbObject, RockClimbConfig, RockClimbParams,
  to_unsigned, is_below_two, parse_rock_climb_params,
}

unsigned_fits : (n : ℕ) → n < 2 ^ 32 → to_unsigned (pos n) ≡ n
unsigned_fits n h = omega arith

two_passes : (n : ℕ) → 2 ≤ n → is_below_two (pos n) ≡ false
two_passes n h = ground arith

module _ {Double : Type 0} (d : Doubles Double) (p : RockClimbParams Double) where
  abbrev pub number_value : Double → Option (JsonValue Double)
  number_value x = some record { as_number = some x; as_integer = none; as_boolean = none }

  abbrev pub integer_value : ℕ → Option (JsonValue Double)
  integer_value n =
      some
        record { as_number = some (d.of_unsigned n); as_integer = some (pos n); as_boolean = none }

  abbrev pub boolean_value : Bool → Option (JsonValue Double)
  boolean_value b = some record { as_number = none; as_integer = none; as_boolean = some b }

  abbrev pub root_object :
      Bool → Option (JsonValue Double) → Option (JsonValue Double) → RockClimbObject Double
  root_object true mode stale capacity = none
  root_object false mode stale capacity = number_value p.capacity
  root_object true mode stale e_input = number_value p.capacity
  root_object false mode stale e_input = stale
  root_object is_legacy mode stale n_reg = integer_value p.n_reg
  root_object is_legacy mode stale reg_store_energy = number_value p.reg_store_energy
  root_object is_legacy mode stale reg_restore_energy = number_value p.reg_restore_energy
  root_object is_legacy mode stale e_pro = number_value p.e_pro
  root_object is_legacy mode stale e_epi = number_value p.e_epi
  root_object is_legacy mode stale distributed_checkpointing = mode

  abbrev pub section_object : RockClimbObject Double
  section_object distributed_checkpointing = boolean_value p.distributed_checkpointing
  section_object f = none

  -- `stale` is what the root holds for `E_input` beside `capacity`, and for the mode beside a section
  -- with it.
  abbrev pub render_config : Bool → Bool → Option (JsonValue Double) → RockClimbConfig Double
  render_config is_legacy true stale = record {
    root = root_object is_legacy stale stale;
    rc_section = some section_object;
  }
  render_config is_legacy false stale = record {
    root = root_object is_legacy (boolean_value p.distributed_checkpointing) stale;
    rc_section = none;
  }

  -- A config that gives the capacity under `capacity` or the legacy `E_input`, and the mode in the
  -- `rockclimb` section or at the root, parses to the parameters that it was written from, if the
  -- number of registers is at least 2 and fits 32 bits; what the root holds for `E_input` beside
  -- `capacity`, and for the mode beside a section with it, does not matter.
  pub parse_rock_climb_params-render_config :
      (is_legacy has_section : Bool)
      → (stale : Option (JsonValue Double)) → 2 ≤ p.n_reg
      → p.n_reg < 2 ^ 32
      → parse_rock_climb_params (some (render_config is_legacy has_section stale)) ≡ some p
  unfolding parse_rock_climb_params
  parse_rock_climb_params-render_config true true stale two fits =
      rw (two_passes p.n_reg two, unsigned_fits p.n_reg fits) refl
  parse_rock_climb_params-render_config true false stale two fits =
      rw (two_passes p.n_reg two, unsigned_fits p.n_reg fits) refl
  parse_rock_climb_params-render_config false true stale two fits =
      rw (two_passes p.n_reg two, unsigned_fits p.n_reg fits) refl
  parse_rock_climb_params-render_config false false stale two fits =
      rw (two_passes p.n_reg two, unsigned_fits p.n_reg fits) refl
