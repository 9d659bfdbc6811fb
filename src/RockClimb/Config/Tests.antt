-- ===== src/RockClimb/Config/Tests.antt =====
-- Tests of the model of passes/src/common/RockClimbConfig.cpp, and the result at a concrete config.
use bao.Prelude.{ℕ, ◌-◌, ◌^◌, ◌≡◌, refl, true, false, none, some, ◌==◌, arith}
use bao.Milp.Energy.Config.{Doubles}
use bao.RockClimb.Config.{RockClimbParams, negsuc, to_unsigned, parse_rock_climb_params}
use bao.RockClimb.Config.RoundTrip.{
  boolean_value, render_config, parse_rock_climb_params-render_config,
}

abbrev plain_doubles : Doubles ℕ
plain_doubles = record { zero_double = 0; is_zero = λ x. x == 0; of_unsigned = λ n. n }

abbrev params_of : ℕ → RockClimbParams ℕ
params_of regs = record {
  capacity = 5000;
  e_pro = 40;
  e_epi = 35;
  n_reg = regs;
  reg_restore_energy = 2;
  reg_store_energy = 3;
  distributed_checkpointing = false;
}

minus_one_unsigned : to_unsigned (negsuc 0) ≡ 2 ^ 32 - 1
minus_one_unsigned = refl

-- One register is refused.
one_register :
    parse_rock_climb_params (some (render_config plain_doubles (params_of 1) true false none))
    ≡ none
unfolding parse_rock_climb_params
one_register = refl

-- 2^32 registers pass the guard and become none.
wrapped_registers :
    parse_rock_climb_params
      (some (render_config plain_doubles (params_of (2 ^ 32)) true false none))
    ≡ some (params_of 0)
unfolding parse_rock_climb_params
wrapped_registers = refl

parse_rock_climb_params-render_config_example :
    parse_rock_climb_params (
      some (
        render_config plain_doubles
          (params_of 16)
          true
          true
          (boolean_value plain_doubles (params_of 16) true)))
    ≡ some (params_of 16)
parse_rock_climb_params-render_config_example =
    parse_rock_climb_params-render_config plain_doubles (params_of 16) true true
      (boolean_value plain_doubles (params_of 16) true) (omega arith) (omega arith)
