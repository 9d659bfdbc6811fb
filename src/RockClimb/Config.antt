-- ===== src/RockClimb/Config.antt =====
-- `parseRockClimbParams` of passes/src/common/RockClimbConfig.cpp. A JSON value is what LLVM's
-- `getAsNumber`, `getAsInteger` and `getAsBoolean` answer of it; the floating-point numbers are a
-- parameter.
use bao.Prelude.{ℕ, ◌-◌, ◌%◌, ◌^◌, Bool, true, false, Option, none, some, if◌then◌else◌, ltb}
mod RoundTrip
mod Tests

infixl 5 ◌>>=◌
abbrev pub ◌>>=◌ : {A B : Type 0} → Option A → (A → Option B) → Option B
none >>= f = none
some a >>= f = f a

-- A signed integer: `negsuc n` is -1 - n.
pub data ℤ : Type 0 where
  pos negsuc : ℕ → ℤ

pub data RockClimbField : Type 0 where
  capacity e_input n_reg reg_store_energy reg_restore_energy e_pro e_epi : RockClimbField
  distributed_checkpointing : RockClimbField

pub record JsonValue (Double : Type 0) : Type 0 where
  pub as_number : Option Double
  pub as_integer : Option ℤ
  pub as_boolean : Option Bool

abbrev pub RockClimbObject : Type 0 → Type 0
RockClimbObject Double = RockClimbField → Option (JsonValue Double)

-- The root, and what the key `rockclimb` holds where that is an object.
pub record RockClimbConfig (Double : Type 0) : Type 0 where
  pub root : RockClimbObject Double
  pub rc_section : Option (RockClimbObject Double)

pub record RockClimbParams (Double : Type 0) : Type 0 where
  pub capacity : Double
  pub e_pro : Double
  pub e_epi : Double
  pub n_reg : ℕ
  pub reg_restore_energy : Double
  pub reg_store_energy : Double
  pub distributed_checkpointing : Bool

abbrev pub is_below_two : ℤ → Bool
is_below_two (pos n) = ltb n 2
is_below_two (negsuc n) = true

-- `static_cast<unsigned>`
abbrev pub to_unsigned : ℤ → ℕ
to_unsigned (pos n) = n % 2 ^ 32
to_unsigned (negsuc n) = (2 ^ 32 - 1) - n % 2 ^ 32

module _ {Double : Type 0} where
  abbrev pub get_number : RockClimbObject Double → RockClimbField → Option Double
  get_number o key = elim (o key) [ none ↦ none | some v ↦ v.as_number ]

  abbrev pub get_integer : RockClimbObject Double → RockClimbField → Option ℤ
  get_integer o key = elim (o key) [ none ↦ none | some v ↦ v.as_integer ]

  abbrev pub get_boolean : RockClimbObject Double → RockClimbField → Option Bool
  get_boolean o key = elim (o key) [ none ↦ none | some v ↦ v.as_boolean ]

  abbrev pub read_capacity : RockClimbObject Double → Option Double
  read_capacity root = elim (get_number root capacity) [
    | some x ↦ some x
    | none ↦ get_number root e_input
  ]

  abbrev pub in_section : Option (RockClimbObject Double) → Option Bool
  in_section none = none
  in_section (some section) = get_boolean section distributed_checkpointing

  -- The section, then the root, then the default.
  abbrev pub read_distributed : RockClimbConfig Double → Bool
  read_distributed c = elim (in_section c.rc_section) [
    | some b ↦ b
    | none ↦ elim (get_boolean c.root distributed_checkpointing) [ some b ↦ b | none ↦ true ]
  ]

  -- `none` for the config is a file that does not open, is no JSON or holds no object. `none` for
  -- the result is the answer false, which leaves the caller's parameters as they were.
  unfoldable pub parse_rock_climb_params :
      Option (RockClimbConfig Double) → Option (RockClimbParams Double)
  parse_rock_climb_params none = none
  parse_rock_climb_params (some c) = do
    cap ← read_capacity c.root
    regs ← get_integer c.root n_reg
    store ← get_number c.root reg_store_energy
    restore ← get_number c.root reg_restore_energy
    pro ← get_number c.root e_pro
    epi ← get_number c.root e_epi
    if is_below_two regs
        then none
        else some record {
          capacity = cap;
          e_pro = pro;
          e_epi = epi;
          n_reg = to_unsigned regs;
          reg_restore_energy = restore;
          reg_store_energy = store;
          distributed_checkpointing = read_distributed c;
        }
