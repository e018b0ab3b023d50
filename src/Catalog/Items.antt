-- ===== src/Catalog/Items.antt =====
-- app/qml/js/CommandCatalog.js: arguments, commands and categories as they are built, and the tests
-- of the status that decide which command is listed. A label is the text before translation.
use Prim.Native.String.{String}
use electric_eel.Base.{
  ℕ, ◌+◌, ◌*◌, ◌^◌, leb, Bool, true, false, not, ◌||◌, Option, none, some, List, [],
}
use electric_eel.Base.Int.{ℤ, pos, pos_part, neg_part}
use electric_eel.Text.{Str}
use electric_eel.Dashboard.Json.{Json, undefined, string, is_string}
use electric_eel.Dashboard.Status.{Status}

pub data ArgType : Type 0 where
  none_type int_type float_type string_type pin_type enum_type : ArgType

-- the number `mantissa` with the point before its last `decimals` digits
pub record Number : Type 0 where
  pub mantissa : ℤ
  pub decimals : ℕ

abbrev pub decimal : ℤ → ℕ → Number
decimal m d = record { mantissa = m; decimals = d }

-- a whole number that is not negative
abbrev pub whole : ℕ → Number
whole n = decimal (pos n) 0

-- `a <= b`
unfoldable pub leb_number : Number → Number → Bool
leb_number a b =
    leb (pos_part a.mantissa * 10 ^ b.decimals + neg_part b.mantissa * 10 ^ a.decimals)
      (pos_part b.mantissa * 10 ^ a.decimals + neg_part a.mantissa * 10 ^ b.decimals)

-- An argument of a command. A number that is not given is
-- `none`, and `def` is `undefined` then. `value` is the property
-- `__value` that the form puts on it.
pub record Arg : Type 0 where
  pub name : String
  pub arg_type : ArgType
  pub min : Option Number
  pub max : Option Number
  pub step : Option Number
  pub def : Json
  pub unit : Option String
  pub send_suffix : Option String
  pub state_default : Option String
  pub values : List String
  pub placeholder : Option String
  pub optional : Bool
  pub hidden : Bool
  pub value : Option Str

-- `{}`
abbrev pub opts : Arg
opts = record {
  name = "";
  arg_type = none_type;
  min = none;
  max = none;
  step = none;
  def = undefined;
  unit = none;
  send_suffix = none;
  state_default = none;
  values = [];
  placeholder = none;
  optional = false;
  hidden = false;
  value = none;
}

abbrev pub arg : String → ArgType → Arg → Arg
arg name type options = record options { name = name; arg_type = type }

pub record Command : Type 0 where
  pub id : String
  pub label : String
  pub args : List Arg
  pub visible_when : Option (Status → Bool)

-- `cmd(id, label, args, visibleWhen)`
abbrev pub gated : String → String → (Status → Bool) → Command
gated id label test = record { id = id; label = label; args = []; visible_when = some test }

-- `cmd(id, label, args)`
abbrev pub cmd : String → String → List Arg → Command
cmd id label args = record { id = id; label = label; args = args; visible_when = none }

pub record Category : Type 0 where
  pub id : String
  pub title : String
  pub icon : String
  pub commands : List Command

unfoldable pub climate_on : Status → Bool
climate_on s = s.is_climate_on

unfoldable pub climate_off : Status → Bool
climate_off s = not s.is_climate_on

unfoldable pub nearly_charging : Status → Bool
nearly_charging s =
    is_string "Charging" (string s.charging_state)
    || is_string "Starting" (string s.charging_state)
    || is_string "Calibrating" (string s.charging_state)

unfoldable pub charging : Status → Bool
unfolding nearly_charging
charging s = nearly_charging s

unfoldable pub not_charging : Status → Bool
unfolding nearly_charging
not_charging s = not (nearly_charging s)

unfoldable pub port_open : Status → Bool
port_open s = s.charge_port_open

unfoldable pub port_closed : Status → Bool
port_closed s = not s.charge_port_open

-- `s.locked !== false`, where an unknown lock is null
unfoldable pub locked_state : Status → Bool
locked_state s = elim s.locked [ none ↦ true | some b ↦ b ]

unfoldable pub unlocked_state : Status → Bool
unlocked_state s = elim s.locked [ none ↦ false | some b ↦ not b ]

unfoldable pub windows_open : Status → Bool
windows_open s = s.windows_open

unfoldable pub windows_closed : Status → Bool
windows_closed s = not s.windows_open

unfoldable pub trunk_open : Status → Bool
trunk_open s = s.trunk_rear_open

unfoldable pub trunk_closed : Status → Bool
trunk_closed s = not s.trunk_rear_open
