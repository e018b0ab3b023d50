-- ===== src/Dashboard/Status.antt =====
-- app/qml/js/VehicleState.js: the merge of one answer of the vehicle into the status. `JSON.parse` is
-- a parameter that gives `none` where it throws, and the time of the call an argument.
pub mod Merges
pub mod Types
use Prim.Native.String.{String}
use electric_eel.Base.{
  ℕ, ◌-◌, ◌/◌, Bool, true, false, not, ◌&&◌, ◌||◌, Option, none, some, if◌then◌else◌, ◌==◌,
}
use electric_eel.Base.Int.{ℤ, pos, negsuc}
use electric_eel.Dashboard.Json.{
  Json, undefined, null, boolean, number, string, array, object, Items, no_items, item, Fields,
  no_fields, field, get, prop, truthy, or_value, is_string, is_undefined, is_missing, or_null,
}

-- `locked` is `none` for null
pub record Status : Type 0 where
  pub locked : Option Bool
  pub doors_open : Bool
  pub trunk_front_open : Bool
  pub trunk_rear_open : Bool
  pub windows_open : Bool
  pub inside_temp : Json
  pub outside_temp : Json
  pub is_climate_on : Bool
  pub driver_temp_setting : Json
  pub battery_level : Json
  pub charging_state : String
  pub charge_port_open : Bool
  pub minutes_to_full_charge : Json
  pub charge_limit_soc : Json
  pub charge_current : Json
  pub updated_at : ℕ

abbrev pub empty_status : Status
empty_status = record {
  locked = none;
  doors_open = false;
  trunk_front_open = false;
  trunk_rear_open = false;
  windows_open = false;
  inside_temp = null;
  outside_temp = null;
  is_climate_on = false;
  driver_temp_setting = null;
  battery_level = null;
  charging_state = "";
  charge_port_open = false;
  minutes_to_full_charge = number (pos 0) 0;
  charge_limit_soc = null;
  charge_current = null;
  updated_at = 0;
}

unfoldable pub closure_is_open : Json → Bool
closure_is_open state =
    is_string "CLOSURESTATE_OPEN" state
    || is_string "CLOSURESTATE_AJAR" state
    || is_string "CLOSURESTATE_OPENING" state

-- what the answer says of the lock, or what was known before
unfoldable pub read_lock : Json → Option Bool → Option Bool
read_lock lock before =
    if is_string "VEHICLELOCKSTATE_LOCKED" lock || is_string "VEHICLELOCKSTATE_INTERNAL_LOCKED" lock
    then some true
    else if is_string "VEHICLELOCKSTATE_UNLOCKED" lock
        || is_string "VEHICLELOCKSTATE_SELECTIVE_UNLOCKED" lock
    then some false
    else before

abbrev read_closures : Json → Status → Status
read_closures c s = record s {
  doors_open =
      closure_is_open (prop "frontDriverDoor" c)
      || closure_is_open (prop "frontPassengerDoor" c)
      || closure_is_open (prop "rearDriverDoor" c)
      || closure_is_open (prop "rearPassengerDoor" c);
  trunk_front_open = closure_is_open (prop "frontTrunk" c);
  trunk_rear_open = closure_is_open (prop "rearTrunk" c);
}

abbrev pub empty_object : Json
empty_object = object no_fields

-- the assignments of `mergeBodyControllerState` for a parsed answer
unfoldable pub read_body_controller : ℕ → Json → Status → Status
unfolding read_lock
read_body_controller now answer s =
    let obj = or_value answer empty_object in
    let closures = prop "closureStatuses" obj in
    let locked = record s {
      locked = read_lock (or_value (prop "vehicleLockState" obj) (string "")) s.locked;
      updated_at = now;
    } in
    if is_missing closures then locked else read_closures closures locked

unfoldable pub read_closures_state : ℕ → Json → Status → Status
read_closures_state now obj s = record s {
  locked = some (truthy (prop "locked" obj));
  doors_open =
      truthy (prop "doorOpenDriverFront" obj)
      || truthy (prop "doorOpenDriverRear" obj)
      || truthy (prop "doorOpenPassengerFront" obj)
      || truthy (prop "doorOpenPassengerRear" obj)
      || truthy (prop "doorOpenTrunkFront" obj)
      || truthy (prop "doorOpenTrunkRear" obj);
  trunk_front_open = truthy (prop "doorOpenTrunkFront" obj);
  trunk_rear_open = truthy (prop "doorOpenTrunkRear" obj);
  windows_open =
      truthy (prop "windowOpenDriverFront" obj)
      || truthy (prop "windowOpenPassengerFront" obj)
      || truthy (prop "windowOpenDriverRear" obj)
      || truthy (prop "windowOpenPassengerRear" obj);
  updated_at = now;
}

unfoldable pub read_climate_state : ℕ → Json → Status → Status
read_climate_state now obj s = record s {
  inside_temp = or_null (prop "insideTempCelsius" obj);
  outside_temp = or_null (prop "outsideTempCelsius" obj);
  driver_temp_setting = or_null (prop "driverTempSetting" obj);
  is_climate_on = truthy (prop "isClimateOn" obj);
  updated_at = now;
}

-- `Object.keys(v)[0]`, or the empty text; the keys of a text or an array are its positions
unfoldable pub oneof_variant_name : Json → String
oneof_variant_name (string s) = if truthy (string s) then "0" else ""
oneof_variant_name (array (item _ _)) = "0"
oneof_variant_name (object (field name _ _)) = name
oneof_variant_name _ = ""

unfoldable pub read_charge_state : ℕ → Json → Status → Status
read_charge_state now obj s = record s {
  battery_level = or_null (prop "batteryLevel" obj);
  charging_state = oneof_variant_name (prop "chargingState" obj);
  charge_port_open = truthy (prop "chargePortDoorOpen" obj);
  minutes_to_full_charge = or_value (prop "minutesToFullCharge" obj) (number (pos 0) 0);
  charge_limit_soc = or_null (prop "chargeLimitSoc" obj);
  charge_current =
      if is_undefined (prop "chargeCurrentRequest" obj)
      then or_null (prop "chargingAmps" obj)
      else prop "chargeCurrentRequest" obj;
  updated_at = now;
}

-- `JSON.parse(jsonText).k`, or `none` where that throws
abbrev pub section : String → Option Json → Option Json
section k none = none
section k (some answer) = get k answer

-- the assignments for `section || {}`, or the status as it was after a throw
abbrev pub read_section : (Json → Status → Status) → Option Json → Status → Status
read_section read none s = s
read_section read (some v) s = read (or_value v empty_object) s

abbrev in_section : String → (Json → Status → Status) → Option Json → Status → Status
in_section k read answer s = read_section read (section k answer) s

module _ (parse : String → Option Json) (now : ℕ) where
  unfoldable pub merge_body_controller_state : Status → String → Status
  merge_body_controller_state s text = elim (parse text) [
    | none ↦ s
    | some answer ↦ read_body_controller now answer s
  ]

  unfoldable pub merge_closures_state : Status → String → Status
  merge_closures_state s text = in_section "closuresState" (read_closures_state now) (parse text) s

  unfoldable pub merge_climate_state : Status → String → Status
  merge_climate_state s text = in_section "climateState" (read_climate_state now) (parse text) s

  unfoldable pub merge_charge_state : Status → String → Status
  merge_charge_state s text = in_section "chargeState" (read_charge_state now) (parse text) s

-- The age of a reading: -1 without one, and 0 for one from the future, where `Math.floor` is negative.
unfoldable pub minutes_ago : ℕ → ℕ → ℤ
minutes_ago now timestamp = if timestamp == 0 then negsuc 0 else pos ((now - timestamp) / 60000)
