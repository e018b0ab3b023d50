-- ===== src/Catalog/Page.antt =====
-- app/qml/pages/CategoryPage.qml: the commands that the page of a category lists, and the defaults that
-- it takes from the status. The status is `none` where the page was opened without one. What the
-- comparison makes of a value that is not a number (`ToNumber`) is a parameter, `none` for NaN.
pub mod Listed
pub mod Defaults
pub mod Readings
use Prim.Native.String.{String}
use text.Mathlib.Text.{◌==◌ as str_eq}
use electric_eel.Base.{
  Bool, true, false, not, ◌&&◌, Option, none, some, List, [], ◌∷◌, map, if◌then◌else◌,
}
use electric_eel.Base.Int.{pos}
use electric_eel.Dashboard.Json.{Json, undefined, null, boolean, number, string, is_missing, truthy}
use electric_eel.Dashboard.Status.{Status}
use electric_eel.Catalog.Items.{Number, decimal, whole, leb_number, Arg, Command, Category}

unfoldable pub command_visible : Option Status → Command → Bool
command_visible none c = true
command_visible (some status) c = elim c.visible_when [ none ↦ true | some test ↦ test status ]

abbrev pub visible_of : Option Status → List Command → List Command
visible_of status [] = []
visible_of status (c ∷ cs) =
    let rest = visible_of status cs in if command_visible status c then c ∷ rest else rest

-- `visibleCommands`
unfoldable pub visible_commands : Option Status → Option Category → List Command
unfolding command_visible
visible_commands status none = []
visible_commands status (some category) = visible_of status category.commands

-- `page.vehicleStatus[name]`, which is `undefined` for a name that is not a field
unfoldable pub status_field : Status → String → Json
status_field s name =
    if str_eq name "locked"
    then elim s.locked [ none ↦ null | some b ↦ boolean b ]
    else if str_eq name "doorsOpen"
    then boolean s.doors_open
    else if str_eq name "trunkFrontOpen"
    then boolean s.trunk_front_open
    else if str_eq name "trunkRearOpen"
    then boolean s.trunk_rear_open
    else if str_eq name "windowsOpen"
    then boolean s.windows_open
    else if str_eq name "insideTemp"
    then s.inside_temp
    else if str_eq name "outsideTemp"
    then s.outside_temp
    else if str_eq name "isClimateOn"
    then boolean s.is_climate_on
    else if str_eq name "driverTempSetting"
    then s.driver_temp_setting
    else if str_eq name "batteryLevel"
    then s.battery_level
    else if str_eq name "chargingState"
    then string s.charging_state
    else if str_eq name "chargePortOpen"
    then boolean s.charge_port_open
    else if str_eq name "minutesToFullCharge"
    then s.minutes_to_full_charge
    else if str_eq name "chargeLimitSoc"
    then s.charge_limit_soc
    else if str_eq name "chargeCurrent"
    then s.charge_current
    else if str_eq name "updatedAt"
    then number (pos s.updated_at) 0
    else undefined

module _ (coerce : Json → Option Number) where
  -- the number that `cur` is compared as
  abbrev pub to_number : Json → Option Number
  to_number (number m d) = some (decimal m d)
  to_number (boolean b) = some (whole (if b then 1 else 0))
  to_number null = some (whole 0)
  to_number undefined = none
  to_number v = coerce v

  -- `min === undefined || cur >= min`
  abbrev pub above : Option Number → Json → Bool
  above none cur = true
  above (some least) cur = elim (to_number cur) [ none ↦ false | some n ↦ leb_number least n ]

  -- `max === undefined || cur <= max`
  abbrev pub below : Option Number → Json → Bool
  below none cur = true
  below (some most) cur = elim (to_number cur) [ none ↦ false | some n ↦ leb_number n most ]

  abbrev pub takes : Arg → Json → Bool
  takes a cur = not (is_missing cur) && above a.min cur && below a.max cur

  -- the reading replaces the default if it is known and within the bounds
  abbrev pub take_reading : Json → Arg → Arg
  take_reading cur a = if takes a cur then record a { def = cur; value = none } else a

  abbrev pub seeded : Status → Option String → Arg → Arg
  seeded status none a = a
  seeded status (some name) a =
      if truthy (string name) then take_reading (status_field status name) a else a

  -- the function that `commandWithStateDefaults` maps over the arguments
  unfoldable pub state_default_of : Status → Arg → Arg
  unfolding status_field
  state_default_of status a = seeded status a.state_default a

  unfoldable pub command_with_state_defaults : Option Status → Command → Command
  unfolding state_default_of
  command_with_state_defaults none c = c
  command_with_state_defaults (some status) c = record c {
    args = map (state_default_of status) c.args;
  }
