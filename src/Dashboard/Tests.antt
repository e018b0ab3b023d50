-- ===== src/Dashboard/Tests.antt =====
-- app/qml/js/VehicleState.js: the theorems applied to a parser that knows three texts.
use Prim.Native.String.{String}
use text.Mathlib.Text.{◌==◌ as str_eq}
use electric_eel.Base.{true, Option, none, some, [], ◌∷◌, arith, if◌then◌else◌}
use electric_eel.Base.Int.{pos}
use electric_eel.Dashboard.Json.{Json, boolean, number, string, object, no_fields, field}
use electric_eel.Dashboard.Status.{empty_status}
use electric_eel.Dashboard.Status.Types.{
  IsTyped, body_controller, climate, charge, merge_all, merge_all-IsTyped,
}

abbrev locked_answer : Json
locked_answer = object (field "vehicleLockState" (string "VEHICLELOCKSTATE_LOCKED") no_fields)

abbrev parse : String → Option Json
parse text =
    if str_eq text "lock"
    then some locked_answer
    else if str_eq text "climate"
    then some (
        object
          (field "climateState" (object (field "isClimateOn" (boolean true) no_fields)) no_fields))
    else if str_eq text "charge"
    then some (
        object (
          field "chargeState" (object (field "batteryLevel" (number (pos 80) 0) no_fields))
            no_fields))
    else none

-- an answer with one reading of the climate
abbrev warm_parse : String → Option Json
warm_parse text = some (
    object (
      field "climateState" (object (field "insideTempCelsius" (number (pos 215) 1) no_fields))
        no_fields))

merge_all-IsTyped_example : IsTyped (
    merge_all warm_parse
      (climate 5 "{}" ∷ charge 6 "{}" ∷ body_controller 7 "{}" ∷ [])
      empty_status)
merge_all-IsTyped_example =
    merge_all-IsTyped warm_parse (climate 5 "{}" ∷ charge 6 "{}" ∷ body_controller 7 "{}" ∷ [])
      empty_status (omega arith) (omega arith)
