-- ===== src/Catalog/Data/Climate.antt =====
-- app/qml/js/CommandCatalog.js: the categories "attention" and "climate", with the arguments that the
-- schedules of preconditioning and of charging share.
use electric_eel.Base.{true, some, List, [], ◌∷◌}
use electric_eel.Base.Int.{pos, negsuc}
use electric_eel.Dashboard.Json.{number}
use electric_eel.Catalog.Items.{
  Arg, opts, arg, none_type, int_type, float_type, string_type, enum_type, gated, cmd, Category,
  whole, decimal, climate_on, climate_off,
}

abbrev pub attention : Category
attention = record {
  id = "attention";
  title = "Attention";
  icon = "../../img/icons/power.svg";
  commands =
      cmd "honk" "Honk Horn" []
      ∷ cmd "flash-lights" "Flash Lights" []
      ∷ cmd "wake" "Wake Vehicle" []
      ∷ [];
}

abbrev degrees : Arg
degrees = record opts {
  min = some (decimal (negsuc 89) 0);
  max = some (whole 90);
  step = some (decimal (pos 1) 6);
  def = number (pos 0) 0;
}

abbrev half_turn : Arg
half_turn = record opts {
  min = some (decimal (negsuc 179) 0);
  max = some (whole 180);
  step = some (decimal (pos 1) 6);
  def = number (pos 0) 0;
}

abbrev pub charge_schedule_add_args : List Arg
charge_schedule_add_args =
    arg "DAYS" string_type (record opts { placeholder = some "Mon,Tues,Wed" })
    ∷ arg "TIME" string_type
        (record opts { placeholder = some "22:00-06:00 (start or end may be blank)" })
    ∷ arg "LATITUDE" float_type degrees
    ∷ arg "LONGITUDE" float_type half_turn
    ∷ arg "REPEAT" enum_type (record opts { values = "once" ∷ []; optional = true })
    ∷ arg "ID" none_type (record opts { optional = true; hidden = true })
    ∷ arg "ENABLED" enum_type (record opts { values = "true" ∷ "false" ∷ []; optional = true })
    ∷ []

abbrev pub precondition_schedule_add_args : List Arg
precondition_schedule_add_args =
    arg "DAYS" string_type (record opts { placeholder = some "Mon,Tues,Wed" })
    ∷ arg "TIME" string_type (record opts { placeholder = some "22:00" })
    ∷ arg "LATITUDE" float_type degrees
    ∷ arg "LONGITUDE" float_type half_turn
    ∷ arg "REPEAT" enum_type (record opts { values = "once" ∷ []; optional = true })
    ∷ arg "ID" int_type
        (record opts { placeholder = some "leave blank for a new schedule"; optional = true })
    ∷ arg "ENABLED" enum_type (record opts { values = "true" ∷ "false" ∷ []; optional = true })
    ∷ []

abbrev pub schedule_remove_args : List Arg
schedule_remove_args =
    arg "TYPE" enum_type (record opts { values = "home" ∷ "work" ∷ "other" ∷ "id" ∷ [] })
    ∷ arg "ID" int_type
        (record opts { placeholder = some "required when TYPE is id"; optional = true })
    ∷ []

abbrev pub on_off : Arg
on_off = record opts { values = "on" ∷ "off" ∷ [] }

abbrev pub climate : Category
climate = record {
  id = "climate";
  title = "Climate";
  icon = "../../img/icons/fan1.svg";
  commands =
      gated "climate-on" "Climate On" climate_off
      ∷ gated "climate-off" "Climate Off" climate_on
      ∷ cmd "climate-set-temp" "Set Temperature" (
          arg "TEMP" float_type (record opts {
            min = some (whole 15);
            max = some (whole 28);
            step = some (decimal (pos 5) 1);
            unit = some "°C";
            send_suffix = some "C";
            def = number (pos 21) 0;
            state_default = some "driverTempSetting";
          })
          ∷ [])
      ∷ cmd "seat-heater" "Seat Heater" (
          arg "SEAT" enum_type (record opts {
            values =
                "front-left" ∷ "front-right" ∷ "2nd-row-left" ∷ "2nd-row-center" ∷ "2nd-row-right"
                ∷ "3rd-row-left" ∷ "3rd-row-right" ∷ [];
          })
          ∷ arg "LEVEL" enum_type (record opts { values = "off" ∷ "low" ∷ "medium" ∷ "high" ∷ [] })
          ∷ [])
      ∷ cmd "steering-wheel-heater" "Steering Wheel Heater" (arg "STATE" enum_type on_off ∷ [])
      ∷ cmd "auto-seat-and-climate" "Auto Seat & Climate" (
          arg "POSITIONS" enum_type (record opts { values = "L" ∷ "R" ∷ "LR" ∷ [] })
          ∷ arg "STATE" enum_type (record on_off { optional = true })
          ∷ [])
      ∷ cmd "precondition-schedule-add" "Add Preconditioning Schedule"
          precondition_schedule_add_args
      ∷ cmd "precondition-schedule-remove" "Remove Preconditioning Schedule" schedule_remove_args
      ∷ [];
}
