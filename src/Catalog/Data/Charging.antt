-- ===== src/Catalog/Data/Charging.antt =====
-- app/qml/js/CommandCatalog.js: the category "charging".
use electric_eel.Base.{some, [], ◌∷◌}
use electric_eel.Base.Int.{pos}
use electric_eel.Dashboard.Json.{number}
use electric_eel.Catalog.Items.{
  opts, arg, int_type, gated, cmd, Category, whole, charging as is_charging, not_charging,
  port_open, port_closed,
}
use electric_eel.Catalog.Data.Climate.{charge_schedule_add_args, schedule_remove_args}

abbrev pub charging : Category
charging = record {
  id = "charging";
  title = "Charging";
  icon = "../../img/icons/bolt.svg";
  commands =
      gated "charging-start" "Start Charging" not_charging
      ∷ gated "charging-stop" "Stop Charging" is_charging
      ∷ gated "charge-port-open" "Open Charge Port" port_closed
      ∷ gated "charge-port-close" "Close Charge Port" port_open
      ∷ cmd "charging-set-limit" "Set Charge Limit" (
          arg "PERCENT" int_type (record opts {
            min = some (whole 50);
            max = some (whole 100);
            unit = some "%";
            def = number (pos 80) 0;
            state_default = some "chargeLimitSoc";
          })
          ∷ [])
      ∷ cmd "charging-set-amps" "Set Charge Current" (
          arg "AMPS" int_type (record opts {
            min = some (whole 1);
            max = some (whole 48);
            unit = some "A";
            def = number (pos 16) 0;
            state_default = some "chargeCurrent";
          })
          ∷ [])
      ∷ cmd "charging-schedule" "Schedule Charging" (
          arg "MINS" int_type (record opts {
            min = some (whole 0);
            max = some (whole 1439);
            unit = some "min after midnight";
            def = number (pos 0) 0;
          })
          ∷ [])
      ∷ cmd "charging-schedule-cancel" "Cancel Scheduled Charging" []
      ∷ cmd "charging-schedule-add" "Add Charge Schedule" charge_schedule_add_args
      ∷ cmd "charging-schedule-remove" "Remove Charge Schedule" schedule_remove_args
      ∷ [];
}
