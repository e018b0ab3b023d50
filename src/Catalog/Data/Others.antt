-- ===== src/Catalog/Data/Others.antt =====
-- app/qml/js/CommandCatalog.js: the categories "software", "keys" and "diagnostics".
use electric_eel.Base.{some, [], ◌∷◌}
use electric_eel.Base.Int.{pos}
use electric_eel.Dashboard.Json.{number}
use electric_eel.Catalog.Items.{
  Arg, opts, arg, int_type, string_type, enum_type, cmd, Category, whole,
}
use electric_eel.Catalog.Data.Climate.{on_off}

abbrev pub software : Category
software = record {
  id = "software";
  title = "Software";
  icon = "../../img/icons/upgrades.svg";
  commands =
      cmd "software-update-start" "Start Software Update" (
        arg "DELAY" int_type (record opts {
          min = some (whole 0);
          max = some (whole 3600);
          unit = some "s";
          send_suffix = some "s";
          def = number (pos 0) 0;
        })
        ∷ [])
      ∷ cmd "software-update-cancel" "Cancel Software Update" []
      ∷ [];
}

abbrev public_key : Arg
public_key = record opts { placeholder = some "path to public_key.pem" }

abbrev pub keys : Category
keys = record {
  id = "keys";
  title = "Keys";
  icon = "../../img/icons/lock.svg";
  commands =
      cmd "list-keys" "List Enrolled Keys" []
      ∷ cmd "add-key" "Add Key" (
          arg "PUBLIC_KEY" string_type public_key
          ∷ arg "ROLE" enum_type (record opts { values = "owner" ∷ "driver" ∷ [] })
          ∷ arg "FORM_FACTOR" enum_type (record opts {
            values = "nfc_card" ∷ "ios_device" ∷ "android_device" ∷ "cloud_key" ∷ [];
          })
          ∷ [])
      ∷ cmd "remove-key" "Remove Key" (arg "PUBLIC_KEY" string_type public_key ∷ [])
      ∷ cmd "session-info" "Session Info" (
          arg "PUBLIC_KEY" string_type public_key
          ∷ arg "DOMAIN" enum_type (record opts { values = "vcsec" ∷ "infotainment" ∷ [] })
          ∷ [])
      ∷ [];
}

abbrev pub diagnostics : Category
diagnostics = record {
  id = "diagnostics";
  title = "Diagnostics";
  icon = "../../img/icons/service.svg";
  commands =
      cmd "ping" "Ping Vehicle" []
      ∷ cmd "state" "Get Vehicle State" (
          arg "CATEGORY" enum_type (record opts {
            values =
                "charge" ∷ "climate" ∷ "drive" ∷ "location" ∷ "closures" ∷ "charge-schedule"
                ∷ "precondition-schedule" ∷ "tire-pressure" ∷ "media" ∷ "media-detail"
                ∷ "software-update" ∷ "parental-controls" ∷ [];
          })
          ∷ [])
      ∷ cmd "body-controller-state" "Body Controller State" []
      ∷ cmd "keep-accessory-power" "Keep Accessory Power" (arg "STATE" enum_type on_off ∷ [])
      ∷ cmd "low-power-mode" "Low Power Mode" (arg "STATE" enum_type on_off ∷ [])
      ∷ [];
}
