-- ===== src/Catalog/Data/Body.antt =====
-- app/qml/js/CommandCatalog.js: the categories "security", "body" and "media".
use electric_eel.Base.{some, [], ◌∷◌}
use electric_eel.Base.Int.{pos}
use electric_eel.Dashboard.Json.{number}
use electric_eel.Catalog.Items.{
  opts, arg, float_type, pin_type, enum_type, gated, cmd, Category, whole, decimal, locked_state,
  unlocked_state, windows_open, windows_closed, trunk_open, trunk_closed,
}
use electric_eel.Catalog.Data.Climate.{on_off}

abbrev pub security : Category
security = record {
  id = "security";
  title = "Locks & Security";
  icon = "../../img/icons/security.svg";
  commands =
      gated "lock" "Lock" unlocked_state
      ∷ gated "unlock" "Unlock" locked_state
      ∷ cmd "drive" "Remote Start (Keyless Drive)" []
      ∷ cmd "sentry-mode" "Sentry Mode" (arg "STATE" enum_type on_off ∷ [])
      ∷ cmd "valet-mode-on" "Valet Mode On" (arg "PIN" pin_type opts ∷ [])
      ∷ cmd "valet-mode-off" "Valet Mode Off" []
      ∷ cmd "guest-mode-on" "Guest Mode On" []
      ∷ cmd "guest-mode-off" "Guest Mode Off" []
      ∷ cmd "erase-guest-data" "Erase Guest Data" []
      ∷ cmd "autosecure-modelx" "Auto-Secure (Model X)" []
      ∷ [];
}

abbrev pub body : Category
body = record {
  id = "body";
  title = "Trunk, Frunk & Windows";
  icon = "../../img/icons/window.svg";
  commands =
      gated "trunk-open" "Open Rear Trunk" trunk_closed
      ∷ cmd "trunk-move" "Move Rear Trunk" []
      ∷ gated "trunk-close" "Close Rear Trunk" trunk_open
      ∷ cmd "frunk-open" "Open Front Trunk" []
      ∷ cmd "tonneau-open" "Open Tonneau (Cybertruck)" []
      ∷ cmd "tonneau-close" "Close Tonneau (Cybertruck)" []
      ∷ cmd "tonneau-stop" "Stop Tonneau (Cybertruck)" []
      ∷ gated "windows-vent" "Vent Windows" windows_closed
      ∷ gated "windows-close" "Close Windows" windows_open
      ∷ [];
}

abbrev pub media : Category
media = record {
  id = "media";
  title = "Media";
  icon = "../../img/icons/navigation.svg";
  commands =
      cmd "media-toggle-playback" "Play / Pause" []
      ∷ cmd "media-next-track" "Next Track" []
      ∷ cmd "media-previous-track" "Previous Track" []
      ∷ cmd "media-next-favorite" "Next Favorite" []
      ∷ cmd "media-previous-favorite" "Previous Favorite" []
      ∷ cmd "media-volume-up" "Volume Up" []
      ∷ cmd "media-volume-down" "Volume Down" []
      ∷ cmd "media-set-volume" "Set Volume" (
          arg "VOLUME" float_type (record opts {
            min = some (whole 0);
            max = some (whole 10);
            step = some (decimal (pos 5) 1);
            def = number (pos 5) 0;
          })
          ∷ [])
      ∷ [];
}
