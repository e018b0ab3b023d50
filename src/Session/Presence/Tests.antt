-- ===== src/Session/Presence/Tests.antt =====
-- helper/session/main.go: the presence steps at concrete inputs.
use mathlib.Core.List.{Memᴰ}
use electric_eel.Base.{ℕ, ◌*◌, ◌≡◌, refl, true, false, List, [], ◌∷◌}
use electric_eel.Base.Int.{pos, negsuc}
use electric_eel.Session.Clock.{second}
use electric_eel.Session.Presence.{
  Presence, Tick, arrive, depart, stay_near, default_presence_config, presence_live_near,
  presence_step, actions,
}
use electric_eel.Session.Presence.Runs.{silent-depart}

abbrev away : Presence
away = record { near = false; consec_near = 0; last_seen = 0 }

abbrev beside : Presence
beside = record { near = true; consec_near = 0; last_seen = 100 * second }

-- a beacon at -60 dBm
abbrev heard : ℕ → Tick
heard t = record { now = t; seen = true; rssi = negsuc 59; gatt_up = false }

abbrev quiet : ℕ → Tick
quiet t = record { now = t; seen = false; rssi = pos 0; gatt_up = false }

abbrev walk : List Tick
walk = heard (100 * second) ∷ quiet (104 * second) ∷ quiet (116 * second) ∷ []

walk-actions : actions default_presence_config away walk ≡ arrive ∷ stay_near ∷ depart ∷ []
unfolding actions presence_step
walk-actions = refl

silent-depart_example :
    Memᴰ depart
      (actions default_presence_config beside (quiet (104 * second) ∷ quiet (116 * second) ∷ []))
silent-depart_example =
    silent-depart default_presence_config beside (quiet (104 * second)) (quiet (116 * second) ∷ [])
      refl
      ((unfold presence_live_near in refl, refl), ((unfold presence_live_near in refl, refl), tt))
      refl
