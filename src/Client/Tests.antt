-- ===== src/Client/Tests.antt =====
-- helper/src/session_client.rs: the theorems applied to concrete clients.
use electric_eel.Base.{refl, true, false, some, [], ◌∷◌, arith}
use electric_eel.Base.Int.{pos}
use electric_eel.Client.{SessionEvent, Client, World, response, event, heartbeat, run}
use electric_eel.Client.Reader.{IsSound}
use electric_eel.Client.Requests.{After, run_lem}

abbrev near : SessionEvent
near = record { kind = "presence_near"; vin = "V"; time = "t"; error = "" }

-- a client with a live child, one queued event and presence not active
abbrev idle : Client
idle = record {
  child = some (record { alive = true; responses = [] });
  next_id = 7;
  events = near ∷ [];
  presence_active = false;
}

-- the world that answers request 7 after a heartbeat and an event
abbrev answering : World
answering = record {
  spawns = true;
  written = true;
  frames =
      heartbeat
      ∷ event near
      ∷ response
          (record { id = some 7; success = true; stdout = "ok"; stderr = ""; exit_code = pos 0 })
      ∷ [];
}

idle-IsSound : IsSound idle
idle-IsSound = record { bounded = omega arith; presence = λ _. refl }

run_lem_example :
    IsSound (run "presence-start" answering idle).0
    × After "presence-start"
        (run "presence-start" answering idle).1
        (run "presence-start" answering idle).0
run_lem_example = run_lem "presence-start" answering idle idle-IsSound
