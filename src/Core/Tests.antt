-- ===== src/Core/Tests.antt =====
-- helper/src/core.rs: the theorems applied to a paired core and a child that answers.
use electric_eel.Base.{◌≡◌, ◌≢◌, ◌⊎◌, inl, inr, List, refl, true, false, none, some, [], ◌∷◌, arith}
use electric_eel.Base.Int.{pos}
use electric_eel.Text.{codes, trim}
use electric_eel.Config.{default_config, paired, unpaired, candidate, writable}
use electric_eel.Client.{Client, World as ClientWorld, response, is_some, poll_event, run}
use electric_eel.Share.Sample.{sample}
use electric_eel.Core.{Core, World, persist, set_config, eligible, stop_phone_key}
use electric_eel.Core.PhoneKey.{IsSafe}
use electric_eel.Core.Requests.{
  refused, generate_key, with_state, pair, pairing_done, not_started, not_persisted,
}
use electric_eel.Core.Commands.{run_command}
use electric_eel.Core.Polling.{KeyEvent, poll_phone_key_event}
use electric_eel.Core.Keys.{Keeps, generate_key_lem, pair_lem}
use electric_eel.Core.Invariant.{
  Op, start, stop, resume, poll, enrollment, set, generate, request, share, apply_all,
  apply_all-IsSafe,
}
use electric_eel.Core.Events.{poll_phone_key_event-retry}
use electric_eel.Core.Run.{is_rejected, run_command-submit}
use electric_eel.Catalog.Items.{
  whole, leb_number, charging, not_charging, nearly_charging, port_open, port_closed,
}
use electric_eel.Catalog.Search.{find_category}
use electric_eel.Catalog.Page.{visible_commands, command_visible, command_with_state_defaults}
use electric_eel.Catalog.Dialog.{slide}
use electric_eel.Catalog.Dialog.Filled.{slider_range}
use electric_eel.Catalog.Commands.Form.{submit}
use electric_eel.Catalog.Strokes.{numerals, at_home, no_coerce, set_limit}
use electric_eel.Core.SetConfig.{IsEnded, set_config_lem}

abbrev client : Client
client = record { child = none; next_id = 1; events = []; presence_active = false }

abbrev answering : ClientWorld
answering = record {
  spawns = true;
  written = true;
  frames =
      response (record { id = some 1; success = true; stdout = ""; stderr = ""; exit_code = pos 0 })
      ∷ [];
}

abbrev world : World
world = record {
  now = 10;
  saves = true;
  synced = true;
  starting = answering;
  stopping = answering;
  asking = answering;
  permit = true;
  key_after = true;
  writes_public = true;
  public_file = true;
  one_shot = none;
}

abbrev core : Core
core = record {
  cfg = record default_config { vin = codes "5YJ3E1EA7KF000001"; vin_state = paired };
  file = record default_config { vin = codes "5YJ3E1EA7KF000001"; vin_state = paired };
  key_file = true;
  bluez = true;
  session = some client;
  phone_key_started = false;
  phone_key_enabled = false;
  phone_key_retry_at = none;
}

core-IsSafe : IsSafe core
unfolding eligible
core-IsSafe = record {
  eligible_started = λ h. refl;
  client = λ h. refl;
  wanted = λ h. ground arith;
}

abbrev ops : List (World × Op)
ops =
    (world, start)
    ∷ (world, set (codes "") (codes "") (codes "") (pos 20) (pos 5))
    ∷ (world, generate true)
    ∷ (world, enrollment)
    ∷ (world, poll)
    ∷ (world, request "honk" [])
    ∷ (world, share (codes "geo:+1110,-10"))
    ∷ (world, resume)
    ∷ (world, stop)
    ∷ []

apply_all-IsSafe_example :
    IsSafe (apply_all numerals.parse_int numerals.parse_float sample ops core)
apply_all-IsSafe_example =
    apply_all-IsSafe numerals.parse_int numerals.parse_float sample ops core core-IsSafe

generate_key_lem_example :
    let (c', answer) = generate_key world true core in
    ((answer ≡ refused persist)
      × (c' ≡ record core { file = c'.file })
      × ((c'.file ≡ core.file) ⊎ (c'.file ≡ with_state unpaired core.cfg)))
    ⊎ ((true ≡ true) × IsEnded c' × (c'.file ≡ c'.cfg))
    ⊎ ((true ≡ false) × Keeps core c')
generate_key_lem_example = generate_key_lem world true core

pair_lem_example :
    let (c', answer) = pair world core in
    (((c'.cfg ≡ with_state paired core.cfg) × (c'.file ≡ with_state paired core.cfg))
      × (((answer ≡ pairing_done) × (c'.phone_key_started ≡ true))
          ⊎ ((answer ≡ not_started) × (c'.phone_key_started ≡ false))))
    ⊎ (((c'.cfg ≡ core.cfg)
          × ((c'.file ≡ core.file)
              ⊎ ((answer ≡ not_persisted) × (c'.file ≡ with_state paired core.cfg))))
        × (answer ≢ pairing_done)
        × (answer ≢ not_started))
pair_lem_example = pair_lem world core core-IsSafe

-- the file is replaced, and the sync of the directory fails
unsynced_pairing :
    let (c', answer) = pair (record world { synced = false }) core in
    (answer ≡ not_persisted) × (c'.cfg ≡ core.cfg) × (c'.file ≡ with_state paired core.cfg)
unfolding pair writable stop_phone_key run
unsynced_pairing = (refl, refl, refl)

-- the phone key has stopped, and its retry is due
abbrev waiting : Core
waiting = record core { phone_key_enabled = true; phone_key_retry_at = some 7 }

waiting-IsSafe : IsSafe waiting
unfolding eligible
waiting-IsSafe = record { eligible_started = λ h. refl; client = λ h. refl; wanted = λ h. refl }

poll_phone_key_event-retry_example :
    let (c', event) = poll_phone_key_event world waiting in
    (e : KeyEvent) × (event ≡ some e)
    × (((e.kind ≡ "presence_restarted") × (c'.phone_key_started ≡ true))
        ⊎ ((is_some e.cause ≡ true)
            × (c'.phone_key_started ≡ false)
            × (is_some c'.phone_key_retry_at ≡ true)))
unfolding poll_event
poll_phone_key_event-retry_example =
    poll_phone_key_event-retry world waiting waiting-IsSafe refl refl refl

run_command-submit_example :
    is_rejected
      (run_command numerals.parse_int numerals.parse_float world "charging-set-limit"
        (submit numerals no_coerce (some at_home) set_limit ((0, slide (whole 85)) ∷ []))
        core).1
    ≡ false
unfolding visible_commands find_category command_with_state_defaults slider_range leb_number
    command_visible charging not_charging nearly_charging port_open port_closed
run_command-submit_example =
    run_command-submit numerals no_coerce world core (some at_home) "charging" 2 set_limit
      ((0, slide (whole 85)) ∷ []) refl (inl refl, inr (whole 90, refl, inr refl, tt), inl refl)
      ((refl, refl, inr refl, tt), tt)

set_config_lem_example :
    let (c', err) =
      set_config world (codes "") (codes "modely") (codes "key") (pos 20) (pos 5) core in
    ((is_some err ≡ true)
      × (c' ≡ record core { file = c'.file })
      × ((c'.file ≡ core.file)
          ⊎ ((err ≡ some persist)
              × (c'.file
                  ≡ candidate core.cfg
                      (codes "")
                      (codes "modely")
                      (codes "key")
                      (pos 20)
                      (pos 5)))))
    ⊎ ((err ≡ none)
        × (c'.cfg ≡ candidate core.cfg (codes "") (codes "modely") (codes "key") (pos 20) (pos 5))
        × (c'.file ≡ c'.cfg)
        × ((core.cfg.vin ≡ trim (codes "")) ⊎ IsEnded c'))
set_config_lem_example =
    set_config_lem world (codes "") (codes "modely") (codes "key") (pos 20) (pos 5) core
