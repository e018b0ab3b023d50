-- ===== src/Core/Invariant.antt =====
-- helper/src/core.rs: the phone key over runs of all operations of the core.
pub mod Parts
pub mod Keys
pub mod Polling
use Prim.Native.String.{String}
use electric_eel.Base.{
  ◌≡◌, refl, sym, ap, ◌∙◌, Bool, true, false, not, ◌||◌, ◌&&◌, Option, none, some, List, [], ◌∷◌,
  arith, if◌then◌else◌,
}
use electric_eel.Base.Int.{ℤ}
use electric_eel.Text.{Str}
use electric_eel.Client.{
  Client, SessionEvent, Outcome, ran, failed, is_some, invalidate, run, poll_event,
  presence_stopped,
}
use electric_eel.Config.{paired, writable}
use electric_eel.Catalog.Items.{Number}
use electric_eel.Catalog.Commands.{RangeError, validate_arg_ranges, is_known_command}
use electric_eel.Share.Values.{Destination, Library}
use electric_eel.Share.{Parsed, ok, err, parse_shared_text}
use electric_eel.Core.Navigation.{send_navigate, share_parsed, share_destination}
use electric_eel.Core.{
  persist, Core, World, eligible, map_client, start_phone_key, stop_phone_key, set_config,
  handle_resume,
}
use electric_eel.Core.PhoneKey.{
  IsSafe, start_phone_key-IsSafe, stop_phone_key-IsSafe, set_config-IsSafe, handle_resume-IsSafe,
}
use electric_eel.Core.Requests.{
  with_state, reset_enrollment, request_key, refused, generate_key, not_persisted, pairing_done,
  not_started, confirm_pairing, pair_answered, enroll, pair, is_configured,
}
use electric_eel.Core.Commands.{
  send_command, execute, run_checked, busy, unknown_command, not_configured_for_run, run_command,
}
use electric_eel.Core.Polling.{
  KeyEvent, fill_vin, is_due, is_waiting, restart, handle_event, handle_polled, next_event,
  poll_phone_key_event,
}
use electric_eel.Core.Keys.{Keeps, request_key-Keeps, reset_enrollment-IsEnded}
use electric_eel.Core.Invariant.Parts.{
  Keeps-IsSafe, idle-IsSafe, if-IsSafe, client-IsSafe, stopped-IsSafe,
}
use electric_eel.Core.Invariant.Keys.{generate_key-IsSafe, pair-IsSafe}
use electric_eel.Core.Invariant.Polling.{poll_phone_key_event-IsSafe}

send_command-IsSafe :
    (w : World) (cmd : String) (session : Option Client) (c : Core)
    → IsSafe c
    → IsSafe (send_command w cmd session c).0
unfolding send_command
send_command-IsSafe w cmd none c h = h
send_command-IsSafe w cmd (some client) c h = client-IsSafe c (run cmd w.asking client).0 h

run_checked-IsSafe :
    (w : World) (cmd : String) (error : Option RangeError) (c : Core)
    → IsSafe c
    → IsSafe (run_checked w cmd error c).0
unfolding run_checked execute
run_checked-IsSafe w cmd (some e) c h = h
run_checked-IsSafe w cmd none c h =
    if-IsSafe (not w.permit) (c, busy)
      (if not (is_configured c)
        then (c, not_configured_for_run)
        else send_command w cmd c.session c)
      h
      (if-IsSafe (not (is_configured c)) (c, not_configured_for_run)
        (send_command w cmd c.session c) h (send_command-IsSafe w cmd c.session c h))

send_navigate-IsSafe :
    (w : World) (session : Option Client) (c : Core)
    → IsSafe c
    → IsSafe (send_navigate w session c).0
unfolding send_navigate
send_navigate-IsSafe w none c h = h
send_navigate-IsSafe w (some client) c h = client-IsSafe c (run "navigate" w.asking client).0 h

share_parsed-IsSafe :
    (w : World) (parsed : Parsed Destination) (c : Core)
    → IsSafe c
    → IsSafe (share_parsed w parsed c).0
unfolding share_parsed
share_parsed-IsSafe w (err e) c h = h
share_parsed-IsSafe w (ok dest) c h = ground (arith, h, send_navigate-IsSafe w c.session c h)

-- The operations of the client on the core.
pub data Op : Type 0 where
  start stop resume poll enrollment : Op
  set : Str → Str → Str → ℤ → ℤ → Op
  generate : Bool → Op
  request : String → List Str → Op
  share : Str → Op

module _ (parse_int : Str → Option ℤ) (parse_float : Str → Option Number) (lib : Library) where
  run_command-IsSafe :
      (w : World) (cmd : String) (args : List Str) (c : Core)
      → IsSafe c
      → IsSafe (run_command parse_int parse_float w cmd args c).0
  unfolding run_command
  run_command-IsSafe w cmd args c h =
      if-IsSafe (not (is_known_command cmd)) (c, unknown_command)
        (run_checked w cmd (validate_arg_ranges parse_int parse_float cmd args) c) h
        (run_checked-IsSafe w cmd (validate_arg_ranges parse_int parse_float cmd args) c h)

  pub apply : World → Op → Core → Core
  unfolding share_destination
  apply w start c = (start_phone_key w c).0
  apply w stop c = stop_phone_key w c
  apply w resume c = handle_resume w c
  apply w poll c = (poll_phone_key_event w c).0
  apply w enrollment c = (pair w c).0
  apply w (set vin model key_name connect command) c =
      (set_config w vin model key_name connect command c).0
  apply w (generate force) c = (generate_key w force c).0
  apply w (request cmd args) c = (run_command parse_int parse_float w cmd args c).0
  apply w (share text) c = (share_destination lib w text c).0

  pub apply_all : List (World × Op) → Core → Core
  apply_all [] c = c
  apply_all ((w, op) ∷ ops) c = apply_all ops (apply w op c)

  apply-IsSafe : (w : World) (op : Op) (c : Core) → IsSafe c → IsSafe (apply w op c)
  unfolding apply
  apply-IsSafe w start c h = start_phone_key-IsSafe w c h
  apply-IsSafe w stop c h = stop_phone_key-IsSafe w c h
  apply-IsSafe w resume c h = handle_resume-IsSafe w c h
  apply-IsSafe w poll c h = poll_phone_key_event-IsSafe w c h
  apply-IsSafe w enrollment c h = pair-IsSafe w c h
  apply-IsSafe w (set vin model key_name connect command) c h =
      set_config-IsSafe w vin model key_name connect command c h
  apply-IsSafe w (generate force) c h = generate_key-IsSafe w force c h
  apply-IsSafe w (request cmd args) c h = run_command-IsSafe w cmd args c h
  apply-IsSafe w (share text) c h = share_parsed-IsSafe w (parse_shared_text lib text) c h

  -- Over every run of starts, stops, resumes, polls, pairings, changes of the configuration or of the
  -- key, commands and shared destinations, whatever is outside of each answers, the phone key is marked as started only
  -- with a session client, a VIN that is paired, and its key on disk; and a retry is planned only
  -- while the phone key is wanted.
  pub apply_all-IsSafe : (ops : List (World × Op)) (c : Core) → IsSafe c → IsSafe (apply_all ops c)
  unfolding apply_all
  apply_all-IsSafe [] c h = h
  apply_all-IsSafe ((w, op) ∷ ops) c h = apply_all-IsSafe ops (apply w op c) (apply-IsSafe w op c h)
