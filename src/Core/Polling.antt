-- ===== src/Core/Polling.antt =====
-- helper/src/core.rs: the events of the phone key.
use Prim.Native.String.{String}
use text.Mathlib.Text.{◌==◌ as str_eq}
use electric_eel.Base.{ℕ, Bool, false, not, ◌&&◌, ◌||◌, Option, none, some, if◌then◌else◌, leb, ltb}
use electric_eel.Text.{Str, codes, is_empty}
use electric_eel.Client.{Client, SessionEvent, invalidate, poll_event, presence_stopped}
use electric_eel.Core.{Core, World, OperationError, map_client, start_phone_key}

-- An event with the VIN that is filled in. `cause` is the error of a restart, whose text is then the
-- `error` of the event.
pub record KeyEvent : Type 0 where
  pub kind : String
  pub vin : Str
  pub error : String
  pub cause : Option OperationError

abbrev pub is_due : ℕ → Option ℕ → Bool
is_due now none = false
is_due now (some deadline) = leb deadline now

abbrev pub is_waiting : ℕ → Option ℕ → Bool
is_waiting now none = false
is_waiting now (some deadline) = ltb now deadline

-- the VIN of the configuration if the event has none
unfoldable pub fill_vin : Str → SessionEvent → KeyEvent
fill_vin vin e = record {
  kind = e.kind;
  vin = if is_empty (codes e.vin) then vin else codes e.vin;
  error = e.error;
  cause = none;
}

-- the event after a restart without an error, or with one
abbrev pub restarted : KeyEvent → Option OperationError → KeyEvent
restarted e none = record e { kind = "presence_restarted"; error = "" }
restarted e (some cause) = record e { cause = some cause }

-- the restart of the phone key after it has stopped
unfoldable pub restart : World → KeyEvent → Core → Core × Option KeyEvent
restart w e c =
    let (started, error) =
      start_phone_key w (record c { session = map_client invalidate c.session }) in
    (started, some (restarted e error))

-- what is done with an event
unfoldable pub handle_event : World → KeyEvent → Core → Core × Option KeyEvent
unfolding restart
handle_event w e c =
    let stopped = record c { phone_key_started = false } in
    if not (str_eq e.kind "presence_stopped")
    then (c, some e)
    else if not c.phone_key_enabled || is_waiting w.now c.phone_key_retry_at
    then (stopped, some e)
    else restart w e stopped

-- the event at the head of the queue of the client
abbrev pub next_event : Option Client → Core → Option SessionEvent × Core
next_event none c = (none, c)
next_event (some client) c =
    let (event, after) = poll_event client in (event, record c { session = some after })

-- an event that was polled, or one for a retry that is due
unfoldable pub handle_polled : World → Option SessionEvent → Core → Core × Option KeyEvent
unfolding handle_event fill_vin
handle_polled w (some e) c = handle_event w (fill_vin c.cfg.vin e) c
handle_polled w none c =
    if is_due w.now c.phone_key_retry_at && c.phone_key_enabled
    then handle_event w (fill_vin c.cfg.vin (presence_stopped "")) c
    else (c, none)

-- `poll_phone_key_event`
unfoldable pub poll_phone_key_event : World → Core → Core × Option KeyEvent
unfolding handle_polled
poll_phone_key_event w c =
    let (event, polled) = next_event c.session c in handle_polled w event polled
