-- ===== src/Session/Link.antt =====
-- helper/session/main.go: connecting to the vehicle, and the requests that start and stop presence
-- mode. What the radio, the bus, the key files and the vehicle answer is the record `World`; each
-- of its fields is the outcome of one call of a library, in the order of the calls.
pub mod Connect
pub mod Consistent
pub mod Keeps
pub mod Invariant
pub mod Reach
mod Tests
use Prim.Native.String.{String}
use text.Mathlib.Text.{◌==◌ as str_eq}
use electric_eel.Base.{
  ℕ, suc, ◌+◌, Bool, true, false, not, ◌&&◌, ◌||◌, ◌==◌, Option, none, some, List, [], ◌∷◌,
  if◌then◌else◌,
}
use electric_eel.Session.Presence.{PresenceConfig}
use electric_eel.Session.State.{
  presence_stopped, presence_error, presence_near, presence_far, UserPresence, presence_unknown,
  ScanResult, Session, is_some, emit_event, stop_auth_tap, teardown, reset_idle_timer,
  presence_beacon_target, presence_target_ready, emit_presence_disconnected, stop_presence,
  schedule_connect_backoff, clear_connect_backoff,
}

pub data Domain : Type 0 where
  vcsec infotainment : Domain

pub data LinkError : Type 0 where
  not_nearby key_error bus_error adapter_error connect_error vehicle_error session_error : LinkError

pub record World : Type 0 where
  pub key_loads : Bool
  pub bus_opens : Bool
  pub adapter_starts : Bool
  pub link_connects : Option ℕ
  pub vehicle_made : Option ℕ
  pub vehicle_connects : Bool
  pub session_starts : Bool

-- the options of the process, and the domain that `commands` names for a command, if any
pub record Settings : Type 0 where
  pub bluez : Bool
  pub command_domain : String → Option Domain

unfoldable pub without_session : String → Bool
without_session cmd = str_eq cmd "add-key-request"

-- The domains of the handshake; the empty list stands for `nil`, which means all of them.
unfoldable pub session_domains : Settings → String → List Domain
session_domains cfg cmd =
    if str_eq cmd ""
    then vcsec ∷ []
    else if str_eq cmd "state"
    then infotainment ∷ []
    else elim (cfg.command_domain cmd) [ none ↦ [] | some d ↦ d ∷ [] ]

-- The responder starts once; without a link of the bluez backend nothing happens.
unfoldable pub ensure_auth_tap : Settings → Session → Session
ensure_auth_tap cfg s =
    if not (cfg.bluez && is_some s.conn) || s.auth_responder
    then s
    else record s { auth_responder = true; auth_inbox = some [] }

abbrev pub is_empty {ℓ} : {A : Type ℓ} → List A → Bool
is_empty [] = true
is_empty (_ ∷ _) = false

-- the live session serves the command, after a further handshake if it names a domain
pub reuse : Settings → World → String → Session → Session × Option LinkError
unfolding ensure_auth_tap session_domains without_session
reuse cfg w cmd s =
    if without_session cmd
    then (s, none)
    else if is_empty (session_domains cfg cmd)
    then (ensure_auth_tap cfg s, none)
    else if w.session_starts
    then (ensure_auth_tap cfg s, none)
    else (ensure_auth_tap cfg s, some session_error)

-- `StartSession` on the new link, the trusted mark, and the time of the connection
pub handshake : Settings → World → ℕ → String → Session → Session × Option LinkError
unfolding ensure_auth_tap without_session teardown
handshake cfg w now cmd s =
    if without_session cmd
    then (record s { connected_at = now }, none)
    else if w.session_starts
    then (record (ensure_auth_tap cfg s) { connected_at = now }, none)
    else (teardown (ensure_auth_tap cfg s), some session_error)

pub make_vehicle : Settings → World → ℕ → String → ℕ → Session → Session × Option LinkError
make_vehicle cfg w now cmd link s = elim w.vehicle_made [
  | none ↦ (s, some vehicle_error)
  | some car ↦
      if w.vehicle_connects
      then handshake cfg w now cmd (record s { car = some car; conn = some link })
      else (s, some vehicle_error)
]

pub open_link : Settings → World → ℕ → String → Session → Session × Option LinkError
open_link cfg w now cmd s = elim w.link_connects [
  | none ↦ (s, some connect_error)
  | some link ↦ make_vehicle cfg w now cmd link s
]

pub connect_fresh : Settings → World → ℕ → String → Session → Session × Option LinkError
connect_fresh cfg w now cmd s =
    if not w.key_loads
    then (s, some key_error)
    else if cfg.bluez && not w.bus_opens
    then (s, some bus_error)
    else if not cfg.bluez && not w.adapter_starts
    then (s, some adapter_error)
    else open_link cfg w now cmd s

unfoldable pub ensure_connected :
    Settings → World → ℕ → String → Option ScanResult → Session → Session × Option LinkError
ensure_connected cfg w now cmd target s =
    if is_some s.car
    then reuse cfg w cmd s
    else if is_some s.presence_cancel && cfg.bluez && not (presence_target_ready target now s)
    then (s, some not_nearby)
    else connect_fresh cfg w now cmd s

-- What `BodyControllerState` answers: the vehicle's view of the user, or an error that means, or
-- does not mean, that the session is gone.
pub data Status : Type 0 where
  status : UserPresence → Status
  failed : (dropped : Bool) → Status

abbrev primed : Status → ℕ → Session → Session
primed (status p) now s = record s { last_vcsec_prime = now; last_user_presence = p }
primed (failed true) now s = emit_presence_disconnected (teardown s)
primed (failed false) now s = s

unfoldable pub prime_vcsec : Status → ℕ → Session → Session
unfolding emit_presence_disconnected teardown
prime_vcsec answer now s =
    if is_some s.car
    then primed answer now (record s { last_user_presence = presence_unknown })
    else s

-- The rest of `dispatch` for a command that has a connection. `confirmed` is whether the command
-- and, for the pairing request, the confirmation of the enrollment succeeded.
unfoldable pub finish_command : String → Session → Session
unfolding without_session teardown reset_idle_timer
finish_command cmd s = if without_session cmd then teardown s else reset_idle_timer s

unfoldable pub dispatch_command :
    Settings → World → ℕ → String → Session → Session × Option LinkError
unfolding ensure_connected presence_beacon_target finish_command
dispatch_command cfg w now cmd s =
    let (s', err) = ensure_connected cfg w now cmd (presence_beacon_target s) s in
    (if is_some err then s' else finish_command cmd s', err)

-- whether the request is accepted
unfoldable pub presence_start : Settings → PresenceConfig → Session → Session × Bool
presence_start cfg args s =
    if not cfg.bluez then (s, false) else if is_some s.presence_cancel then (s, true) else (
      record s {
        presence_generation = suc s.presence_generation;
        presence_cancel = some (suc s.presence_generation);
        presence_cfg = args;
      },
      true,
    )

unfoldable pub presence_stop : Session → Session
unfolding stop_presence teardown
presence_stop s = teardown (stop_presence s)

-- the deferred cleanup of the loop of one generation, as it exits
unfoldable pub loop_exit : ℕ → Session → Session
unfolding emit_event
loop_exit generation s =
    if s.presence_generation == generation
    then emit_event presence_stopped (record s { presence_cancel = none })
    else s

-- `presenceActionArrive` and `presenceActionStayNear`, for a target and outside the quiet period:
-- connect, attach the responder, ask for the status; a failure starts a quiet period. The answer
-- is whether it succeeded.
unfoldable pub presence_connect_result :
    Settings → World → Status → ℕ → Option ScanResult → Session → Session × Bool
unfolding ensure_connected clear_connect_backoff ensure_auth_tap prime_vcsec reset_idle_timer
    schedule_connect_backoff emit_event
presence_connect_result cfg w answer now target s =
    let (s', err) = ensure_connected cfg w now "" target s in
    let tapped = ensure_auth_tap cfg (clear_connect_backoff s') in
    let held = reset_idle_timer (prime_vcsec answer now tapped) in
    if is_some err
    then (emit_event presence_error (schedule_connect_backoff now s'), false)
    else if is_some held.car
    then (emit_event presence_near held, true)
    else (emit_event presence_error (schedule_connect_backoff now held), false)

-- the session alone
unfoldable pub presence_connect :
    Settings → World → Status → ℕ → Option ScanResult → Session → Session
unfolding presence_connect_result
presence_connect cfg w answer now target s = (presence_connect_result cfg w answer now target s).0

-- `presenceActionDepart`
unfoldable pub presence_depart : Session → Session
unfolding teardown clear_connect_backoff emit_event
presence_depart s = emit_event presence_far (teardown (clear_connect_backoff s))

-- the link dropped under a running presence loop
unfoldable pub link_dropped : Session → Session
unfolding teardown emit_presence_disconnected
link_dropped s = emit_presence_disconnected (teardown s)
