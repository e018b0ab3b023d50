-- ===== src/Session/State.antt =====
-- helper/session/main.go: the state of `session` and the operations on it that touch neither the
-- radio nor the vehicle. Every operation runs under `session.mu`, so each is one step. Objects that
-- the code compares by pointer carry a number. `presence_cancel` holds the generation of the loop
-- that it cancels; `events` is what `emitEvent` has written, in order.
pub mod Backoff
pub mod Inside
use electric_eel.Base.{
  ℕ, suc, ◌+◌, ◌*◌, Bool, true, false, not, ◌&&◌, ◌||◌, Option, none, some, List, [], ◌∷◌, ◌++◌,
  leb, ltb, ◌==◌, if◌then◌else◌,
}
use electric_eel.Base.Int.{ℤ, pos, leb_ℤ, ltb_ℤ, pos_part, neg_part, sub_ℕ}
use electric_eel.Session.Clock.{second, sub, longer, is_zero}
use electric_eel.Session.Presence.{PresenceConfig, default_presence_config, presence_live_near}

pub data EventKind : Type 0 where
  presence_stopped presence_error presence_near presence_far presence_disconnected : EventKind
  presence_auth_ok presence_auth_failed presence_inside : EventKind

pub data UserPresence : Type 0 where
  presence_unknown not_present present : UserPresence

-- bluez.ScanResult, with the number of the object
pub record ScanResult : Type 0 where
  pub object : ℕ
  pub rssi : ℤ
  pub has_rssi : Bool

pub record Session : Type 0 where
  pub car : Option ℕ
  pub conn : Option ℕ
  pub idle_timer : Bool
  pub presence_cancel : Option ℕ
  pub presence_generation : ℕ
  pub presence_cfg : PresenceConfig
  pub auth_responder : Bool
  pub auth_inbox : Option (List (List ℕ))
  pub last_beacon : Option ScanResult
  pub last_beacon_at : ℕ
  pub connect_backoff_until : ℕ
  pub connect_backoff : ℕ
  pub last_vcsec_prime : ℕ
  pub connected_at : ℕ
  pub last_user_presence : UserPresence
  pub inside_emitted : Bool
  pub events : List EventKind

abbrev pub is_some {ℓ} : {A : Type ℓ} → Option A → Bool
is_some none = false
is_some (some _) = true

unfoldable pub emit_event : EventKind → Session → Session
emit_event kind s = record s { events = s.events ++ kind ∷ [] }

unfoldable pub stop_auth_tap : Session → Session
stop_auth_tap s = record s { auth_responder = false; auth_inbox = none }

unfoldable pub teardown : Session → Session
unfolding stop_auth_tap
teardown s = record (stop_auth_tap s) {
  idle_timer = false;
  car = none;
  conn = none;
  last_vcsec_prime = 0;
  connected_at = 0;
  last_user_presence = presence_unknown;
  inside_emitted = false;
}

unfoldable pub reset_idle_timer : Session → Session
reset_idle_timer s = record s { idle_timer = not (is_some s.presence_cancel) }

-- the idle timer fires: `teardownLocked`
unfoldable pub idle_timeout : Session → Session
unfolding teardown
idle_timeout s = teardown s

unfoldable pub presence_beacon_target : Session → Option ScanResult
presence_beacon_target s = if is_some s.presence_cancel then s.last_beacon else none

abbrev same_object : ScanResult → Option ScanResult → Bool
same_object a none = false
same_object a (some b) = a.object == b.object

abbrev effective_config : PresenceConfig → PresenceConfig
effective_config cfg = if leb_ℤ cfg.scan_interval (pos 0) then default_presence_config else cfg

unfoldable pub presence_target_ready : Option ScanResult → ℕ → Session → Bool
unfolding presence_live_near
presence_target_ready none now s = false
presence_target_ready (some target) now s =
    let cfg = effective_config s.presence_cfg in
    let window = sub_ℕ (2 * pos_part cfg.scan_interval) (2 * neg_part cfg.scan_interval) in
    same_object target s.last_beacon
    && presence_live_near target.has_rssi target.rssi cfg.near_rssi
    && not (is_zero s.last_beacon_at)
    && not (longer (sub now s.last_beacon_at) window)

unfoldable pub connect_target : Option ScanResult → Session → Option ScanResult
connect_target (some peek) s = some peek
connect_target none s = s.last_beacon

abbrev pub max_backoff : ℕ
max_backoff = 60 * second

abbrev pub next_backoff : ℕ → ℕ
next_backoff b =
    let doubled = b * 2 in
    let floored = if ltb doubled second then second else doubled in
    if ltb max_backoff floored then max_backoff else floored

unfoldable pub schedule_connect_backoff : ℕ → Session → Session
schedule_connect_backoff now s = record s {
  connect_backoff = next_backoff s.connect_backoff;
  connect_backoff_until = now + next_backoff s.connect_backoff;
}

unfoldable pub clear_connect_backoff : Session → Session
clear_connect_backoff s = record s { connect_backoff_until = 0; connect_backoff = 0 }

unfoldable pub connect_backoff_active : ℕ → Session → Bool
connect_backoff_active now s =
    not (is_zero s.connect_backoff_until) && ltb now s.connect_backoff_until

abbrev pub vcsec_prime_interval : ℕ
vcsec_prime_interval = 15 * second

abbrev pub inside_settle_duration : ℕ
inside_settle_duration = 45 * second

abbrev is_present : UserPresence → Bool
is_present present = true
is_present _ = false

unfoldable pub ready_for_inside : ℕ → ℕ → ℕ → UserPresence → Bool
ready_for_inside connected_at status_at now presence =
    not (is_zero connected_at)
    && not (is_zero status_at)
    && is_present presence
    && not (ltb now (connected_at + inside_settle_duration))
    && not (ltb now status_at)
    && not (longer (sub now status_at) (pos (2 * vcsec_prime_interval)))

unfoldable pub emit_inside : ℕ → Session → Session
unfolding emit_event ready_for_inside
emit_inside now s =
    if not (is_some s.car)
      || not (is_some s.presence_cancel)
      || s.inside_emitted
      || not (ready_for_inside s.connected_at s.last_vcsec_prime now s.last_user_presence)
    then s
    else emit_event presence_inside (record s { inside_emitted = true })

unfoldable pub vcsec_prime_due : ℕ → Session → Bool
vcsec_prime_due now s =
    is_zero s.last_vcsec_prime
    || not (longer (pos vcsec_prime_interval) (sub now s.last_vcsec_prime))

unfoldable pub emit_presence_disconnected : Session → Session
unfolding emit_event
emit_presence_disconnected s =
    if is_some s.presence_cancel then emit_event presence_disconnected s else s

unfoldable pub stop_presence : Session → Session
unfolding stop_auth_tap clear_connect_backoff
stop_presence s =
    let stopped = record s {
      presence_cancel = none;
      presence_generation = s.presence_generation + 1;
    } in
    clear_connect_backoff
      (record (stop_auth_tap stopped) { last_beacon = none; last_beacon_at = 0 })
