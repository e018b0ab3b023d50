-- ===== src/Session/Watch/Tests.antt =====
-- The theorems on the presence loop applied to a live link, and to a beacon at which it connects.
use electric_eel.Base.{◌≡◌, refl, arith, true, false, none, some, List, [], ◌∷◌, All}
use electric_eel.Base.Int.{negsuc}
use electric_eel.Session.Presence.{default_presence_config}
use electric_eel.Session.State.{Session, present, presence_unknown}
use electric_eel.Session.Link.{Settings, Status, vcsec}
use electric_eel.Session.Link.Connect.{IsDown}
use electric_eel.Session.Link.Invariant.{Op, exit, apply, apply_all}
use electric_eel.Session.Watch.{Scan, Turn, scan_turn, turn, turns}
use electric_eel.Session.Link.Reach.{AnyOp}
use electric_eel.Session.Watch.Runs.{IsOwn, TurnAll}
use electric_eel.Session.Watch.Rounds.{
  RoundAll, Spares, new_loop, Round, watch_failed, watched, presence_loop, presence_loop-apply_all,
  presence_loop-presence_cancel,
}
use electric_eel.Session.Watch.Counters.{IsBounded, turn-IsBounded}
use electric_eel.Session.Watch.Down.{reports_down, IsHeld, turns-IsDown}

abbrev bluez : Settings
bluez = record { bluez = true; command_domain = λ cmd. some vcsec }

abbrev away : Session
away = record {
  car = none;
  conn = none;
  idle_timer = false;
  presence_cancel = some 3;
  presence_generation = 3;
  presence_cfg = default_presence_config;
  auth_responder = false;
  auth_inbox = none;
  last_beacon = none;
  last_beacon_at = 0;
  connect_backoff_until = 0;
  connect_backoff = 0;
  last_vcsec_prime = 0;
  connected_at = 0;
  last_user_presence = presence_unknown;
  inside_emitted = false;
  events = [];
}

abbrev linked : Session
linked = record away {
  car = some 1;
  conn = some 7;
  auth_responder = true;
  auth_inbox = some [];
  connected_at = 5;
}

-- a beacon with a strong signal
abbrev hears : Scan
hears = record {
  before = [];
  now = 6;
  heard = some (some (record { object = 4; has_rssi = true; rssi = negsuc 59 }));
  restarted = true;
  while_waiting = [];
  heard_at = 7;
  before_action = [];
  before_connect = [];
  link = record {
    key_loads = true;
    bus_opens = true;
    adapter_starts = true;
    link_connects = some 7;
    vehicle_made = some 1;
    vehicle_connects = true;
    session_starts = true;
  };
  answer = Status.status present;
  connect_at = 8;
  paused = true;
}

-- the watcher answers with errors alone
abbrev deaf : Scan
deaf = record hears { heard = none }

abbrev down : Scan → Turn
down scan = reports_down 20 21 22 present scan

five_errors :
    (turn bluez default_presence_config
      (down deaf)
      (record (new_loop away) { peek_errors = 4 })).0.peek_errors
    ≡ 0
unfolding turn apply_all scan_turn
five_errors = refl

turns-IsDown_example :
    IsHeld bluez 7 (turns bluez default_presence_config (down hears ∷ []) (new_loop linked)).session
    × IsDown
        (turns bluez default_presence_config
          (down hears ∷ (down hears ∷ []))
          (new_loop linked)).session
turns-IsDown_example =
    turns-IsDown bluez default_presence_config 7 20 21 22 20 21 22 present present hears hears
      (new_loop linked) (record { bluez = refl; vehicle = refl; same = refl }) refl

turn-IsBounded_example :
    IsBounded (turn bluez default_presence_config (down deaf) (new_loop away)).0
unfolding turn apply_all scan_turn
turn-IsBounded_example =
    turn-IsBounded bluez default_presence_config (down deaf) (new_loop away)
      (omega arith, omega arith) refl

-- a watcher that fails to start, and one with two turns
abbrev two_rounds : List Round
two_rounds = watch_failed [] ∷ (watched [] (down hears ∷ (down hears ∷ [])) ∷ [])

two_rounds-RoundAll : (P : Op → Type 0) → All (RoundAll P) two_rounds
two_rounds-RoundAll P =
    let alone : TurnAll P (down hears) = (tt, tt, (tt, tt, tt, tt)) in
    (tt, ((tt, (alone, (alone, tt))), tt))

AnyOp-IsOwn : IsOwn AnyOp
AnyOp-IsOwn = record {
  connects = λ w answer now target. tt;
  primes = λ answer now. tt;
  insides = λ now. tt;
  beacons = λ result at. tt;
  drops = tt;
  departs = tt;
  reports = tt;
  keeps = tt;
}

presence_loop-apply_all_example :
    (ops : List Op) × All AnyOp ops
    × (presence_loop bluez default_presence_config true two_rounds [] 3 away
        ≡ apply bluez (exit 3) (apply_all bluez ops away))
presence_loop-apply_all_example =
    presence_loop-apply_all AnyOp AnyOp-IsOwn bluez default_presence_config true two_rounds [] 3
      away (two_rounds-RoundAll AnyOp) tt

presence_loop-presence_cancel_example :
    (presence_loop bluez default_presence_config true two_rounds [] 2 away).presence_cancel ≡ some 3
presence_loop-presence_cancel_example =
    presence_loop-presence_cancel bluez default_presence_config true two_rounds [] 2 3 away
      (record {
        link = λ h. refl;
        clean = λ h. (refl, refl, refl);
        responder = refl;
        tapped = λ h. absurd cc;
        newest = refl;
      })
      refl (omega arith) (two_rounds-RoundAll (Spares 3)) tt
