-- ===== src/Session/Watch.antt =====
-- helper/session/main.go: `runPresenceWatcher`, the loop of presence mode over one watcher. A turn of the loop takes the lock several
-- times; what the watcher, the link and the clock answer in it, and the operations that the lock lets in
-- from other goroutines each time, are the record `Turn`. Logging and the pauses of the watcher are left out.
pub mod Runs
pub mod Rounds
pub mod Counters
pub mod Down
mod Tests
use electric_eel.Base.{
  ℕ, suc, Bool, true, false, not, ◌&&◌, ◌||◌, ◌==◌, Option, none, some, List, [], ◌∷◌, leb,
  if◌then◌else◌,
}
use electric_eel.Base.Int.{ℤ, pos}
use electric_eel.Session.Presence.{
  PresenceConfig, Action, no_action, arrive, stay_near, depart, Presence, Tick, presence_live_near,
  presence_step,
}
use electric_eel.Session.State.{
  presence_error, ScanResult, Session, is_some, emit_event, reset_idle_timer, connect_target,
  connect_backoff_active, vcsec_prime_due, emit_inside,
}
use electric_eel.Session.Link.{
  World, Settings, Status, prime_vcsec, presence_connect_result, presence_depart, link_dropped,
  loop_exit,
}
use electric_eel.Session.Link.Invariant.{Op, apply_all}

-- the end of the wait over a live link
pub data Wait : Type 0 where
  cancelled elapsed signalled : Wait

-- a turn with a live link; `connected` is the answer of `DeviceConnected`, if it is not an error
pub record Held : Type 0 where
  pub meanwhile : List Op
  pub seen_at : ℕ
  pub wait : Wait
  pub connected : Option Bool
  pub now : ℕ
  pub answer : Status
  pub inside_at : ℕ

-- A turn that waits for a beacon: what `Wait` answers, if it is not an error, and whether the watcher
-- could be restarted.
pub record Scan : Type 0 where
  pub before : List Op
  pub now : ℕ
  pub heard : Option (Option ScanResult)
  pub restarted : Bool
  pub while_waiting : List Op
  pub heard_at : ℕ
  pub before_action : List Op
  pub before_connect : List Op
  pub link : World
  pub answer : Status
  pub connect_at : ℕ
  pub paused : Bool

pub record Turn : Type 0 where
  pub is_cancelled : Bool
  pub before : List Op
  pub signalled_before : Bool
  pub held : Held
  pub scan : Scan

-- the session, and the variables of the loop
pub record Loop : Type 0 where
  pub session : Session
  pub presence : Presence
  pub peek_errors : ℕ
  pub link_down_streak : ℕ

abbrev same_link : ℕ → Option ℕ → Bool
same_link link none = false
same_link link (some other) = link == other

abbrev rssi_of : Bool → ScanResult → ℤ
rssi_of true r = r.rssi
rssi_of false r = pos 0

-- the sample of an answer without a link
abbrev pub tick_of : ℕ → Option ScanResult → Tick
tick_of now none = record { now = now; seen = false; rssi = pos 0; gatt_up = false }
tick_of now (some r) = record {
  now = now;
  seen = r.has_rssi;
  rssi = rssi_of r.has_rssi r;
  gatt_up = false;
}

abbrev pub note_beacon : Option ScanResult → ℕ → Session → Session
note_beacon none at s = record s { last_beacon = none; last_beacon_at = 0 }
note_beacon (some r) at s = record s { last_beacon = some r; last_beacon_at = at }

module _ (cfg : Settings) where
  -- the link, if it is one of the bluez backend
  abbrev pub bluez_link : Session → Option ℕ
  bluez_link s = if cfg.bluez then s.conn else none

  -- the link that was looked at is torn down, unless another has taken its place
  abbrev pub drop_link : ℕ → Session → Session
  drop_link link s = if same_link link (bluez_link s) then link_dropped s else s

  -- the first look at the link
  abbrev pub look : Bool → Session → Session
  look signal s = if signal && is_some (bluez_link s) then link_dropped s else s

  -- the status of the vehicle, if it is due
  abbrev pub prime_due : Status → ℕ → Session → Session
  prime_due answer now s = if vcsec_prime_due now s then prime_vcsec answer now s else s

  pub hold_session : Held → Session → Session
  unfolding vcsec_prime_due prime_vcsec reset_idle_timer emit_inside
  hold_session h s =
      emit_inside h.inside_at
        (if is_some s.car then reset_idle_timer (prime_due h.answer h.now s) else s)

  abbrev pub hold : Held → Loop → Loop × Bool
  hold h l = (record l { session = hold_session h l.session }, true)

  pub drop_held : ℕ → Loop → Loop × Bool
  unfolding link_dropped
  drop_held link l = (record l { session = drop_link link l.session; link_down_streak = 0 }, true)

  abbrev pub after_read : Held → ℕ → Option Bool → Loop → Loop × Bool
  after_read h link none l = hold h l
  after_read h link (some true) l = hold h (record l { link_down_streak = 0 })
  after_read h link (some false) l =
      if leb 2 (suc l.link_down_streak)
      then drop_held link l
      else hold h (record l { link_down_streak = suc l.link_down_streak })

  abbrev pub after_wait : Held → Wait → Option ℕ → Loop → Loop × Bool
  after_wait h cancelled link l = (l, false)
  after_wait h elapsed none l = hold h l
  after_wait h signalled none l = hold h l
  after_wait h elapsed (some link) l = after_read h link h.connected l
  after_wait h signalled (some link) l = drop_held link l

  pub held_turn : Held → Loop → Loop × Bool
  held_turn h l = after_wait h h.wait (bluez_link l.session) (record l {
    session = apply_all cfg h.meanwhile l.session;
    presence = record l.presence { near = true; last_seen = h.seen_at };
  })

  abbrev pub after_connected : Bool → Session × Bool → Loop → Loop × Bool
  after_connected paused (s, true) l = (record l { session = s }, paused)
  after_connected paused (s, false) l = (
    record l { session = s; presence = record l.presence { near = false; consec_near = 0 } },
    true,
  )

  abbrev pub connect_to : Scan → Option ScanResult → Loop → Loop × Bool
  connect_to c none l = (l, c.paused)
  connect_to c (some target) l =
      after_connected c.paused
        (presence_connect_result cfg c.link c.answer c.connect_at (some target)
          (apply_all cfg c.before_connect l.session))
        l

  module _ (pc : PresenceConfig) where
    -- `presenceActionArrive` and `presenceActionStayNear`
    pub near_action : Scan → Option ScanResult → Loop → Loop × Bool
    unfolding presence_live_near connect_backoff_active connect_target presence_connect_result
    near_action c result l =
        let tick = tick_of c.now result in
        let ready = record l { session = apply_all cfg c.before_action l.session } in
        if not (presence_live_near tick.seen tick.rssi pc.near_rssi)
        then (l, c.paused)
        else if connect_backoff_active c.now ready.session
        then (ready, c.paused)
        else connect_to c (connect_target result ready.session) ready

    abbrev pub act : Scan → Option ScanResult → Action → Loop → Loop × Bool
    act c result no_action l = (l, c.paused)
    act c result arrive l = near_action c result l
    act c result stay_near l = near_action c result l
    act c result depart l =
        (record l { session = presence_depart (apply_all cfg c.before_action l.session) }, c.paused)

    abbrev pub after_restart : Bool → Loop → Loop × Bool
    after_restart true l = (record l { peek_errors = 0 }, true)
    after_restart false l = (record l { session = emit_event presence_error l.session }, false)

    abbrev pub after_heard : Scan → Option (Option ScanResult) → Loop → Loop × Bool
    after_heard c none l =
        let failed = record l { peek_errors = suc l.peek_errors } in
        if leb 5 failed.peek_errors then after_restart c.restarted failed else (failed, true)
    after_heard c (some result) l =
        let (p, action) = presence_step pc l.presence (tick_of c.now result) in
        act c result action (record l {
          session = note_beacon result c.heard_at l.session;
          presence = p;
          peek_errors = 0;
        })

    pub scan_turn : Scan → Loop → Loop × Bool
    scan_turn c l =
        let start = record l { session = apply_all cfg c.before l.session; link_down_streak = 0 } in
        if is_some start.session.car
        then (start, true)
        else after_heard c c.heard
            (record start { session = apply_all cfg c.while_waiting start.session })

    -- one turn of the loop of `runPresenceWatcher`, and whether it goes on
    pub turn : Turn → Loop → Loop × Bool
    unfolding link_dropped
    turn t l =
        let seen = record l {
          session = look t.signalled_before (apply_all cfg t.before l.session);
        } in
        if t.is_cancelled
        then (l, false)
        else if is_some seen.session.car
        then held_turn t.held seen
        else scan_turn t.scan seen

    -- the turns up to the one that ends the loop
    pub turns : List Turn → Loop → Loop
    turns [] l = l
    turns (t ∷ ts) l =
        let (l', more) = turn t l in let rest = turns ts l' in if more then rest else l'
