-- ===== src/Session/Watch/Counters.antt =====
-- helper/session/main.go: the counters of the presence loop, and a link that is reported as down.
use electric_eel.Base.{
  ℕ, suc, ◌<◌, ◌≡◌, inl, inr, arith, Bool-cases, Bool, true, false, not, Option, none, some, leb,
  if◌then◌else◌,
}
use electric_eel.Session.Presence.{
  PresenceConfig, Action, no_action, arrive, stay_near, depart, presence_live_near, presence_step,
}
use electric_eel.Session.State.{
  ScanResult, Session, is_some, connect_target, connect_backoff_active,
}
use electric_eel.Session.Link.{Settings, presence_connect_result, presence_depart}
use electric_eel.Session.Link.Invariant.{apply_all}
use electric_eel.Session.Watch.{
  Wait, cancelled, elapsed, signalled, Held, Scan, Turn, Loop, tick_of, note_beacon, bluez_link,
  look, drop_held, after_read, after_wait, held_turn, after_connected, connect_to, near_action, act,
  after_restart, after_heard, scan_turn, turn,
}

-- fewer than five errors in a row, and fewer than two reports of a dead link
abbrev pub IsBounded : Loop → Type 0
IsBounded l = (l.peek_errors < 5) × (l.link_down_streak < 2)

-- a turn that goes on
abbrev IsGood : Loop × Bool → Type 0
IsGood (l, true) = IsBounded l
IsGood (l, false) = Unit

if-IsGood : (b : Bool) (x y : Loop × Bool) → IsGood x → IsGood y → IsGood (if b then x else y)
if-IsGood true x y hx hy = hx
if-IsGood false x y hx hy = hy

IsBounded-IsGood : (l : Loop) (b : Bool) → IsBounded l → IsGood (l, b)
IsBounded-IsGood l true h = h
IsBounded-IsGood l false h = tt

IsGood-IsBounded : (x : Loop × Bool) → IsGood x → x.1 ≡ true → IsBounded x.0
IsGood-IsBounded (l, true) h going = h
IsGood-IsBounded (l, false) h going = absurd cc

module _ (cfg : Settings) where
  after_read-IsGood :
      (h : Held) (link : ℕ) (answer : Option Bool) (l : Loop)
      → IsBounded l
      → IsGood (after_read cfg h link answer l)
  unfolding drop_held
  after_read-IsGood h link none l bounded = bounded
  after_read-IsGood h link (some true) l bounded = (bounded.0, omega arith)
  after_read-IsGood h link (some false) l bounded =
      elim (Bool-cases (leb 2 (suc l.link_down_streak))) [
        | inl e ↦ rw e (bounded.0, omega arith)
        | inr e ↦ rw e (bounded.0, ground (arith, e))
      ]

  after_wait-IsGood :
      (h : Held) (wait : Wait) (link : Option ℕ) (l : Loop)
      → IsBounded l
      → IsGood (after_wait cfg h wait link l)
  unfolding drop_held
  after_wait-IsGood h cancelled link l bounded = tt
  after_wait-IsGood h elapsed none l bounded = bounded
  after_wait-IsGood h signalled none l bounded = bounded
  after_wait-IsGood h elapsed (some link) l bounded = after_read-IsGood h link h.connected l bounded
  after_wait-IsGood h signalled (some link) l bounded = (bounded.0, omega arith)

  after_connected-IsGood :
      (paused : Bool) (r : Session × Bool) (l : Loop)
      → IsBounded l
      → IsGood (after_connected cfg paused r l)
  after_connected-IsGood paused (s, true) l bounded =
      IsBounded-IsGood (record l { session = s }) paused bounded
  after_connected-IsGood paused (s, false) l bounded = bounded

  connect_to-IsGood :
      (c : Scan) (target : Option ScanResult) (l : Loop)
      → IsBounded l
      → IsGood (connect_to cfg c target l)
  connect_to-IsGood c none l bounded = IsBounded-IsGood l c.paused bounded
  connect_to-IsGood c (some target) l bounded =
      after_connected-IsGood c.paused
        (presence_connect_result cfg c.link c.answer c.connect_at (some target)
          (apply_all cfg c.before_connect l.session))
        l bounded

  module _ (pc : PresenceConfig) where
    near_action-IsGood :
        (c : Scan) (result : Option ScanResult) (l : Loop)
        → IsBounded l
        → IsGood (near_action cfg pc c result l)
    unfolding near_action
    near_action-IsGood c result l bounded =
        let tick = tick_of c.now result in
        let ready = record l { session = apply_all cfg c.before_action l.session } in
        if-IsGood (not (presence_live_near tick.seen tick.rssi pc.near_rssi)) _ _
          (IsBounded-IsGood l c.paused bounded)
          (if-IsGood (connect_backoff_active c.now ready.session) _ _
            (IsBounded-IsGood ready c.paused bounded)
            (connect_to-IsGood c (connect_target result ready.session) ready bounded))

    act-IsGood :
        (c : Scan) (result : Option ScanResult) (action : Action) (l : Loop)
        → IsBounded l
        → IsGood (act cfg pc c result action l)
    act-IsGood c result no_action l bounded = IsBounded-IsGood l c.paused bounded
    act-IsGood c result arrive l bounded = near_action-IsGood c result l bounded
    act-IsGood c result stay_near l bounded = near_action-IsGood c result l bounded
    act-IsGood c result depart l bounded =
        let gone = presence_depart (apply_all cfg c.before_action l.session) in
        IsBounded-IsGood (record l { session = gone }) c.paused bounded

    after_restart-IsGood :
        (b : Bool) (l : Loop) → l.link_down_streak < 2 → IsGood (after_restart cfg pc b l)
    after_restart-IsGood true l h = (omega arith, h)
    after_restart-IsGood false l h = tt

    after_heard-IsGood :
        (c : Scan) (heard : Option (Option ScanResult)) (l : Loop)
        → IsBounded l
        → IsGood (after_heard cfg pc c heard l)
    after_heard-IsGood c none l bounded = elim (Bool-cases (leb 5 (suc l.peek_errors))) [
      | inl e ↦ rw e (
          after_restart-IsGood c.restarted (record l { peek_errors = suc l.peek_errors }) bounded.1)
      | inr e ↦ rw e (ground (arith, e), bounded.1)
    ]
    after_heard-IsGood c (some result) l bounded =
        let step = presence_step pc l.presence (tick_of c.now result) in
        let noted = note_beacon result c.heard_at l.session in
        act-IsGood c result step.1
          (record l { session = noted; presence = step.0; peek_errors = 0 })
          (omega arith, bounded.1)

    scan_turn-IsGood : (c : Scan) (l : Loop) → IsBounded l → IsGood (scan_turn cfg pc c l)
    unfolding scan_turn
    scan_turn-IsGood c l bounded =
        let start = apply_all cfg c.before l.session in
        let waited = apply_all cfg c.while_waiting start in
        if-IsGood (is_some start.car) _ _ (bounded.0, omega arith)
          (after_heard-IsGood c c.heard (record l { session = waited; link_down_streak = 0 })
            (bounded.0, omega arith))

    turn-IsGood : (t : Turn) (l : Loop) → IsBounded l → IsGood (turn cfg pc t l)
    unfolding turn held_turn
    turn-IsGood t l bounded =
        let seen = look cfg t.signalled_before (apply_all cfg t.before l.session) in
        if-IsGood t.is_cancelled _ _ tt (
          if-IsGood (is_some seen.car) _ _
            (after_wait-IsGood t.held t.held.wait (bluez_link cfg seen)
              (record l {
                session = apply_all cfg t.held.meanwhile seen;
                presence = record l.presence { near = true; last_seen = t.held.seen_at };
              })
              bounded)
            (scan_turn-IsGood t.scan (record l { session = seen }) bounded))

    -- The loop goes on after a turn only with fewer than five errors of the watcher in a row and with fewer than
    -- two reports of a dead link in a row, if that was so before the turn, whatever is answered in it.
    pub turn-IsBounded :
        (t : Turn) (l : Loop)
        → IsBounded l
        → (turn cfg pc t l).1 ≡ true
        → IsBounded (turn cfg pc t l).0
    turn-IsBounded t l bounded going =
        IsGood-IsBounded (turn cfg pc t l) (turn-IsGood t l bounded) going
