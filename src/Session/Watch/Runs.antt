-- ===== src/Session/Watch/Runs.antt =====
-- helper/session/main.go: what the presence loop does to the session is a run of its operations.
use electric_eel.Base.{
  ℕ, suc, ◌≡◌, refl, Bool, true, false, not, Option, none, some, List, [], ◌∷◌, leb, All,
  if◌then◌else◌,
}
use electric_eel.Session.Presence.{
  PresenceConfig, Action, no_action, arrive, stay_near, depart, presence_live_near, presence_step,
}
use electric_eel.Session.State.{
  ScanResult, Session, is_some, reset_idle_timer, connect_target, connect_backoff_active,
  vcsec_prime_due,
}
use electric_eel.Session.Link.{
  World, Settings, Status, presence_connect, presence_connect_result, link_dropped,
}
use electric_eel.Session.Link.Invariant.{
  Op, connect_near, prime, inside, beacon, dropped, report, keep, exit, apply, apply_all,
}
use electric_eel.Session.Link.Invariant as Invariant
use electric_eel.Session.Link.Reach.{
  Reaches, Reaches-refl, Reaches-trans, Reaches-op, Reaches-apply_all, if-Reaches,
}
use electric_eel.Session.Watch.{
  Wait, cancelled, elapsed, signalled, Held, Scan, Turn, Loop, tick_of, note_beacon, bluez_link,
  look, prime_due, hold_session, drop_held, after_read, after_wait, held_turn, after_connected,
  connect_to, near_action, act, after_restart, after_heard, scan_turn, turn, turns,
}

abbrev of_loop : Loop × Bool → Session
of_loop x = x.0.session

abbrev of_session : Session → Session
of_session s = s

-- the operations that the loop performs itself
pub record IsOwn (P : Op → Type 0) : Type 0 where
  pub connects :
      (w : World) (answer : Status) (now : ℕ) (target : Option ScanResult)
      → P (connect_near w answer now target)
  pub primes : (answer : Status) (now : ℕ) → P (prime answer now)
  pub insides : (now : ℕ) → P (inside now)
  pub beacons : (result : Option ScanResult) (at : ℕ) → P (beacon result at)
  pub drops : P dropped
  pub departs : P Invariant.depart
  pub reports : P report
  pub keeps : P keep

-- what is allowed of the operations that other goroutines perform in a turn
abbrev pub ScanAll : (Op → Type 0) → Scan → Type 0
ScanAll P c =
    All P c.before × All P c.while_waiting × All P c.before_action × All P c.before_connect

abbrev pub TurnAll : (Op → Type 0) → Turn → Type 0
TurnAll P t = All P t.before × All P t.held.meanwhile × ScanAll P t.scan

module _ (P : Op → Type 0) (own : IsOwn P) (cfg : Settings) where
  prime_due-Reaches :
      (answer : Status) (now : ℕ) (s : Session) → Reaches P cfg s (prime_due cfg answer now s)
  unfolding apply
  prime_due-Reaches answer now s =
      if-Reaches P cfg of_session (vcsec_prime_due now s) s _ _
        (Reaches-op P cfg (prime answer now) (own.primes answer now) s) (Reaches-refl P cfg s)

  hold_session-Reaches : (h : Held) (s : Session) → Reaches P cfg s (hold_session cfg h s)
  unfolding apply hold_session
  hold_session-Reaches h s =
      let primed = prime_due cfg h.answer h.now s in
      let kept = if is_some s.car then reset_idle_timer primed else s in
      Reaches-trans P cfg s kept _
        (if-Reaches P cfg of_session (is_some s.car) s _ _
          (Reaches-trans P cfg s primed _ (prime_due-Reaches h.answer h.now s)
            (Reaches-op P cfg keep own.keeps primed))
          (Reaches-refl P cfg s))
        (Reaches-op P cfg (inside h.inside_at) (own.insides h.inside_at) kept)

  dropped-Reaches : (b : Bool) (s : Session) → Reaches P cfg s (if b then link_dropped s else s)
  unfolding apply
  dropped-Reaches b s =
      if-Reaches P cfg of_session b s _ _ (Reaches-op P cfg dropped own.drops s)
        (Reaches-refl P cfg s)

  drop_held-Reaches :
      (link : ℕ) (l : Loop) → Reaches P cfg l.session (drop_held cfg link l).0.session
  unfolding drop_held
  drop_held-Reaches link l = dropped-Reaches _ l.session

  after_read-Reaches :
      (h : Held) (link : ℕ) (answer : Option Bool) (l : Loop)
      → Reaches P cfg l.session (after_read cfg h link answer l).0.session
  after_read-Reaches h link none l = hold_session-Reaches h l.session
  after_read-Reaches h link (some true) l = hold_session-Reaches h l.session
  after_read-Reaches h link (some false) l =
      if-Reaches P cfg of_loop (leb 2 (suc l.link_down_streak)) l.session _ _
        (drop_held-Reaches link l) (hold_session-Reaches h l.session)

  after_wait-Reaches :
      (h : Held) (wait : Wait) (link : Option ℕ) (l : Loop)
      → Reaches P cfg l.session (after_wait cfg h wait link l).0.session
  after_wait-Reaches h cancelled link l = Reaches-refl P cfg l.session
  after_wait-Reaches h elapsed none l = hold_session-Reaches h l.session
  after_wait-Reaches h signalled none l = hold_session-Reaches h l.session
  after_wait-Reaches h elapsed (some link) l = after_read-Reaches h link h.connected l
  after_wait-Reaches h signalled (some link) l = drop_held-Reaches link l

  held_turn-Reaches :
      (h : Held) (l : Loop)
      → All P h.meanwhile
      → Reaches P cfg l.session (held_turn cfg h l).0.session
  unfolding held_turn
  held_turn-Reaches h l safe =
      Reaches-trans P cfg l.session (apply_all cfg h.meanwhile l.session) _
        (Reaches-apply_all P cfg h.meanwhile safe l.session)
        (after_wait-Reaches h h.wait (bluez_link cfg l.session) _)

  after_connected-session :
      (paused : Bool) (r : Session × Bool) (l : Loop)
      → (after_connected cfg paused r l).0.session ≡ r.0
  after_connected-session paused (s, true) l = refl
  after_connected-session paused (s, false) l = refl

  connect_to-Reaches :
      (c : Scan) (target : Option ScanResult) (l : Loop)
      → ScanAll P c
      → Reaches P cfg l.session (connect_to cfg c target l).0.session
  unfolding apply presence_connect
  connect_to-Reaches c none l safe = Reaches-refl P cfg l.session
  connect_to-Reaches c (some target) l safe =
      let ready = apply_all cfg c.before_connect l.session in
      rw
        (after_connected-session c.paused
          (presence_connect_result cfg c.link c.answer c.connect_at (some target) ready) l)
        (Reaches-trans P cfg l.session ready _
          (Reaches-apply_all P cfg c.before_connect safe.3 l.session)
          (Reaches-op P cfg (connect_near c.link c.answer c.connect_at (some target))
            (own.connects c.link c.answer c.connect_at (some target)) ready))

  note_beacon-Reaches :
      (result : Option ScanResult) (at : ℕ) (s : Session)
      → Reaches P cfg s (note_beacon result at s)
  unfolding apply
  note_beacon-Reaches none at s = Reaches-op P cfg (beacon none 0) (own.beacons none 0) s
  note_beacon-Reaches (some r) at s =
      Reaches-op P cfg (beacon (some r) at) (own.beacons (some r) at) s

  module _ (pc : PresenceConfig) where
    near_action-Reaches :
        (c : Scan) (result : Option ScanResult) (l : Loop)
        → ScanAll P c
        → Reaches P cfg l.session (near_action cfg pc c result l).0.session
    unfolding near_action
    near_action-Reaches c result l safe =
        let tick = tick_of c.now result in
        let ready = record l { session = apply_all cfg c.before_action l.session } in
        let later = Reaches-apply_all P cfg c.before_action safe.2 l.session in
        if-Reaches P cfg of_loop (not (presence_live_near tick.seen tick.rssi pc.near_rssi))
          l.session _ _ (Reaches-refl P cfg l.session)
          (if-Reaches P cfg of_loop (connect_backoff_active c.now ready.session) l.session _ _ later
            (Reaches-trans P cfg l.session ready.session _ later
              (connect_to-Reaches c (connect_target result ready.session) ready safe)))

    act-Reaches :
        (c : Scan) (result : Option ScanResult) (action : Action) (l : Loop)
        → ScanAll P c
        → Reaches P cfg l.session (act cfg pc c result action l).0.session
    unfolding apply
    act-Reaches c result no_action l safe = Reaches-refl P cfg l.session
    act-Reaches c result arrive l safe = near_action-Reaches c result l safe
    act-Reaches c result stay_near l safe = near_action-Reaches c result l safe
    act-Reaches c result depart l safe =
        Reaches-trans P cfg l.session (apply_all cfg c.before_action l.session) _
          (Reaches-apply_all P cfg c.before_action safe.2 l.session)
          (Reaches-op P cfg Invariant.depart own.departs (apply_all cfg c.before_action l.session))

    after_restart-Reaches :
        (b : Bool) (l : Loop) → Reaches P cfg l.session (after_restart cfg pc b l).0.session
    unfolding apply
    after_restart-Reaches true l = Reaches-refl P cfg l.session
    after_restart-Reaches false l = Reaches-op P cfg report own.reports l.session

    after_heard-Reaches :
        (c : Scan) (heard : Option (Option ScanResult)) (l : Loop)
        → ScanAll P c
        → Reaches P cfg l.session (after_heard cfg pc c heard l).0.session
    after_heard-Reaches c none l safe =
        if-Reaches P cfg of_loop (leb 5 (suc l.peek_errors)) l.session _ _
          (after_restart-Reaches c.restarted (record l { peek_errors = suc l.peek_errors }))
          (Reaches-refl P cfg l.session)
    after_heard-Reaches c (some result) l safe =
        let step = presence_step pc l.presence (tick_of c.now result) in
        Reaches-trans P cfg l.session (note_beacon result c.heard_at l.session) _
          (note_beacon-Reaches result c.heard_at l.session) (act-Reaches c result step.1 _ safe)

    scan_turn-Reaches :
        (c : Scan) (l : Loop)
        → ScanAll P c
        → Reaches P cfg l.session (scan_turn cfg pc c l).0.session
    unfolding scan_turn
    scan_turn-Reaches c l safe =
        let start = apply_all cfg c.before l.session in
        Reaches-trans P cfg l.session start _ (Reaches-apply_all P cfg c.before safe.0 l.session) (
          if-Reaches P cfg of_loop (is_some start.car) start _ _ (Reaches-refl P cfg start) (
            Reaches-trans P cfg start (apply_all cfg c.while_waiting start) _
              (Reaches-apply_all P cfg c.while_waiting safe.1 start)
              (after_heard-Reaches c c.heard _ safe)))

    turn-Reaches :
        (t : Turn) (l : Loop) → TurnAll P t → Reaches P cfg l.session (turn cfg pc t l).0.session
    unfolding turn
    turn-Reaches t l safe =
        let start = apply_all cfg t.before l.session in
        let seen = look cfg t.signalled_before start in
        if-Reaches P cfg of_loop t.is_cancelled l.session _ _ (Reaches-refl P cfg l.session) (
          Reaches-trans P cfg l.session start _ (Reaches-apply_all P cfg t.before safe.0 l.session)
            (Reaches-trans P cfg start seen _ (dropped-Reaches _ start) (
              if-Reaches P cfg of_loop (is_some seen.car) seen _ _
                (held_turn-Reaches t.held (record l { session = seen }) safe.1)
                (scan_turn-Reaches t.scan (record l { session = seen }) safe.2))))

    pub turns-Reaches :
        (ts : List Turn) (l : Loop)
        → All (TurnAll P) ts
        → Reaches P cfg l.session (turns cfg pc ts l).session
    unfolding turns
    turns-Reaches [] l safe = Reaches-refl P cfg l.session
    turns-Reaches (t ∷ ts) l safe =
        let (l', more) = turn cfg pc t l in
        Reaches-trans P cfg l.session l'.session _ (turn-Reaches t l safe.0) (
          if-Reaches P cfg (λ (x : Loop). x.session) more l'.session _ _
            (turns-Reaches ts l' safe.1) (Reaches-refl P cfg l'.session))
