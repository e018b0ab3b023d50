-- ===== src/Session/Link/Invariant.antt =====
-- helper/session/main.go: what holds of a session between any two of its operations, and who may
-- end presence mode.
use Prim.Native.String.{String}
use electric_eel.Base.{Bool, ℕ, ◌≡◌, Option, some, List, [], ◌∷◌, arith, All, ◌∙◌}
use electric_eel.Session.Presence.{PresenceConfig}
use electric_eel.Session.State.{
  ScanResult, Session, presence_beacon_target, idle_timeout, emit_inside, presence_error,
  emit_event, reset_idle_timer,
}
use electric_eel.Session.Link.{
  World, Settings, Status, prime_vcsec, dispatch_command, presence_start, presence_stop, loop_exit,
  presence_connect, presence_connect_result, presence_depart, link_dropped, finish_command,
}
use electric_eel.Session.Auth.{Bytes, Wire}
use electric_eel.Session.Auth.Responder.{SendOutcome, respond}
use electric_eel.Session.Navigate.{Target, navigate_connect, navigate_send}
use electric_eel.Session.Link.Consistent.{
  ensure_connected-IsConsistent, IsConsistent, dispatch-IsConsistent, presence_connect-IsConsistent,
  respond-IsConsistent,
}
use electric_eel.Session.Link.Keeps.{ensure_connected-keeps, respond-keeps}

-- The operations, each with what the world outside answers in it. `beacon` is what the watcher
-- heard, `exit` the end of the loop of a generation; `navigate_to` and `navigate` are the two steps of a
-- request to navigate, `authenticate` what the responder does with a datagram,
-- `report` the event of an error of the watcher, and `keep` the restart of the idle timer.
pub data Op : Type 0 where
  command : World → ℕ → String → Op
  connect_near : World → Status → ℕ → Option ScanResult → Op
  prime : Status → ℕ → Op
  inside : ℕ → Op
  beacon : Option ScanResult → ℕ → Op
  dropped depart idle stop report keep : Op
  start : PresenceConfig → Op
  exit : ℕ → Op
  navigate_to : World → ℕ → Op
  navigate : Bool → Target → Op
  authenticate : Wire → Bool → Bool → SendOutcome → Bytes → Op

unfoldable pub apply : Settings → Op → Session → Session
unfolding prime_vcsec emit_inside link_dropped presence_depart idle_timeout presence_stop
    presence_start loop_exit navigate_send
apply cfg (command w now cmd) s = (dispatch_command cfg w now cmd s).0
apply cfg (connect_near w answer now target) s = presence_connect cfg w answer now target s
apply cfg (prime answer now) s = prime_vcsec answer now s
apply cfg (inside now) s = emit_inside now s
apply cfg (beacon result now) s = record s { last_beacon = result; last_beacon_at = now }
apply cfg dropped s = link_dropped s
apply cfg depart s = presence_depart s
apply cfg idle s = idle_timeout s
apply cfg report s = emit_event presence_error s
apply cfg keep s = reset_idle_timer s
apply cfg stop s = presence_stop s
apply cfg (start args) s = (presence_start cfg args s).0
apply cfg (exit generation) s = loop_exit generation s
apply cfg (navigate_to w now) s = (navigate_connect cfg w now s).0
apply cfg (navigate sent target) s = (navigate_send sent target s).0
apply cfg (authenticate w cancelled current result datagram) s =
    (respond w cancelled current result datagram s).session

unfoldable pub apply_all : Settings → List Op → Session → Session
apply_all cfg [] s = s
apply_all cfg (op ∷ ops) s = apply_all cfg ops (apply cfg op s)

apply-IsConsistent :
    (cfg : Settings) (op : Op) (s : Session) → IsConsistent s → IsConsistent (apply cfg op s)
unfolding apply
apply-IsConsistent cfg (command w now cmd) s h = dispatch-IsConsistent cfg w now cmd s h
apply-IsConsistent cfg (connect_near w answer now target) s h =
    presence_connect-IsConsistent cfg w answer now target s h
apply-IsConsistent cfg (navigate_to w now) s h =
    unfold navigate_connect in
    ensure_connected-IsConsistent cfg w now "" (presence_beacon_target s) s h
apply-IsConsistent cfg (authenticate w cancelled current result datagram) s h =
    respond-IsConsistent w cancelled current result datagram s h
apply-IsConsistent cfg (prime answer now) s h = ground arith
apply-IsConsistent cfg _ s h = ground arith

-- Every run of operations, whatever the world answers in each, keeps a session consistent: without
-- a vehicle there is no link, no time of connection, no status and no mark of the inside event; the
-- responder has an inbox exactly while it runs, and a link then; and the loop that presence mode
-- would cancel is that of the newest generation.
pub apply_all-IsConsistent :
    (cfg : Settings) (ops : List Op) (s : Session)
    → IsConsistent s
    → IsConsistent (apply_all cfg ops s)
unfolding apply_all
apply_all-IsConsistent cfg [] s h = h
apply_all-IsConsistent cfg (op ∷ ops) s h =
    apply_all-IsConsistent cfg ops (apply cfg op s) (apply-IsConsistent cfg op s h)

-- an operation that may end the presence mode of the generation `g`
abbrev pub Ends : ℕ → Op → Type 0
Ends g stop = Unit
Ends g (exit generation) = generation ≡ g
Ends g _ = ⊥

apply-keeps :
    (cfg : Settings) (op : Op) (s : Session) (g : ℕ)
    → IsConsistent s
    → s.presence_cancel ≡ some g
    → (¬ Ends g op)
    → (apply cfg op s).presence_cancel ≡ some g
unfolding apply finish_command dispatch_command presence_connect presence_connect_result
apply-keeps cfg (command w now cmd) s g h run safe =
    ground (arith, ensure_connected-keeps cfg w now cmd (presence_beacon_target s) s)
apply-keeps cfg (connect_near w answer now target) s g h run safe =
    ground (arith, ensure_connected-keeps cfg w now "" target s)
apply-keeps cfg (navigate_to w now) s g h run safe =
    unfold navigate_connect in
    ground (arith, ensure_connected-keeps cfg w now "" (presence_beacon_target s) s)
apply-keeps cfg (authenticate w cancelled current result datagram) s g h run safe =
    respond-keeps w cancelled current result datagram s ∙ run
apply-keeps cfg _ s g h run safe = ground arith

-- From a consistent session whose presence mode runs with the generation `g`, a run of operations
-- with no stop request and no exit of that very loop leaves it running: the late exit of a
-- cancelled older loop, in particular, does not end a newer presence mode.
pub apply_all-presence_cancel :
    (cfg : Settings) (ops : List Op) (s : Session) (g : ℕ)
    → IsConsistent s
    → s.presence_cancel ≡ some g
    → All (λ op. ¬ Ends g op) ops
    → (apply_all cfg ops s).presence_cancel ≡ some g
unfolding apply_all
apply_all-presence_cancel cfg [] s g h run safe = run
apply_all-presence_cancel cfg (op ∷ ops) s g h run safe =
    apply_all-presence_cancel cfg ops (apply cfg op s) g (apply-IsConsistent cfg op s h)
      (apply-keeps cfg op s g h run safe.0) safe.1
