-- ===== src/Session/Link/Consistent.antt =====
-- helper/session/main.go: connecting and the commands keep a session consistent.
use Prim.Native.String.{String}
use mathlib.Core.Path.{subst}
use electric_eel.Base.{
  inl, inr, refl, sym, Bool, Option-cases, ℕ, ◌≡◌, true, false, Option, none, some, arith,
}
use electric_eel.Session.State.{ScanResult, Session, is_some, emit_event, presence_beacon_target}
use electric_eel.Session.Auth.{Bytes, Wire}
use electric_eel.Session.Auth.Responder.{SendOutcome, delivered, failed, after_send, respond}
use electric_eel.Session.Auth.Effects.{IsEffect, respond-IsEffect}
use electric_eel.Session.Link.{
  World, Settings, Status, reuse, handshake, make_vehicle, open_link, connect_fresh,
  ensure_connected, dispatch_command, presence_connect, presence_connect_result, finish_command,
}

-- the generation that presence mode runs is the newest
abbrev pub IsCurrent : Option ℕ → ℕ → Type 0
IsCurrent none newest = Unit
IsCurrent (some g) newest = g ≡ newest

pub record IsConsistent (s : Session) : Type 0 where
  pub link : s.car ≡ none → s.conn ≡ none
  pub clean :
      s.car ≡ none → (s.connected_at ≡ 0) × (s.last_vcsec_prime ≡ 0) × (s.inside_emitted ≡ false)
  pub responder : is_some s.auth_inbox ≡ s.auth_responder
  pub tapped : s.auth_responder ≡ true → is_some s.conn ≡ true
  pub newest : IsCurrent s.presence_cancel s.presence_generation

module _ (cfg : Settings) (w : World) (now : ℕ) (cmd : String) where
  reuse-IsConsistent : (s : Session) → IsConsistent s → IsConsistent (reuse cfg w cmd s).0
  unfolding reuse
  reuse-IsConsistent s h = ground arith

  handshake-IsConsistent :
      (s : Session)
      → IsConsistent s
      → is_some s.car ≡ true
      → IsConsistent (handshake cfg w now cmd s).0
  unfolding handshake
  handshake-IsConsistent s h up = ground arith

  linked-IsConsistent :
      (car link : ℕ) (s : Session)
      → IsConsistent s
      → IsConsistent (record s { car = some car; conn = some link })
  linked-IsConsistent car link s h = ground arith

  make_vehicle-IsConsistent :
      (link : ℕ) (s : Session) → IsConsistent s → IsConsistent (make_vehicle cfg w now cmd link s).0
  unfolding make_vehicle
  make_vehicle-IsConsistent link s h = elim (Option-cases w.vehicle_made) [
    | inl e ↦ ground arith
    | inr (car, e) ↦ ground (
      arith,
      handshake-IsConsistent (record s { car = some car; conn = some link })
          (linked-IsConsistent car link s h) refl,
    )
  ]

  open_link-IsConsistent :
      (s : Session) → IsConsistent s → IsConsistent (open_link cfg w now cmd s).0
  unfolding open_link
  open_link-IsConsistent s h = elim (Option-cases w.link_connects) [
    | inl e ↦ ground arith
    | inr (link, e) ↦ ground (arith, make_vehicle-IsConsistent link s h)
  ]

  connect_fresh-IsConsistent :
      (s : Session) → IsConsistent s → IsConsistent (connect_fresh cfg w now cmd s).0
  unfolding connect_fresh
  connect_fresh-IsConsistent s h = ground (arith, open_link-IsConsistent s h)

  pub ensure_connected-IsConsistent :
      (target : Option ScanResult) (s : Session)
      → IsConsistent s
      → IsConsistent (ensure_connected cfg w now cmd target s).0
  unfolding ensure_connected
  ensure_connected-IsConsistent target s h =
      ground (arith, reuse-IsConsistent s h, connect_fresh-IsConsistent s h)

pub dispatch-IsConsistent :
    (cfg : Settings) (w : World) (now : ℕ) (cmd : String) (s : Session)
    → IsConsistent s
    → IsConsistent (dispatch_command cfg w now cmd s).0
unfolding finish_command dispatch_command
dispatch-IsConsistent cfg w now cmd s h =
    ground (arith, ensure_connected-IsConsistent cfg w now cmd (presence_beacon_target s) s h)

pub presence_connect-IsConsistent :
    (cfg : Settings) (w : World) (answer : Status) (now : ℕ) (target : Option ScanResult)
    (s : Session)
    → IsConsistent s
    → IsConsistent (presence_connect cfg w answer now target s)
unfolding presence_connect presence_connect_result
presence_connect-IsConsistent cfg w answer now target s h =
    ground (arith, ensure_connected-IsConsistent cfg w now "" target s h)

-- what the responder does to the session
effect-IsConsistent :
    (result : SendOutcome) (s s' : Session)
    → IsConsistent s
    → IsEffect result s s'
    → IsConsistent s'
unfolding after_send emit_event
effect-IsConsistent result s s' h (inl e) = subst IsConsistent (sym e) h
effect-IsConsistent result s s' h (inr (inl e)) = subst IsConsistent (sym e) (ground (arith, h))
effect-IsConsistent delivered s s' h (inr (inr e)) = subst IsConsistent (sym e) (ground (arith, h))
effect-IsConsistent (failed true) s s' h (inr (inr e)) =
    subst IsConsistent (sym e) (ground (arith, h))
effect-IsConsistent (failed false) s s' h (inr (inr e)) =
    subst IsConsistent (sym e) (ground (arith, h))

pub respond-IsConsistent :
    (wire : Wire) (cancelled current : Bool) (result : SendOutcome) (datagram : Bytes) (s : Session)
    → IsConsistent s
    → IsConsistent (respond wire cancelled current result datagram s).session
respond-IsConsistent wire cancelled current result datagram s h =
    effect-IsConsistent result s _ h (respond-IsEffect wire cancelled current result s datagram)
