-- ===== src/Session/Link/Keeps.antt =====
-- helper/session/main.go: connecting leaves presence mode as it is.
use Prim.Native.String.{String}
use electric_eel.Base.{inl, inr, refl, Bool, true, false, Option-cases, ℕ, ◌≡◌, Option, some, arith}
use electric_eel.Session.State.{ScanResult, Session, emit_event}
use electric_eel.Session.Auth.{Bytes, Wire}
use electric_eel.Session.Auth.Responder.{SendOutcome, delivered, failed, after_send, respond}
use electric_eel.Session.Auth.Effects.{IsEffect, respond-IsEffect}
use electric_eel.Session.Link.{
  World, Settings, reuse, handshake, make_vehicle, open_link, connect_fresh, ensure_connected,
}

module _ (cfg : Settings) (w : World) (now : ℕ) (cmd : String) where
  handshake-keeps :
      (s : Session) → (handshake cfg w now cmd s).0.presence_cancel ≡ s.presence_cancel
  unfolding handshake
  handshake-keeps s = ground arith

  make_vehicle-keeps :
      (link : ℕ) (s : Session)
      → (make_vehicle cfg w now cmd link s).0.presence_cancel ≡ s.presence_cancel
  unfolding make_vehicle
  make_vehicle-keeps link s = elim (Option-cases w.vehicle_made) [
    | inl e ↦ ground arith
    | inr (car, e) ↦ ground (arith, handshake-keeps (record s { car = some car; conn = some link }))
  ]

  connect_fresh-keeps :
      (s : Session) → (connect_fresh cfg w now cmd s).0.presence_cancel ≡ s.presence_cancel
  unfolding connect_fresh open_link
  connect_fresh-keeps s = elim (Option-cases w.link_connects) [
    | inl e ↦ ground arith
    | inr (link, e) ↦ ground (arith, make_vehicle-keeps link s)
  ]

  pub ensure_connected-keeps :
      (target : Option ScanResult) (s : Session)
      → (ensure_connected cfg w now cmd target s).0.presence_cancel ≡ s.presence_cancel
  unfolding ensure_connected reuse
  ensure_connected-keeps target s = ground (arith, connect_fresh-keeps s)

effect-keeps :
    (result : SendOutcome) (s s' : Session)
    → IsEffect result s s'
    → s'.presence_cancel ≡ s.presence_cancel
unfolding after_send emit_event
effect-keeps result s s' (inl e) = rw e refl
effect-keeps result s s' (inr (inl e)) = rw e refl
effect-keeps delivered s s' (inr (inr e)) = rw e refl
effect-keeps (failed true) s s' (inr (inr e)) = rw e (ground arith)
effect-keeps (failed false) s s' (inr (inr e)) = rw e refl

pub respond-keeps :
    (wire : Wire) (cancelled current : Bool) (result : SendOutcome) (datagram : Bytes) (s : Session)
    → (respond wire cancelled current result datagram s).session.presence_cancel ≡ s.presence_cancel
respond-keeps wire cancelled current result datagram s =
    effect-keeps result s _ (respond-IsEffect wire cancelled current result s datagram)
