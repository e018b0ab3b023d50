-- ===== src/Session/Auth/Responder.antt =====
-- helper/session/main.go: `authResponderLoop` for one datagram, with `sendAuthenticationResponse` of
-- helper/session/auth.go. An error of the vehicle is one that `sessionDroppedError` reports, or not.
use electric_eel.Base.{ℕ, Bool, true, false, not, ◌||◌, Option, none, some, ◌==◌, if◌then◌else◌}
use electric_eel.Base.Int.{ℤ, pos, negsuc}
use electric_eel.Session.State.{
  Session, presence_auth_ok, presence_auth_failed, is_some, emit_event, teardown,
  emit_presence_disconnected,
}
use electric_eel.Session.Auth.{
  Bytes, Wire, Walk, out_of_fuel, malformed, read, AuthenticationRequest,
  parse_authentication_request, encode_authentication_response,
}

-- the outcome of `car.Send`
pub data SendOutcome : Type 0 where
  delivered : SendOutcome
  failed : (dropped : Bool) → SendOutcome

-- the session afterwards, what was sent to the vehicle, and whether the loop goes on
pub record Responded : Type 0 where
  pub session : Session
  pub sent : Option Bytes
  pub goes_on : Bool

-- UNLOCK and DRIVE
abbrev pub grantable : ℤ → Option ℕ
grantable (pos n) = if n == 1 || n == 2 then some n else none
grantable (negsuc n) = none

abbrev pub is_none_level : ℤ → Bool
is_none_level (pos n) = n == 0
is_none_level (negsuc n) = false

-- nothing is done
abbrev pub ignored : Session → Responded
ignored s = record { session = s; sent = none; goes_on = true }

-- the session after an answer was sent
unfoldable pub after_send : SendOutcome → Session → Session
unfolding emit_event teardown emit_presence_disconnected
after_send delivered s = emit_event presence_auth_ok s
after_send (failed true) s =
    emit_event presence_auth_failed (emit_presence_disconnected (teardown s))
after_send (failed false) s = emit_event presence_auth_failed s

module _ (w : Wire) (cancelled current : Bool) (result : SendOutcome) where
  abbrev pub send_authentication_response : Option ℕ → Session → Responded
  send_authentication_response none s = record (ignored s) {
    session = emit_event presence_auth_failed s;
  }
  send_authentication_response (some level) s = record {
    session = after_send result s;
    sent = some (encode_authentication_response w level);
    goes_on = true;
  }

  -- the answer to a request under the lock
  unfoldable pub grant : ℤ → Session → Responded
  unfolding after_send emit_event
  grant level s =
      if cancelled || not current
      then record (ignored s) { goes_on = false }
      else if not (is_some s.car)
      then record (ignored s) { session = emit_event presence_auth_failed s }
      else send_authentication_response (grantable level) s

  abbrev pub on_request : Walk AuthenticationRequest → Session → Responded
  on_request out_of_fuel s = ignored s
  on_request malformed s = ignored s
  on_request (read req) s =
      if is_none_level req.requested_level then ignored s else grant req.requested_level s

  unfoldable pub respond : Bytes → Session → Responded
  unfolding parse_authentication_request grant
  respond datagram s = on_request (parse_authentication_request w datagram) s
