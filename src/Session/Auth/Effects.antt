-- ===== src/Session/Auth/Effects.antt =====
-- helper/session/main.go: what the responder does to the session.
use electric_eel.Base.{ℕ, ◌≡◌, ◌⊎◌, inl, inr, refl, Bool, not, ◌||◌, Option, none, some, Bool-cases}
use electric_eel.Base.Int.{ℤ}
use electric_eel.Session.State.{Session, is_some, presence_auth_failed, emit_event}
use electric_eel.Session.Auth.{
  Bytes, Wire, Walk, out_of_fuel, malformed, read, AuthenticationRequest,
  parse_authentication_request,
}
use electric_eel.Session.Auth.Responder.{
  SendOutcome, grantable, is_none_level, after_send, send_authentication_response, grant,
  on_request, respond,
}

-- nothing, an event of a refusal, or what follows an answer
abbrev pub IsEffect : SendOutcome → Session → Session → Type 0
IsEffect result s s' =
    (s' ≡ s) ⊎ (s' ≡ emit_event presence_auth_failed s) ⊎ (s' ≡ after_send result s)

module _ (w : Wire) (cancelled current : Bool) (result : SendOutcome) (s : Session) where
  send-IsEffect :
      (level : Option ℕ)
      → IsEffect result s (send_authentication_response w cancelled current result level s).session
  send-IsEffect none = inr (inl refl)
  send-IsEffect (some level) = inr (inr refl)

  grant-IsEffect :
      (level : ℤ) → IsEffect result s (grant w cancelled current result level s).session
  unfolding grant
  grant-IsEffect level = elim (Bool-cases (cancelled || not current)) [
    | inl e ↦ inl (rw e refl)
    | inr e ↦ elim (Bool-cases (is_some s.car)) [
      | inr gone ↦ inr (inl (rw (e, gone) refl))
      | inl car ↦ rw (e, car) (send-IsEffect (grantable level))
    ]
  ]

  on_request-IsEffect :
      (parsed : Walk AuthenticationRequest)
      → IsEffect result s (on_request w cancelled current result parsed s).session
  on_request-IsEffect out_of_fuel = inl refl
  on_request-IsEffect malformed = inl refl
  on_request-IsEffect (read req) = elim (Bool-cases (is_none_level req.requested_level)) [
    | inl e ↦ inl (rw e refl)
    | inr e ↦ rw e (grant-IsEffect req.requested_level)
  ]

  pub respond-IsEffect :
      (datagram : Bytes) → IsEffect result s (respond w cancelled current result datagram s).session
  unfolding respond
  respond-IsEffect datagram = on_request-IsEffect (parse_authentication_request w datagram)
