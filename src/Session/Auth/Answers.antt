-- ===== src/Session/Auth/Answers.antt =====
-- helper/session/main.go: a request to authenticate is read as it was written, and answered.
use electric_eel.Base.{
  ℕ, ◌^◌, ◌<◌, ◌≡◌, ◌⊎◌, inl, inr, refl, ap, ◌∙◌, arith, true, false, none, some, [], ◌∷◌, length,
}
use electric_eel.Base.Int.{pos}
use electric_eel.Session.State.{Session, is_some}
use electric_eel.Session.Auth.{
  Bytes, Wire, bytes_type, read, to_int, parse_auth_request_from, parse_authentication_request,
  encode_authentication_response,
}
use electric_eel.Session.Auth.Responder.{SendOutcome, grant, on_request, respond}
use electric_eel.Session.Auth.Grants.{IsGrant}
use electric_eel.Session.Auth.Fields.{ReadsBack, field_filled}
use electric_eel.Session.Auth.Readback.{request_datagram, request_datagram-read}

-- the datagram of a message of the vehicle: in a `RoutableMessage`, or bare
abbrev pub Carries : Wire → Bytes → Bytes → Type 0
Carries w datagram message =
    (0 < length datagram)
    × ((w.payload datagram ≡ some message) ⊎ (datagram ≡ message) × (w.payload datagram ≡ none))

IsGrant-small : (level : ℕ) → IsGrant level → level < 2 ^ 64
IsGrant-small level (inl e) = omega (arith, e)
IsGrant-small level (inr e) = omega (arith, e)

to_int-IsGrant : (level : ℕ) → IsGrant level → to_int level ≡ pos level
to_int-IsGrant level (inl e) = rw e refl
to_int-IsGrant level (inr e) = rw e refl

module _ (w : Wire) (back : ReadsBack w) where
  parse-Carries :
      (datagram message : Bytes)
      → 0 < length message
      → Carries w datagram message
      → parse_authentication_request w datagram ≡ parse_auth_request_from w message
  unfolding parse_authentication_request
  parse-Carries [] message filled (some_bytes, h) = absurd (omega (arith, some_bytes))
  parse-Carries (c ∷ datagram) [] filled h = absurd (omega (arith, filled))
  parse-Carries (c ∷ datagram) (d ∷ message) filled (some_bytes, inl h) = rw h refl
  parse-Carries (c ∷ datagram) (d ∷ message) filled (some_bytes, inr (same, h)) =
      rw h (ap (parse_auth_request_from w) same)

  respond-sent :
      (result : SendOutcome) (s : Session) (level : ℕ) (token : Bytes)
      → IsGrant level
      → is_some s.car ≡ true
      → (on_request w false true result
          (read (record { requested_level = pos level; token = token }))
          s).sent
        ≡ some (encode_authentication_response w level)
  unfolding grant
  respond-sent result s level token (inl e) car = rw (e, car) refl
  respond-sent result s level token (inr e) car = rw (e, car) refl

  -- A datagram of the vehicle that carries a request with a token and the level UNLOCK or DRIVE, in a
  -- `RoutableMessage` or bare, is read back as this token and this level; and if the session has a vehicle
  -- and the responder is neither cancelled nor replaced, then it sends the answer at this level.
  pub respond-answers :
      (datagram token : Bytes) (level : ℕ) (result : SendOutcome) (s : Session)
      → IsGrant level
      → Carries w datagram (request_datagram w token level)
      → is_some s.car ≡ true
      → (parse_authentication_request w datagram
          ≡ read (record { requested_level = pos level; token = token }))
        × ((respond w false true result datagram s).sent
            ≡ some (encode_authentication_response w level))
  unfolding respond
  respond-answers datagram token level result s granted carries car =
      let parsed =
        parse-Carries datagram _ (field_filled w back 3 bytes_type _) carries
        ∙ request_datagram-read w back token level (IsGrant-small level granted)
        ∙ ap (λ l. read (record { requested_level = l; token = token }))
            (to_int-IsGrant level granted) in
      (parsed, rw parsed (respond-sent result s level token granted car))
