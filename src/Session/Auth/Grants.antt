-- ===== src/Session/Auth/Grants.antt =====
-- helper/session/main.go: when the responder grants a request.
use electric_eel.Base.{
  ℕ, ◌≡◌, ◌⊎◌, inl, inr, refl, arith, Bool, true, false, not, ◌||◌, Option, none, some, ◌==◌,
  Bool-cases,
}
use electric_eel.Base.Int.{ℤ, pos, negsuc}
use electric_eel.Session.State.{Session, is_some}
use electric_eel.Session.Auth.{
  Bytes, Wire, Walk, out_of_fuel, malformed, read, AuthenticationRequest,
  parse_authentication_request, encode_authentication_response,
}
use electric_eel.Session.Auth.Responder.{
  SendOutcome, grantable, is_none_level, send_authentication_response, grant, on_request, respond,
}

-- UNLOCK or DRIVE
abbrev pub IsGrant : ℕ → Type 0
IsGrant n = (n ≡ 1) ⊎ (n ≡ 2)

-- what must be so for an answer to a request at a level
abbrev pub Grants : Wire → Bool → Bool → Session → ℤ → Bytes → Type 0
Grants w cancelled current s level p =
    (n : ℕ) × (level ≡ pos n)
    × IsGrant n
    × (p ≡ encode_authentication_response w n)
    × (cancelled ≡ false)
    × (current ≡ true)
    × (is_some s.car ≡ true)

grantable-IsGrant : (level : ℤ) (n : ℕ) → grantable level ≡ some n → (level ≡ pos n) × IsGrant n
grantable-IsGrant (negsuc m) n h = cc
grantable-IsGrant (pos m) n h = elim (Bool-cases (m == 1 || m == 2)) [
  | inr e ↦ absurd (ground (arith, e, h))
  | inl e ↦ (
    ground (arith, e, h),
    elim (Bool-cases (m == 1)) [
      | inl one ↦ inl (ground (arith, one, h))
      | inr more ↦ inr (ground (arith, more, e, h))
    ],
  )
]

module _ (w : Wire) (cancelled current : Bool) (result : SendOutcome) (s : Session)
    (p : Bytes) where
  send_authentication_response-some :
      (level : Option ℕ)
      → (send_authentication_response w cancelled current result level s).sent ≡ some p
      → (n : ℕ) × (level ≡ some n) × (p ≡ encode_authentication_response w n)
  send_authentication_response-some none h = cc
  send_authentication_response-some (some n) h = (n, refl, cc)

  grant-Grants :
      (level : ℤ)
      → (grant w cancelled current result level s).sent ≡ some p
      → Grants w cancelled current s level p
  unfolding grant
  grant-Grants level h = elim (Bool-cases (cancelled || not current)) [
    | inl e ↦ absurd (ground (arith, e, h))
    | inr e ↦ elim (Bool-cases (is_some s.car)) [
      | inr none_left ↦ absurd (ground (arith, e, none_left, h))
      | inl car ↦
          let (n, at_level, same) =
            send_authentication_response-some (grantable level) (rw (e, car) at h) in
          let (level_is, grant_ok) = grantable-IsGrant level n at_level in
          (n, level_is, grant_ok, same, ground (arith, e), ground (arith, e), car)
    ]
  ]

  on_request-Grants :
      (parsed : Walk AuthenticationRequest)
      → (on_request w cancelled current result parsed s).sent ≡ some p
      → (req : AuthenticationRequest) × (parsed ≡ read req)
        × Grants w cancelled current s req.requested_level p
  on_request-Grants out_of_fuel h = cc
  on_request-Grants malformed h = cc
  on_request-Grants (read req) h = elim (Bool-cases (is_none_level req.requested_level)) [
    | inl e ↦ absurd (ground (arith, e, h))
    | inr e ↦ (req, refl, grant-Grants req.requested_level (rw e at h))
  ]

  -- The responder sends an answer only to a request to authenticate that it has read, at the very level of
  -- the request, which is UNLOCK or DRIVE; and only if it is not cancelled, the inbox is still that of the
  -- session, and the session has a vehicle.
  pub respond-Grants :
      (datagram : Bytes)
      → (respond w cancelled current result datagram s).sent ≡ some p
      → (req : AuthenticationRequest) × (parse_authentication_request w datagram ≡ read req)
        × Grants w cancelled current s req.requested_level p
  unfolding respond
  respond-Grants datagram h = on_request-Grants (parse_authentication_request w datagram) h
