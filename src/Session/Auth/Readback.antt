-- ===== src/Session/Auth/Readback.antt =====
-- helper/session/auth.go: the walks read a message of the vehicle as it was written.
use electric_eel.Base.{
  ℕ, zero, suc, ◌^◌, ◌<◌, ◌≡◌, sym, ap, ◌∙◌, arith, Bool, true, false, none, some, [], ◌++◌, length,
  length-append, append-nil,
}
use electric_eel.Session.Auth.{
  Bytes, Wire, varint_type, bytes_type, read, AuthenticationRequest, no_request, to_int, and_then,
  token_field, token_loop, parse_auth_request_token, request_field, request_loop,
  parse_auth_request_message, from_field, from_loop, parse_auth_request_from,
}
use electric_eel.Session.Auth.Fields.{
  ReadsBack, with_tag-read, with_bytes-read, with_varint-read, token_turn, request_turn, from_turn,
  field_filled, token_loop-end, request_loop-end, from_loop-end,
}

-- A field of bytes, and the request with its token and its level.
abbrev pub bytes_field : Wire → ℕ → Bytes → Bytes
bytes_field w num val = w.append_tag num bytes_type ++ w.append_bytes val

abbrev pub token_message : Wire → Bytes → Bytes
token_message w token = bytes_field w 1 token

abbrev pub level_field : Wire → ℕ → Bytes
level_field w level = w.append_tag 3 varint_type ++ w.append_varint level

abbrev pub request_message : Wire → Bytes → ℕ → Bytes
request_message w token level =
    w.append_tag 2 bytes_type ++ (w.append_bytes (token_message w token) ++ level_field w level)

abbrev pub request_datagram : Wire → Bytes → ℕ → Bytes
request_datagram w token level = bytes_field w 3 (request_message w token level)

module _ (w : Wire) (back : ReadsBack w) where
  token_field-read :
      (fuel : ℕ) (token rest before : Bytes)
      → token_loop w (suc fuel) (w.append_tag 1 bytes_type ++ (w.append_bytes token ++ rest)) before
        ≡ token_loop w fuel rest token
  token_field-read fuel token rest before =
      token_turn w back fuel _ before
        (field_filled w back 1 bytes_type (w.append_bytes token ++ rest))
      ∙ with_tag-read w back (token_field w (token_loop w fuel) before) 1 bytes_type
          (w.append_bytes token ++ rest) (omega arith) (omega arith)
      ∙ with_bytes-read w back (λ val rest. token_loop w fuel rest val) token rest

  token_message-read :
      (token : Bytes) → parse_auth_request_token w (token_message w token) ≡ read token
  unfolding parse_auth_request_token
  token_message-read token =
      let size = length (token_message w token) in
      ap (λ rest. token_loop w (suc size) (w.append_tag 1 bytes_type ++ rest) [])
        (sym (append-nil (w.append_bytes token)))
      ∙ token_field-read size token [] []
      ∙ token_loop-end w back size token (field_filled w back 1 bytes_type (w.append_bytes token))

  token_of_request-read :
      (fuel : ℕ) (token rest : Bytes) (req : AuthenticationRequest) (have : Bool)
      → request_loop w
          (suc fuel)
          (w.append_tag 2 bytes_type ++ (w.append_bytes (token_message w token) ++ rest))
          req
          have
        ≡ request_loop w fuel rest (record req { token = token }) have
  token_of_request-read fuel token rest req have =
      let loop = request_loop w fuel in
      let rest_of = w.append_bytes (token_message w token) ++ rest in
      request_turn w back fuel _ req have (field_filled w back 2 bytes_type rest_of)
      ∙ with_tag-read w back (request_field w loop req have) 2 bytes_type rest_of (omega arith)
          (omega arith)
      ∙ with_bytes-read w back
          (λ val rest.
            and_then w (parse_auth_request_token w val)
              (λ token. loop rest (record req { token = token }) have))
          (token_message w token) rest
      ∙ ap (λ m. and_then w m (λ token. loop rest (record req { token = token }) have))
          (token_message-read token)

  level_of_request-read :
      (fuel level : ℕ) (req : AuthenticationRequest) (have : Bool)
      → level < 2 ^ 64
      → 1 < fuel
      → request_loop w fuel (level_field w level) req have
        ≡ read (record req { requested_level = to_int level })
  level_of_request-read zero level req have small h = absurd (omega (arith, h))
  level_of_request-read (suc zero) level req have small h = absurd (omega (arith, h))
  level_of_request-read (suc (suc fuel)) level req have small h =
      let loop = request_loop w (suc fuel) in
      let value = w.append_varint level ++ [] in
      ap (λ rest. request_loop w (suc (suc fuel)) (w.append_tag 3 varint_type ++ rest) req have)
        (sym (append-nil (w.append_varint level)))
      ∙ request_turn w back (suc fuel) _ req have (field_filled w back 3 varint_type value)
      ∙ with_tag-read w back (request_field w loop req have) 3 varint_type value (omega arith)
          (omega arith)
      ∙ with_varint-read w back
          (λ v rest. loop rest (record req { requested_level = to_int v }) true) level [] small
      ∙ request_loop-end w back fuel (record req { requested_level = to_int level })

  request_message-read :
      (token : Bytes) (level : ℕ)
      → level < 2 ^ 64
      → parse_auth_request_message w (request_message w token level)
        ≡ read (record { requested_level = to_int level; token = token })
  unfolding parse_auth_request_message
  request_message-read token level small =
      let size = length (request_message w token level) in
      token_of_request-read size token (level_field w level) no_request false
      ∙ level_of_request-read size level (record no_request { token = token }) false small
          (omega (
            arith,
            back.tag_filled 2 bytes_type,
            field_filled w back 3 varint_type (w.append_varint level),
            length-append (w.append_tag 2 bytes_type)
                (w.append_bytes (token_message w token) ++ level_field w level),
            length-append (w.append_bytes (token_message w token)) (level_field w level),
          ))

  pub request_datagram-read :
      (token : Bytes) (level : ℕ)
      → level < 2 ^ 64
      → parse_auth_request_from w (request_datagram w token level)
        ≡ read (record { requested_level = to_int level; token = token })
  unfolding parse_auth_request_from
  request_datagram-read token level small =
      let message = request_message w token level in
      let size = length (request_datagram w token level) in
      let loop = from_loop w size in
      let value = w.append_bytes message ++ [] in
      let req = record no_request { requested_level = to_int level; token = token } in
      ap (λ rest. from_loop w (suc size) (w.append_tag 3 bytes_type ++ rest) none)
        (sym (append-nil (w.append_bytes message)))
      ∙ from_turn w back size _ none (field_filled w back 3 bytes_type value)
      ∙ with_tag-read w back (from_field w loop none) 3 bytes_type value (omega arith) (omega arith)
      ∙ with_bytes-read w back
          (λ val rest.
            and_then w (parse_auth_request_message w val) (λ inner. loop rest (some inner)))
          message []
      ∙ ap (λ m. and_then w m (λ inner. loop [] (some inner)))
          (request_message-read token level small)
      ∙ from_loop-end w back size req (field_filled w back 3 bytes_type (w.append_bytes message))
