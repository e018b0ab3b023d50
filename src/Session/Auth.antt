-- ===== src/Session/Auth.antt =====
-- helper/session/auth.go and the loop of the responder in helper/session/main.go: the requests of the
-- vehicle to authenticate. `protowire` and `proto.Unmarshal` are the record `Wire`, where no value stands for
-- a negative count or an error. Each loop is on fuel, one more than the bytes that are left.
pub mod Responder
pub mod Ends
pub mod Grants
pub mod Effects
pub mod Fields
pub mod Readback
pub mod Answers
mod Tests
use electric_eel.Base.{
  ℕ, zero, suc, ◌+◌, ◌-◌, ◌^◌, Bool, true, false, not, ◌&&◌, ◌||◌, Option, none, some, List, [],
  ◌∷◌, ◌++◌, ltb, ◌==◌, if◌then◌else◌, length, drop,
}
use electric_eel.Base.Int.{ℤ, pos, negsuc}
use electric_eel.Session.State.{
  Session, presence_auth_ok, presence_auth_failed, is_some, emit_event, teardown,
  emit_presence_disconnected,
}

abbrev pub Bytes : Type 0
Bytes = List ℕ

-- A count is that of the bytes that were consumed. `payload` is `GetProtobufMessageAsBytes` of a
-- datagram that is a `RoutableMessage`.
pub record Wire : Type 0 where
  pub consume_tag : Bytes → Option (ℕ × ℕ × ℕ)
  pub consume_bytes : Bytes → Option (Bytes × ℕ)
  pub consume_varint : Bytes → Option (ℕ × ℕ)
  pub consume_field_value : ℕ → ℕ → Bytes → Option ℕ
  pub payload : Bytes → Option Bytes
  pub append_tag : ℕ → ℕ → Bytes
  pub append_bytes : Bytes → Bytes
  pub append_varint : ℕ → Bytes

abbrev pub varint_type : ℕ
varint_type = 0

abbrev pub bytes_type : ℕ
bytes_type = 2

pub data Walk {ℓ} (A : Type ℓ) : Type ℓ where
  out_of_fuel malformed : Walk A
  read : A → Walk A

-- `authenticationRequest`
pub record AuthenticationRequest : Type 0 where
  pub requested_level : ℤ
  pub token : Bytes

abbrev pub no_request : AuthenticationRequest
no_request = record { requested_level = pos 0; token = [] }

-- `int(v)` of a `uint64`
abbrev pub to_int : ℕ → ℤ
to_int v = if ltb v (2 ^ 63) then pos v else negsuc (2 ^ 64 - 1 - v)

module _ (w : Wire) where
  -- a field that is not looked into
  abbrev pub skip_value {ℓ} : {A : Type ℓ} → (Bytes → Walk A) → Bytes → Option ℕ → Walk A
  skip_value go_on b none = malformed
  skip_value go_on b (some m) = go_on (drop m b)

  -- a field of bytes
  abbrev pub with_bytes {ℓ} :
      {A : Type ℓ} → (Bytes → Bytes → Walk A) → Bytes → Option (Bytes × ℕ) → Walk A
  with_bytes go_on b none = malformed
  with_bytes go_on b (some (val, m)) = go_on val (drop m b)

  abbrev pub with_varint {ℓ} : {A : Type ℓ} → (ℕ → Bytes → Walk A) → Bytes → Option (ℕ × ℕ) → Walk A
  with_varint go_on b none = malformed
  with_varint go_on b (some (v, m)) = go_on v (drop m b)

  abbrev pub with_tag {ℓ} :
      {A : Type ℓ} → (ℕ → ℕ → Bytes → Walk A) → Bytes → Option (ℕ × ℕ × ℕ) → Walk A
  with_tag go_on b none = malformed
  with_tag go_on b (some (num, typ, n)) = go_on num typ (drop n b)

  abbrev pub and_then {ℓ κ} : {A : Type ℓ} {B : Type κ} → Walk A → (A → Walk B) → Walk B
  and_then out_of_fuel k = out_of_fuel
  and_then malformed k = malformed
  and_then (read a) k = k a

  -- the `switch` of `parseAuthRequestToken`
  abbrev pub token_field : (Bytes → Bytes → Walk Bytes) → Bytes → ℕ → ℕ → Bytes → Walk Bytes
  token_field loop token num typ b =
      if num == 1 && typ == bytes_type
      then with_bytes (λ val rest. loop rest val) b (w.consume_bytes b)
      else skip_value (λ rest. loop rest token) b (w.consume_field_value num typ b)

  pub token_loop : ℕ → Bytes → Bytes → Walk Bytes
  token_loop zero b token = out_of_fuel
  token_loop (suc fuel) [] token = read token
  token_loop (suc fuel) (c ∷ b) token =
      with_tag (token_field (token_loop fuel) token) (c ∷ b) (w.consume_tag (c ∷ b))

  pub parse_auth_request_token : Bytes → Walk Bytes
  unfolding token_loop
  parse_auth_request_token b = token_loop (suc (length b)) b []

  abbrev pub RequestLoop : Type 0
  RequestLoop = Bytes → AuthenticationRequest → Bool → Walk AuthenticationRequest

  -- the `switch` of `parseAuthRequestMessage`
  abbrev pub request_field :
      RequestLoop → AuthenticationRequest → Bool → ℕ → ℕ → Bytes → Walk AuthenticationRequest
  request_field loop req have_level num typ b =
      if num == 2 && typ == bytes_type
      then with_bytes
          (λ val rest.
            and_then (parse_auth_request_token val)
              (λ token. loop rest (record req { token = token }) have_level))
          b (w.consume_bytes b)
      else if num == 3 && typ == varint_type
      then with_varint (λ v rest. loop rest (record req { requested_level = to_int v }) true) b
          (w.consume_varint b)
      else skip_value (λ rest. loop rest req have_level) b (w.consume_field_value num typ b)

  pub request_loop : ℕ → RequestLoop
  unfolding parse_auth_request_token
  request_loop zero b req have_level = out_of_fuel
  request_loop (suc fuel) [] req have_level = if have_level then read req else malformed
  request_loop (suc fuel) (c ∷ b) req have_level =
      with_tag (request_field (request_loop fuel) req have_level) (c ∷ b) (w.consume_tag (c ∷ b))

  pub parse_auth_request_message : Bytes → Walk AuthenticationRequest
  unfolding request_loop
  parse_auth_request_message b = request_loop (suc (length b)) b no_request false

  abbrev pub FromLoop : Type 0
  FromLoop = Bytes → Option AuthenticationRequest → Walk AuthenticationRequest

  -- the `switch` of `parseAuthRequestFromFromVCSEC`
  abbrev pub from_field :
      FromLoop → Option AuthenticationRequest → ℕ → ℕ → Bytes → Walk AuthenticationRequest
  from_field loop found num typ b =
      if num == 3 && typ == bytes_type
      then with_bytes
          (λ val rest. and_then (parse_auth_request_message val) (λ inner. loop rest (some inner)))
          b (w.consume_bytes b)
      else skip_value (λ rest. loop rest found) b (w.consume_field_value num typ b)

  abbrev pub if_found : Option AuthenticationRequest → Walk AuthenticationRequest
  if_found none = malformed
  if_found (some req) = read req

  pub from_loop : ℕ → FromLoop
  unfolding parse_auth_request_message
  from_loop zero b found = out_of_fuel
  from_loop (suc fuel) [] found = if_found found
  from_loop (suc fuel) (c ∷ b) found =
      with_tag (from_field (from_loop fuel) found) (c ∷ b) (w.consume_tag (c ∷ b))

  pub parse_auth_request_from : Bytes → Walk AuthenticationRequest
  unfolding from_loop
  parse_auth_request_from b = from_loop (suc (length b)) b none

  -- the payload of a `RoutableMessage`, or the datagram itself
  abbrev pub inner_message : Bytes → Option Bytes → Bytes
  inner_message datagram none = datagram
  inner_message datagram (some []) = datagram
  inner_message datagram (some (c ∷ payload)) = c ∷ payload

  pub parse_authentication_request : Bytes → Walk AuthenticationRequest
  unfolding parse_auth_request_from
  parse_authentication_request [] = malformed
  parse_authentication_request (c ∷ datagram) =
      parse_auth_request_from (inner_message (c ∷ datagram) (w.payload (c ∷ datagram)))

  pub encode_authentication_response : ℕ → Bytes
  encode_authentication_response level =
      w.append_tag 3 bytes_type
      ++ w.append_bytes (w.append_tag 1 varint_type ++ w.append_varint level)
