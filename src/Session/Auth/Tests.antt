-- ===== src/Session/Auth/Tests.antt =====
-- The theorems on the responder applied to a request of the tests of helper/session/auth.go. The fields
-- are those of protobuf for numbers and lengths below 128, which are one byte.
use electric_eel.Base.{
  ℕ, zero, suc, ◌+◌, ◌*◌, ◌/◌, ◌%◌, ◌≤◌, ◌≡◌, inr, refl, arith, true, false, Option, none, some, [],
  ◌∷◌, ◌++◌, leb, le→leb, length, length-append, take, take-length_append, if◌then◌else◌,
}
use electric_eel.Base.Int.{pos}
use electric_eel.Session.Presence.{default_presence_config}
use electric_eel.Session.State.{Session, presence_unknown}
use electric_eel.Session.Auth.{
  Bytes, Wire, read, AuthenticationRequest, parse_authentication_request,
  encode_authentication_response,
}
use electric_eel.Session.Auth.Responder.{delivered, respond}
use electric_eel.Session.Auth.Ends.{IsDone, HasTags, parse_authentication_request-IsDone}
use electric_eel.Session.Auth.Grants.{Grants, respond-Grants}
use electric_eel.Session.Auth.Fields.{ReadsBack}
use electric_eel.Session.Auth.Answers.{respond-answers}

abbrev read_tag : Bytes → Option (ℕ × ℕ × ℕ)
read_tag [] = none
read_tag (t ∷ b) = some (t / 8, t % 8, 1)

abbrev read_varint : Bytes → Option (ℕ × ℕ)
read_varint [] = none
read_varint (v ∷ b) = some (v, 1)

abbrev read_bytes : Bytes → Option (Bytes × ℕ)
read_bytes [] = none
read_bytes (n ∷ b) = if leb n (length b) then some (take n b, suc n) else none

abbrev size_of : {A : Type 0} → Option (A × ℕ) → Option ℕ
size_of none = none
size_of (some (a, n)) = some n

abbrev read_field : ℕ → ℕ → Bytes → Option ℕ
read_field num zero b = size_of (read_varint b)
read_field num (suc (suc zero)) b = size_of (read_bytes b)
read_field num typ b = none

abbrev wire : Wire
wire = record {
  consume_tag = read_tag;
  consume_bytes = read_bytes;
  consume_varint = read_varint;
  consume_field_value = read_field;
  payload = λ datagram. none;
  append_tag = λ num typ. (num * 8 + typ) ∷ [];
  append_bytes = λ val. length val ∷ val;
  append_varint = λ v. v ∷ [];
}

wire-HasTags : HasTags wire
wire-HasTags [] num typ n h = absurd cc
wire-HasTags (t ∷ b) num typ n h = grind (arith, h)

tag_num : (num typ : ℕ) → typ ≤ 2 → (num * 8 + typ) / 8 ≡ num
tag_num num typ kind = omega (arith, kind)

tag_typ : (num typ : ℕ) → typ ≤ 2 → (num * 8 + typ) % 8 ≡ typ
tag_typ num typ kind = omega (arith, kind)

wire-ReadsBack : ReadsBack wire
wire-ReadsBack = record {
  tag = λ num typ rest small kind. rw (tag_num num typ kind, tag_typ num typ kind) refl;
  tag_filled = λ num typ. omega arith;
  bytes = λ val rest.
      rw
        (
          le→leb (length val) (length (val ++ rest)) (omega (arith, length-append val rest)),
          take-length_append val rest,
        )
        refl;
  varint = λ v rest h. refl;
}

-- level DRIVE with a token
abbrev drive_request : Bytes
drive_request = 26 ∷ 10 ∷ 18 ∷ 6 ∷ 10 ∷ 4 ∷ 0 ∷ 1 ∷ 15 ∷ 44 ∷ 24 ∷ 2 ∷ []

abbrev linked : Session
linked = record {
  car = some 1;
  conn = some 1;
  idle_timer = false;
  presence_cancel = some 3;
  presence_generation = 3;
  presence_cfg = default_presence_config;
  auth_responder = true;
  auth_inbox = some [];
  last_beacon = none;
  last_beacon_at = 0;
  connect_backoff_until = 0;
  connect_backoff = 0;
  last_vcsec_prime = 0;
  connected_at = 5;
  last_user_presence = presence_unknown;
  inside_emitted = false;
  events = [];
}

drive_answer : encode_authentication_response wire 2 ≡ 26 ∷ 2 ∷ 8 ∷ 2 ∷ []
unfolding encode_authentication_response
drive_answer = refl

drive_sent :
    (respond wire false true delivered drive_request linked).sent
    ≡ some (encode_authentication_response wire 2)
unfolding respond
drive_sent = refl

parse_authentication_request-IsDone_example :
    IsDone (parse_authentication_request wire drive_request)
parse_authentication_request-IsDone_example =
    parse_authentication_request-IsDone wire wire-HasTags drive_request

respond-Grants_example :
    (req : AuthenticationRequest) × (parse_authentication_request wire drive_request ≡ read req)
    × Grants wire false true linked req.requested_level (encode_authentication_response wire 2)
respond-Grants_example =
    respond-Grants wire false true delivered linked (encode_authentication_response wire 2)
      drive_request drive_sent

respond-answers_example :
    (parse_authentication_request wire drive_request
      ≡ read (record { requested_level = pos 2; token = 0 ∷ 1 ∷ 15 ∷ 44 ∷ [] }))
    × ((respond wire false true delivered drive_request linked).sent
        ≡ some (encode_authentication_response wire 2))
respond-answers_example =
    respond-answers wire wire-ReadsBack drive_request (0 ∷ 1 ∷ 15 ∷ 44 ∷ []) 2 delivered linked
      (inr refl) (omega arith, inr (refl, refl)) refl
