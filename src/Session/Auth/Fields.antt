-- ===== src/Session/Auth/Fields.antt =====
-- helper/session/auth.go: one turn of each walk over the fields of a message.
use electric_eel.Base.{
  ℕ, zero, suc, ◌^◌, ◌≤◌, ◌<◌, ◌≡◌, refl, ap, arith, Bool, true, Option, some, [], ◌∷◌, ◌++◌,
  length, length-append, drop-length_append,
}
use electric_eel.Session.Auth.{
  Bytes, Wire, Walk, read, AuthenticationRequest, with_bytes, with_varint, with_tag, token_field,
  token_loop, request_field, request_loop, from_field, from_loop,
}

-- `protowire` reads what it has written, and a tag is not empty
pub record ReadsBack (w : Wire) : Type 0 where
  pub tag :
      (num typ : ℕ) (rest : Bytes)
      → num ≤ 15
      → typ ≤ 2
      → w.consume_tag (w.append_tag num typ ++ rest)
        ≡ some (num, typ, length (w.append_tag num typ))
  pub tag_filled : (num typ : ℕ) → 0 < length (w.append_tag num typ)
  pub bytes :
      (val rest : Bytes)
      → w.consume_bytes (w.append_bytes val ++ rest) ≡ some (val, length (w.append_bytes val))
  pub varint :
      (v : ℕ) (rest : Bytes)
      → v < 2 ^ 64
      → w.consume_varint (w.append_varint v ++ rest) ≡ some (v, length (w.append_varint v))

module _ (w : Wire) (back : ReadsBack w) where
  pub with_tag-read :
      {A : Type 0} (go_on : ℕ → ℕ → Bytes → Walk A) (num typ : ℕ) (rest : Bytes)
      → num ≤ 15
      → typ ≤ 2
      → with_tag w go_on
          (w.append_tag num typ ++ rest)
          (w.consume_tag (w.append_tag num typ ++ rest))
        ≡ go_on num typ rest
  with_tag-read go_on num typ rest small kind =
      rw (back.tag num typ rest small kind)
        (ap (go_on num typ) (drop-length_append (w.append_tag num typ) rest))

  pub with_bytes-read :
      {A : Type 0} (go_on : Bytes → Bytes → Walk A) (val rest : Bytes)
      → with_bytes w go_on
          (w.append_bytes val ++ rest)
          (w.consume_bytes (w.append_bytes val ++ rest))
        ≡ go_on val rest
  with_bytes-read go_on val rest =
      rw (back.bytes val rest) (ap (go_on val) (drop-length_append (w.append_bytes val) rest))

  pub with_varint-read :
      {A : Type 0} (go_on : ℕ → Bytes → Walk A) (v : ℕ) (rest : Bytes)
      → v < 2 ^ 64
      → with_varint w go_on
          (w.append_varint v ++ rest)
          (w.consume_varint (w.append_varint v ++ rest))
        ≡ go_on v rest
  with_varint-read go_on v rest h =
      rw (back.varint v rest h) (ap (go_on v) (drop-length_append (w.append_varint v) rest))

  -- one turn of each loop at a text that is not empty
  pub token_turn :
      (fuel : ℕ) (b token : Bytes)
      → 0 < length b
      → token_loop w (suc fuel) b token
        ≡ with_tag w (token_field w (token_loop w fuel) token) b (w.consume_tag b)
  unfolding token_loop
  token_turn fuel [] token h = absurd (omega (arith, h))
  token_turn fuel (c ∷ b) token h = refl

  pub request_turn :
      (fuel : ℕ) (b : Bytes) (req : AuthenticationRequest) (have : Bool)
      → 0 < length b
      → request_loop w (suc fuel) b req have
        ≡ with_tag w (request_field w (request_loop w fuel) req have) b (w.consume_tag b)
  unfolding request_loop
  request_turn fuel [] req have h = absurd (omega (arith, h))
  request_turn fuel (c ∷ b) req have h = refl

  pub from_turn :
      (fuel : ℕ) (b : Bytes) (found : Option AuthenticationRequest)
      → 0 < length b
      → from_loop w (suc fuel) b found
        ≡ with_tag w (from_field w (from_loop w fuel) found) b (w.consume_tag b)
  unfolding from_loop
  from_turn fuel [] found h = absurd (omega (arith, h))
  from_turn fuel (c ∷ b) found h = refl

  pub field_filled : (num typ : ℕ) (rest : Bytes) → 0 < length (w.append_tag num typ ++ rest)
  field_filled num typ rest =
      omega (arith, back.tag_filled num typ, length-append (w.append_tag num typ) rest)

  -- the ends of the loops
  pub token_loop-end :
      (fuel : ℕ) (token : Bytes) → 0 < fuel → token_loop w fuel [] token ≡ read token
  unfolding token_loop
  token_loop-end zero token h = absurd (omega (arith, h))
  token_loop-end (suc fuel) token h = refl

  pub request_loop-end :
      (fuel : ℕ) (req : AuthenticationRequest) → request_loop w (suc fuel) [] req true ≡ read req
  unfolding request_loop
  request_loop-end fuel req = refl

  pub from_loop-end :
      (fuel : ℕ) (req : AuthenticationRequest)
      → 0 < fuel
      → from_loop w fuel [] (some req) ≡ read req
  unfolding from_loop
  from_loop-end zero req h = absurd (omega (arith, h))
  from_loop-end (suc fuel) req h = refl
