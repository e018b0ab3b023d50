-- ===== src/Session/Auth/Ends.antt =====
-- helper/session/auth.go: the walks over the fields of a message end.
use electric_eel.Base.{
  ℕ, zero, suc, ◌≤◌, ◌<◌, ◌≡◌, refl, arith, Bool, true, false, ◌&&◌, Option, none, some, [], ◌∷◌,
  ◌==◌, length, drop, length-drop, if◌then◌else◌,
}
use electric_eel.Session.Auth.{
  Bytes, Wire, varint_type, bytes_type, Walk, out_of_fuel, malformed, read, AuthenticationRequest,
  no_request, to_int, skip_value, with_bytes, with_varint, with_tag, and_then, token_field,
  token_loop, parse_auth_request_token, RequestLoop, request_field, request_loop,
  parse_auth_request_message, FromLoop, from_field, if_found, from_loop, parse_auth_request_from,
  inner_message, parse_authentication_request,
}

-- a walk that has ended
abbrev pub IsDone {ℓ} : {A : Type ℓ} → Walk A → Type 0
IsDone out_of_fuel = ⊥
IsDone malformed = Unit
IsDone (read a) = Unit

-- a tag has at least one byte
abbrev pub HasTags : Wire → Type 0
HasTags w = (b : Bytes) (num typ n : ℕ) → w.consume_tag b ≡ some (num, typ, n) → 0 < n

module _ (w : Wire) where
  -- A loop that ends for every text of at most so many bytes ends after each kind of field.
  skip_value-IsDone :
      {A : Type 0} (size : ℕ) (go_on : Bytes → Walk A) (b : Bytes) (o : Option ℕ)
      → ((rest : Bytes) → length rest ≤ size → IsDone (go_on rest))
      → length b ≤ size
      → IsDone (skip_value w go_on b o)
  skip_value-IsDone size go_on b none done h = tt
  skip_value-IsDone size go_on b (some m) done h =
      done (drop m b) (omega (arith, h, length-drop m b))

  with_bytes-IsDone :
      {A : Type 0} (size : ℕ) (go_on : Bytes → Bytes → Walk A) (b : Bytes) (o : Option (Bytes × ℕ))
      → ((val rest : Bytes) → length rest ≤ size → IsDone (go_on val rest))
      → length b ≤ size
      → IsDone (with_bytes w go_on b o)
  with_bytes-IsDone size go_on b none done h = tt
  with_bytes-IsDone size go_on b (some (val, m)) done h =
      done val (drop m b) (omega (arith, h, length-drop m b))

  with_varint-IsDone :
      {A : Type 0} (size : ℕ) (go_on : ℕ → Bytes → Walk A) (b : Bytes) (o : Option (ℕ × ℕ))
      → ((v : ℕ) (rest : Bytes) → length rest ≤ size → IsDone (go_on v rest))
      → length b ≤ size
      → IsDone (with_varint w go_on b o)
  with_varint-IsDone size go_on b none done h = tt
  with_varint-IsDone size go_on b (some (v, m)) done h =
      done v (drop m b) (omega (arith, h, length-drop m b))

  with_tag-IsDone :
      {A : Type 0} (size : ℕ) (go_on : ℕ → ℕ → Bytes → Walk A) (b : Bytes) (o : Option (ℕ × ℕ × ℕ))
      → ((num typ n : ℕ) → o ≡ some (num, typ, n) → 0 < n)
      → ((num typ : ℕ) (rest : Bytes) → length rest ≤ size → IsDone (go_on num typ rest))
      → length b ≤ suc size
      → IsDone (with_tag w go_on b o)
  with_tag-IsDone size go_on b none tagged done h = tt
  with_tag-IsDone size go_on b (some (num, typ, n)) tagged done h =
      done num typ (drop n b) (omega (arith, h, length-drop n b, tagged num typ n refl))

  and_then-IsDone :
      {A B : Type 0} (m : Walk A) (k : A → Walk B)
      → IsDone m
      → ((a : A) → IsDone (k a))
      → IsDone (and_then w m k)
  and_then-IsDone out_of_fuel k h done = absurd h
  and_then-IsDone malformed k h done = tt
  and_then-IsDone (read a) k h done = done a

  if-IsDone :
      {A : Type 0} (b : Bool) (x y : Walk A) → IsDone x → IsDone y → IsDone (if b then x else y)
  if-IsDone true x y hx hy = hx
  if-IsDone false x y hx hy = hy

  module _ (tags : HasTags w) where
    token_loop-IsDone :
        (fuel : ℕ) (b token : Bytes) → length b < fuel → IsDone (token_loop w fuel b token)
    unfolding token_loop
    token_loop-IsDone zero b token h = absurd (omega (arith, h))
    token_loop-IsDone (suc fuel) [] token h = tt
    token_loop-IsDone (suc zero) (c ∷ b) token h = absurd (omega (arith, h))
    token_loop-IsDone (suc (suc fuel)) (c ∷ b) token h =
        let loop = token_loop w (suc fuel) in
        let done = λ (rest token : Bytes) (short : length rest ≤ fuel).
          token_loop-IsDone (suc fuel) rest token (omega (arith, short)) in
        with_tag-IsDone fuel (token_field w loop token) (c ∷ b) (w.consume_tag (c ∷ b))
          (tags (c ∷ b))
          (λ num typ rest short.
            if-IsDone (num == 1 && typ == bytes_type)
              (with_bytes w (λ val rest. loop rest val) rest (w.consume_bytes rest))
              (skip_value w (λ rest. loop rest token) rest (w.consume_field_value num typ rest))
              (with_bytes-IsDone fuel (λ val rest. loop rest val) rest (w.consume_bytes rest)
                (λ val rest short. done rest val short) short)
              (skip_value-IsDone fuel (λ rest. loop rest token) rest
                (w.consume_field_value num typ rest) (λ rest short. done rest token short) short))
          (omega (arith, h))

    token-IsDone : (b : Bytes) → IsDone (parse_auth_request_token w b)
    unfolding parse_auth_request_token
    token-IsDone b = token_loop-IsDone (suc (length b)) b [] (omega arith)

    -- what the two loops over a message share: the rest after a tag
    request_field-IsDone :
        (size : ℕ) (loop : RequestLoop w) (req : AuthenticationRequest) (have : Bool) (num typ : ℕ)
        (b : Bytes)
        → ((rest : Bytes) (req : AuthenticationRequest) (have : Bool)
            → length rest ≤ size
            → IsDone (loop rest req have))
        → length b ≤ size
        → IsDone (request_field w loop req have num typ b)
    request_field-IsDone size loop req have num typ b done short =
        let token_case = λ (val rest : Bytes).
          and_then w (parse_auth_request_token w val)
            (λ token. loop rest (record req { token = token }) have) in
        let level_case =
          λ (v : ℕ) (rest : Bytes). loop rest (record req { requested_level = to_int v }) true in
        let other_case = λ (rest : Bytes). loop rest req have in
        if-IsDone (num == 2 && typ == bytes_type) (with_bytes w token_case b (w.consume_bytes b))
          (if num == 3 && typ == varint_type
            then with_varint w level_case b (w.consume_varint b)
            else skip_value w other_case b (w.consume_field_value num typ b))
          (with_bytes-IsDone size token_case b (w.consume_bytes b)
            (λ val rest le.
              and_then-IsDone (parse_auth_request_token w val)
                (λ token. loop rest (record req { token = token }) have) (token-IsDone val)
                (λ token. done rest (record req { token = token }) have le))
            short)
          (if-IsDone (num == 3 && typ == varint_type)
            (with_varint w level_case b (w.consume_varint b))
            (skip_value w other_case b (w.consume_field_value num typ b))
            (with_varint-IsDone size level_case b (w.consume_varint b)
              (λ v rest le. done rest (record req { requested_level = to_int v }) true le) short)
            (skip_value-IsDone size other_case b (w.consume_field_value num typ b)
              (λ rest le. done rest req have le) short))

    request_loop-IsDone :
        (fuel : ℕ) (b : Bytes) (req : AuthenticationRequest) (have : Bool)
        → length b < fuel
        → IsDone (request_loop w fuel b req have)
    unfolding request_loop
    request_loop-IsDone zero b req have h = absurd (omega (arith, h))
    request_loop-IsDone (suc fuel) [] req have h = if-IsDone have (read req) malformed tt tt
    request_loop-IsDone (suc zero) (c ∷ b) req have h = absurd (omega (arith, h))
    request_loop-IsDone (suc (suc fuel)) (c ∷ b) req have h =
        with_tag-IsDone fuel (request_field w (request_loop w (suc fuel)) req have) (c ∷ b)
          (w.consume_tag (c ∷ b)) (tags (c ∷ b))
          (λ num typ rest short.
            request_field-IsDone fuel (request_loop w (suc fuel)) req have num typ rest
              (λ rest req have le. request_loop-IsDone (suc fuel) rest req have (omega (arith, le)))
              short)
          (omega (arith, h))

    message-IsDone : (b : Bytes) → IsDone (parse_auth_request_message w b)
    unfolding parse_auth_request_message
    message-IsDone b = request_loop-IsDone (suc (length b)) b no_request false (omega arith)

    from_field-IsDone :
        (size : ℕ) (loop : FromLoop w) (found : Option AuthenticationRequest) (num typ : ℕ)
        (b : Bytes)
        → ((rest : Bytes) (found : Option AuthenticationRequest)
            → length rest ≤ size
            → IsDone (loop rest found))
        → length b ≤ size
        → IsDone (from_field w loop found num typ b)
    from_field-IsDone size loop found num typ b done short =
        let inner_case = λ (val rest : Bytes).
          and_then w (parse_auth_request_message w val) (λ inner. loop rest (some inner)) in
        let other_case = λ (rest : Bytes). loop rest found in
        if-IsDone (num == 3 && typ == bytes_type) (with_bytes w inner_case b (w.consume_bytes b))
          (skip_value w other_case b (w.consume_field_value num typ b))
          (with_bytes-IsDone size inner_case b (w.consume_bytes b)
            (λ val rest le.
              and_then-IsDone (parse_auth_request_message w val) (λ inner. loop rest (some inner))
                (message-IsDone val) (λ inner. done rest (some inner) le))
            short)
          (skip_value-IsDone size other_case b (w.consume_field_value num typ b)
            (λ rest le. done rest found le) short)

    if_found-IsDone : (found : Option AuthenticationRequest) → IsDone (if_found w found)
    if_found-IsDone none = tt
    if_found-IsDone (some req) = tt

    from_loop-IsDone :
        (fuel : ℕ) (b : Bytes) (found : Option AuthenticationRequest)
        → length b < fuel
        → IsDone (from_loop w fuel b found)
    unfolding from_loop
    from_loop-IsDone zero b found h = absurd (omega (arith, h))
    from_loop-IsDone (suc fuel) [] found h = if_found-IsDone found
    from_loop-IsDone (suc zero) (c ∷ b) found h = absurd (omega (arith, h))
    from_loop-IsDone (suc (suc fuel)) (c ∷ b) found h =
        with_tag-IsDone fuel (from_field w (from_loop w (suc fuel)) found) (c ∷ b)
          (w.consume_tag (c ∷ b)) (tags (c ∷ b))
          (λ num typ rest short.
            from_field-IsDone fuel (from_loop w (suc fuel)) found num typ rest
              (λ rest found le. from_loop-IsDone (suc fuel) rest found (omega (arith, le))) short)
          (omega (arith, h))

    -- If each tag that is read has at least one byte, then the walk over a datagram ends with a request or a
    -- refusal, whatever its bytes are and however its messages are nested.
    pub parse_authentication_request-IsDone :
        (datagram : Bytes) → IsDone (parse_authentication_request w datagram)
    unfolding parse_authentication_request parse_auth_request_from
    parse_authentication_request-IsDone [] = tt
    parse_authentication_request-IsDone (c ∷ datagram) =
        let b = inner_message w (c ∷ datagram) (w.payload (c ∷ datagram)) in
        from_loop-IsDone (suc (length b)) b none (omega arith)
