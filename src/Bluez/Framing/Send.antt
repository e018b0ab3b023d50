-- ===== src/Bluez/Framing/Send.antt =====
-- helper/session/bluez/connection.go: what `Send` puts on the link, chunk by chunk.
use mathlib.Core.List.{flatten}
use electric_eel.Base.{
  ℕ, zero, suc, ◌+◌, ◌≤◌, ◌<◌, ◌≡◌, ◌≢◌, refl, ap, ◌⊎◌, inl, inr, List, [], ◌∷◌, ◌++◌, arith,
  length, take, drop, take-append-drop, length-take, length-drop, leb, if◌then◌else◌, All,
}
use electric_eel.Bluez.Framing.{
  Attempt, SendTrace, SendResult, sent, context_ended, write_failed, out_of_fuel, min_block_length,
  frame, send_loop, send,
}

-- rounds that are left: one for each byte, and one for the change of the chunk size
abbrev rounds : ℕ → ℕ → ℕ
rounds block n = n + (if leb block min_block_length then 0 else 1)

send_loop_total :
    (env : ℕ → Attempt) (fuel round block : ℕ) (out : List ℕ)
    → 0 < block
    → rounds block (length out) < fuel
    → (send_loop env fuel round block out).result ≢ out_of_fuel
unfolding send_loop
send_loop_total env zero round block out pos h = elim h [ ]
send_loop_total env (suc fuel) round block [] pos h = ground arith
send_loop_total env (suc fuel) round block (b ∷ out) pos h = ground (
  arith,
  send_loop_total env fuel (round + 1) block (drop block (b ∷ out)) pos,
  length-drop block (b ∷ out),
  send_loop_total env fuel (round + 1) block (drop (length (b ∷ out)) (b ∷ out)) pos,
  length-drop (length (b ∷ out)) (b ∷ out),
  send_loop_total env fuel (round + 1) min_block_length (b ∷ out),
)

-- A message that is sent has crossed the link whole, behind its length.
flatten-send_loop :
    (env : ℕ → Attempt) (fuel round block : ℕ) (out : List ℕ)
    → (send_loop env fuel round block out).result ≡ sent
    → flatten (send_loop env fuel round block out).chunks ≡ out
unfolding send_loop flatten
flatten-send_loop env zero round block out h = cc
flatten-send_loop env (suc fuel) round block [] h = refl
flatten-send_loop env (suc fuel) round block (b ∷ out) h = ground (
  arith,
  flatten-send_loop env fuel (round + 1) block (drop block (b ∷ out)),
  take-append-drop block (b ∷ out),
  flatten-send_loop env fuel (round + 1) block (drop (length (b ∷ out)) (b ∷ out)),
  take-append-drop (length (b ∷ out)) (b ∷ out),
  flatten-send_loop env fuel (round + 1) min_block_length (b ∷ out),
)

-- `p` is the beginning of `out`
abbrev pub Begins : List ℕ → List ℕ → Type 0
Begins p out = take (length p) out ≡ p

Begins-append : (n : ℕ) (out p : List ℕ) → Begins p (drop n out) → Begins (take n out ++ p) out
Begins-append zero out p h = h
Begins-append (suc n) [] [] h = refl
Begins-append (suc n) [] (x ∷ p) h = h
Begins-append (suc n) (b ∷ out) p h = ap (λ t. b ∷ t) (Begins-append n out p h)

-- Whatever the result, the chunks written are the beginning of the message.
send_loop-Begins :
    (env : ℕ → Attempt) (fuel round block : ℕ) (out : List ℕ)
    → Begins (flatten (send_loop env fuel round block out).chunks) out
unfolding send_loop flatten
send_loop-Begins env zero round block out = refl
send_loop-Begins env (suc fuel) round block [] = refl
send_loop-Begins env (suc fuel) round block (b ∷ out) =
    let whole = length (b ∷ out) in
    ground (
      arith,
      Begins-append block (b ∷ out)
          (flatten (send_loop env fuel (round + 1) block (drop block (b ∷ out))).chunks)
          (send_loop-Begins env fuel (round + 1) block (drop block (b ∷ out))),
      Begins-append whole (b ∷ out)
          (flatten (send_loop env fuel (round + 1) block (drop whole (b ∷ out))).chunks)
          (send_loop-Begins env fuel (round + 1) block (drop whole (b ∷ out))),
      send_loop-Begins env fuel (round + 1) min_block_length (b ∷ out),
    )

-- a chunk that one write may carry
abbrev pub Fits : ℕ → List ℕ → Type 0
Fits block c = (0 < length c) × (length c ≤ block)

All-Fits-mono : (a b : ℕ) (cs : List (List ℕ)) → a ≤ b → All (Fits a) cs → All (Fits b) cs
All-Fits-mono a b [] h k = tt
All-Fits-mono a b (c ∷ cs) h k = (omega (arith, k.0), All-Fits-mono a b cs h k.1)

send_loop-Fits :
    (env : ℕ → Attempt) (fuel round block : ℕ) (out : List ℕ)
    → 0 < block
    → All (Fits block) (send_loop env fuel round block out).chunks
unfolding send_loop
send_loop-Fits env zero round block out h = tt
send_loop-Fits env (suc fuel) round block [] h = tt
send_loop-Fits env (suc fuel) round block (b ∷ out) h =
    let whole = length (b ∷ out) in
    let small = (send_loop env fuel (round + 1) min_block_length (b ∷ out)).chunks in
    ground (
      arith,
      send_loop-Fits env fuel (round + 1) block (drop block (b ∷ out)) h,
      length-take block (b ∷ out),
      send_loop-Fits env fuel (round + 1) block (drop whole (b ∷ out)) h,
      length-take whole (b ∷ out),
      send_loop-Fits env fuel (round + 1) min_block_length (b ∷ out) (omega arith),
      All-Fits-mono min_block_length block small,
    )

-- `blockLength` changes at most once, and only to the guaranteed size
abbrev pub Shrinks : ℕ → SendTrace → Type 0
Shrinks block t =
    ((t.block_length ≡ block) ⊎ ((min_block_length < block) × (t.block_length ≡ min_block_length)))
    × (t.result ≡ write_failed → t.block_length ≤ min_block_length)

send_loop-Shrinks :
    (env : ℕ → Attempt) (fuel round block : ℕ) (out : List ℕ)
    → Shrinks block (send_loop env fuel round block out)
unfolding send_loop
send_loop-Shrinks env zero round block out = ground arith
send_loop-Shrinks env (suc fuel) round block [] = ground arith
send_loop-Shrinks env (suc fuel) round block (b ∷ out) = ground (
  arith,
  send_loop-Shrinks env fuel (round + 1) block (drop block (b ∷ out)),
  send_loop-Shrinks env fuel (round + 1) block (drop (length (b ∷ out)) (b ∷ out)),
  send_loop-Shrinks env fuel (round + 1) min_block_length (b ∷ out),
)

-- the three ways to return
returned {ℓ} :
    {X : Type ℓ} (r : SendResult)
    → r ≢ out_of_fuel
    → (r ≡ sent → X)
    → ((r ≡ sent) × X) ⊎ ((r ≡ context_ended) ⊎ (r ≡ write_failed))
returned sent total whole = inl (refl, whole refl)
returned context_ended total whole = inr (inl refl)
returned write_failed total whole = inr (inr refl)
returned out_of_fuel total whole = elim (total refl) [ ]

module _ (env : ℕ → Attempt) (block : ℕ) (buffer : List ℕ) where
  pub flatten-send :
      (send env block buffer).result ≡ sent → flatten (send env block buffer).chunks ≡ frame buffer
  unfolding send
  flatten-send = flatten-send_loop env (length buffer + 4) 0 block (frame buffer)

  -- With a positive chunk size `Send` returns, whatever the context and the bus answer: either
  -- without an error, and then the chunks written are the length prefix and the message, whole; or
  -- because the context has ended, or because a write has failed.
  pub send_lem :
      0 < block
      → (((send env block buffer).result ≡ sent)
          × (flatten (send env block buffer).chunks ≡ frame buffer))
        ⊎ (((send env block buffer).result ≡ context_ended)
            ⊎ ((send env block buffer).result ≡ write_failed))
  unfolding send
  send_lem pos =
      returned (send env block buffer).result
        (send_loop_total env (length buffer + 4) 0 block (frame buffer) pos (ground arith))
        flatten-send

  -- With a positive chunk size, whatever `Send` returns, the bytes written are a beginning of the
  -- framed message, and no chunk written is empty or longer than the chunk size at the start.
  send_chunks :
      0 < block
      → Begins (flatten (send env block buffer).chunks) (frame buffer)
        × All (Fits block) (send env block buffer).chunks
  unfolding send
  send_chunks pos = (
    send_loop-Begins env (length buffer + 4) 0 block (frame buffer),
    send_loop-Fits env (length buffer + 4) 0 block (frame buffer) pos,
  )

  -- After `Send` the chunk size is what it was, or it was above 20 and is 20 now; and `Send` gives up
  -- on a failed write only when the chunk size is at most 20.
  pub send-Shrinks : Shrinks block (send env block buffer)
  unfolding send
  send-Shrinks = send_loop-Shrinks env (length buffer + 4) 0 block (frame buffer)
