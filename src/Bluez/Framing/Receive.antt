-- ===== src/Bluez/Framing/Receive.antt =====
-- helper/session/bluez/connection.go: `rx` puts together what `Send` took apart, however the bytes
-- are divided into notifications.
use mathlib.Core.Path.{subst}
use mathlib.Core.List.{flatten}
use electric_eel.Base.{
  ℕ, zero, suc, ◌+◌, ◌-◌, ◌≤◌, ◌<◌, ◌≡◌, refl, sym, ap, ◌∙◌, inl, inr, true, List, [], ◌∷◌, ◌++◌,
  append_assoc, append-nil, arith, length, take, length-append, take-nil, ltb, ltb→lt, lt→ltb,
  Bool-cases, All,
}
use electric_eel.Bluez.Framing.{
  Connection, rx_timeout, Attempt, send, sent, frame, deliver, rx, rx_all,
}
use electric_eel.Bluez.Framing.Send.{flatten-send}
use electric_eel.Bluez.Framing.Flush.{
  Sendable, stream, deliver_all, IsPartial, IsPartial-nil, Drained, flush_all-Drained,
}

-- the state after the messages `ms`, with the buffer and the time written
abbrev after_all : ℕ → List (List ℕ) → List ℕ → ℕ → Connection → Connection
after_all capacity ms buf t c = record (deliver_all capacity ms c) { rx_buf = buf; last_rx = t }

deliver_all-fields :
    (capacity : ℕ) (ms : List (List ℕ)) (buf b : List ℕ) (t u : ℕ) (c : Connection)
    → after_all capacity ms buf t (record c { rx_buf = b; last_rx = u })
      ≡ after_all capacity ms buf t c
unfolding deliver
deliver_all-fields capacity [] buf b t u c = refl
deliver_all-fields capacity (m ∷ ms) buf b t u c =
    deliver_all-fields capacity ms buf b t u (deliver capacity m c)

deliver_all-append :
    (capacity : ℕ) (xs ys : List (List ℕ)) (c : Connection)
    → deliver_all capacity (xs ++ ys) c ≡ deliver_all capacity ys (deliver_all capacity xs c)
deliver_all-append capacity [] ys c = refl
deliver_all-append capacity (x ∷ xs) ys c = deliver_all-append capacity xs ys (deliver capacity x c)

deliver_all-last_rx :
    (capacity : ℕ) (ms : List (List ℕ)) (c : Connection)
    → (deliver_all capacity ms c).last_rx ≡ c.last_rx
unfolding deliver
deliver_all-last_rx capacity [] c = refl
deliver_all-last_rx capacity (m ∷ ms) c = deliver_all-last_rx capacity ms (deliver capacity m c)

-- no gap between notifications is longer than the timeout
abbrev pub Timely : ℕ → List (ℕ × List ℕ) → Type 0
Timely last [] = Unit
Timely last ((now, p) ∷ ps) = (now - last ≤ rx_timeout) × Timely now ps

abbrev pub arrived : List (ℕ × List ℕ) → List ℕ
arrived [] = []
arrived ((now, p) ∷ ps) = p ++ arrived ps

abbrev last_time : ℕ → List (ℕ × List ℕ) → ℕ
last_time last [] = last
last_time last ((now, p) ∷ ps) = last_time now ps

rx-Drained :
    (capacity now : ℕ) (p rest : List ℕ) (ms : List (List ℕ)) (c : Connection)
    → All Sendable ms
    → now - c.last_rx ≤ rx_timeout
    → c.rx_buf ++ (p ++ rest) ≡ stream ms
    → Drained capacity (c.rx_buf ++ p) rest ms (record c { last_rx = now }) (rx capacity now p c)
unfolding rx
rx-Drained capacity now p rest ms c ok timely e =
    elim (Bool-cases (ltb rx_timeout (now - c.last_rx))) [
      | inl late ↦ absurd (omega (arith, ltb→lt _ _ late))
      | inr early ↦ rw early (
          flush_all-Drained capacity (length (c.rx_buf ++ p)) ms (c.rx_buf ++ p) rest
            (record c { last_rx = now }) ok (append_assoc c.rx_buf p rest ∙ e) (omega arith))
    ]

All-append_right : (xs ys : List (List ℕ)) → All Sendable (xs ++ ys) → All Sendable ys
All-append_right [] ys h = h
All-append_right (x ∷ xs) ys h = All-append_right xs ys h.1

rx_all_nil :
    (ms : List (List ℕ)) (capacity : ℕ) (c : Connection)
    → c.rx_buf ++ [] ≡ stream ms
    → IsPartial c.rx_buf ms
    → c ≡ after_all capacity ms [] c.last_rx c
rx_all_nil [] capacity c e p =
    let empty : c.rx_buf ≡ [] = sym (append-nil c.rx_buf) ∙ e in λ i. record c { rx_buf = empty i }
rx_all_nil (m ∷ ms) capacity c e p =
    absurd (omega (arith, ap length e, length-append c.rx_buf [], length-append m (stream ms)))

settle :
    (capacity : ℕ) (done : List (List ℕ)) (left : List ℕ) (now : ℕ) (c : Connection)
    → record (deliver_all capacity done (record c { last_rx = now })) { rx_buf = left }
      ≡ after_all capacity done left now c
settle capacity done left now c =
    let c' = deliver_all capacity done (record c { last_rx = now }) in
    let stays = deliver_all-last_rx capacity done (record c { last_rx = now }) in
    (λ i. record c' { rx_buf = left; last_rx = stays i })
    ∙ deliver_all-fields capacity done left c.rx_buf now now c

resume :
    (capacity : ℕ) (done todo ms : List (List ℕ)) (left : List ℕ) (now t : ℕ) (c : Connection)
    → done ++ todo ≡ ms
    → after_all capacity todo [] t (after_all capacity done left now c)
      ≡ after_all capacity ms [] t c
resume capacity done todo ms left now t c e =
    deliver_all-fields capacity todo [] left t now (deliver_all capacity done c)
    ∙ ap (λ (c' : Connection). let d : Connection = record c' { rx_buf = []; last_rx = t } in d)
        (sym (deliver_all-append capacity done todo c) ∙ ap (λ l. deliver_all capacity l c) e)

rx_all-stream :
    (capacity : ℕ) (ps : List (ℕ × List ℕ)) (ms : List (List ℕ)) (c : Connection)
    → All Sendable ms
    → Timely c.last_rx ps
    → c.rx_buf ++ arrived ps ≡ stream ms
    → IsPartial c.rx_buf ms
    → rx_all capacity ps c ≡ after_all capacity ms [] (last_time c.last_rx ps) c
unfolding rx_all
rx_all-stream capacity [] ms c ok timely e p = rx_all_nil ms capacity c e p
rx_all-stream capacity ((now, p) ∷ ps) ms c ok timely e partial =
    let d = rx-Drained capacity now p (arrived ps) ms c ok timely.0 e in
    let c2 = after_all capacity d.done d.left now c in
    let ok2 = All-append_right d.done d.todo (subst (λ l. All Sendable l) (sym d.split) ok) in
    ap (rx_all capacity ps) (d.state ∙ settle capacity d.done d.left now c)
    ∙ rx_all-stream capacity ps d.todo c2 ok2 timely.1 d.bytes d.partial
    ∙ resume capacity d.done d.todo ms d.left now (last_time now ps) c d.split

deliver_all-observed :
    (capacity : ℕ) (ms : List (List ℕ)) (c : Connection)
    → c.has_observer ≡ true
    → (deliver_all capacity ms c).observed ≡ c.observed ++ ms
unfolding deliver
deliver_all-observed capacity [] c h = sym (append-nil c.observed)
deliver_all-observed capacity (m ∷ ms) c h =
    deliver_all-observed capacity ms (deliver capacity m c) h
    ∙ rw h (append_assoc c.observed (m ∷ []) ms)

-- the inbox has room for `free` more messages
deliver_all-inbox :
    (free capacity : ℕ) (ms : List (List ℕ)) (c : Connection)
    → length c.inbox + free ≡ capacity
    → (deliver_all capacity ms c).inbox ≡ c.inbox ++ take free ms
unfolding deliver
deliver_all-inbox zero capacity [] c h = sym (append-nil c.inbox)
deliver_all-inbox (suc free) capacity [] c h = sym (append-nil c.inbox)
deliver_all-inbox zero capacity (m ∷ ms) c h = elim (Bool-cases (ltb (length c.inbox) capacity)) [
  | inl room ↦ absurd (omega (arith, ltb→lt _ _ room))
  | inr full ↦ deliver_all-inbox zero capacity ms (deliver capacity m c) (rw full h) ∙ rw full refl
]
deliver_all-inbox (suc free) capacity (m ∷ ms) c h =
    let room = lt→ltb (length c.inbox) capacity (omega arith) in
    deliver_all-inbox free capacity ms (deliver capacity m c)
      (rw room (omega (arith, length-append c.inbox (m ∷ []))))
    ∙ rw room (append_assoc c.inbox (m ∷ []) (take free ms))

-- From an empty buffer, when the bytes that arrive are those of the framed messages `ms`, none
-- longer than 1024 bytes, and no gap is longer than the timeout: however the bytes are divided into
-- notifications, the buffer ends empty, an observer has been given exactly `ms`, in order, and the
-- inbox has gained as many of them, from the first, as it had room for.
pub rx_all_lem :
    (capacity free : ℕ) (ps : List (ℕ × List ℕ)) (ms : List (List ℕ)) (c : Connection)
    → All Sendable ms
    → Timely c.last_rx ps
    → c.rx_buf ≡ []
    → arrived ps ≡ stream ms
    → c.has_observer ≡ true
    → length c.inbox + free ≡ capacity
    → ((rx_all capacity ps c).rx_buf ≡ [])
      × ((rx_all capacity ps c).observed ≡ c.observed ++ ms)
      × ((rx_all capacity ps c).inbox ≡ c.inbox ++ take free ms)
rx_all_lem capacity free ps ms c ok timely empty bytes observer room =
    let e =
      rx_all-stream capacity ps ms c ok timely (rw empty bytes) (rw empty (IsPartial-nil ms)) in
    (
      ap (λ (d : Connection). d.rx_buf) e,
      ap (λ (d : Connection). d.observed) e ∙ deliver_all-observed capacity ms c observer,
      ap (λ (d : Connection). d.inbox) e ∙ deliver_all-inbox free capacity ms c room,
    )

-- When `Send` returns without an error for a message of at most 1024 bytes, and the bytes that it
-- wrote arrive, divided in any way and with no gap longer than the timeout, at a connection with an
-- empty buffer, an observer and room in the inbox, the message is handed over once to each.
pub rx_all-send :
    (env : ℕ → Attempt) (block : ℕ) (m : List ℕ) (capacity free : ℕ) (ps : List (ℕ × List ℕ))
    (c : Connection)
    → 0 < block
    → (send env block m).result ≡ sent
    → arrived ps ≡ flatten (send env block m).chunks
    → Sendable m
    → Timely c.last_rx ps
    → c.rx_buf ≡ []
    → c.has_observer ≡ true
    → length c.inbox + suc free ≡ capacity
    → ((rx_all capacity ps c).observed ≡ c.observed ++ m ∷ [])
      × ((rx_all capacity ps c).inbox ≡ c.inbox ++ m ∷ [])
rx_all-send env block m capacity free ps c pos done bytes ok timely empty observer room =
    let whole = flatten-send env block m done in
    let e : arrived ps ≡ stream (m ∷ []) = bytes ∙ whole ∙ sym (append-nil (frame m)) in
    let r = rx_all_lem capacity (suc free) ps (m ∷ []) c (ok, tt) timely empty e observer room in
    (r.1, r.2 ∙ ap (λ l. c.inbox ++ m ∷ l) (take-nil free))
