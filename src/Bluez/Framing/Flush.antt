-- ===== src/Bluez/Framing/Flush.antt =====
-- helper/session/bluez/connection.go: what a run of `flush` does to a buffer that holds a beginning
-- of a stream of framed messages.
use mathlib.Core.Path.{ap₂}
use mathlib.Core.List.{head-eq_of_cons-eq, tail-eq_of_cons-eq}
use native.Mathlib.Decide.{dec_lt}
use electric_eel.Base.{
  ℕ, zero, suc, ◌+◌, ◌*◌, ◌/◌, ◌%◌, ◌≤◌, ◌<◌, ◌≡◌, refl, ap, true, false, List, [], ◌∷◌, ◌++◌,
  arith, length, drop, length-append, length-drop, take-length_append, drop-length_append, All,
}
use electric_eel.Bluez.Framing.{Connection, max_message_size, frame, deliver, flush, flush_all}

-- a message that the receiver accepts
abbrev pub Sendable : List ℕ → Type 0
Sendable m = length m ≤ max_message_size

abbrev pub stream : List (List ℕ) → List ℕ
stream [] = []
stream (m ∷ ms) = frame m ++ stream ms

abbrev pub deliver_all : ℕ → List (List ℕ) → Connection → Connection
deliver_all capacity [] c = c
deliver_all capacity (m ∷ ms) c = deliver_all capacity ms (deliver capacity m c)

-- a buffer in which the next message is not complete
abbrev pub IsPartial : List ℕ → List (List ℕ) → Type 0
IsPartial r [] = Unit
IsPartial r (m ∷ ms) = length r < 2 + length m

header : (n : ℕ) → n ≤ max_message_size → 256 * (n / 256 % 256) + n % 256 ≡ n
header n h = omega arith

flush-frame :
    (capacity : ℕ) (m buf : List ℕ) (c : Connection)
    → Sendable m
    → flush capacity (record c { rx_buf = frame m ++ buf })
      ≡ (record (deliver capacity m c) { rx_buf = buf }, true)
unfolding flush deliver
flush-frame capacity m buf c h = ground (
  arith,
  header (length m) h,
  take-length_append m buf,
  drop-length_append m buf,
  length-append m buf,
)

flush_partial :
    (capacity : ℕ) (m r rest more : List ℕ) (c : Connection)
    → Sendable m
    → r ++ rest ≡ frame m ++ more
    → length r < 2 + length m
    → flush capacity (record c { rx_buf = r }) ≡ (record c { rx_buf = r }, false)
unfolding flush deliver
flush_partial capacity m [] rest more c h e p = refl
flush_partial capacity m (a ∷ []) rest more c h e p = refl
flush_partial capacity m (a ∷ b ∷ r) rest more c h e p = ground (arith, header (length m) h)

append-split :
    (us xs ys vs : List ℕ)
    → xs ++ ys ≡ us ++ vs
    → length us ≤ length xs
    → (xs ≡ us ++ drop (length us) xs) × (drop (length us) xs ++ ys ≡ vs)
append-split [] xs ys vs e h = (refl, e)
append-split (u ∷ us) [] ys vs e h = absurd (omega arith)
append-split (u ∷ us) (x ∷ xs) ys vs e h =
    let (p, q) = append-split us xs ys vs (tail-eq_of_cons-eq e) (omega arith) in
    (ap₂ (λ a l. a ∷ l) (head-eq_of_cons-eq e) p, q)

-- What a run of `flush` leaves: the complete messages are delivered, in order, and the rest of the
-- buffer is the beginning of those that are still to come.
pub record Drained (capacity : ℕ) (buf rest : List ℕ) (ms : List (List ℕ)) (c c' : Connection)
    : Type 0 where
  pub done : List (List ℕ)
  pub todo : List (List ℕ)
  pub left : List ℕ
  pub split : done ++ todo ≡ ms
  pub bytes : left ++ rest ≡ stream todo
  pub partial : IsPartial left todo
  pub state : c' ≡ record (deliver_all capacity done c) { rx_buf = left }

pub IsPartial-nil : (ms : List (List ℕ)) → IsPartial [] ms
IsPartial-nil [] = tt
IsPartial-nil (m ∷ ms) = omega arith

flush_next :
    (capacity : ℕ) (m buf after : List ℕ) (c : Connection)
    → Sendable m
    → buf ≡ frame m ++ after
    → flush capacity (record c { rx_buf = buf })
      ≡ (record (deliver capacity m c) { rx_buf = after }, true)
flush_next capacity m buf after c ok e = rw e (flush-frame capacity m after c ok)

Drained-cons :
    (capacity fuel : ℕ) (m : List ℕ) (ms : List (List ℕ)) (buf after rest : List ℕ) (c : Connection)
    → Sendable m
    → buf ≡ frame m ++ after
    → Drained capacity after rest ms
        (deliver capacity m c)
        (flush_all fuel capacity (record (deliver capacity m c) { rx_buf = after }))
    → Drained capacity buf rest
        (m ∷ ms)
        c
        (flush_all (suc fuel) capacity (record c { rx_buf = buf }))
unfolding flush_all
Drained-cons capacity fuel m ms buf after rest c ok e d = record {
  done = m ∷ d.done;
  todo = d.todo;
  left = d.left;
  split = ap (λ l. m ∷ l) d.split;
  bytes = d.bytes;
  partial = d.partial;
  state = rw (flush_next capacity m buf after c ok e) d.state;
}

Drained-short :
    (capacity fuel : ℕ) (m : List ℕ) (ms : List (List ℕ)) (buf rest : List ℕ) (c : Connection)
    → Sendable m
    → buf ++ rest ≡ stream (m ∷ ms)
    → length buf < 2 + length m
    → Drained capacity buf rest
        (m ∷ ms)
        c
        (flush_all (suc fuel) capacity (record c { rx_buf = buf }))
unfolding flush_all
Drained-short capacity fuel m ms buf rest c ok e short = record {
  done = [];
  todo = m ∷ ms;
  left = buf;
  split = refl;
  bytes = e;
  partial = short;
  state = rw (flush_partial capacity m buf rest (stream ms) c ok e short);
}

Drained-nil :
    (capacity fuel : ℕ) (ms : List (List ℕ)) (rest : List ℕ) (c : Connection)
    → rest ≡ stream ms
    → Drained capacity [] rest ms c (flush_all fuel capacity (record c { rx_buf = [] }))
unfolding flush_all flush
Drained-nil capacity zero ms rest c e = record {
  done = [];
  todo = ms;
  left = [];
  split = refl;
  bytes = e;
  partial = IsPartial-nil ms;
  state = refl;
}
Drained-nil capacity (suc fuel) ms rest c e = record {
  done = [];
  todo = ms;
  left = [];
  split = refl;
  bytes = e;
  partial = IsPartial-nil ms;
  state = refl;
}

pub flush_all-Drained :
    (capacity fuel : ℕ) (ms : List (List ℕ)) (buf rest : List ℕ) (c : Connection)
    → All Sendable ms
    → buf ++ rest ≡ stream ms
    → length buf ≤ fuel
    → Drained capacity buf rest ms c (flush_all fuel capacity (record c { rx_buf = buf }))
flush_all-Drained capacity fuel ms [] rest c ok e h = Drained-nil capacity fuel ms rest c e
flush_all-Drained capacity zero ms (b ∷ buf) rest c ok e h = absurd (omega arith)
flush_all-Drained capacity (suc fuel) [] (b ∷ buf) rest c ok e h = cc
flush_all-Drained capacity (suc fuel) (m ∷ ms) (b ∷ buf) rest c ok e h =
    elim (dec_lt (length (b ∷ buf)) (2 + length m)) [
      | yes short ↦ Drained-short capacity fuel m ms (b ∷ buf) rest c ok.0 e short
      | no long ↦
          let (p, q) = append-split (frame m) (b ∷ buf) rest (stream ms) e (omega arith) in
          let after = drop (length (frame m)) (b ∷ buf) in
          Drained-cons capacity fuel m ms (b ∷ buf) after rest c ok.0 p (
            flush_all-Drained capacity fuel ms after rest (deliver capacity m c) ok.1 q
              (omega (arith, length-drop (length (frame m)) (b ∷ buf))))
    ]
