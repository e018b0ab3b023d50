-- ===== src/Bluez/Framing.antt =====
-- helper/session/bluez/connection.go: the framing of messages on the GATT link. `Send` writes a
-- message behind a two-byte length in chunks; `rx` and `flush` put the chunks of the other side
-- together again. Bytes are numbers, times are nanoseconds.
pub mod Send
pub mod Flush
pub mod Receive
mod Tests
use electric_eel.Base.{
  ℕ, zero, suc, ◌+◌, ◌-◌, ◌*◌, ◌/◌, ◌%◌, Bool, true, false, Option, none, some, List, [], ◌∷◌, ◌++◌,
  length, take, drop, ltb, leb, if◌then◌else◌,
}

abbrev pub max_message_size : ℕ
max_message_size = 1024

abbrev pub default_mtu : ℕ
default_mtu = 23

-- the chunk size that every device supports
abbrev pub min_block_length : ℕ
min_block_length = default_mtu - 3

abbrev pub rx_timeout : ℕ
rx_timeout = 1_000_000_000

-- What the context and the bus answer in one round of the loop of `Send`: whether the context has
-- ended before the write, whether the write succeeds, whether the context has ended after it.
pub record Attempt : Type 0 where
  pub ended_before : Bool
  pub written : Bool
  pub ended_after : Bool

-- How `Send` returns; `out_of_fuel` is no result of the code.
pub data SendResult : Type 0 where
  sent context_ended write_failed out_of_fuel : SendResult

-- The result, `blockLength` afterwards, and the chunks that the bus accepted, in order.
pub record SendTrace : Type 0 where
  pub result : SendResult
  pub block_length : ℕ
  pub chunks : List (List ℕ)

abbrev pub returns : SendResult → ℕ → SendTrace
returns r block = record { result = r; block_length = block; chunks = [] }

abbrev pub chunk_then : List ℕ → SendTrace → SendTrace
chunk_then chunk t = record t { chunks = chunk ∷ t.chunks }

-- the length prefix, `byte(len>>8), byte(len)`, and the message
abbrev pub frame : List ℕ → List ℕ
frame buffer = (length buffer / 256 % 256) ∷ (length buffer % 256) ∷ buffer

-- the loop of `Send`, over `out`
pub send_loop : (ℕ → Attempt) → ℕ → ℕ → ℕ → List ℕ → SendTrace
send_loop env zero round block out = returns out_of_fuel block
send_loop env (suc fuel) round block [] = returns sent block
send_loop env (suc fuel) round block (b ∷ out) =
    let blk = if ltb block (length (b ∷ out)) then block else length (b ∷ out) in
    let next = send_loop env fuel (round + 1) block (drop blk (b ∷ out)) in
    let smaller = send_loop env fuel (round + 1) min_block_length (b ∷ out) in
    let attempt = env round in
    if attempt.ended_before
    then returns context_ended block
    else if attempt.written
    then chunk_then (take blk (b ∷ out)) next
    else if attempt.ended_after
    then returns context_ended block
    else if leb block min_block_length
    then returns write_failed block
    else smaller

unfoldable pub send : (ℕ → Attempt) → ℕ → List ℕ → SendTrace
unfolding send_loop
send env block buffer = send_loop env (length buffer + 4) 0 block (frame buffer)

-- The receiving half of `Connection`. `observed` is what the inbound observer has been given and
-- `inbox` what waits in the channel `Receive`.
pub record Connection : Type 0 where
  pub rx_buf : List ℕ
  pub last_rx : ℕ
  pub inbox : List (List ℕ)
  pub has_observer : Bool
  pub observed : List (List ℕ)

-- Hands one datagram to the observer and to the inbox, which drops it when it is full.
pub deliver : ℕ → List ℕ → Connection → Connection
deliver capacity buf c = record c {
  observed = if c.has_observer then c.observed ++ buf ∷ [] else c.observed;
  inbox = if ltb (length c.inbox) capacity then c.inbox ++ buf ∷ [] else c.inbox;
}

flush_bytes : ℕ → List ℕ → Connection → Connection × Bool
unfolding deliver
flush_bytes capacity [] c = (c, false)
flush_bytes capacity (hi ∷ []) c = (c, false)
flush_bytes capacity (hi ∷ lo ∷ body) c =
    let msg_length = 256 * hi + lo in
    if ltb max_message_size msg_length
    then (record c { rx_buf = [] }, false)
    else if ltb (length (hi ∷ lo ∷ body)) (2 + msg_length)
    then (c, false)
    else (
      record (deliver capacity (take msg_length body) c) { rx_buf = drop msg_length body },
      true,
    )

-- `capacity` is that of the inbox channel, a constant of the connector package.
pub flush : ℕ → Connection → Connection × Bool
unfolding flush_bytes
flush capacity c = flush_bytes capacity c.rx_buf c

-- `for c.flush() {}`
pub flush_all : ℕ → ℕ → Connection → Connection
flush_all zero capacity c = c
flush_all (suc fuel) capacity c =
    let (c', again) = flush capacity c in
    let rest = flush_all fuel capacity c' in if again then rest else c'

pub rx : ℕ → ℕ → List ℕ → Connection → Connection
rx capacity now p c =
    let kept = if ltb rx_timeout (now - c.last_rx) then [] else c.rx_buf in
    flush_all (length (kept ++ p)) capacity (record c { rx_buf = kept ++ p; last_rx = now })

-- a run of notifications, each with the time at which it arrives
unfoldable pub rx_all : ℕ → List (ℕ × List ℕ) → Connection → Connection
unfolding rx flush_all flush flush_bytes deliver
rx_all capacity [] c = c
rx_all capacity ((now, p) ∷ ps) c = rx_all capacity ps (rx capacity now p c)
