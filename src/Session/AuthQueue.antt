-- ===== src/Session/AuthQueue.antt =====
-- helper/session/main.go: the queue of datagrams for the authentication responder. There is one
-- writer; what the responder takes between two selects of the writer is a number of datagrams.
pub mod Refine
mod Tests
use electric_eel.Base.{
  ℕ, ◌+◌, Bool, Option, none, some, List, [], ◌∷◌, ◌++◌, ltb, length, drop, if◌then◌else◌,
}

-- a datagram is a list of bytes
abbrev pub Datagram : Type 0
Datagram = List ℕ

-- a channel: its capacity, and what is in its buffer
abbrev pub Queue : Type 0
Queue = List Datagram

-- `select { case inbox <- datagram: default: }`, where `none` is the default
unfoldable pub try_send : ℕ → Datagram → Queue → Option Queue
try_send capacity d q = if ltb (length q) capacity then some (q ++ d ∷ []) else none

-- the queue after a send, or another one in the default
abbrev sent_or : Queue → Option Queue → Queue
sent_or other none = other
sent_or other (some sent) = sent

-- the second and the third select
unfoldable pub drop_oldest : ℕ → Datagram → ℕ → ℕ → Queue → Queue
drop_oldest capacity d before between q =
    let room = drop between (drop 1 (drop before q)) in sent_or room (try_send capacity d room)

-- `enqueueAuthDatagram`, where the responder takes `before` datagrams before the second select and
-- `between` before the third
unfoldable pub enqueue_auth_datagram : ℕ → Datagram → ℕ → ℕ → Queue → Queue
enqueue_auth_datagram capacity d before between q =
    sent_or (drop_oldest capacity d before between q) (try_send capacity d q)

-- what happens to the queue
pub data Op : Type 0 where
  enqueue : (d : Datagram) (before between : ℕ) → Op
  take_one : Op

unfoldable pub step : ℕ → Op → Queue → Queue
unfolding enqueue_auth_datagram
step capacity (enqueue d before between) q = enqueue_auth_datagram capacity d before between q
step capacity take_one q = drop 1 q

abbrev pub steps : ℕ → List Op → Queue → Queue
steps capacity [] q = q
steps capacity (op ∷ ops) q = steps capacity ops (step capacity op q)
