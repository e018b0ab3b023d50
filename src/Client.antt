-- ===== src/Client.antt =====
-- helper/src/session_client.rs: the parent's side of the session child. The lock on the child is
-- held for a whole request, so a request is one step, in which the reader thread handles the frames
-- that arrive; between requests the reader handles frames by itself. Spawning, with the handshake,
-- and writing to the socket are answers of the world outside.
pub mod Reader
pub mod Requests
mod Tests
use Prim.Native.String.{String}
use text.Mathlib.Text.{◌==◌ as str_eq}
use electric_eel.Base.Int.{ℤ}
use electric_eel.Base.{
  ℕ, suc, ◌+◌, Bool, true, false, not, ◌&&◌, ◌||◌, Option, none, some, List, [], ◌∷◌, ◌++◌, length,
  drop, ◌==◌, if◌then◌else◌,
}

pub record SessionEvent : Type 0 where
  pub kind : String
  pub vin : String
  pub time : String
  pub error : String

-- The `id` of a response: `some n` for the decimal text of `n`, `none` for any other text.
pub record Response : Type 0 where
  pub id : Option ℕ
  pub success : Bool
  pub stdout : String
  pub stderr : String
  pub exit_code : ℤ

-- What one read of the socket gives: a frame, a line that is none, the end of the connection, or
-- nothing within the deadline.
pub data Frame : Type 0 where
  response : Response → Frame
  event : SessionEvent → Frame
  heartbeat hello malformed closed deadline : Frame

pub record Child : Type 0 where
  pub alive : Bool
  pub responses : List Response

pub record Client : Type 0 where
  pub child : Option Child
  pub next_id : ℕ
  pub events : List SessionEvent
  pub presence_active : Bool

pub data SessionError : Type 0 where
  spawn_failed broken_pipe timeout id_mismatch : SessionError

pub data Outcome : Type 0 where
  ran : (success : Bool) (stdout stderr : String) (exit_code : ℤ) → Outcome
  failed : SessionError → Outcome

abbrev pub max_events : ℕ
max_events = 64

abbrev pub presence_stopped : String → SessionEvent
presence_stopped error = record { kind = "presence_stopped"; vin = ""; time = ""; error = error }

unfoldable pub push_event : SessionEvent → List SessionEvent → List SessionEvent
push_event e queue = (if length queue == max_events then drop 1 queue else queue) ++ e ∷ []

-- the end of the reader thread, when it was not cancelled
unfoldable pub reader_exit : Child → Client → Client
reader_exit child c = record c {
  child = some (record child { alive = false });
  events = presence_stopped "tesla-session transport closed" ∷ [];
}

-- one round of the loop of the reader thread
unfoldable pub read_frame : Frame → Child → Client → Client
unfolding reader_exit push_event
read_frame (response r) child c = record c {
  child = some (record child { responses = child.responses ++ r ∷ [] });
}
read_frame (event e) child c = record c { events = push_event e c.events }
read_frame heartbeat child c = c
read_frame _ child c = reader_exit child c

-- a frame for whatever child there is; the reader of a dead one has ended
unfoldable pub receive : Frame → Client → Client
unfolding read_frame
receive frame c = elim c.child [
  | none ↦ c
  | some child ↦ if child.alive then read_frame frame child c else c
]

-- `clear_events`
unfoldable pub clear_events : Client → Client
clear_events c = record c { events = [] }

-- `invalidate`: the reader is cancelled and joined, the process killed, the queue emptied
unfoldable pub invalidate : Client → Client
unfolding clear_events
invalidate c = clear_events (record c { presence_active = false; child = none })

unfoldable pub is_alive : Client → Bool
is_alive c = elim c.child [ none ↦ false | some child ↦ child.alive ]

unfoldable pub is_presence_active : Client → Bool
unfolding is_alive
is_presence_active c = c.presence_active && is_alive c

-- `kill` followed by `transport_failed`
unfoldable pub transport_failed : Client → Client
transport_failed c = record c {
  child = none;
  presence_active = false;
  events = presence_stopped "tesla-session transport failed" ∷ [];
}

-- `poll_event`
unfoldable pub poll_event : Client → Option SessionEvent × Client
poll_event c = elim c.events [ [] ↦ (none, c) | e ∷ rest ↦ (some e, record c { events = rest }) ]

-- What the world answers to one request: whether a child can be spawned, whether the request can be
-- written, and the frames that arrive before the deadline of the request.
pub record World : Type 0 where
  pub spawns : Bool
  pub written : Bool
  pub frames : List Frame

-- The first response that has arrived, taken out of the channel.
abbrev take_response : Client → Option (Response × Client)
take_response c = elim c.child [
  | none ↦ none
  | some child ↦ elim child.responses [
    | [] ↦ none
    | r ∷ rest ↦ some (r, record c { child = some (record child { responses = rest }) })
  ]
]

-- `recv_timeout`: the reader handles frames until there is a response, or no more can come
unfoldable pub await : List Frame → Client → Client × Option Response
unfolding receive
await [] c = elim (take_response c) [ none ↦ (c, none) | some (r, c') ↦ (c', some r) ]
await (frame ∷ frames) c =
    let later = await frames (receive frame c) in
    elim (take_response c) [ none ↦ later | some (r, c') ↦ (c', some r) ]

abbrev pub is_some {ℓ} : {A : Type ℓ} → Option A → Bool
is_some none = false
is_some (some _) = true

abbrev is_dead : Option Child → Bool
is_dead none = false
is_dead (some child) = not child.alive

-- a dead child is reaped, and a new one spawned if there is none
unfoldable pub prepare : Bool → Client → Client × Bool
unfolding transport_failed
prepare spawns c =
    let reaped = if is_dead c.child then transport_failed c else c in
    if is_some reaped.child
    then (reaped, true)
    else if spawns
    then (record reaped { child = some (record { alive = true; responses = [] }) }, true)
    else (reaped, false)

abbrev same_id : Option ℕ → ℕ → Bool
same_id none id = false
same_id (some n) id = n == id

-- a response to the request `id` has arrived
unfoldable pub accept : String → ℕ → Response → Client → Client × Outcome
unfolding transport_failed
accept cmd id r c =
    if not (same_id r.id id)
    then (transport_failed c, failed id_mismatch)
    else if r.success && (str_eq cmd "presence-start" || str_eq cmd "presence-stop")
    then (
      record c { presence_active = str_eq cmd "presence-start" },
      ran r.success r.stdout r.stderr r.exit_code,
    )
    else (c, ran r.success r.stdout r.stderr r.exit_code)

-- the `match` on `recv_timeout`
unfoldable pub answered : String → ℕ → Client → Option Response → Client × Outcome
unfolding accept transport_failed
answered cmd id c none = (transport_failed c, failed timeout)
answered cmd id c (some r) = accept cmd id r c

unfoldable pub exchange : String → World → ℕ → Client → Client × Outcome
unfolding await answered transport_failed
exchange cmd w id c =
    if not w.written
    then (transport_failed c, failed broken_pipe)
    else answered cmd id (await w.frames c).0 (await w.frames c).1

-- `SessionClient::run`
unfoldable pub run : String → World → Client → Client × Outcome
unfolding prepare exchange
run cmd w c =
    let (ready, up) = prepare w.spawns c in
    if not up
    then (ready, failed spawn_failed)
    else exchange cmd w ready.next_id (record ready { next_id = suc ready.next_id })
