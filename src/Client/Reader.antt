-- ===== src/Client/Reader.antt =====
-- helper/src/session_client.rs: the queue of unsolicited events, and what the reader thread keeps.
use native.Mathlib.Decide.{dec_lt}
use electric_eel.Base.{
  ◌-◌, ◌≤◌, ◌<◌, ◌≡◌, true, List, [], ◌∷◌, ◌++◌, arith, length, drop, length-append, length-drop,
}
use electric_eel.Client.{
  SessionEvent, Frame, response, event, Client, max_events, push_event, is_some, receive,
  poll_event, invalidate,
}

-- the last 64 of a list of events
abbrev pub newest : List SessionEvent → List SessionEvent
newest queue = drop (length queue - max_events) queue

push_event_short :
    (e : SessionEvent) (queue : List SessionEvent)
    → length queue < max_events
    → push_event e queue ≡ newest (queue ++ e ∷ [])
unfolding push_event
push_event_short e queue h =
    let none_over : length (queue ++ e ∷ []) - max_events ≡ 0 =
      omega (arith, length-append queue (e ∷ [])) in
    rw none_over (ground arith)

push_event_full :
    (e : SessionEvent) (queue : List SessionEvent)
    → length queue ≡ max_events
    → push_event e queue ≡ newest (queue ++ e ∷ [])
unfolding push_event
push_event_full e [] h = absurd (omega arith)
push_event_full e (x ∷ queue) h =
    let one_over : length (x ∷ (queue ++ e ∷ [])) - max_events ≡ 1 =
      omega (arith, length-append queue (e ∷ [])) in
    rw one_over (ground arith)

length-push_event :
    (e : SessionEvent) (queue : List SessionEvent)
    → length queue ≤ max_events
    → length (push_event e queue) ≤ max_events
unfolding push_event
length-push_event e queue h = ground (
  arith,
  length-append queue (e ∷ []),
  length-append (drop 1 queue) (e ∷ []),
  length-drop 1 queue,
)

-- A queue of at most 64 events keeps, when one more arrives, the last 64 of them all, in order: only
-- the oldest is ever lost, and the new one never.
pub push_event-newest :
    (e : SessionEvent) (queue : List SessionEvent)
    → length queue ≤ max_events
    → (push_event e queue ≡ newest (queue ++ e ∷ [])) × (length (push_event e queue) ≤ max_events)
push_event-newest e queue h = (
  elim (dec_lt (length queue) max_events) [
    | yes short ↦ push_event_short e queue short
    | no long ↦ push_event_full e queue (omega arith)
  ],
  length-push_event e queue h,
)

-- What holds of a client between any two steps: the queue is bounded, and presence is marked as
-- active only while there is a child.
pub record IsSound (c : Client) : Type 0 where
  pub bounded : length c.events ≤ max_events
  pub presence : c.presence_active ≡ true → is_some c.child ≡ true

pub receive-IsSound : (frame : Frame) (c : Client) → IsSound c → IsSound (receive frame c)
unfolding receive
receive-IsSound (response r) c h = ground arith
receive-IsSound (event e) c h = ground (arith, length-push_event e c.events h.bounded)
receive-IsSound _ c h = ground arith

pub poll_event-IsSound : (c : Client) → IsSound c → IsSound (poll_event c).1
unfolding poll_event
poll_event-IsSound c h = ground arith

pub invalidate-IsSound : (c : Client) → IsSound (invalidate c)
unfolding invalidate
invalidate-IsSound c = ground arith
