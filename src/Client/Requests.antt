-- ===== src/Client/Requests.antt =====
-- helper/src/session_client.rs: what a request leaves behind.
use Prim.Native.String.{String}
use text.Mathlib.Text.{◌==◌ as str_eq}
use electric_eel.Base.{
  ℕ, suc, ◌≡◌, ◌⊎◌, ◌&&◌, ◌||◌, refl, Bool, true, false, Option, none, some, List, [], ◌∷◌, arith,
}
use electric_eel.Client.{
  Frame, Response, Client, World, Outcome, ran, failed, SessionError, spawn_failed,
  presence_stopped, is_some, receive, await, prepare, accept, answered, exchange, run,
  transport_failed,
}
use electric_eel.Client.Reader.{IsSound, receive-IsSound}

-- the child is gone, nothing is active, and the queue holds the one event that says so
abbrev pub IsLost : Client → Type 0
IsLost c =
    (c.child ≡ none)
    × (c.presence_active ≡ false)
    × (c.events ≡ presence_stopped "tesla-session transport failed" ∷ [])

await-IsSound : (frames : List Frame) (c : Client) → IsSound c → IsSound (await frames c).0
unfolding await
await-IsSound [] c h = ground arith
await-IsSound (frame ∷ frames) c h =
    ground (arith, await-IsSound frames (receive frame c) (receive-IsSound frame c h))

-- A response is taken out of the channel of a child that is still there.
await-child :
    (frames : List Frame) (c : Client)
    → is_some (await frames c).1 ≡ true
    → is_some (await frames c).0.child ≡ true
unfolding await
await-child [] c h = ground arith
await-child (frame ∷ frames) c h = ground (arith, await-child frames (receive frame c))

-- What a request to a sound client leaves, by its outcome.
abbrev pub After : String → Outcome → Client → Type 0
After cmd (failed spawn_failed) c = (c.child ≡ none) × (c.presence_active ≡ false)
After cmd (failed _) c = IsLost c
After cmd (ran success out err code) c =
    (is_some c.child ≡ true)
    × (((success && (str_eq cmd "presence-start" || str_eq cmd "presence-stop")) ≡ false)
        ⊎ (c.presence_active ≡ str_eq cmd "presence-start"))

accept-IsSound :
    (cmd : String) (id : ℕ) (r : Response) (c : Client)
    → IsSound c
    → is_some c.child ≡ true
    → IsSound (accept cmd id r c).0
unfolding accept
accept-IsSound cmd id r c h up = ground arith

accept-After :
    (cmd : String) (id : ℕ) (r : Response) (c : Client)
    → is_some c.child ≡ true
    → After cmd (accept cmd id r c).1 (accept cmd id r c).0
unfolding accept
accept-After cmd id r c up = ground arith

lost_lem :
    (cmd : String) (e : SessionError) (c : Client)
    → IsSound (transport_failed c) × IsLost (transport_failed c)
unfolding transport_failed
lost_lem cmd e c = ground arith

answered_lem :
    (cmd : String) (id : ℕ) (c : Client) (answer : Option Response)
    → IsSound c
    → (is_some answer ≡ true → is_some c.child ≡ true)
    → IsSound (answered cmd id c answer).0
      × After cmd (answered cmd id c answer).1 (answered cmd id c answer).0
unfolding answered
answered_lem cmd id c none h up = ground arith
answered_lem cmd id c (some r) h up =
    (accept-IsSound cmd id r c h (up refl), accept-After cmd id r c (up refl))

exchange_lem :
    (cmd : String) (w : World) (id : ℕ) (c : Client)
    → IsSound c
    → IsSound (exchange cmd w id c).0 × After cmd (exchange cmd w id c).1 (exchange cmd w id c).0
unfolding exchange
exchange_lem cmd w id c h = ground (
  arith,
  answered_lem cmd id (await w.frames c).0 (await w.frames c).1 (await-IsSound w.frames c h)
      (await-child w.frames c),
)

prepare_lem :
    (spawns : Bool) (c : Client)
    → IsSound c
    → IsSound (prepare spawns c).0
      × ((prepare spawns c).1 ≡ false
          → ((prepare spawns c).0.child ≡ none) × ((prepare spawns c).0.presence_active ≡ false))
unfolding prepare
prepare_lem spawns c h = ground arith

-- A request to a sound client leaves a sound one. If it fails after the child was there, whatever
-- frames arrived, the child is gone, presence is not active, and the queue holds the one event that
-- says that the transport failed; if no child could be spawned, there is none and presence is not
-- active. If it is answered, the child is still there, and a successful start or stop of presence
-- has set or cleared the mark that presence is active.
pub run_lem :
    (cmd : String) (w : World) (c : Client)
    → IsSound c
    → IsSound (run cmd w c).0 × After cmd (run cmd w c).1 (run cmd w c).0
unfolding run
run_lem cmd w c h =
    let prepared = prepare_lem w.spawns c h in
    let numbered : Client = record (prepare w.spawns c).0 {
      next_id = suc (prepare w.spawns c).0.next_id;
    } in
    let sound : IsSound numbered = record {
      bounded = prepared.0.bounded;
      presence = prepared.0.presence;
    } in
    ground (arith, prepared.1, exchange_lem cmd w (prepare w.spawns c).0.next_id numbered sound)
