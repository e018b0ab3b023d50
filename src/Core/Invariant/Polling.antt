-- ===== src/Core/Invariant/Polling.antt =====
-- helper/src/core.rs: the phone key over the poll of its events.
use text.Mathlib.Text.{◌==◌ as str_eq}
use electric_eel.Base.{◌≡◌, refl, false, not, ◌||◌, ◌&&◌, Option, none, some, if◌then◌else◌}
use electric_eel.Client.{Client, SessionEvent, invalidate, poll_event, presence_stopped}
use electric_eel.Core.{Core, World, map_client}
use electric_eel.Core.PhoneKey.{IsSafe, start_phone_key-IsSafe}
use electric_eel.Core.Polling.{
  KeyEvent, fill_vin, is_due, is_waiting, restart, handle_event, handle_polled, next_event,
  poll_phone_key_event,
}
use electric_eel.Core.Invariant.Parts.{if-IsSafe, client-IsSafe, stopped-IsSafe}

restart-IsSafe :
    (w : World) (e : KeyEvent) (c : Core)
    → IsSafe c
    → c.phone_key_started ≡ false
    → IsSafe (restart w e c).0
unfolding restart
restart-IsSafe w e c h off =
    let recycled : Core = record c { session = map_client invalidate c.session } in
    let safe : IsSafe recycled = record {
      eligible_started = λ s. cc;
      client = λ s. cc;
      wanted = h.wanted;
    } in
    start_phone_key-IsSafe w recycled safe

handle_event-IsSafe :
    (w : World) (e : KeyEvent) (c : Core) → IsSafe c → IsSafe (handle_event w e c).0
unfolding handle_event
handle_event-IsSafe w e c h =
    let stopped : Core = record c { phone_key_started = false } in
    let safe = stopped-IsSafe c h in
    if-IsSafe (not (str_eq e.kind "presence_stopped")) (c, some e)
      (if not c.phone_key_enabled || is_waiting w.now c.phone_key_retry_at
        then (stopped, some e)
        else restart w e stopped)
      h
      (if-IsSafe (not c.phone_key_enabled || is_waiting w.now c.phone_key_retry_at)
        (stopped, some e) (restart w e stopped) safe (restart-IsSafe w e stopped safe refl))

handle_polled-IsSafe :
    (w : World) (event : Option SessionEvent) (c : Core)
    → IsSafe c
    → IsSafe (handle_polled w event c).0
unfolding handle_polled
handle_polled-IsSafe w (some e) c h = handle_event-IsSafe w (fill_vin c.cfg.vin e) c h
handle_polled-IsSafe w none c h =
    let made = fill_vin c.cfg.vin (presence_stopped "") in
    if-IsSafe (is_due w.now c.phone_key_retry_at && c.phone_key_enabled) (handle_event w made c)
      (c, none) (handle_event-IsSafe w made c h) h

pub next_event-IsSafe :
    (session : Option Client) (c : Core) → IsSafe c → IsSafe (next_event session c).1
next_event-IsSafe none c h = h
next_event-IsSafe (some client) c h = client-IsSafe c (poll_event client).1 h

pub poll_phone_key_event-IsSafe :
    (w : World) (c : Core) → IsSafe c → IsSafe (poll_phone_key_event w c).0
unfolding poll_phone_key_event
poll_phone_key_event-IsSafe w c h =
    let next = next_event c.session c in
    handle_polled-IsSafe w next.0 next.1 (next_event-IsSafe c.session c h)
