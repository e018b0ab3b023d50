-- ===== src/Core/Events.antt =====
-- helper/src/core.rs: a planned retry of the phone key is made, and not lost.
use electric_eel.Base.{
  ℕ, ◌≡◌, ◌⊎◌, inl, inr, refl, Bool, true, false, not, ◌&&◌, ◌||◌, if◌then◌else◌, ap, ◌∙◌, Option,
  none, some, arith, Option-cases,
}
use electric_eel.Client.{Client, Outcome, ran, failed, is_some, invalidate, run, presence_stopped}
use electric_eel.Core.{
  Core, World, OperationError, schedule_phone_key_retry, start_outcome, retire, start_with,
  start_phone_key, map_client,
}
use electric_eel.Core.PhoneKey.{IsSafe, start_phone_key_lem}
use electric_eel.Core.Invariant.Parts.{stopped-IsSafe}
use electric_eel.Core.Invariant.Polling.{next_event-IsSafe}
use electric_eel.Core.Polling.{
  KeyEvent, is_due, is_waiting, fill_vin, restarted, restart, handle_event, handle_polled,
  next_event, poll_phone_key_event,
}

start_outcome-retry :
    (now : ℕ) (outcome : Outcome) (c : Core)
    → ((start_outcome now outcome c).1 ≡ none)
      ⊎ (is_some (start_outcome now outcome c).0.phone_key_retry_at ≡ true)
unfolding start_outcome schedule_phone_key_retry
start_outcome-retry now (ran true out err code) c = inl refl
start_outcome-retry now (ran false out err code) c = inr refl
start_outcome-retry now (failed e) c = inr refl

-- a start that fails leaves a planned retry
start_phone_key-retry :
    (w : World) (c : Core)
    → is_some c.phone_key_retry_at ≡ true
    → ((start_phone_key w c).1 ≡ none) ⊎ (is_some (start_phone_key w c).0.phone_key_retry_at ≡ true)
unfolding start_phone_key start_with
start_phone_key-retry w c h = elim (Option-cases c.session) [
  | inl e ↦ ground arith
  | inr (client, e) ↦
      let answer = run "presence-start" w.starting (retire c.phone_key_started client) in
      ground (
        arith,
        start_outcome-retry w.now answer.1 (record c {
          phone_key_started = false;
          phone_key_enabled = true;
          session = some answer.0;
        }),
      )
]

abbrev Retried : Core × Option KeyEvent → Type 0
Retried answer =
    (e : KeyEvent) × (answer.1 ≡ some e)
    × (((e.kind ≡ "presence_restarted") × (answer.0.phone_key_started ≡ true))
        ⊎ ((is_some e.cause ≡ true)
            × (answer.0.phone_key_started ≡ false)
            × (is_some answer.0.phone_key_retry_at ≡ true)))

restarted-kind :
    (e : KeyEvent) (error : Option OperationError)
    → ((error ≡ none) × ((restarted e error).kind ≡ "presence_restarted"))
      ⊎ ((is_some error ≡ true) × (is_some (restarted e error).cause ≡ true))
restarted-kind e none = inl (refl, refl)
restarted-kind e (some cause) = inr (refl, refl)

restart-Retried :
    (w : World) (e : KeyEvent) (c : Core)
    → IsSafe c
    → c.phone_key_started ≡ false
    → is_some c.phone_key_retry_at ≡ true
    → Retried (restart w e c)
unfolding restart
restart-Retried w e c h off planned =
    let recycled : Core = record c { session = map_client invalidate c.session } in
    let safe : IsSafe recycled = record {
      eligible_started = λ s. cc;
      client = λ s. cc;
      wanted = h.wanted;
    } in
    let started = start_phone_key w recycled in
    (
      restarted e started.1,
      refl,
      ground (
        arith,
        start_phone_key_lem w recycled safe,
        start_phone_key-retry w recycled planned,
        restarted-kind e started.1,
      ),
    )

next_event-keeps :
    (session : Option Client) (c : Core)
    → ((next_event session c).1.phone_key_retry_at ≡ c.phone_key_retry_at)
      × ((next_event session c).1.phone_key_enabled ≡ c.phone_key_enabled)
next_event-keeps none c = (refl, refl)
next_event-keeps (some client) c = (refl, refl)

due-not_waiting :
    (now : ℕ) (retry_at : Option ℕ) → is_due now retry_at ≡ true → is_waiting now retry_at ≡ false
due-not_waiting now none h = cc
due-not_waiting now (some deadline) h = ground arith

due-is_some : (now : ℕ) (retry_at : Option ℕ) → is_due now retry_at ≡ true → is_some retry_at ≡ true
due-is_some now none h = cc
due-is_some now (some deadline) h = refl

if_true-Retried :
    (b : Bool) (x y : Core × Option KeyEvent) → b ≡ true → Retried x → Retried (if b then x else y)
if_true-Retried true x y e h = h
if_true-Retried false x y e h = cc

if_false-Retried :
    (b : Bool) (x y : Core × Option KeyEvent) → b ≡ false → Retried y → Retried (if b then x else y)
if_false-Retried true x y e h = cc
if_false-Retried false x y e h = h

handle_polled-Retried :
    (w : World) (c : Core)
    → IsSafe c
    → is_due w.now c.phone_key_retry_at ≡ true
    → c.phone_key_enabled ≡ true
    → Retried (handle_polled w none c)
unfolding handle_polled handle_event fill_vin
handle_polled-Retried w c h due wanted =
    let e = fill_vin c.cfg.vin (presence_stopped "") in
    let stopped : Core = record c { phone_key_started = false } in
    let due_and : (is_due w.now c.phone_key_retry_at && c.phone_key_enabled) ≡ true =
      rw due wanted in
    let not_idle : (not c.phone_key_enabled || is_waiting w.now c.phone_key_retry_at) ≡ false =
      rw wanted (due-not_waiting w.now c.phone_key_retry_at due) in
    if_true-Retried (is_due w.now c.phone_key_retry_at && c.phone_key_enabled) (handle_event w e c)
      (c, none) due_and
      (if_false-Retried (not c.phone_key_enabled || is_waiting w.now c.phone_key_retry_at)
        (stopped, some e) (restart w e stopped) not_idle
        (restart-Retried w e stopped (stopped-IsSafe c h) refl
          (due-is_some w.now c.phone_key_retry_at due)))

-- When no event is waiting, the phone key is wanted and its retry is due, a poll starts it again: it gives
-- the event that says so, and the phone key is marked as started, or it gives an event with the
-- error, and the phone key is not marked and a retry is planned.
pub poll_phone_key_event-retry :
    (w : World) (c : Core)
    → IsSafe c
    → (next_event c.session c).0 ≡ none
    → is_due w.now c.phone_key_retry_at ≡ true
    → c.phone_key_enabled ≡ true
    → let (c', event) = poll_phone_key_event w c in
      (e : KeyEvent) × (event ≡ some e)
      × (((e.kind ≡ "presence_restarted") × (c'.phone_key_started ≡ true))
          ⊎ ((is_some e.cause ≡ true)
              × (c'.phone_key_started ≡ false)
              × (is_some c'.phone_key_retry_at ≡ true)))
unfolding poll_phone_key_event
poll_phone_key_event-retry w c h empty due wanted =
    let next = next_event c.session c in
    let kept = next_event-keeps c.session c in
    rw empty (
      handle_polled-Retried w next.1 (next_event-IsSafe c.session c h)
        (ap (is_due w.now) kept.0 ∙ due) (kept.1 ∙ wanted))
