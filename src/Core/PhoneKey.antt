-- ===== src/Core/PhoneKey.antt =====
-- helper/src/core.rs: when the phone key may be started, and what a change of the configuration does
-- to it.
use electric_eel.Base.{
  ℕ, ◌≡◌, ◌⊎◌, inl, inr, refl, Bool, true, false, none, some, arith, Option-cases,
}
use electric_eel.Base.Int.{ℤ}
use electric_eel.Text.{Str}
use electric_eel.Config.{Config, candidate}
use electric_eel.Client.{Client, Outcome, ran, failed, is_some, invalidate, clear_events, run}
use electric_eel.Core.{
  Core, World, eligible, start_outcome, retire, start_with, start_phone_key, stop_phone_key, adopt,
  set_config, handle_resume, map_client,
}

-- The phone key is marked as started only with a session client, a paired VIN and its key; and a
-- retry is planned only while it is wanted.
pub record IsSafe (c : Core) : Type 0 where
  pub eligible_started : c.phone_key_started ≡ true → eligible c ≡ true
  pub client : c.phone_key_started ≡ true → is_some c.session ≡ true
  pub wanted : is_some c.phone_key_retry_at ≡ true → c.phone_key_enabled ≡ true

start_outcome-IsSafe :
    (now : ℕ) (outcome : Outcome) (c : Core)
    → eligible c ≡ true
    → is_some c.session ≡ true
    → c.phone_key_enabled ≡ true
    → IsSafe (start_outcome now outcome c).0
unfolding start_outcome eligible
start_outcome-IsSafe now (ran true out err code) c ok session enabled = ground arith
start_outcome-IsSafe now (ran false out err code) c ok session enabled = ground arith
start_outcome-IsSafe now (failed e) c ok session enabled = ground arith

start_with-IsSafe :
    (w : World) (was_started : Bool) (client : Client) (c : Core)
    → eligible c ≡ true
    → IsSafe (start_with w was_started client c).0
unfolding start_with eligible
start_with-IsSafe w was_started client c ok =
    let answer = run "presence-start" w.starting (retire was_started client) in
    start_outcome-IsSafe w.now answer.1
      (record c { phone_key_enabled = true; session = some answer.0 }) ok refl refl

pub start_phone_key-IsSafe : (w : World) (c : Core) → IsSafe c → IsSafe (start_phone_key w c).0
unfolding start_phone_key eligible
start_phone_key-IsSafe w c h = elim (Option-cases c.session) [
  | inl e ↦ ground arith
  | inr (client, e) ↦ ground (
    arith,
    start_with-IsSafe w c.phone_key_started client (record c { phone_key_started = false }),
  )
]

pub stop_phone_key-IsSafe : (w : World) (c : Core) → IsSafe c → IsSafe (stop_phone_key w c)
unfolding stop_phone_key eligible
stop_phone_key-IsSafe w c h = ground arith

adopt-IsSafe : (w : World) (cfg : Config) (c : Core) → IsSafe c → IsSafe (adopt w cfg c)
unfolding adopt stop_phone_key eligible
adopt-IsSafe w cfg c h =
    let adopted : Core = record (stop_phone_key w c) {
      cfg = cfg;
      file = cfg;
      session = map_client invalidate (stop_phone_key w c).session;
    } in
    let safe : IsSafe adopted = ground arith in
    ground (arith, start_phone_key-IsSafe w adopted safe)

pub handle_resume-IsSafe : (w : World) (c : Core) → IsSafe c → IsSafe (handle_resume w c)
unfolding handle_resume eligible
handle_resume-IsSafe w c h =
    let recycled : Core = record c {
      phone_key_started = false;
      session = map_client (λ client. invalidate (clear_events client)) c.session;
    } in
    let safe : IsSafe recycled = ground arith in start_phone_key-IsSafe w recycled safe

pub set_config-IsSafe :
    (w : World) (vin model key_name : Str) (connect command : ℤ) (c : Core)
    → IsSafe c
    → IsSafe (set_config w vin model key_name connect command c).0
unfolding set_config
set_config-IsSafe w vin model key_name connect command c h =
    ground (arith, adopt-IsSafe w (candidate c.cfg vin model key_name connect command) c h)

start_outcome_lem :
    (now : ℕ) (outcome : Outcome) (c : Core)
    → (((start_outcome now outcome c).1 ≡ none)
        × ((start_outcome now outcome c).0.phone_key_started ≡ true))
      ⊎ ((is_some (start_outcome now outcome c).1 ≡ true)
          × ((start_outcome now outcome c).0.phone_key_started ≡ false))
unfolding start_outcome
start_outcome_lem now (ran true out err code) c = inl (refl, refl)
start_outcome_lem now (ran false out err code) c = inr (refl, refl)
start_outcome_lem now (failed e) c = inr (refl, refl)

start_with_lem :
    (w : World) (was_started : Bool) (client : Client) (c : Core)
    → (((start_with w was_started client c).1 ≡ none)
        × ((start_with w was_started client c).0.phone_key_started ≡ true))
      ⊎ ((is_some (start_with w was_started client c).1 ≡ true)
          × ((start_with w was_started client c).0.phone_key_started ≡ false))
unfolding start_with
start_with_lem w was_started client c =
    let answer = run "presence-start" w.starting (retire was_started client) in
    start_outcome_lem w.now answer.1
      (record c { phone_key_enabled = true; session = some answer.0 })

-- When the mark of the phone key is only set for a paired VIN with its key, `start_phone_key` either
-- reports no error, and then the VIN is paired, its key is on disk and the phone key is marked as
-- started; or it reports an error and leaves it not marked.
pub start_phone_key_lem :
    (w : World) (c : Core)
    → IsSafe c
    → let (c', err) = start_phone_key w c in
      ((err ≡ none) × (c'.phone_key_started ≡ true) × (eligible c ≡ true))
      ⊎ ((is_some err ≡ true) × (c'.phone_key_started ≡ false))
unfolding start_phone_key eligible
start_phone_key_lem w c h = elim (Option-cases c.session) [
  | inl e ↦ ground arith
  | inr (client, e) ↦
      ground (
        arith,
        start_with_lem w c.phone_key_started client (record c { phone_key_started = false }),
      )
]
