-- ===== src/Core.antt =====
-- helper/src/core.rs: the life cycle of the phone key over the configuration and the session client.
-- Every operation here holds the gate of the phone key, or takes it again at once, so each is one
-- step. `World` is what is outside of the step: the time, whether the file can be written, what the
-- session child answers to the requests to start and stop presence and to any other (`asking`),
-- whether the radio is free (`permit`), whether a private key is on disk after a request for a new
-- one, whether the public key can be written and is on disk, and the output of a binary, if it
-- succeeds (`one_shot`).
pub mod PhoneKey
pub mod SetConfig
pub mod Requests
pub mod Polling
pub mod Commands
pub mod Navigation
pub mod Keys
pub mod Invariant
pub mod Events
pub mod Run
mod Tests
use Prim.Native.String.{String}
use electric_eel.Base.{
  ℕ, ◌+◌, Bool, true, false, not, ◌&&◌, ◌||◌, Option, none, some, if◌then◌else◌,
}
use electric_eel.Base.Int.{ℤ}
use electric_eel.Text.{Str, is_empty, str_eq, trim}
use electric_eel.Config.{
  Config, ConfigError, VinState, paired, unpaired, validate_config, candidate, writable,
}
use electric_eel.Client.{
  Client, World as ClientWorld, Outcome, ran, failed, run, invalidate, clear_events,
  is_presence_active,
}

-- `file` is the configuration that was last written, `key_file` whether the private key is on disk.
pub record Core : Type 0 where
  pub cfg : Config
  pub file : Config
  pub key_file : Bool
  pub bluez : Bool
  pub session : Option Client
  pub phone_key_started : Bool
  pub phone_key_enabled : Bool
  pub phone_key_retry_at : Option ℕ

-- `saves` is whether a save replaces the file, and `synced` whether the sync of the directory after
-- that succeeds too.
pub record World : Type 0 where
  pub now : ℕ
  pub saves : Bool
  pub synced : Bool
  pub starting : ClientWorld
  pub stopping : ClientWorld
  pub asking : ClientWorld
  pub permit : Bool
  pub key_after : Bool
  pub writes_public : Bool
  pub public_file : Bool
  pub one_shot : Option Str

pub data OperationError : Type 0 where
  invalid : ConfigError → OperationError
  persist not_paired no_session requires_bluez presence_failed : OperationError
  write_pubkey keygen_failed : OperationError

-- five seconds
abbrev pub retry_delay : ℕ
retry_delay = 5_000_000_000

abbrev is_paired : VinState → Bool
is_paired paired = true
is_paired unpaired = false

-- a VIN that is paired, and its key
unfoldable pub eligible : Core → Bool
eligible c = not (is_empty c.cfg.vin) && is_paired c.cfg.vin_state && c.key_file

-- `schedule_phone_key_retry`
unfoldable pub schedule_phone_key_retry : ℕ → Core → Core
schedule_phone_key_retry now c = record c { phone_key_retry_at = some (now + retry_delay) }

abbrev presence_runs : Option Client → Bool
presence_runs none = false
presence_runs (some client) = is_presence_active client

-- the `match` on the outcome of `start_presence`
unfoldable pub start_outcome : ℕ → Outcome → Core → Core × Option OperationError
unfolding schedule_phone_key_retry
start_outcome now (ran true _ _ _) c =
    (record c { phone_key_started = true; phone_key_retry_at = none }, none)
start_outcome now _ c =
    (schedule_phone_key_retry now (record c { phone_key_started = false }), some presence_failed)

-- a client without presence is retired if presence was started
unfoldable pub retire : Bool → Client → Client
retire was_started client =
    if was_started && not (is_presence_active client) then invalidate client else client

-- the request to start presence
unfoldable pub start_with : World → Bool → Client → Core → Core × Option OperationError
unfolding start_outcome
start_with w was_started client c =
    let (after, outcome) = run "presence-start" w.starting (retire was_started client) in
    start_outcome w.now outcome (record c { phone_key_enabled = true; session = some after })

-- `start_phone_key`
unfoldable pub start_phone_key : World → Core → Core × Option OperationError
unfolding eligible start_with
start_phone_key w c =
    let idle = record c { phone_key_started = false } in
    if c.phone_key_started && presence_runs c.session
    then (c, none)
    else if not (eligible c)
    then (idle, some not_paired)
    else elim c.session [
      | none ↦ (idle, some no_session)
      | some client ↦
          if not c.bluez
          then (idle, some requires_bluez)
          else start_with w c.phone_key_started client idle
    ]

-- the client after `stop_presence`, which is dropped when the request failed
unfoldable pub stop_with : World → Client → Client
stop_with w client =
    let (after, outcome) = run "presence-stop" w.stopping client in
    elim outcome [ ran _ _ _ _ ↦ after | failed _ ↦ invalidate after ]

abbrev pub map_client : (Client → Client) → Option Client → Option Client
map_client f none = none
map_client f (some client) = some (f client)

-- `stop_phone_key_locked`
unfoldable pub stop_phone_key : World → Core → Core
unfolding stop_with
stop_phone_key w c =
    let off = record c { phone_key_enabled = false; phone_key_retry_at = none } in
    if not c.phone_key_started
    then off
    else record off { session = map_client (stop_with w) c.session; phone_key_started = false }

-- the part of `set_config` after the file was written
unfoldable pub adopt : World → Config → Core → Core
unfolding stop_phone_key start_phone_key
adopt w cfg c =
    let stopped = stop_phone_key w c in
    let adopted = record stopped {
      cfg = cfg;
      file = cfg;
      session = map_client invalidate stopped.session;
    } in
    if str_eq c.cfg.vin cfg.vin then (start_phone_key w adopted).0 else adopted

-- whether a save has no error: neither before nor after the file is replaced
abbrev pub is_saved : World → Bool
is_saved w = w.saves && w.synced

-- after a save that has an error; the file may be replaced for all that
abbrev pub after_error : World → Config → Core → Core
after_error w cfg c = record c { file = if w.saves then cfg else c.file }

-- `set_config`
unfoldable pub set_config : World → Str → Str → Str → ℤ → ℤ → Core → Core × Option OperationError
unfolding adopt candidate
set_config w vin model key_name connect command c =
    elim (validate_config vin model key_name connect command) [
      | some e ↦ (c, some (invalid e))
      | none ↦
          if not (writable c.cfg)
          then (c, some persist)
          else if not (is_saved w)
          then (after_error w (candidate c.cfg vin model key_name connect command) c, some persist)
          else (adopt w (candidate c.cfg vin model key_name connect command) c, none)
    ]

-- `handle_resume`
unfoldable pub handle_resume : World → Core → Core
unfolding start_phone_key
handle_resume w c =
    (start_phone_key w (record c {
      phone_key_started = false;
      session = map_client (λ client. invalidate (clear_events client)) c.session;
    })).0
