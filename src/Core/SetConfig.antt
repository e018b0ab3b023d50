-- ===== src/Core/SetConfig.antt =====
-- helper/src/core.rs: what `set_config` leaves in memory, in the file, and of the phone key.
use electric_eel.Base.{
  ℕ, ◌≡◌, ◌⊎◌, inl, inr, refl, Bool, true, false, none, some, arith, Bool-cases, Option-cases,
}
use electric_eel.Base.Int.{ℤ}
use electric_eel.Text.{Str, str_eq, trim}
use electric_eel.Text.Trim.{str_eq-eq}
use electric_eel.Config.{Config, unpaired, candidate}
use electric_eel.Client.{Client, Outcome, ran, failed, is_some, invalidate, run}
use electric_eel.Core.{
  Core, World, start_outcome, retire, start_with, start_phone_key, stop_phone_key, adopt,
  set_config, map_client, persist,
}

-- `set_config` on a changed VIN ends the phone key of the old one.
abbrev pub IsEnded : Core → Type 0
IsEnded c =
    (c.phone_key_started ≡ false)
    × (c.phone_key_enabled ≡ false)
    × (c.phone_key_retry_at ≡ none)
    × (c.cfg.vin_state ≡ unpaired)

start_outcome-cfg :
    (now : ℕ) (outcome : Outcome) (c : Core)
    → ((start_outcome now outcome c).0.cfg ≡ c.cfg)
      × ((start_outcome now outcome c).0.file ≡ c.file)
unfolding start_outcome
start_outcome-cfg now (ran true out err code) c = (refl, refl)
start_outcome-cfg now (ran false out err code) c = (refl, refl)
start_outcome-cfg now (failed e) c = (refl, refl)

start_with-cfg :
    (w : World) (was_started : Bool) (client : Client) (c : Core)
    → ((start_with w was_started client c).0.cfg ≡ c.cfg)
      × ((start_with w was_started client c).0.file ≡ c.file)
unfolding start_with
start_with-cfg w was_started client c =
    let answer = run "presence-start" w.starting (retire was_started client) in
    start_outcome-cfg w.now answer.1
      (record c { phone_key_enabled = true; session = some answer.0 })

pub start_phone_key-cfg :
    (w : World) (c : Core)
    → ((start_phone_key w c).0.cfg ≡ c.cfg) × ((start_phone_key w c).0.file ≡ c.file)
unfolding start_phone_key
start_phone_key-cfg w c = elim (Option-cases c.session) [
  | inl e ↦ ground arith
  | inr (client, e) ↦
      ground (
        arith,
        start_with-cfg w c.phone_key_started client (record c { phone_key_started = false }),
      )
]

-- what `adopt` leaves
abbrev Adopted : Config → Core → Core → Type 0
Adopted cfg c c' =
    (c'.cfg ≡ cfg)
    × (c'.file ≡ cfg)
    × ((c.cfg.vin ≡ cfg.vin)
        ⊎ ((str_eq c.cfg.vin cfg.vin ≡ false)
            × (c'.phone_key_started ≡ false)
            × (c'.phone_key_enabled ≡ false)
            × (c'.phone_key_retry_at ≡ none)))

adopt_lem : (w : World) (cfg : Config) (c : Core) → Adopted cfg c (adopt w cfg c)
unfolding adopt stop_phone_key
adopt_lem w cfg c =
    let adopted : Core = record (stop_phone_key w c) {
      cfg = cfg;
      file = cfg;
      session = map_client invalidate (stop_phone_key w c).session;
    } in
    elim (Bool-cases (str_eq c.cfg.vin cfg.vin)) [
      | inl same ↦ ground (arith, start_phone_key-cfg w adopted, str_eq-eq c.cfg.vin cfg.vin same)
      | inr other ↦ ground arith
    ]

-- `set_config` either reports an error, and then nothing has changed but that the file, after an error of
-- the save, may hold the configuration asked for; or it reports none, and then the configuration in memory and that in the file are the one asked for, and the VIN is the old one,
-- or the phone key is neither started nor wanted nor to be retried, and the new VIN is not paired.
pub set_config_lem :
    (w : World) (vin model key_name : Str) (connect command : ℤ) (c : Core)
    → let (c', err) = set_config w vin model key_name connect command c in
      ((is_some err ≡ true)
        × (c' ≡ record c { file = c'.file })
        × ((c'.file ≡ c.file)
            ⊎ ((err ≡ some persist)
                × (c'.file ≡ candidate c.cfg vin model key_name connect command))))
      ⊎ ((err ≡ none)
          × (c'.cfg ≡ candidate c.cfg vin model key_name connect command)
          × (c'.file ≡ c'.cfg)
          × ((c.cfg.vin ≡ trim vin) ⊎ IsEnded c'))
unfolding set_config candidate
set_config_lem w vin model key_name connect command c =
    ground (arith, adopt_lem w (candidate c.cfg vin model key_name connect command) c)
