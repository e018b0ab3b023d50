-- ===== src/Config/Tests.antt =====
-- helper/src/config.rs: the configuration at concrete inputs.
use electric_eel.Base.{◌≡◌, ◌↔◌, ◌⊎◌, refl, true, false, none, some, [], arith}
use electric_eel.Base.Int.{pos, negsuc}
use electric_eel.Text.{Str, codes, is_empty, to_ascii_lowercase, trim, contains_str, byte_len}
use electric_eel.Config.{
  Config, v0, unknown, paired, unpaired, version_of, before_current, writable, sanitize,
  validate_config, candidate, vin_re, key_name_re,
}
use electric_eel.Config.Loading.{LegacyConfig, field, missing, from_legacy, migrate, load}
use electric_eel.Config.Sanitize.{sanitize-validate_config, sanitize-candidate}
use electric_eel.Config.Schema.{migrate_lem, load-newer}

abbrev my_vin : Str
my_vin = codes " 5YJ3E1EA7KF317000 "

-- a file of the oldest schema, edited by hand
abbrev edited : Config
edited = record {
  version = v0;
  vin = my_vin;
  model = codes "Model3";
  key_name = codes "my/key";
  connect_timeout_sec = negsuc 0;
  command_timeout_sec = pos 301;
  vin_state = unpaired;
}

edited_sanitized : sanitize edited ≡ record {
  version = v0;
  vin = codes "5YJ3E1EA7KF317000";
  model = codes "model3";
  key_name = codes "harbour-electric-eel";
  connect_timeout_sec = pos 20;
  command_timeout_sec = pos 5;
  vin_state = unpaired;
}
unfolding sanitize trim to_ascii_lowercase contains_str vin_re key_name_re byte_len
edited_sanitized = refl

sanitize-validate_config_example :
    let s = sanitize edited in
    validate_config s.vin s.model s.key_name s.connect_timeout_sec s.command_timeout_sec ≡ none
sanitize-validate_config_example = sanitize-validate_config edited

sanitize-candidate_example :
    sanitize (candidate edited my_vin (codes " MODELY") (codes "key ") (pos 20) (pos 5))
    ≡ candidate edited my_vin (codes " MODELY") (codes "key ") (pos 20) (pos 5)
sanitize-candidate_example =
    sanitize-candidate edited my_vin (codes " MODELY") (codes "key ") (pos 20) (pos 5) (
      unfold validate_config trim to_ascii_lowercase contains_str vin_re key_name_re byte_len in
      refl)

migrate_lem_example :
    let (c', dirty) = migrate true edited in
    ((c'.vin_state ≡ paired) ↔ (
      (edited.vin_state ≡ paired)
      ⊎ ((edited.version ≡ v0) × (is_empty edited.vin ≡ false) × (true ≡ true))))
    × (before_current c'.version ≡ false)
    × (c'.vin ≡ edited.vin)
    × ((writable edited ≡ true) ⊎ ((c' ≡ edited) × (dirty ≡ false)))
migrate_lem_example = migrate_lem true edited

abbrev old_file : LegacyConfig
old_file = record {
  version = none;
  vin = my_vin;
  model = [];
  key_name = [];
  connect_timeout_sec = pos 20;
  command_timeout_sec = pos 5;
  vin_state = missing;
  paired_vin = field my_vin;
}

abbrev new_file : LegacyConfig
new_file = record old_file { version = some (unknown 3) }

abbrev new_config : Config
new_config = sanitize (from_legacy new_file)

load-newer_example :
    (writable new_config ≡ false)
    × (false ≡ false)
    × (migrate true new_config ≡ (new_config, false))
load-newer_example =
    load-newer (λ raw. some new_file) (λ raw. some 3) [] 3 refl (omega arith)
      (λ fields e. unfold version_of in cc) true new_config false (unfold load in refl)
