-- ===== src/Config/Loading.antt =====
-- helper/src/config.rs: the fields of a file of any schema, the migration of an older one, and the
-- load of the file.
use electric_eel.Base.{
  ℕ, Bool, true, false, not, ◌&&◌, Option, none, some, List, ltb, if◌then◌else◌,
}
use electric_eel.Base.Int.{ℤ}
use electric_eel.Text.{Str, is_empty, str_eq}
use electric_eel.Config.{
  VinState, paired, unpaired, ConfigVersion, v0, v1, v2, current, before_current, Config,
  default_config, sanitize,
}

-- An enrollment field of a file: missing, or present with its value (`null` is the default one).
pub data EnrollmentField (A : Type 0) : Type 0 where
  missing : EnrollmentField A
  field : A → EnrollmentField A

-- `LegacyConfig`, what a file of any schema carries
pub record LegacyConfig : Type 0 where
  pub version : Option ConfigVersion
  pub vin : Str
  pub model : Str
  pub key_name : Str
  pub connect_timeout_sec : ℤ
  pub command_timeout_sec : ℤ
  pub vin_state : EnrollmentField VinState
  pub paired_vin : EnrollmentField Str

abbrev pub version_or : Option ConfigVersion → ConfigVersion → ConfigVersion
version_or none d = d
version_or (some v) d = v

abbrev pub enrollment :
    EnrollmentField VinState
    → EnrollmentField Str
    → Str
    → Option ConfigVersion
    → VinState × ConfigVersion
enrollment (field state) p vin version = (state, version_or version v2)
enrollment missing (field v) vin version =
    (if not (is_empty v) && str_eq v vin then paired else unpaired, version_or version v1)
enrollment missing missing vin version = (unpaired, version_or version v0)

-- `Config::deserialize`, after the fields are read
unfoldable pub from_legacy : LegacyConfig → Config
unfolding str_eq
from_legacy raw =
    let (state, version) = enrollment raw.vin_state raw.paired_vin raw.vin raw.version in
    record {
      version = version;
      vin = raw.vin;
      model = raw.model;
      key_name = raw.key_name;
      connect_timeout_sec = raw.connect_timeout_sec;
      command_timeout_sec = raw.command_timeout_sec;
      vin_state = state;
    }

abbrev is_v0 : ConfigVersion → Bool
is_v0 v0 = true
is_v0 _ = false

abbrev is_unpaired : VinState → Bool
is_unpaired unpaired = true
is_unpaired paired = false

-- The migration of `Core::new` (helper/src/core.rs), with whether both key files exist; the second
-- part says whether the file is written again.
unfoldable pub migrate : Bool → Config → Config × Bool
migrate key_files c =
    let enroll = is_v0 c.version && is_unpaired c.vin_state && not (is_empty c.vin) && key_files in
    let enrolled = if enroll then record c { vin_state = paired } else c in
    if before_current enrolled.version
    then (record enrolled { version = current }, true)
    else (enrolled, enroll)

-- what `fs::read` of the file gives
pub data FileRead : Type 0 where
  not_found read_error : FileRead
  bytes : List ℕ → FileRead

-- What `load` gives: a configuration, and whether the file was set aside as corrupt; or an error.
pub data Loaded : Type 0 where
  loaded : Config → (backed_up : Bool) → Loaded
  unreadable unsupported : Loaded

abbrev newer : Option ℕ → Bool
newer none = false
newer (some v) = ltb 2 v

-- `Config::load`. The JSON library is a parameter: `parse` reads the fields of a file, and
-- `json_version` finds the number under the key `version` of a document that it can read at all.
unfoldable pub load : (List ℕ → Option LegacyConfig) → (List ℕ → Option ℕ) → FileRead → Loaded
unfolding sanitize from_legacy
load parse json_version not_found = loaded default_config false
load parse json_version read_error = unreadable
load parse json_version (bytes raw) = elim (parse raw) [
  | some fields ↦ loaded (sanitize (from_legacy fields)) false
  | none ↦ if newer (json_version raw) then unsupported else loaded default_config true
]
