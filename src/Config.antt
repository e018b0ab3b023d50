-- ===== src/Config.antt =====
-- helper/src/config.rs: the persisted configuration, its validation, and the repair of a loaded file.
-- An `i32` is an integer; texts are lists of code points.
pub mod Sanitize
pub mod Loading
pub mod Schema
mod Tests
use electric_eel.Base.{
  ℕ, suc, ◌+◌, Bool, true, false, not, ◌&&◌, ◌||◌, Option, none, some, List, [], ◌∷◌, leb, ltb,
  ◌==◌, if◌then◌else◌, length, all,
}
use electric_eel.Base.Int.{ℤ, pos, leb_ℤ, ltb_ℤ}
use electric_eel.Text.{
  Str, codes, between, is_ascii_digit, is_ascii_upper, is_ascii_lower, is_empty, str_eq,
  to_ascii_lowercase, byte_len, trim, contains_str,
}

abbrev pub max_timeout_sec : ℤ
max_timeout_sec = pos 300

abbrev pub max_key_name_len : ℕ
max_key_name_len = 64

abbrev pub valid_models : List Str
valid_models =
    codes ""
    ∷ codes "model3"
    ∷ codes "models"
    ∷ codes "modelx"
    ∷ codes "modely"
    ∷ codes "cybertruck"
    ∷ []

-- the characters of `[A-HJ-NPR-Z0-9]`
abbrev pub is_vin_char : ℕ → Bool
is_vin_char c =
    between b'A' b'H' c
    || between b'J' b'N' c
    || c == b'P'
    || between b'R' b'Z' c
    || is_ascii_digit c

-- `VIN_RE`
unfoldable pub vin_re : Str → Bool
vin_re s = length s == 17 && all is_vin_char s

-- the characters of `[A-Za-z0-9 ._-]`
abbrev pub is_key_name_char : ℕ → Bool
is_key_name_char c =
    is_ascii_upper c
    || is_ascii_lower c
    || is_ascii_digit c
    || c == b' '
    || c == b'.'
    || c == b'_'
    || c == b'-'

-- `KEY_NAME_RE`
unfoldable pub key_name_re : Str → Bool
key_name_re s = all is_key_name_char s

pub data ConfigError : Type 0 where
  positive_timeout max_timeout invalid_vin invalid_key_name invalid_model : ConfigError

-- `Unknown` keeps the byte of a newer schema.
pub data ConfigVersion : Type 0 where
  v0 v1 v2 : ConfigVersion
  unknown : ℕ → ConfigVersion

abbrev pub current : ConfigVersion
current = v2

pub data VinState : Type 0 where
  unpaired paired : VinState

pub record Config : Type 0 where
  pub version : ConfigVersion
  pub vin : Str
  pub model : Str
  pub key_name : Str
  pub connect_timeout_sec : ℤ
  pub command_timeout_sec : ℤ
  pub vin_state : VinState

-- `Config::default`
abbrev pub default_config : Config
default_config = record {
  version = current;
  vin = [];
  model = [];
  key_name = codes "harbour-electric-eel";
  connect_timeout_sec = pos 20;
  command_timeout_sec = pos 5;
  vin_state = unpaired;
}

-- a timeout that `sanitize` resets
abbrev pub timeout_bad : ℤ → Bool
timeout_bad t = leb_ℤ t (pos 0) || ltb_ℤ max_timeout_sec t

abbrev pub vin_bad : Str → Bool
vin_bad vin = not (is_empty vin) && not (vin_re vin)

abbrev pub key_name_bad : Str → Bool
key_name_bad name = ltb max_key_name_len (byte_len name) || not (key_name_re name)

unfoldable pub sanitize : Config → Config
sanitize c =
    let vin_trimmed = trim c.vin in
    let model = to_ascii_lowercase (trim c.model) in
    let key_name_trimmed = trim c.key_name in
    record c {
      connect_timeout_sec =
          if timeout_bad c.connect_timeout_sec
          then default_config.connect_timeout_sec
          else c.connect_timeout_sec;
      command_timeout_sec =
          if timeout_bad c.command_timeout_sec
          then default_config.command_timeout_sec
          else c.command_timeout_sec;
      vin = if vin_bad vin_trimmed then [] else vin_trimmed;
      model = if contains_str valid_models model then model else default_config.model;
      key_name =
          if key_name_bad key_name_trimmed then default_config.key_name else key_name_trimmed;
    }

-- `none` is `Ok(())`
unfoldable pub validate_config : Str → Str → Str → ℤ → ℤ → Option ConfigError
validate_config vin model key_name connect_timeout command_timeout =
    if leb_ℤ connect_timeout (pos 0) || leb_ℤ command_timeout (pos 0)
    then some positive_timeout
    else if ltb_ℤ max_timeout_sec connect_timeout || ltb_ℤ max_timeout_sec command_timeout
    then some max_timeout
    else if vin_bad (trim vin)
    then some invalid_vin
    else if not (contains_str valid_models (to_ascii_lowercase (trim model)))
    then some invalid_model
    else if key_name_bad (trim key_name)
    then some invalid_key_name
    else none

-- `From<u8>` and `Into<u8>`
unfoldable pub version_of : ℕ → ConfigVersion
version_of n = if n == 0 then v0 else if n == 1 then v1 else if n == 2 then v2 else unknown n

unfoldable pub version_byte : ConfigVersion → ℕ
version_byte v0 = 0
version_byte v1 = 1
version_byte v2 = 2
version_byte (unknown n) = n

-- `version < ConfigVersion::CURRENT`, by the order of the variants
abbrev pub before_current : ConfigVersion → Bool
before_current v0 = true
before_current v1 = true
before_current _ = false

-- `ensure_writable`
unfoldable pub writable : Config → Bool
writable c = elim c.version [ unknown n ↦ false | _ ↦ true ]

-- The candidate that `Core::set_config` (helper/src/core.rs) saves in the place of `c`.
unfoldable pub candidate : Config → Str → Str → Str → ℤ → ℤ → Config
unfolding str_eq
candidate c vin model key_name connect command =
    let vin_changed = not (str_eq c.vin (trim vin)) in
    record c {
      vin = trim vin;
      model = to_ascii_lowercase (trim model);
      key_name = trim key_name;
      connect_timeout_sec = connect;
      command_timeout_sec = command;
      vin_state = if vin_changed then unpaired else c.vin_state;
    }
