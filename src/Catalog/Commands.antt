-- ===== src/Catalog/Commands.antt =====
-- helper/src/commands.rs: the commands that the core accepts, and those that carry a PIN; and
-- `validate_arg_ranges` of helper/src/core.rs. The two parsers of numbers in Rust's library are
-- parameters: `parse_int` is that of `i64`, `parse_float` that of `f64` for a finite result.
pub mod Known
pub mod Numerals
pub mod Sent
pub mod Ranges
pub mod Accepted
pub mod Form
pub mod Agreement
use Prim.Native.String.{String}
use text.Mathlib.Text.{◌==◌ as str_eq}
use electric_eel.Base.{
  ℕ, suc, ◌-◌, ◌==◌, Bool, true, false, not, ◌&&◌, ◌||◌, Option, none, some, List, [], ◌∷◌,
  if◌then◌else◌, any, get_elem?,
}
use electric_eel.Base.Int.{ℤ, pos, negsuc, leb_ℤ}
use electric_eel.Text.{Str, trim, lower_char, is_ascii_upper, is_ascii_lower}
use electric_eel.Catalog.Items.{Number, decimal, whole, leb_number}

-- `COMMAND_CATALOG`
abbrev pub command_catalog : List String
command_catalog =
    "valet-mode-on" ∷ "valet-mode-off" ∷ "unlock" ∷ "lock" ∷ "drive" ∷ "climate-on" ∷ "climate-off"
    ∷ "climate-set-temp" ∷ "add-key" ∷ "add-key-request" ∷ "remove-key" ∷ "rename-key" ∷ "list-keys"
    ∷ "honk" ∷ "ping" ∷ "flash-lights" ∷ "keep-accessory-power" ∷ "low-power-mode"
    ∷ "charging-set-limit" ∷ "charging-set-amps" ∷ "charging-start" ∷ "charging-stop"
    ∷ "charging-schedule" ∷ "charging-schedule-cancel" ∷ "charging-schedule-add"
    ∷ "charging-schedule-remove" ∷ "media-set-volume" ∷ "media-volume-up" ∷ "media-volume-down"
    ∷ "media-next-favorite" ∷ "media-next-track" ∷ "media-previous-track"
    ∷ "media-previous-favorite" ∷ "media-toggle-playback" ∷ "software-update-start"
    ∷ "software-update-cancel" ∷ "sentry-mode" ∷ "wake" ∷ "tonneau-open" ∷ "tonneau-close"
    ∷ "tonneau-stop" ∷ "trunk-open" ∷ "trunk-move" ∷ "trunk-close" ∷ "frunk-open"
    ∷ "charge-port-open" ∷ "charge-port-close" ∷ "autosecure-modelx" ∷ "session-info"
    ∷ "seat-heater" ∷ "steering-wheel-heater" ∷ "auto-seat-and-climate" ∷ "windows-vent"
    ∷ "windows-close" ∷ "body-controller-state" ∷ "guest-mode-on" ∷ "guest-mode-off"
    ∷ "erase-guest-data" ∷ "precondition-schedule-add" ∷ "precondition-schedule-remove"
    ∷ "product-info" ∷ "state" ∷ []

abbrev pub pin_commands : List String
pin_commands = "valet-mode-on" ∷ []

unfoldable pub is_known_command : String → Bool
is_known_command cmd = any (λ (c : String). str_eq c cmd) command_catalog

unfoldable pub is_pin_command : String → Bool
is_pin_command cmd = any (λ (c : String). str_eq c cmd) pin_commands

-- `HelperError::InvalidArgument` with its text: the name of the command and, for all but the first,
-- the argument
pub data RangeError : Type 0 where
  requires_number not_integer out_of_range invalid : RangeError

abbrev pub is_ascii_alphabetic : ℕ → Bool
is_ascii_alphabetic c = is_ascii_upper c || is_ascii_lower c

abbrev pub split_unit : Str → Str × Option ℕ
split_unit [] = ([], none)
split_unit (c ∷ []) = if is_ascii_alphabetic c then ([], some c) else (c ∷ [], none)
split_unit (c ∷ d ∷ s) = let (number, unit) = split_unit (d ∷ s) in (c ∷ number, unit)

-- the text before a letter at its end, and the letter
unfoldable pub strip_unit : Str → Str × Option ℕ
strip_unit arg = split_unit (trim arg)

-- `(lo..=hi).contains(&value)`, or the error
abbrev pub within : Number → Number → RangeError → Number → Option RangeError
within lo hi error value = if leb_number lo value && leb_number value hi then none else some error

abbrev pub in_range : ℕ → ℕ → RangeError → ℤ → Option RangeError
in_range lo hi error value = within (whole lo) (whole hi) error (decimal value 0)

abbrev pub starts_with_minus : Str → Bool
starts_with_minus [] = false
starts_with_minus (c ∷ s) = c == b'-'

abbrev pub first_error : Option RangeError → Option RangeError → Option RangeError
first_error (some e) other = some e
first_error none other = other

-- `f` on the first argument, or the error without one
abbrev pub on_first : (Str → Option RangeError) → List Str → Option RangeError
on_first f [] = some requires_number
on_first f (arg ∷ _) = f arg

-- the check of a number that was read, or the error without one
abbrev pub int_checked : ℕ → ℕ → RangeError → RangeError → Option ℤ → Option RangeError
int_checked lo hi bad out none = some bad
int_checked lo hi bad out (some value) = in_range lo hi out value

abbrev pub float_checked : Number → Number → Option Number → Option RangeError
float_checked lo hi none = some invalid
float_checked lo hi (some value) = within lo hi invalid value

module _ (parse_int : Str → Option ℤ) (parse_float : Str → Option Number) where
  abbrev pub int_within : ℕ → ℕ → RangeError → RangeError → Str → Option RangeError
  int_within lo hi bad out arg = int_checked lo hi bad out (parse_int (trim arg))

  abbrev pub float_within : Number → Number → Str → Option RangeError
  float_within lo hi arg = float_checked lo hi (parse_float (trim arg))

  -- the arm of "climate-set-temp"
  abbrev pub temperature_within : Str × Option ℕ → Option RangeError
  temperature_within (number, none) = float_within (whole 15) (whole 28) number
  temperature_within (number, some unit) =
      if lower_char unit == b'f'
      then float_within (whole 59) (whole 82) number
      else float_within (whole 15) (whole 28) number

  -- the arm of "software-update-start" for a delay without a sign
  abbrev pub delay_within : Str → Str × Option ℕ → Option RangeError
  delay_within arg (number, none) = int_within 0 3600 invalid invalid arg
  delay_within arg (number, some unit) =
      if lower_char unit == b's' then int_within 0 3600 invalid invalid number else none

  -- the check of one coordinate, if it is given
  abbrev pub coordinate_within : Number → Number → Option Str → Option RangeError
  coordinate_within lo hi none = none
  coordinate_within lo hi (some arg) = float_within lo hi arg

  -- `validate_arg_ranges`, where `none` is `Ok(())`
  unfoldable pub validate_arg_ranges : String → List Str → Option RangeError
  validate_arg_ranges cmd args =
      if str_eq cmd "charging-set-limit"
      then on_first (int_within 50 100 not_integer out_of_range) args
      else if str_eq cmd "charging-set-amps"
      then on_first (int_within 1 48 not_integer out_of_range) args
      else if str_eq cmd "charging-schedule"
      then on_first (int_within 0 1439 invalid invalid) args
      else if str_eq cmd "media-set-volume"
      then on_first (float_within (whole 0) (whole 10)) args
      else if str_eq cmd "climate-set-temp"
      then on_first (λ (arg : Str). temperature_within (strip_unit arg)) args
      else if str_eq cmd "software-update-start"
      then on_first
          (λ (arg : Str).
            if starts_with_minus (trim arg)
            then some invalid
            else delay_within arg (strip_unit arg))
          args
      else if str_eq cmd "charging-schedule-add" || str_eq cmd "precondition-schedule-add"
      then first_error (coordinate_within (decimal (negsuc 89) 0) (whole 90) (get_elem? args 2))
          (coordinate_within (decimal (negsuc 179) 0) (whole 180) (get_elem? args 3))
      else none
