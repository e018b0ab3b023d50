-- ===== src/Catalog/Tests.antt =====
-- The theorems on the catalogue applied to some commands.
use electric_eel.Base.{◌≡◌, refl, true, some, List, [], ◌∷◌, All, any}
use electric_eel.Base.Int.{pos}
use electric_eel.Text.{codes, is_whitespace, trim, trim_by, trim_start_by, trim_end_by}
use electric_eel.Catalog.Items.{Command, Arg, arg, opts, int_type, enum_type}
use electric_eel.Catalog.Search.{categories, find_category}
use electric_eel.Catalog.Page.{visible_commands}
use electric_eel.Catalog.Commands.{validate_arg_ranges, is_known_command, is_pin_command}
use electric_eel.Catalog.Commands.Known.{is_pin, visible_commands-known}
use electric_eel.Catalog.Commands.Agreement.{
  is_accepted, stands_at, int_sliders, concat_commands, validate_arg_ranges-slider,
}
use electric_eel.Catalog.Strokes.{numerals, at_home}

visible_commands-known_example :
    All
      (λ (c : Command). (is_known_command c.id ≡ true) × (any is_pin c.args ≡ is_pin_command c.id))
      (visible_commands (some at_home) (find_category "security"))
visible_commands-known_example = visible_commands-known (some at_home) "security"

abbrev repeat : Arg
repeat = record (arg "REPEAT" enum_type opts) { optional = true; value = some [] }

-- the second of three optional texts is given
abbrev three_optional : List Arg
three_optional =
    repeat
    ∷ record (arg "ID" int_type opts) { optional = true; value = some (codes "7") }
    ∷ record (arg "ENABLED" enum_type opts) { optional = true }
    ∷ []

validate_arg_ranges-slider_example :
    All
      (λ (c : Command).
        is_accepted
          (validate_arg_ranges numerals.parse_int numerals.parse_float c.id (codes "+110" ∷ []))
        ≡ stands_at c (pos 2))
      (int_sliders (concat_commands categories))
unfolding is_whitespace trim trim_by trim_start_by trim_end_by
validate_arg_ranges-slider_example =
    validate_arg_ranges-slider numerals.parse_int numerals.parse_float (codes "+110") [] (pos 2)
      refl
