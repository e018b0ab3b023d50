-- ===== src/Catalog/Commands/Agreement.antt =====
-- The bounds of the core against those of the sliders of the catalogue.
use electric_eel.Base.{
  ◌≡◌, refl, Bool, true, false, not, ◌&&◌, Option, none, some, List, [], ◌∷◌, ◌++◌, All,
  if◌then◌else◌,
}
use electric_eel.Base.Int.{ℤ}
use electric_eel.Text.{Str, trim, is_empty}
use electric_eel.Catalog.Items.{Number, decimal, leb_number, Command, Category}
use electric_eel.Catalog.Search.{categories}
use electric_eel.Catalog.Dialog.{suffix_of}
use electric_eel.Catalog.Dialog.Filled.{Range, slider_range}
use electric_eel.Catalog.Commands.{RangeError, validate_arg_ranges}

abbrev pub concat_commands : List Category → List Command
concat_commands [] = []
concat_commands (c ∷ cs) = c.commands ++ concat_commands cs

-- the slider of the first argument
abbrev first_slider : Command → Option Range
first_slider c = elim c.args [ [] ↦ none | ◌∷◌ a _ ↦ slider_range a ]

abbrev has_suffix : Command → Bool
has_suffix c = elim c.args [ [] ↦ false | ◌∷◌ a _ ↦ not (is_empty (suffix_of a)) ]

abbrev is_int_slider : Command → Bool
is_int_slider c = not (has_suffix c) && elim (first_slider c) [ none ↦ false | some r ↦ r.is_whole ]

-- the commands that begin with a slider for whole numbers without a suffix
abbrev pub int_sliders : List Command → List Command
int_sliders [] = []
int_sliders (c ∷ cs) = let rest = int_sliders cs in if is_int_slider c then c ∷ rest else rest

-- whether the slider of the command can stand at a whole number
abbrev pub stands_at : Command → ℤ → Bool
stands_at c m = elim (first_slider c) [
  | none ↦ false
  | some r ↦ leb_number r.least (decimal m 0) && leb_number (decimal m 0) r.most
]

abbrev pub is_accepted : Option RangeError → Bool
is_accepted none = true
is_accepted (some _) = false

if-is_accepted : (b : Bool) (e : RangeError) → is_accepted (if b then none else some e) ≡ b
if-is_accepted true e = refl
if-is_accepted false e = refl

-- For a command of the catalogue with a slider for whole numbers and without a suffix, the core accepts the text of a
-- whole number as the first argument if and only if the slider can stand at that number.
pub validate_arg_ranges-slider :
    (parse_int : Str → Option ℤ) (parse_float : Str → Option Number) (s : Str) (rest : List Str)
    (m : ℤ)
    → parse_int (trim s) ≡ some m
    → All
        (λ (c : Command).
          is_accepted (validate_arg_ranges parse_int parse_float c.id (s ∷ rest)) ≡ stands_at c m)
        (int_sliders (concat_commands categories))
unfolding validate_arg_ranges slider_range
validate_arg_ranges-slider parse_int parse_float s rest m h =
    (rw h (if-is_accepted _ _), (rw h (if-is_accepted _ _), (rw h (if-is_accepted _ _), tt)))
