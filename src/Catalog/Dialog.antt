-- ===== src/Catalog/Dialog.antt =====
-- app/qml/pages/ArgumentDialog.qml: the form of the arguments of a command. Each argument that is not
-- hidden has a field, which keeps the text to send in the property `__value` of the argument.
-- `String` is a parameter.
pub mod Positions
pub mod Filled
use Prim.Native.String.{String}
use electric_eel.Base.{
  ℕ, zero, suc, Bool, true, false, not, ◌&&◌, ◌||◌, Option, none, some, List, [], ◌∷◌, ◌++◌, map,
  length, take, all, get_elem?, if◌then◌else◌,
}
use electric_eel.Text.{Str, codes, is_empty}
use electric_eel.Dashboard.Json.{Json, number, string, is_undefined}
use electric_eel.Catalog.Items.{
  ArgType, none_type, int_type, float_type, string_type, pin_type, enum_type, Number, Arg,
}

pub data Component : Type 0 where
  enum_field pin_field slider_field text_field : Component

-- the two that are checked first have no other condition
abbrev is_numeric : ArgType → Bool
is_numeric int_type = true
is_numeric float_type = true
is_numeric _ = false

abbrev is_given : Option Number → Bool
is_given none = false
is_given (some _) = true

-- `sourceComponent`
unfoldable pub source_component : Arg → Component
source_component a = elim a.arg_type [
  | enum_type ↦ enum_field
  | pin_type ↦ pin_field
  | t ↦
      if is_numeric t && is_given a.min && is_given a.max && not a.optional
      then slider_field
      else text_field
]

-- `text || ""`
abbrev pub suffix_of : Arg → Str
suffix_of a = elim a.send_suffix [ none ↦ [] | some s ↦ codes s ]

-- the choices of a field for an enum
abbrev pub choices : Arg → List String
choices a = if a.optional then "" ∷ a.values else a.values

abbrev pub is_set : Option Str → Bool
is_set none = false
is_set (some text) = not (is_empty text)

-- what the user does in a field
pub data Input : Type 0 where
  choose : ℕ → Input
  slide : Number → Input
  enter : Str → Input

module _ (to_text : Json → Str) where
  abbrev enum_default : List String → Option Str
  enum_default [] = none
  enum_default (v ∷ _) = some (codes v)

  abbrev number_default : Arg → Str
  number_default a = if not (is_undefined a.def) then to_text a.def else elim a.min [
    | none ↦ []
    | some least ↦ if a.optional then [] else to_text (number least.mantissa least.decimals)
  ]

  -- the text that a field starts with
  abbrev initial_text : Arg → Str
  initial_text a = elim a.arg_type [
    | enum_type ↦
        if a.optional
        then number_default a
        else elim (enum_default a.values) [ none ↦ number_default a | some v ↦ v ]
    | _ ↦ number_default a
  ]

  -- `onLoaded`
  unfoldable pub on_loaded : Arg → Arg
  on_loaded a =
      let text = initial_text a in
      record a {
        value =
            some (if not a.optional && is_numeric a.arg_type then text ++ suffix_of a else text);
      }

  -- a field is loaded if the argument is not hidden
  abbrev pub load_arg : Arg → Arg
  load_arg a = if a.hidden then a else on_loaded a

  -- the field takes what the user does if that is of its kind
  abbrev pub handle : Component → Input → Arg → Arg
  handle enum_field (choose i) a = elim (get_elem? (choices a) i) [
    | none ↦ record a { value = none }
    | some choice ↦ record a { value = some (codes choice) }
  ]
  handle slider_field (slide v) a = record a {
    value = some (to_text (number v.mantissa v.decimals) ++ suffix_of a);
  }
  handle pin_field (enter text) a = record a { value = some text }
  handle text_field (enter text) a = record a { value = some text }
  handle _ _ a = a

  unfoldable pub edit : Input → Arg → Arg
  unfolding source_component
  edit input a = if a.hidden then a else handle (source_component a) input a

  abbrev pub edit_at : ℕ → Input → List Arg → List Arg
  edit_at i input [] = []
  edit_at zero input (a ∷ args) = edit input a ∷ args
  edit_at (suc i) input (a ∷ args) = a ∷ edit_at i input args

  abbrev pub edit_all : List (ℕ × Input) → List Arg → List Arg
  edit_all [] args = args
  edit_all ((i, input) ∷ inputs) args = edit_all inputs (edit_at i input args)

  -- the arguments of a form that was opened and edited
  unfoldable pub filled : List (ℕ × Input) → List Arg → List Arg
  unfolding on_loaded edit
  filled inputs args = edit_all inputs (map load_arg args)

-- `revalidate`
unfoldable pub form_valid : List Arg → Bool
form_valid args = all (λ (a : Arg). a.optional || is_set a.value) args

abbrev pub text_of : Arg → Str
text_of a = elim a.value [ none ↦ [] | some text ↦ text ]

-- whether the argument at a position is optional and its text empty
abbrev pub is_blank_at : List Arg → ℕ → Bool
is_blank_at args i = elim (get_elem? args i) [
  | none ↦ false
  | some a ↦ a.optional && is_empty (text_of a)
]

-- the `while` loop: how many texts are left of the first `n`
abbrev pub pop_loop : List Arg → ℕ → ℕ
pop_loop args zero = zero
pop_loop args (suc n) = let rest = pop_loop args n in if is_blank_at args n then rest else suc n

-- `onAccepted`
unfoldable pub on_accepted : List Arg → List Str
on_accepted args = take (pop_loop args (length args)) (map text_of args)
