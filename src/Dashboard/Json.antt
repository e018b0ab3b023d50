-- ===== src/Dashboard/Json.antt =====
-- The values of JavaScript that app/qml/js/VehicleState.js reads from a parsed text. A number is the
-- integer and the number of decimals of its text; an object has each of its keys once.
use Prim.Native.String.{String}
use text.Mathlib.Text.{◌==◌ as str_eq}
use electric_eel.Base.{ℕ, Bool, true, false, not, Option, none, some, if◌then◌else◌, ◌==◌}
use electric_eel.Base.Int.{ℤ, pos, negsuc}

mutual
  pub data Json : Type 0 where
    undefined null : Json
    boolean : Bool → Json
    number : ℤ → ℕ → Json
    string : String → Json
    array : Items → Json
    object : Fields → Json

  pub data Items : Type 0 where
    no_items : Items
    item : Json → Items → Items

  pub data Fields : Type 0 where
    no_fields : Fields
    field : String → Json → Fields → Fields

-- the field of an object, or `undefined`
abbrev pub field_of : String → Fields → Json
field_of k no_fields = undefined
field_of k (field name v fs) = if str_eq name k then v else field_of k fs

-- `v.k` for a key that only an object has; `none` is the `TypeError`
abbrev pub get : String → Json → Option Json
get k undefined = none
get k null = none
get k (object fs) = some (field_of k fs)
get k _ = some undefined

-- `v.k` where `v` is neither `undefined` nor `null`
abbrev pub prop : String → Json → Json
prop k (object fs) = field_of k fs
prop k _ = undefined

abbrev is_zero : ℤ → Bool
is_zero (pos n) = n == 0
is_zero (negsuc n) = false

-- `!!v`
abbrev pub truthy : Json → Bool
truthy undefined = false
truthy null = false
truthy (boolean b) = b
truthy (number n _) = not (is_zero n)
truthy (string s) = not (str_eq s "")
truthy (array _) = true
truthy (object _) = true

-- `v || w`
abbrev pub or_value : Json → Json → Json
or_value v w = if truthy v then v else w

-- `v === "s"`
abbrev pub is_string : String → Json → Bool
is_string s (string t) = str_eq t s
is_string s _ = false

abbrev pub is_undefined : Json → Bool
is_undefined undefined = true
is_undefined _ = false

-- `v === undefined || v === null`
abbrev pub is_missing : Json → Bool
is_missing undefined = true
is_missing null = true
is_missing _ = false

-- `v !== undefined ? v : null`
abbrev pub or_null : Json → Json
or_null v = if is_undefined v then null else v
