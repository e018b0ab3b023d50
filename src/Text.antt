-- ===== src/Text.antt =====
-- The functions of Rust's `str` and `char` that the sources under helper/src use. A text is the list
-- of its code points.
pub mod Trim
pub mod Parts
pub mod Lengths
pub mod Plain
use Prim.Native.Char.{code}
use Prim.Native.String.{String}
use electric_eel.Base.{
  ℕ, suc, ◌+◌, Bool, true, false, not, ◌&&◌, ◌||◌, Option, none, some, List, [], ◌∷◌, ◌++◌, leb,
  ltb, ◌==◌, if◌then◌else◌, length, any,
}

abbrev pub Str : Type 0
Str = List ℕ

-- the code points of a literal
abbrev pub codes : String → Str
codes String.[] = []
codes (String.◌∷◌ c s) = code c ∷ codes s

abbrev pub between : ℕ → ℕ → ℕ → Bool
between lo hi c = leb lo c && leb c hi

-- `char::is_whitespace`, the White_Space property
unfoldable pub is_whitespace : ℕ → Bool
is_whitespace c =
    between 0x9 0xd c
    || c == 0x20
    || c == 0x85
    || c == 0xa0
    || c == 0x1680
    || between 0x2000 0x200a c
    || c == 0x2028
    || c == 0x2029
    || c == 0x202f
    || c == 0x205f
    || c == 0x3000

abbrev pub is_ascii_digit : ℕ → Bool
is_ascii_digit c = between b'0' b'9' c

abbrev pub is_ascii_upper : ℕ → Bool
is_ascii_upper c = between b'A' b'Z' c

abbrev pub is_ascii_lower : ℕ → Bool
is_ascii_lower c = between b'a' b'z' c

abbrev pub is_empty : Str → Bool
is_empty [] = true
is_empty (_ ∷ _) = false

unfoldable pub str_eq : Str → Str → Bool
str_eq [] [] = true
str_eq [] (_ ∷ _) = false
str_eq (_ ∷ _) [] = false
str_eq (a ∷ s) (b ∷ t) = a == b && str_eq s t

abbrev pub lower_char : ℕ → ℕ
lower_char c = if is_ascii_upper c then c + 32 else c

unfoldable pub to_ascii_lowercase : Str → Str
to_ascii_lowercase [] = []
to_ascii_lowercase (c ∷ s) = lower_char c ∷ to_ascii_lowercase s

-- the bytes of a code point in UTF-8
abbrev pub utf8_width : ℕ → ℕ
utf8_width c = if ltb c 0x80 then 1 else if ltb c 0x800 then 2 else if ltb c 0x10000 then 3 else 4

-- `str::len`
unfoldable pub byte_len : Str → ℕ
byte_len [] = 0
byte_len (c ∷ s) = utf8_width c + byte_len s

-- `trim_start_matches` and `trim_end_matches`
unfoldable pub trim_start_by : (ℕ → Bool) → Str → Str
trim_start_by p [] = []
trim_start_by p (c ∷ s) = if p c then trim_start_by p s else c ∷ s

unfoldable pub trim_end_by : (ℕ → Bool) → Str → Str
trim_end_by p [] = []
trim_end_by p (c ∷ s) = let rest = trim_end_by p s in if is_empty rest && p c then [] else c ∷ rest

-- `trim_matches`
unfoldable pub trim_by : (ℕ → Bool) → Str → Str
unfolding trim_start_by trim_end_by
trim_by p s = trim_end_by p (trim_start_by p s)

-- `trim`
unfoldable pub trim : Str → Str
unfolding trim_by is_whitespace
trim s = trim_by is_whitespace s

-- `[_].contains(&s)`
unfoldable pub contains_str : List Str → Str → Bool
unfolding str_eq
contains_str [] s = false
contains_str (t ∷ ts) s = str_eq t s || contains_str ts s
