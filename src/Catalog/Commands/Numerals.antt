-- ===== src/Catalog/Commands/Numerals.antt =====
-- The texts of numbers between the client and the core: what JavaScript's `String` writes for a number
-- that is finite, as Rust's parsers read it.
use electric_eel.Base.{
  ℕ, ◌≤◌, ◌≡◌, refl, arith, Bool, true, false, not, Option, none, some, [], ◌∷◌, ◌++◌, all,
}
use electric_eel.Base.Int.{ℤ, pos}
use electric_eel.Text.{Str, is_whitespace, is_ascii_digit}
use electric_eel.Text.Plain.{trim-none, IsAll-append}
use electric_eel.Dashboard.Json.{Json, number}
use electric_eel.Catalog.Items.{Number, decimal, whole}
use electric_eel.Catalog.Commands.{is_ascii_alphabetic, split_unit, strip_unit, starts_with_minus}

abbrev pub ends_in_digit : Str → Bool
ends_in_digit [] = false
ends_in_digit (c ∷ []) = is_ascii_digit c
ends_in_digit (c ∷ d ∷ s) = ends_in_digit (d ∷ s)

-- a text without blanks that ends in a digit
abbrev pub IsNumeral : Str → Type 0
IsNumeral s = (all (λ (c : ℕ). not (is_whitespace c)) s ≡ true) × (ends_in_digit s ≡ true)

-- `String`, the two parsers, the numbers that are the shortest text of a double, and what the core
-- relies on: whole numbers up to 3600 are among them; the text of such a number has no blank and
-- ends in a digit, it does not begin with a minus sign if the number is not negative, and each parser reads
-- back the numbers that it is for.
pub record Numerals : Type 1 where
  pub to_text : Json → Str
  pub parse_int : Str → Option ℤ
  pub parse_float : Str → Option Number
  pub IsDouble : Number → Type 0
  pub whole-IsDouble : (n : ℕ) → n ≤ 3600 → IsDouble (whole n)
  pub text-IsNumeral :
      (v : Number) → IsDouble v → IsNumeral (to_text (number v.mantissa v.decimals))
  pub text-minus :
      (n d : ℕ)
      → IsDouble (decimal (pos n) d)
      → starts_with_minus (to_text (number (pos n) d)) ≡ false
  pub parse_int-text : (n : ℕ) → n ≤ 3600 → parse_int (to_text (number (pos n) 0)) ≡ some (pos n)
  pub parse_float-text :
      (v : Number) → IsDouble v → parse_float (to_text (number v.mantissa v.decimals)) ≡ some v

split_unit-letter :
    (s : Str) (c : ℕ)
    → ends_in_digit s ≡ true
    → is_ascii_alphabetic c ≡ true
    → split_unit (s ++ (c ∷ [])) ≡ (s, some c)
split_unit-letter [] c hs hc = cc
split_unit-letter (d ∷ []) c hs hc = rw hc refl
split_unit-letter (d ∷ e ∷ s) c hs hc = rw (split_unit-letter (e ∷ s) c hs hc) refl

split_unit-digit : (s : Str) → ends_in_digit s ≡ true → split_unit s ≡ (s, none)
split_unit-digit [] h = cc
split_unit-digit (d ∷ []) h = ground arith
split_unit-digit (d ∷ e ∷ s) h = rw (split_unit-digit (e ∷ s) h) refl

-- the unit is found behind a numeral
pub strip_unit-numeral :
    (s : Str) (c : ℕ)
    → IsNumeral s
    → is_ascii_alphabetic c ≡ true
    → is_whitespace c ≡ false
    → strip_unit (s ++ (c ∷ [])) ≡ (s, some c)
unfolding strip_unit
strip_unit-numeral s c h letter no_blank =
    rw
      (trim-none (s ++ (c ∷ []))
        (IsAll-append (λ (c : ℕ). not (is_whitespace c)) s (c ∷ []) h.0 (rw no_blank refl)))
      (split_unit-letter s c h.1 letter)
