-- ===== src/Catalog/Strokes.antt =====
-- Numbers written in strokes, as an instance of Catalog.Commands.Numerals: a sign, a stroke for each unit
-- of the mantissa, and the zeros of the decimals; and a status and a command for tests.
use electric_eel.Base.{
  ℕ, zero, suc, ◌≡◌, refl, arith, ap, true, false, ◌==◌, Option, none, some, [], ◌∷◌, if◌then◌else◌,
}
use electric_eel.Base.Int.{ℤ, pos, negsuc}
use electric_eel.Text.{Str, is_whitespace}
use electric_eel.Dashboard.Json.{Json, number}
use electric_eel.Dashboard.Status.{Status, empty_status}
use electric_eel.Catalog.Items.{Number, decimal, whole, Command, cmd, arg, opts, int_type}
use electric_eel.Catalog.Commands.{starts_with_minus}
use electric_eel.Catalog.Commands.Numerals.{IsNumeral, Numerals}

abbrev pub zeros : ℕ → Str
zeros zero = b'0' ∷ []
zeros (suc d) = b'0' ∷ zeros d

abbrev pub strokes : ℕ → ℕ → Str
strokes zero d = zeros d
strokes (suc n) d = b'1' ∷ strokes n d

abbrev pub write : Json → Str
write (number (pos n) d) = b'+' ∷ strokes n d
write (number (negsuc n) d) = b'-' ∷ strokes (suc n) d
write _ = []

abbrev count : ℕ → Str → ℕ
count c [] = 0
count c (d ∷ s) = let rest = count c s in if d == c then suc rest else rest

abbrev less_one : ℕ → ℕ
less_one zero = zero
less_one (suc n) = n

abbrev pub read_number : Str → Number
read_number s =
    let ones = count b'1' s in
    decimal (if starts_with_minus s then negsuc (less_one ones) else pos ones)
      (less_one (count b'0' s))

count-zeros : (d : ℕ) → (count b'1' (zeros d) ≡ 0) × (count b'0' (zeros d) ≡ suc d)
count-zeros zero = (refl, refl)
count-zeros (suc d) = ground (arith, count-zeros d)

count-strokes : (n d : ℕ) → (count b'1' (strokes n d) ≡ n) × (count b'0' (strokes n d) ≡ suc d)
count-strokes zero d = count-zeros d
count-strokes (suc n) d = ground (arith, count-strokes n d)

pub read-write : (m : ℤ) (d : ℕ) → read_number (write (number m d)) ≡ decimal m d
read-write (pos n) d = rw ((count-strokes n d).0, (count-strokes n d).1) refl
read-write (negsuc n) d = rw ((count-strokes n d).0, (count-strokes n d).1) refl

zeros-IsNumeral : (d : ℕ) → IsNumeral (zeros d)
unfolding is_whitespace
zeros-IsNumeral zero = (refl, refl)
zeros-IsNumeral (suc zero) = (refl, refl)
zeros-IsNumeral (suc (suc d)) = zeros-IsNumeral (suc d)

strokes-IsNumeral : (n d : ℕ) → IsNumeral (strokes n d)
unfolding is_whitespace
strokes-IsNumeral zero d = zeros-IsNumeral d
strokes-IsNumeral (suc zero) zero = (refl, refl)
strokes-IsNumeral (suc zero) (suc d) = zeros-IsNumeral (suc d)
strokes-IsNumeral (suc (suc n)) d = strokes-IsNumeral (suc n) d

pub write-IsNumeral : (m : ℤ) (d : ℕ) → IsNumeral (write (number m d))
unfolding is_whitespace
write-IsNumeral (pos zero) zero = (refl, refl)
write-IsNumeral (pos zero) (suc d) = zeros-IsNumeral (suc d)
write-IsNumeral (pos (suc n)) d = strokes-IsNumeral (suc n) d
write-IsNumeral (negsuc n) d = strokes-IsNumeral (suc n) d

abbrev pub numerals : Numerals
numerals = record {
  to_text = write;
  parse_int = λ s. some (read_number s).mantissa;
  parse_float = λ s. some (read_number s);
  IsDouble = λ v. Unit;
  whole-IsDouble = λ n h. tt;
  text-IsNumeral = λ v h. write-IsNumeral v.mantissa v.decimals;
  text-minus = λ n d h. refl;
  parse_int-text = λ n h. ap (λ (v : Number). some v.mantissa) (read-write (pos n) 0);
  parse_float-text = λ v h. ap some (read-write v.mantissa v.decimals);
}

-- a car that is charging, with the reading of its limit
abbrev pub at_home : Status
at_home = record empty_status {
  locked = some false;
  charging_state = "Charging";
  charge_port_open = true;
  battery_level = number (pos 61) 0;
  charge_limit_soc = number (pos 90) 0;
}

abbrev pub no_coerce : Json → Option Number
no_coerce _ = none

abbrev pub set_limit : Command
set_limit = cmd "charging-set-limit" "Set Charge Limit" (
    arg "PERCENT" int_type (record opts {
      min = some (whole 50);
      max = some (whole 100);
      unit = some "%";
      def = number (pos 80) 0;
      state_default = some "chargeLimitSoc";
    })
    ∷ [])
