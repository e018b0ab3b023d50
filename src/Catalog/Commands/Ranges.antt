-- ===== src/Catalog/Commands/Ranges.antt =====
-- `validate_arg_ranges` of helper/src/core.rs on what the form sends.
use Prim.Native.String.{String}
use mathlib.Core.Path.{ap₂}
use electric_eel.Base.{
  not, some-injective, ℕ, ◌≤◌, ◌≡◌, inl, inr, refl, arith, ◌∙◌, ap, true, false, Option, none, some,
  List, [], ◌∷◌, ◌++◌, append-nil, get_elem?, if◌then◌else◌,
}
use electric_eel.Base.Int.{negsuc}
use electric_eel.Text.{Str, trim, is_whitespace}
use electric_eel.Catalog.Items.{Number, decimal, whole}
use electric_eel.Catalog.Dialog.Filled.{Range, InRange}
use electric_eel.Catalog.Commands.{
  RangeError, invalid, strip_unit, int_within, float_within, temperature_within, delay_within,
  starts_with_minus, on_first, first_error, coordinate_within, is_ascii_alphabetic,
  validate_arg_ranges,
}
use electric_eel.Catalog.Commands.Sent.{
  whole_in, whole_range, text, int_within-text, float_within-text,
}
use electric_eel.Text.Plain.{trim-none, IsAll-append}
use electric_eel.Catalog.Commands.Numerals.{ends_in_digit, Numerals, strip_unit-numeral}

on_first-get_elem? :
    (f : Str → Option RangeError) (out : List Str) (s : Str)
    → get_elem? out 0 ≡ some s
    → on_first f out ≡ f s
on_first-get_elem? f [] s h = cc
on_first-get_elem? f (t ∷ out) s h = ap f (some-injective t s h)

starts_with_minus-append :
    (s t : Str)
    → ends_in_digit s ≡ true
    → starts_with_minus s ≡ false
    → starts_with_minus (s ++ t) ≡ false
starts_with_minus-append [] t h g = cc
starts_with_minus-append (c ∷ s) t h g = g

abbrev pub celsius : Range
celsius = record { least = whole 15; most = whole 28; is_whole = false }

abbrev pub degrees_range : Range
degrees_range = record { least = decimal (negsuc 89) 0; most = whole 90; is_whole = false }

abbrev pub half_turn_range : Range
half_turn_range = record { least = decimal (negsuc 179) 0; most = whole 180; is_whole = false }

module _ (ns : Numerals) where
  -- what the core says of the arguments
  abbrev pub checked : String → List Str → Option RangeError
  checked cmd out = validate_arg_ranges ns.parse_int ns.parse_float cmd out

  abbrev pub Sent : List Str → ℕ → Range → Str → Type 0
  Sent out i r suffix =
      (v : Number) × (get_elem? out i ≡ some (text ns v ++ suffix)) × InRange ns.IsDouble r v

  plain :
      (out : List Str) (i : ℕ) (r : Range) (h : Sent out i r [])
      → get_elem? out i ≡ some (text ns h.0)
  plain out i r h = h.1 ∙ ap some (append-nil (text ns h.0))

  pub first_int :
      (lo hi : ℕ) (bad wrong : RangeError) (out : List Str)
      → hi ≤ 3600
      → Sent out 0 (whole_range lo hi) []
      → on_first (int_within ns.parse_int ns.parse_float lo hi bad wrong) out ≡ none
  first_int lo hi bad wrong out small h =
      on_first-get_elem? (int_within ns.parse_int ns.parse_float lo hi bad wrong) out (text ns h.0)
        (plain out 0 (whole_range lo hi) h)
      ∙ int_within-text ns lo hi bad wrong h.0 small h.2

  pub first_float :
      (r : Range) (out : List Str)
      → Sent out 0 r []
      → on_first (float_within ns.parse_int ns.parse_float r.least r.most) out ≡ none
  first_float r out h =
      on_first-get_elem? (float_within ns.parse_int ns.parse_float r.least r.most) out (text ns h.0)
        (plain out 0 r h)
      ∙ float_within-text ns r h.0 h.2

  unit-text :
      (v : Number) (c : ℕ)
      → ns.IsDouble v
      → is_ascii_alphabetic c ≡ true
      → is_whitespace c ≡ false
      → strip_unit (text ns v ++ (c ∷ [])) ≡ (text ns v, some c)
  unit-text v c double letter visible =
      strip_unit-numeral (text ns v) c (ns.text-IsNumeral v double) letter visible

  pub temperature_accepted :
      (out : List Str) → Sent out 0 celsius (b'C' ∷ []) → checked "climate-set-temp" out ≡ none
  unfolding validate_arg_ranges is_whitespace
  temperature_accepted out (v, at, range) =
      on_first-get_elem?
        (λ (arg : Str). temperature_within ns.parse_int ns.parse_float (strip_unit arg)) out
        (text ns v ++ (b'C' ∷ [])) at
      ∙ rw (unit-text v b'C' range.3 refl refl) (float_within-text ns celsius v range)

  coordinate-text :
      (out : List Str) (i : ℕ) (r : Range)
      → Sent out i r []
      → coordinate_within ns.parse_int ns.parse_float r.least r.most (get_elem? out i) ≡ none
  coordinate-text out i r h = rw (plain out i r h) (float_within-text ns r h.0 h.2)

  delay-text :
      (v : Number)
      → InRange ns.IsDouble (whole_range 0 3600) v
      → starts_with_minus (text ns v) ≡ false
  delay-text v h = elim h.2 [
    | inl e ↦ cc
    | inr e ↦
        let (n, is, bound) = whole_in 0 3600 v.mantissa (rw e at h.0) (rw e at h.1) in
        rw is (ns.text-minus n v.decimals (rw is at h.3))
  ]

  pub delay_accepted :
      (out : List Str)
      → Sent out 0 (whole_range 0 3600) (b's' ∷ [])
      → checked "software-update-start" out ≡ none
  unfolding validate_arg_ranges is_whitespace
  delay_accepted out (v, at, range) =
      let s = text ns v ++ (b's' ∷ []) in
      let trimmed : trim s ≡ s = trim-none s (
        IsAll-append (λ (c : ℕ). not (is_whitespace c)) (text ns v) (b's' ∷ [])
          (ns.text-IsNumeral v range.3).0 refl) in
      let positive : starts_with_minus s ≡ false =
        starts_with_minus-append (text ns v) (b's' ∷ []) (ns.text-IsNumeral v range.3).1
          (delay-text v range) in
      on_first-get_elem?
        (λ (arg : Str).
          if starts_with_minus (trim arg)
          then some invalid
          else delay_within ns.parse_int ns.parse_float arg (strip_unit arg))
        out s at
      ∙ rw (trimmed, positive, unit-text v b's' range.3 refl refl)
          (int_within-text ns 0 3600 invalid invalid v (omega arith) range)

  pub schedule_accepted :
      (out : List Str)
      → Sent out 2 degrees_range []
      → Sent out 3 half_turn_range []
      → (checked "charging-schedule-add" out ≡ none)
        × (checked "precondition-schedule-add" out ≡ none)
  unfolding validate_arg_ranges
  schedule_accepted out lat long =
      let both =
        ap₂ first_error (coordinate-text out 2 degrees_range lat)
          (coordinate-text out 3 half_turn_range long) in
      (both, both)
