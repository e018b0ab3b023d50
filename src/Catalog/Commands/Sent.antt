-- ===== src/Catalog/Commands/Sent.antt =====
-- What the form sends for a slider, and how the core reads it.
use mathlib.Core.Path.{subst}
use electric_eel.Base.{
  some-injective, ℕ, zero, suc, ◌≤◌, ◌≡◌, inl, inr, refl, arith, ◌∙◌, ap, true, false, none, some,
  List, [], ◌∷◌, ◌++◌, All2, get_elem?,
}
use electric_eel.Base.Int.{ℤ, pos, negsuc}
use electric_eel.Text.{Str, trim}
use electric_eel.Dashboard.Json.{number}
use electric_eel.Catalog.Items.{Number, decimal, whole, leb_number, Arg}
use electric_eel.Catalog.Dialog.{suffix_of, on_accepted, text_of}
use electric_eel.Catalog.Dialog.Positions.{on_accepted-get_elem?}
use electric_eel.Catalog.Dialog.Filled.{Range, slider_range, InRange, HoldsIn, Fits}
use electric_eel.Catalog.Commands.{RangeError, int_checked, int_within, float_within}
use electric_eel.Catalog.Commands.Numerals.{Numerals}
use electric_eel.Text.Plain.{trim-none}

abbrev pub whole_range : ℕ → ℕ → Range
whole_range lo hi = record { least = whole lo; most = whole hi; is_whole = true }

pub whole_in :
    (lo hi : ℕ) (m : ℤ)
    → leb_number (whole lo) (decimal m 0) ≡ true
    → leb_number (decimal m 0) (whole hi) ≡ true
    → (n : ℕ) × (m ≡ pos n) × (n ≤ hi)
unfolding leb_number
whole_in lo hi (pos n) low high = (n, refl, ground (arith, low, high))
whole_in lo hi (negsuc n) low high = absurd (ground (arith, low, high))

-- a slider is not optional
slider_range-optional : (a : Arg) (r : Range) → slider_range a ≡ some r → a.optional ≡ false
unfolding slider_range
slider_range-optional a r h = ground arith

text_of-some : (a : Arg) (s : Str) → a.value ≡ some s → text_of a ≡ s
text_of-some a s h = ground (arith, h)

module _ (ns : Numerals) where
  abbrev pub text : Number → Str
  text v = ns.to_text (number v.mantissa v.decimals)

  Fits-get_elem? :
      (args bs : List Arg) (i : ℕ) (a : Arg)
      → All2 (Fits ns.IsDouble ns.to_text) args bs
      → get_elem? args i ≡ some a
      → (b : Arg) × (get_elem? bs i ≡ some b) × Fits ns.IsDouble ns.to_text a b
  Fits-get_elem? [] bs i a h e = cc
  Fits-get_elem? (c ∷ args) [] i a h e = absurd h
  Fits-get_elem? (c ∷ args) (b ∷ bs) zero a h e =
      (b, refl, subst (λ (d : Arg). Fits ns.IsDouble ns.to_text d b) (some-injective c a e) h.0)
  Fits-get_elem? (c ∷ args) (b ∷ bs) (suc i) a h e = Fits-get_elem? args bs i a h.1 e

  -- the text of a slider stands at the position of the argument
  pub sent :
      (args bs : List Arg) (i : ℕ) (a : Arg) (r : Range)
      → All2 (Fits ns.IsDouble ns.to_text) args bs
      → get_elem? args i ≡ some a
      → slider_range a ≡ some r
      → (v : Number) × (get_elem? (on_accepted bs) i ≡ some (text v ++ suffix_of a))
        × InRange ns.IsDouble r v
  sent args bs i a r h e slider =
      let (b, found, (def, value, shape, holds)) = Fits-get_elem? args bs i a h e in
      let v : HoldsIn ns.IsDouble ns.to_text r a value = rw slider at holds in
      let b_value : b.value ≡ some (text v.0 ++ suffix_of a) =
        ap (λ (c : Arg). c.value) shape ∙ v.1 in
      let required : b.optional ≡ false =
        ap (λ (c : Arg). c.optional) shape ∙ slider_range-optional a r slider in
      elim (on_accepted-get_elem? bs i b found) [
        | inl at ↦ (v.0, at ∙ ap some (text_of-some b (text v.0 ++ suffix_of a) b_value), v.2)
        | inr (_, optional, _) ↦ cc
      ]

  trim-text : (v : Number) → ns.IsDouble v → trim (text v) ≡ text v
  trim-text v double = trim-none (text v) (ns.text-IsNumeral v double).0

  int_checked-text :
      (lo hi : ℕ) (bad out : RangeError) (m : ℤ) (d : ℕ)
      → hi ≤ 3600
      → leb_number (whole lo) (decimal m d) ≡ true
      → leb_number (decimal m d) (whole hi) ≡ true
      → d ≡ 0
      → int_checked lo hi bad out (ns.parse_int (ns.to_text (number m d))) ≡ none
  int_checked-text lo hi bad out m (suc d) small low high e = cc
  int_checked-text lo hi bad out m zero small low high e =
      let (n, is, bound) = whole_in lo hi m low high in
      let low_n : leb_number (whole lo) (whole n) ≡ true = rw is at low in
      let high_n : leb_number (whole n) (whole hi) ≡ true = rw is at high in
      rw (is, ns.parse_int-text n (omega arith), low_n, high_n) refl

  pub int_within-text :
      (lo hi : ℕ) (bad out : RangeError) (v : Number)
      → hi ≤ 3600
      → InRange ns.IsDouble (whole_range lo hi) v
      → int_within ns.parse_int ns.parse_float lo hi bad out (text v) ≡ none
  int_within-text lo hi bad out v small h = elim h.2 [
    | inl e ↦ cc
    | inr e ↦
        rw (trim-text v h.3) (int_checked-text lo hi bad out v.mantissa v.decimals small h.0 h.1 e)
  ]

  pub float_within-text :
      (r : Range) (v : Number)
      → InRange ns.IsDouble r v
      → float_within ns.parse_int ns.parse_float r.least r.most (text v) ≡ none
  float_within-text r v h = rw (trim-text v h.3, ns.parse_float-text v h.3, h.0, h.1) refl
