-- ===== src/Catalog/Page/Readings.antt =====
-- The sliders of the catalogue: their defaults, and the readings of the status that replace them.
use Prim.Native.String.{String}
use text.Mathlib.Text.{◌==◌ as str_eq}
use text.Mathlib.TextEquality.{eq_iff}
use electric_eel.Base.Int.{pos, negsuc}
use electric_eel.Base.{
  ℕ, zero, suc, leb, ◌==◌, ◌≤◌, ◌≡◌, inl, inr, refl, arith, and-eq_true, Bool, true, false, not,
  ◌&&◌, ◌||◌, Option, none, some, List, [], ◌∷◌, All, all, Bool-cases, Option-cases,
}
use electric_eel.Dashboard.Json.{Json, undefined, null, boolean, string, array, object, number}
use electric_eel.Dashboard.Status.{Status}
use electric_eel.Catalog.Items.{Number, decimal, whole, leb_number, Arg, Command, Category}
use electric_eel.Catalog.Search.{categories}
use electric_eel.Catalog.Page.{status_field}
use electric_eel.Catalog.Page.Defaults.{IsMeasured, HasReadings, FitsName, FitsReading}
use electric_eel.Catalog.Dialog.Filled.{Range, slider_range, InRange, HasDefault}

-- a whole number within the ends of the range
abbrev in_range : Range → Json → Bool
in_range r (number (pos n) d) =
    leb_number r.least (decimal (pos n) d)
    && leb_number (decimal (pos n) d) r.most
    && (d == 0 && leb n 3600)
in_range r _ = false

and_four :
    (a b c d : Bool)
    → (a && b && (c && d)) ≡ true
    → (a ≡ true) × (b ≡ true) × (c ≡ true) × (d ≡ true)
and_four a b c d h = ground arith

abbrev is_reading : Range → String → Bool
is_reading r name =
    str_eq name "driverTempSetting" && not r.is_whole
    || str_eq name "chargeLimitSoc"
    || str_eq name "chargeCurrent"

-- a slider has a default in its range, and another one at most from one of three readings
abbrev sound_in : Range → Option String → Arg → Bool
sound_in r none a = in_range r a.def
sound_in r (some name) a = in_range r a.def && is_reading r name

abbrev is_sound : Arg → Bool
is_sound a = elim (slider_range a) [ none ↦ true | some r ↦ sound_in r a.state_default a ]

only_first : (a w : Bool) → (a && not w || false || false) ≡ true → (a ≡ true) × (w ≡ false)
only_first a w h = ground arith

module _ (IsDouble : Number → Type 0) (whole-IsDouble : (n : ℕ) → n ≤ 3600 → IsDouble (whole n))
    (s : Status) (h : HasReadings IsDouble s) where
  in_range-IsNumber :
      (r : Range) (j : Json)
      → in_range r j ≡ true
      → (v : Number) × (j ≡ number v.mantissa v.decimals) × InRange IsDouble r v
  in_range-IsNumber r (number (pos n) zero) test =
      let four =
        and_four (leb_number r.least (whole n)) (leb_number (whole n) r.most) true (leb n 3600)
          test in
      let small : n ≤ 3600 = ground (arith, four.3) in
      (whole n, refl, (four.0, four.1, inr refl, whole-IsDouble n small))
  in_range-IsNumber r (number (pos n) (suc d)) test = ground arith
  in_range-IsNumber r (number (negsuc n) d) test = cc
  in_range-IsNumber r (undefined) test = cc
  in_range-IsNumber r (null) test = cc
  in_range-IsNumber r (boolean b) test = cc
  in_range-IsNumber r (string t) test = cc
  in_range-IsNumber r (array i) test = cc
  in_range-IsNumber r (object o) test = cc

  weaker : (b : Bool) (j : Json) → IsMeasured IsDouble true j → IsMeasured IsDouble b j
  weaker true j m = m
  weaker false j (inl missing) = inl missing
  weaker false j (inr (v, e, _, double)) = inr (v, e, inl refl, double)

  is_reading-IsMeasured :
      (r : Range) (name : String)
      → is_reading r name ≡ true
      → IsMeasured IsDouble r.is_whole (status_field s name)
  unfolding status_field
  is_reading-IsMeasured r name test = elim (Bool-cases (str_eq name "chargeCurrent")) [
    | inl e ↦ rw ((eq_iff name "chargeCurrent").0 e) (weaker r.is_whole s.charge_current h.2)
    | inr e ↦ elim (Bool-cases (str_eq name "chargeLimitSoc")) [
      | inl f ↦ rw ((eq_iff name "chargeLimitSoc").0 f) (weaker r.is_whole s.charge_limit_soc h.1)
      | inr f ↦
          let temp = only_first (str_eq name "driverTempSetting") r.is_whole (rw (e, f) at test) in
          rw ((eq_iff name "driverTempSetting").0 temp.0, temp.1) h.0
    ]
  ]

  sound_in-Fits :
      (r : Range) (name : Option String) (a : Arg)
      → slider_range a ≡ some r
      → sound_in r name a ≡ true
      → HasDefault IsDouble a × FitsName IsDouble s name a
  sound_in-Fits r none a e test = (rw e (in_range-IsNumber r a.def test), tt)
  sound_in-Fits r (some name) a e test =
      let both = and-eq_true (in_range r a.def) (is_reading r name) test in
      (rw e (in_range-IsNumber r a.def both.0), rw e (is_reading-IsMeasured r name both.1))

  no_slider-FitsName :
      (name : Option String) (a : Arg) → slider_range a ≡ none → FitsName IsDouble s name a
  no_slider-FitsName none a e = tt
  no_slider-FitsName (some name) a e = rw e tt

  is_sound-Fits : (a : Arg) → is_sound a ≡ true → HasDefault IsDouble a × FitsReading IsDouble s a
  is_sound-Fits a test = elim (Option-cases (slider_range a)) [
    | inl e ↦ (rw e tt, no_slider-FitsName a.state_default a e)
    | inr (r, e) ↦ sound_in-Fits r a.state_default a e (rw (e, is_sound) at test)
  ]

  pub sound-All :
      (args : List Arg)
      → all is_sound args ≡ true
      → All (λ (a : Arg). HasDefault IsDouble a × FitsReading IsDouble s a) args
  sound-All [] test = tt
  sound-All (a ∷ args) test =
      let both = and-eq_true (is_sound a) (all is_sound args) test in
      (is_sound-Fits a both.0, sound-All args both.1)

abbrev pub IsSound : Command → Type 0
IsSound c = all is_sound c.args ≡ true

pub categories-IsSound : All (λ (c : Category). All IsSound c.commands) categories
unfolding slider_range leb_number
categories-IsSound = search
