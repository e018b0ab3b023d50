-- ===== src/Catalog/Page/Defaults.antt =====
-- The defaults that a page takes from the status stay within the sliders.
use Prim.Native.String.{String}
use electric_eel.Base.{
  ◌≡◌, ◌⊎◌, inl, inr, refl, arith, and-eq_true, Bool, true, false, ◌&&◌, Option, none, some, List,
  [], ◌∷◌, map, All, Bool-cases, if◌then◌else◌, Option-cases,
}
use electric_eel.Dashboard.Json.{Json, number, is_missing, truthy, string}
use electric_eel.Dashboard.Status.{Status}
use electric_eel.Catalog.Items.{Number, leb_number, Arg}
use electric_eel.Catalog.Page.{takes, status_field, take_reading, state_default_of, seeded}
use electric_eel.Catalog.Dialog.{}
use electric_eel.Catalog.Dialog.Filled.{
  Range, slider_range, ForSlider, InRange, DefaultIn, HasDefault,
}

slider_range_ends :
    (a : Arg) (r : Range) → slider_range a ≡ some r → (a.min ≡ some r.least) × (a.max ≡ some r.most)
unfolding slider_range
slider_range_ends a r h = ground arith

-- `IsDouble` says of a number that it is the shortest text of a double.
module _ (IsDouble : Number → Type 0) where
  -- a reading that is not known or a number, which is whole where it has to be
  abbrev pub IsMeasured : Bool → Json → Type 0
  IsMeasured is_whole j =
      (is_missing j ≡ true)
      ⊎ ((v : Number) × (j ≡ number v.mantissa v.decimals)
          × ((is_whole ≡ false) ⊎ (v.decimals ≡ 0))
          × IsDouble v)

  -- the readings that a default is taken from
  abbrev pub HasReadings : Status → Type 0
  HasReadings s =
      IsMeasured false s.driver_temp_setting
      × IsMeasured true s.charge_limit_soc
      × IsMeasured true s.charge_current

  -- the reading for the default of a slider
  abbrev pub FitsName : Status → Option String → Arg → Type 0
  FitsName s none a = Unit
  FitsName s (some name) a =
      ForSlider (λ (r : Range). IsMeasured r.is_whole (status_field s name)) a

  abbrev pub FitsReading : Status → Arg → Type 0
  FitsReading s a = FitsName s a.state_default a

  abbrev IsNumberIn : Range → Json → Type 0
  IsNumberIn r j = (v : Number) × (j ≡ number v.mantissa v.decimals) × InRange IsDouble r v

  choose_default :
      (b : Bool) (a : Arg) (r : Range) (j : Json)
      → DefaultIn IsDouble r a
      → (b ≡ false) ⊎ IsNumberIn r j
      → DefaultIn IsDouble r (if b then record a { def = j; value = none } else a)
  choose_default false a r j h ok = h
  choose_default true a r j h (inl e) = cc
  choose_default true a r j h (inr ok) = ok

  module _ (coerce : Json → Option Number) where
    takes-number :
        (a : Arg) (r : Range) (v : Number)
        → slider_range a ≡ some r
        → (r.is_whole ≡ false) ⊎ (v.decimals ≡ 0)
        → IsDouble v
        → (takes coerce a (number v.mantissa v.decimals) ≡ false)
          ⊎ IsNumberIn r (number v.mantissa v.decimals)
    takes-number a r v e whole double =
        let ends = slider_range_ends a r e in
        elim (Bool-cases (leb_number r.least v && leb_number v r.most)) [
          | inl ok ↦
              let both = and-eq_true (leb_number r.least v) (leb_number v r.most) ok in
              inr (v, refl, (both.0, both.1, whole, double))
          | inr out ↦ inl (rw (ends.0, ends.1) out)
        ]

    take_reading-DefaultIn :
        (a : Arg) (r : Range) (j : Json)
        → slider_range a ≡ some r
        → DefaultIn IsDouble r a
        → IsMeasured r.is_whole j
        → DefaultIn IsDouble r (take_reading coerce j a)
    take_reading-DefaultIn a r j e h (inl missing) =
        choose_default (takes coerce a j) a r j h (inl (rw missing refl))
    take_reading-DefaultIn a r j e h (inr (v, is, whole, double)) = rw is (
        choose_default (takes coerce a (number v.mantissa v.decimals)) a r
          (number v.mantissa v.decimals) h (takes-number a r v e whole double))

    if_range :
        (b : Bool) (a : Arg) (j : Json)
        → slider_range (if b then record a { def = j; value = none } else a) ≡ slider_range a
    unfolding slider_range
    if_range true a j = refl
    if_range false a j = refl

    take_reading-HasDefault :
        (a : Arg) (j : Json)
        → HasDefault IsDouble a
        → ForSlider (λ (r : Range). IsMeasured r.is_whole j) a
        → HasDefault IsDouble (take_reading coerce j a)
    take_reading-HasDefault a j h m = elim (Option-cases (slider_range a)) [
      | inl e ↦ rw (if_range (takes coerce a j) a j, e) tt
      | inr (r, e) ↦
          let before : DefaultIn IsDouble r a = rw e at h in
          let measured : IsMeasured r.is_whole j = rw e at m in
          rw (if_range (takes coerce a j) a j, e) (take_reading-DefaultIn a r j e before measured)
    ]

    if-HasDefault :
        (b : Bool) (a c : Arg)
        → HasDefault IsDouble a
        → HasDefault IsDouble c
        → HasDefault IsDouble (if b then a else c)
    if-HasDefault true a c ha hc = ha
    if-HasDefault false a c ha hc = hc

    seeded-HasDefault :
        (s : Status) (name : Option String) (a : Arg)
        → HasDefault IsDouble a
        → FitsName s name a
        → HasDefault IsDouble (seeded coerce s name a)
    seeded-HasDefault s none a h m = h
    seeded-HasDefault s (some name) a h m =
        if-HasDefault (truthy (string name)) (take_reading coerce (status_field s name) a) a
          (take_reading-HasDefault a (status_field s name) h m) h

    pub defaults-HasDefault :
        (s : Status) (args : List Arg)
        → All (λ (a : Arg). HasDefault IsDouble a × FitsReading s a) args
        → All (HasDefault IsDouble) (map (state_default_of coerce s) args)
    unfolding state_default_of
    defaults-HasDefault s [] h = tt
    defaults-HasDefault s (a ∷ args) h =
        (seeded-HasDefault s a.state_default a h.0.0 h.0.1, defaults-HasDefault s args h.1)
