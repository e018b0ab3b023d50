-- ===== src/Catalog/Dialog/Filled.antt =====
-- The fields of a form after any edits: what each of them holds.
use mathlib.Core.Path.{subst}
use electric_eel.Base.{
  ℕ, zero, suc, ◌≡◌, ◌⊎◌, inl, inr, refl, sym, arith, Bool, true, false, not, ◌&&◌, Option, none,
  some, List, [], ◌∷◌, ◌++◌, map, get_elem?, All, All2, Option-cases, if◌then◌else◌,
}
use electric_eel.Text.{Str}
use electric_eel.Dashboard.Json.{Json, number}
use electric_eel.Catalog.Items.{Number, Arg, ArgType, int_type, leb_number}
use electric_eel.Catalog.Dialog.{
  Component, enum_field, pin_field, slider_field, text_field, source_component, suffix_of, Input,
  choose, slide, enter, on_loaded, load_arg, handle, edit, edit_at, edit_all, filled, is_numeric,
  choices,
}

-- the range of a slider: its ends, and whether it has whole numbers only
pub record Range : Type 0 where
  pub least : Number
  pub most : Number
  pub is_whole : Bool

-- of two numbers that are given
abbrev pub make_range : Bool → Option Number → Option Number → Option Range
make_range is_whole (some least) (some most) =
    some (record { least = least; most = most; is_whole = is_whole })
make_range is_whole _ _ = none

abbrev pub is_int : ArgType → Bool
is_int int_type = true
is_int _ = false

-- the range of an argument that has a slider
unfoldable pub slider_range : Arg → Option Range
slider_range a =
    if is_numeric a.arg_type && not a.optional && not a.hidden
    then make_range (is_int a.arg_type) a.min a.max
    else none

abbrev ForRange : (Range → Type 0) → Option Range → Type 0
ForRange P none = Unit
ForRange P (some r) = P r

-- a predicate of the range, if the argument has a slider
abbrev pub ForSlider : (Range → Type 0) → Arg → Type 0
ForSlider P a = ForRange P (slider_range a)

-- `IsDouble` says of a number that it is the shortest text of a double.
module _ (IsDouble : Number → Type 0) where
  abbrev pub InRange : Range → Number → Type 0
  InRange r v =
      (leb_number r.least v ≡ true)
      × (leb_number v r.most ≡ true)
      × ((r.is_whole ≡ false) ⊎ (v.decimals ≡ 0))
      × IsDouble v

  -- the default is a number of the range
  abbrev pub DefaultIn : Range → Arg → Type 0
  DefaultIn r a = (v : Number) × (a.def ≡ number v.mantissa v.decimals) × InRange r v

  abbrev pub HasDefault : Arg → Type 0
  HasDefault a = ForSlider (λ (r : Range). DefaultIn r a) a

  -- a slider of the arguments only moves within its range
  abbrev pub StaysInRange : Arg → Input → Type 0
  StaysInRange a (slide v) = ForSlider (λ (r : Range). InRange r v) a
  StaysInRange a _ = Unit

  abbrev pub SlidesInRange : List Arg → ℕ × Input → Type 0
  SlidesInRange args (i, input) = elim (get_elem? args i) [
    | none ↦ Unit
    | some a ↦ StaysInRange a input
  ]

  module _ (to_text : Json → Str) where
    -- the text is that of a number of the range, with the suffix of the argument
    abbrev pub HoldsIn : Range → Arg → Option Str → Type 0
    HoldsIn r a text =
        (v : Number) × (text ≡ some (to_text (number v.mantissa v.decimals) ++ suffix_of a))
        × InRange r v

    -- the text of a number that the slider can stand at
    abbrev pub Holds : Arg → Option Str → Type 0
    Holds a text = ForSlider (λ (r : Range). HoldsIn r a text) a

    -- an argument with its slider set, whatever its default is
    abbrev pub Fits : Arg → Arg → Type 0
    Fits a b =
        (def : Json) × (text : Option Str) × (b ≡ record a { def = def; value = text })
        × Holds a text

    if_shape :
        (b : Bool) (a c : Arg)
        → c ≡ record a { value = c.value }
        → (if b then a else c) ≡ record a { value = (if b then a else c).value }
    if_shape true a c h = refl
    if_shape false a c h = h

    load_arg_shape :
        (a : Arg) → load_arg to_text a ≡ record a { value = (load_arg to_text a).value }
    unfolding on_loaded
    load_arg_shape a = if_shape a.hidden a (on_loaded to_text a) refl

    handle_shape :
        (c : Component) (input : Input) (a : Arg)
        → handle to_text c input a ≡ record a { value = (handle to_text c input a).value }
    handle_shape enum_field (choose i) a = elim (Option-cases (get_elem? (choices a) i)) [
      | inl e ↦ rw (e, handle) refl
      | inr (s, e) ↦ rw (e, handle) refl
    ]
    handle_shape enum_field (slide v) a = refl
    handle_shape enum_field (enter s) a = refl
    handle_shape slider_field (choose i) a = refl
    handle_shape slider_field (slide v) a = refl
    handle_shape slider_field (enter s) a = refl
    handle_shape pin_field (choose i) a = refl
    handle_shape pin_field (slide v) a = refl
    handle_shape pin_field (enter s) a = refl
    handle_shape text_field (choose i) a = refl
    handle_shape text_field (slide v) a = refl
    handle_shape text_field (enter s) a = refl

    edit_shape :
        (input : Input) (a : Arg)
        → edit to_text input a ≡ record a { value = (edit to_text input a).value }
    unfolding edit
    edit_shape input a =
        if_shape a.hidden a (handle to_text (source_component a) input a)
          (handle_shape (source_component a) input a)

    load_arg_slider :
        (a : Arg) (r : Range) (v : Number)
        → slider_range a ≡ some r
        → a.def ≡ number v.mantissa v.decimals
        → (load_arg to_text a).value ≡ some (to_text (number v.mantissa v.decimals) ++ suffix_of a)
    unfolding on_loaded slider_range
    load_arg_slider a r v e h = ground arith

    edit_slider :
        (a : Arg) (r : Range) (input : Input)
        → slider_range a ≡ some r
        → edit to_text input a ≡ handle to_text slider_field input a
    unfolding edit source_component slider_range
    edit_slider a r input e = ground arith

    load_arg-Holds : (a : Arg) → HasDefault a → Holds a (load_arg to_text a).value
    load_arg-Holds a h = elim (Option-cases (slider_range a)) [
      | inl e ↦ rw e tt
      | inr (r, e) ↦
          let d : DefaultIn r a = rw e at h in rw e ((d.0, load_arg_slider a r d.0 e d.1, d.2))
    ]

    handle-HoldsIn :
        (r : Range) (a b : Arg) (input : Input)
        → slider_range a ≡ some r
        → suffix_of b ≡ suffix_of a
        → StaysInRange a input
        → HoldsIn r a b.value
        → HoldsIn r a (handle to_text slider_field input b).value
    handle-HoldsIn r a b (choose i) e same ok h = h
    handle-HoldsIn r a b (enter s) e same ok h = h
    handle-HoldsIn r a b (slide v) e same ok h = (v, rw same refl, rw e at ok)

    edit-Holds :
        (a : Arg) (def : Json) (text : Option Str) (input : Input)
        → StaysInRange a input
        → Holds a text
        → Holds a (edit to_text input (record a { def = def; value = text })).value
    unfolding slider_range
    edit-Holds a def text input ok h = elim (Option-cases (slider_range a)) [
      | inl e ↦ rw e tt
      | inr (r, e) ↦
          let b = record a { def = def; value = text } in
          let before : HoldsIn r a text = rw e at h in
          rw (e, edit_slider b r input e) (handle-HoldsIn r a b input e refl ok before)
    ]

    load_arg-Fits : (a : Arg) → HasDefault a → Fits a (load_arg to_text a)
    load_arg-Fits a h = (a.def, (load_arg to_text a).value, load_arg_shape a, load_arg-Holds a h)

    edit-Fits :
        (a b : Arg) (input : Input)
        → StaysInRange a input
        → Fits a b
        → Fits a (edit to_text input b)
    edit-Fits a b input ok (def, text, e, h) =
        let c = record a { def = def; value = text } in
        subst (λ (d : Arg). Fits a (edit to_text input d)) (sym e)
          ((
            def,
            (edit to_text input c).value,
            edit_shape input c,
            edit-Holds a def text input ok h,
          ))

    loaded-Fits :
        (args : List Arg) → All HasDefault args → All2 Fits args (map (load_arg to_text) args)
    loaded-Fits [] h = tt
    loaded-Fits (a ∷ args) h = (load_arg-Fits a h.0, loaded-Fits args h.1)

    edit_at-Fits :
        (args bs : List Arg) (i : ℕ) (input : Input)
        → SlidesInRange args (i, input)
        → All2 Fits args bs
        → All2 Fits args (edit_at to_text i input bs)
    edit_at-Fits [] [] i input ok h = tt
    edit_at-Fits [] (b ∷ bs) i input ok h = absurd h
    edit_at-Fits (a ∷ args) [] i input ok h = absurd h
    edit_at-Fits (a ∷ args) (b ∷ bs) zero input ok h = (edit-Fits a b input ok h.0, h.1)
    edit_at-Fits (a ∷ args) (b ∷ bs) (suc i) input ok h = (h.0, edit_at-Fits args bs i input ok h.1)

    edit_all-Fits :
        (args bs : List Arg) (inputs : List (ℕ × Input))
        → All (SlidesInRange args) inputs
        → All2 Fits args bs
        → All2 Fits args (edit_all to_text inputs bs)
    edit_all-Fits args bs [] ok h = h
    edit_all-Fits args bs ((i, input) ∷ inputs) ok h =
        edit_all-Fits args (edit_at to_text i input bs) inputs ok.1
          (edit_at-Fits args bs i input ok.0 h)

    -- A form whose sliders have a default within their range, and are moved within it, holds for each
    -- of them the text of a number of the range; of each argument only the default and the text differ.
    pub filled-Fits :
        (args : List Arg) (inputs : List (ℕ × Input))
        → All HasDefault args
        → All (SlidesInRange args) inputs
        → All2 Fits args (filled to_text inputs args)
    unfolding filled
    filled-Fits args inputs h ok =
        edit_all-Fits args (map (load_arg to_text) args) inputs ok (loaded-Fits args h)
