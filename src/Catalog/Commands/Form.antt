-- ===== src/Catalog/Commands/Form.antt =====
-- The form of a command as its page opens it: what it sends passes the check of the core.
use Prim.Native.String.{String}
use electric_eel.Base.{
  ℕ, ◌≡◌, inl, refl, Bool, true, false, Option, none, some, List, [], ◌∷◌, All, All2, All-get_elem?,
  map, get_elem?, if◌then◌else◌,
}
use mathlib.Core.Path.{subst}
use electric_eel.Text.{Str}
use electric_eel.Dashboard.Json.{Json, string, truthy}
use electric_eel.Dashboard.Status.{Status, empty_status}
use electric_eel.Catalog.Items.{Number, Arg, Command}
use electric_eel.Catalog.Search.{find_category}
use electric_eel.Catalog.Page.{
  takes, seeded, take_reading, status_field, visible_commands, command_with_state_defaults,
  state_default_of,
}
use electric_eel.Catalog.Page.Listed.{visible_commands-All}
use electric_eel.Catalog.Page.Defaults.{HasReadings, FitsReading, defaults-HasDefault}
use electric_eel.Catalog.Page.Readings.{IsSound, categories-IsSound, sound-All}
use electric_eel.Catalog.Dialog.{Input, on_accepted, filled}
use electric_eel.Catalog.Dialog.Filled.{Fits, slider_range, SlidesInRange, HasDefault, filled-Fits}
use electric_eel.Catalog.Commands.{validate_arg_ranges}
use electric_eel.Catalog.Commands.Accepted.{IsAccepted, categories-IsAccepted}
use electric_eel.Catalog.Commands.Numerals.{Numerals}

-- a status whose readings are those of a vehicle, or none
abbrev pub IsKnownStatus : (Number → Type 0) → Option Status → Type 0
IsKnownStatus IsDouble none = Unit
IsKnownStatus IsDouble (some s) = HasReadings IsDouble s

module _ (ns : Numerals) (coerce : Json → Option Number) where
  if_seeded :
      (b : Bool) (a : Arg) (j : Json)
      → (if b then record a { def = j; value = none } else a) ≡ record a {
        def = (if b then record a { def = j; value = none } else a).def;
        value = (if b then record a { def = j; value = none } else a).value;
      }
  if_seeded true a j = refl
  if_seeded false a j = refl

  if_kept :
      (b : Bool) (a c : Arg)
      → c ≡ record a { def = c.def; value = c.value }
      → (if b then c else a)
        ≡ record a { def = (if b then c else a).def; value = (if b then c else a).value }
  if_kept true a c h = h
  if_kept false a c h = refl

  seeded_shape :
      (s : Status) (name : Option String) (a : Arg)
      → seeded coerce s name a
        ≡ record a { def = (seeded coerce s name a).def; value = (seeded coerce s name a).value }
  seeded_shape s none a = refl
  seeded_shape s (some name) a =
      if_kept (truthy (string name)) a (take_reading coerce (status_field s name) a)
        (if_seeded (takes coerce a (status_field s name)) a (status_field s name))

  Fits-update :
      (a b : Arg) (def : Json) (text : Option Str)
      → Fits ns.IsDouble ns.to_text (record a { def = def; value = text }) b
      → Fits ns.IsDouble ns.to_text a b
  unfolding slider_range
  Fits-update a b def text h = h

  seeded-Fits :
      (s : Status) (args bs : List Arg)
      → All2 (Fits ns.IsDouble ns.to_text) (map (state_default_of coerce s) args) bs
      → All2 (Fits ns.IsDouble ns.to_text) args bs
  unfolding state_default_of
  seeded-Fits s [] [] h = tt
  seeded-Fits s [] (b ∷ bs) h = absurd h
  seeded-Fits s (a ∷ args) [] h = absurd h
  seeded-Fits s (a ∷ args) (b ∷ bs) h =
      let c = seeded coerce s a.state_default a in
      (
        Fits-update a b c.def c.value (
            subst (λ (d : Arg). Fits ns.IsDouble ns.to_text d b) (seeded_shape s a.state_default a)
              h.0),
        seeded-Fits s args bs h.1,
      )

  nothing : HasReadings ns.IsDouble empty_status
  nothing = (inl refl, inl refl, inl refl)

  All-first :
      (args : List Arg)
      → All (λ (a : Arg). HasDefault ns.IsDouble a × FitsReading ns.IsDouble empty_status a) args
      → All (HasDefault ns.IsDouble) args
  All-first [] h = tt
  All-first (a ∷ args) h = (h.0.0, All-first args h.1)

  form-Fits :
      (status : Option Status) (c : Command) (inputs : List (ℕ × Input))
      → IsKnownStatus ns.IsDouble status
      → IsSound c
      → All (SlidesInRange ns.IsDouble (command_with_state_defaults coerce status c).args) inputs
      → All2
          (Fits ns.IsDouble ns.to_text)
          c.args
          (filled ns.to_text inputs (command_with_state_defaults coerce status c).args)
  unfolding command_with_state_defaults
  form-Fits none c inputs known sound ok =
      filled-Fits ns.IsDouble ns.to_text c.args inputs
        (All-first c.args
          (sound-All ns.IsDouble ns.whole-IsDouble empty_status nothing c.args sound))
        ok
  form-Fits (some s) c inputs known sound ok =
      let both = sound-All ns.IsDouble ns.whole-IsDouble s known c.args sound in
      let args = map (state_default_of coerce s) c.args in
      seeded-Fits s c.args (filled ns.to_text inputs args) (
        filled-Fits ns.IsDouble ns.to_text args inputs
          (defaults-HasDefault ns.IsDouble coerce s c.args both) ok)

  -- the texts that the dialog of a command sends after the edits
  abbrev pub submit : Option Status → Command → List (ℕ × Input) → List Str
  submit status c inputs =
      on_accepted (filled ns.to_text inputs (command_with_state_defaults coerce status c).args)

  -- Whatever the status and however the form of a command of a page is edited, as long as the readings are
  -- numbers, whole where the slider is, and the sliders move within their ranges, the core accepts what the form sends.
  pub validate_arg_ranges-on_accepted :
      (status : Option Status) (category : String) (i : ℕ) (c : Command) (inputs : List (ℕ × Input))
      → get_elem? (visible_commands status (find_category category)) i ≡ some c
      → IsKnownStatus ns.IsDouble status
      → All (SlidesInRange ns.IsDouble (command_with_state_defaults coerce status c).args) inputs
      → validate_arg_ranges ns.parse_int ns.parse_float c.id (submit status c inputs) ≡ none
  validate_arg_ranges-on_accepted status category i c inputs listed known ok =
      let commands = visible_commands status (find_category category) in
      let accepted : IsAccepted ns c =
        All-get_elem? (IsAccepted ns) commands i c
          (visible_commands-All (IsAccepted ns) status category (categories-IsAccepted ns))
          listed in
      let sound : IsSound c =
        All-get_elem? IsSound commands i c
          (visible_commands-All IsSound status category categories-IsSound) listed in
      accepted (filled ns.to_text inputs (command_with_state_defaults coerce status c).args)
        (form-Fits status c inputs known sound ok)
