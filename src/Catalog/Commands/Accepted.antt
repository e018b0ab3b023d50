-- ===== src/Catalog/Commands/Accepted.antt =====
-- What the form of a command sends passes the check of the core.
use Prim.Native.String.{String}
use text.Mathlib.Text.{◌==◌ as str_eq}
use electric_eel.Base.{
  ℕ, ◌≡◌, inl, inr, refl, arith, Bool, false, ◌||◌, Option, none, some, List, [], ◌∷◌, All, All2,
  get_elem?, Bool-cases, Option-cases, some-injective, ap, if◌then◌else◌,
}
use electric_eel.Text.{Str, codes}
use electric_eel.Catalog.Items.{whole, Arg, Command, Category}
use electric_eel.Catalog.Data.Climate.{
  attention, climate, charge_schedule_add_args, precondition_schedule_add_args,
}
use electric_eel.Catalog.Data.Charging.{charging}
use electric_eel.Catalog.Data.Body.{security, body, media}
use electric_eel.Catalog.Data.Others.{software, keys, diagnostics}
use electric_eel.Catalog.Search.{categories}
use electric_eel.Catalog.Dialog.{suffix_of, on_accepted}
use electric_eel.Catalog.Dialog.Filled.{Range, Fits, slider_range}
use electric_eel.Catalog.Commands.{validate_arg_ranges, not_integer, out_of_range, invalid}
use electric_eel.Catalog.Commands.Numerals.{Numerals}
use electric_eel.Catalog.Commands.Sent.{whole_range, sent}
use electric_eel.Catalog.Commands.Ranges.{
  Sent, checked, first_int, first_float, temperature_accepted, delay_accepted, schedule_accepted,
  celsius, degrees_range, half_turn_range,
}

-- the commands whose arguments have a range
abbrev is_ranged : String → Bool
is_ranged cmd =
    str_eq cmd "charging-set-limit"
    || str_eq cmd "charging-set-amps"
    || str_eq cmd "charging-schedule"
    || str_eq cmd "media-set-volume"
    || str_eq cmd "climate-set-temp"
    || str_eq cmd "software-update-start"
    || str_eq cmd "charging-schedule-add"
    || str_eq cmd "precondition-schedule-add"

abbrev ranged : List Command → List Command
ranged [] = []
ranged (c ∷ cs) = let rest = ranged cs in if is_ranged c.id then c ∷ rest else rest

abbrev with_suffix : Str → Option Range → Option (Range × Str)
with_suffix suffix none = none
with_suffix suffix (some r) = some (r, suffix)

-- the range of the slider of an argument, and its suffix
abbrev slider_at : Option Arg → Option (Range × Str)
slider_at none = none
slider_at (some a) = with_suffix (suffix_of a) (slider_range a)

with_suffix-some :
    (suffix : Str) (found : Option Range) (r : Range) (t : Str)
    → with_suffix suffix found ≡ some (r, t)
    → (found ≡ some r) × (suffix ≡ t)
with_suffix-some suffix none r t h = cc
with_suffix-some suffix (some q) r t h =
    let same = some-injective (q, suffix) (r, t) h in
    (ap (λ (p : Range × Str). some p.0) same, ap (λ (p : Range × Str). p.1) same)

slider_at-none : {r : Range} {t : Str} → slider_at none ≡ some (r, t) → ⊥
slider_at-none h = cc

-- the arguments of a command of a category
abbrev args_at : Category → ℕ → List Arg
args_at category i = elim (get_elem? category.commands i) [ none ↦ [] | some c ↦ c.args ]

abbrev volume : Range
volume = record { least = whole 0; most = whole 10; is_whole = false }

module _ (ns : Numerals) where
  free_accepted :
      (cmd : String) (out : List Str) → is_ranged cmd ≡ false → checked ns cmd out ≡ none
  unfolding validate_arg_ranges
  free_accepted cmd out h = ground arith

  abbrev pub IsAccepted : Command → Type 0
  IsAccepted c =
      (bs : List Arg)
      → All2 (Fits ns.IsDouble ns.to_text) c.args bs
      → checked ns c.id (on_accepted bs) ≡ none

  ranged-All : (cs : List Command) → All IsAccepted (ranged cs) → All IsAccepted cs
  ranged-All [] h = tt
  ranged-All (c ∷ cs) h = elim (Bool-cases (is_ranged c.id)) [
    | inl e ↦
        let both : IsAccepted c × All IsAccepted (ranged cs) = rw (e, ranged) at h in
        (both.0, ranged-All cs both.1)
    | inr e ↦
        ((λ bs fits. free_accepted c.id (on_accepted bs) e), ranged-All cs (rw (e, ranged) at h))
  ]

  -- the text of the slider at a position, found by its range and suffix
  slider_at-Sent :
      (args bs : List Arg) (i : ℕ) (r : Range) (suffix : Str)
      → All2 (Fits ns.IsDouble ns.to_text) args bs
      → slider_at (get_elem? args i) ≡ some (r, suffix)
      → Sent ns (on_accepted bs) i r suffix
  slider_at-Sent args bs i r suffix fits h = elim (Option-cases (get_elem? args i)) [
    | inl e ↦ absurd (slider_at-none (rw e at h))
    | inr (a, e) ↦
        let at = with_suffix-some (suffix_of a) (slider_range a) r suffix (rw e at h) in
        rw⁻¹ at.1 (sent ns args bs i a r fits e at.0)
  ]

  climate-IsAccepted : All IsAccepted (ranged climate.commands)
  unfolding slider_range
  climate-IsAccepted = (
    λ bs fits.
        temperature_accepted ns (on_accepted bs)
          (slider_at-Sent (args_at climate 2) bs 0 celsius (codes "C") fits refl),
    (
      λ bs fits.
          (schedule_accepted ns (on_accepted bs)
            (slider_at-Sent precondition_schedule_add_args bs 2 degrees_range [] fits refl)
            (slider_at-Sent precondition_schedule_add_args bs 3 half_turn_range [] fits refl)).1,
      tt,
    ),
  )

  charging-IsAccepted : All IsAccepted (ranged charging.commands)
  unfolding slider_range validate_arg_ranges
  charging-IsAccepted = (
    λ bs fits.
        first_int ns 50 100 not_integer out_of_range (on_accepted bs) (omega arith)
          (slider_at-Sent (args_at charging 4) bs 0 (whole_range 50 100) [] fits refl),
    (
      λ bs fits.
          first_int ns 1 48 not_integer out_of_range (on_accepted bs) (omega arith)
            (slider_at-Sent (args_at charging 5) bs 0 (whole_range 1 48) [] fits refl),
      (
        λ bs fits.
            first_int ns 0 1439 invalid invalid (on_accepted bs) (omega arith)
              (slider_at-Sent (args_at charging 6) bs 0 (whole_range 0 1439) [] fits refl),
        (
          λ bs fits.
              (schedule_accepted ns (on_accepted bs)
                (slider_at-Sent charge_schedule_add_args bs 2 degrees_range [] fits refl)
                (slider_at-Sent charge_schedule_add_args bs 3 half_turn_range [] fits refl)).0,
          tt,
        ),
      ),
    ),
  )

  media-IsAccepted : All IsAccepted (ranged media.commands)
  unfolding slider_range validate_arg_ranges
  media-IsAccepted = (
    λ bs fits.
        first_float ns volume (on_accepted bs)
          (slider_at-Sent (args_at media 7) bs 0 volume [] fits refl),
    tt,
  )

  software-IsAccepted : All IsAccepted (ranged software.commands)
  unfolding slider_range
  software-IsAccepted = (
    λ bs fits.
        delay_accepted ns (on_accepted bs)
          (slider_at-Sent (args_at software 0) bs 0 (whole_range 0 3600) (codes "s") fits refl),
    tt,
  )

  pub categories-IsAccepted : All (λ (c : Category). All IsAccepted c.commands) categories
  categories-IsAccepted = (
    ranged-All attention.commands tt,
    (
      ranged-All climate.commands climate-IsAccepted,
      (
        ranged-All charging.commands charging-IsAccepted,
        (
          ranged-All security.commands tt,
          (
            ranged-All body.commands tt,
            (
              ranged-All media.commands media-IsAccepted,
              (
                ranged-All software.commands software-IsAccepted,
                (ranged-All keys.commands tt, (ranged-All diagnostics.commands tt, tt)),
              ),
            ),
          ),
        ),
      ),
    ),
  )
