-- ===== src/Catalog/Page/Listed.antt =====
-- What the page lists of the catalogue.
use Prim.Native.String.{String}
use text.Mathlib.Text.{◌==◌ as str_eq}
use electric_eel.Base.{
  ◌≡◌, ◌⊎◌, inl, inr, refl, arith, Bool, true, false, not, Option, none, some, List, [], ◌∷◌, any,
  All, Bool-cases, Option-cases,
}
use electric_eel.Dashboard.Status.{Status}
use electric_eel.Catalog.Items.{
  Command, Category, climate_on, climate_off, nearly_charging, charging, not_charging, port_open,
  port_closed, locked_state, unlocked_state, trunk_open, trunk_closed, windows_open, windows_closed,
}
use electric_eel.Catalog.Search.{categories, find_from, find_category}
use electric_eel.Catalog.Page.{command_visible, visible_of, visible_commands}

module _ {ℓ} (P : Command → Type ℓ) where
  visible_of-All :
      (status : Option Status) (cs : List Command) → All P cs → All P (visible_of status cs)
  visible_of-All status [] h = h
  visible_of-All status (c ∷ cs) h = elim (Bool-cases (command_visible status c)) [
    | inl e ↦ rw e ((h.0, visible_of-All status cs h.1))
    | inr e ↦ rw e (visible_of-All status cs h.1)
  ]

  find_from-All :
      (status : Option Status) (cats : List Category) (id : String)
      → All (λ (c : Category). All P c.commands) cats
      → All P (visible_commands status (find_from cats id))
  unfolding visible_commands
  find_from-All status [] id h = tt
  find_from-All status (c ∷ cats) id h = elim (Bool-cases (str_eq c.id id)) [
    | inl e ↦ rw e (visible_of-All status c.commands h.0)
    | inr e ↦ rw e (find_from-All status cats id h.1)
  ]

  -- what holds of each command of the catalogue holds of each one that is listed
  pub visible_commands-All :
      (status : Option Status) (id : String)
      → All (λ (c : Category). All P c.commands) categories
      → All P (visible_commands status (find_category id))
  unfolding find_category
  visible_commands-All status id h = find_from-All status categories id h

-- whether a page of the category lists a command of this name
abbrev pub listed : Option Status → String → String → Bool
listed status category id =
    any (λ (c : Command). str_eq c.id id) (visible_commands status (find_category category))

abbrev pub Toggle : Status → String → String → String → Type 0
Toggle s category on off = listed (some s) category on ≡ not (listed (some s) category off)

climate-Toggle : (s : Status) → Toggle s "climate" "climate-on" "climate-off"
unfolding visible_commands find_category climate_on climate_off
climate-Toggle s = elim (Bool-cases s.is_climate_on) [ inl e ↦ rw e refl | inr e ↦ rw e refl ]

charging-Toggle : (s : Status) → Toggle s "charging" "charging-start" "charging-stop"
unfolding visible_commands find_category charging not_charging port_open port_closed
charging-Toggle s = elim (Bool-cases (nearly_charging s)) [
  | inl e ↦ elim (Bool-cases s.charge_port_open) [ inl p ↦ rw (e, p) refl | inr p ↦ rw (e, p) refl ]
  | inr e ↦ elim (Bool-cases s.charge_port_open) [ inl p ↦ rw (e, p) refl | inr p ↦ rw (e, p) refl ]
]

port-Toggle : (s : Status) → Toggle s "charging" "charge-port-open" "charge-port-close"
unfolding visible_commands find_category charging not_charging port_open port_closed
port-Toggle s = elim (Bool-cases (nearly_charging s)) [
  | inl e ↦ elim (Bool-cases s.charge_port_open) [ inl p ↦ rw (e, p) refl | inr p ↦ rw (e, p) refl ]
  | inr e ↦ elim (Bool-cases s.charge_port_open) [ inl p ↦ rw (e, p) refl | inr p ↦ rw (e, p) refl ]
]

lock-Toggle : (s : Status) → Toggle s "security" "lock" "unlock"
unfolding visible_commands find_category locked_state unlocked_state
lock-Toggle s = elim (Option-cases s.locked) [
  | inl e ↦ rw e refl
  | inr (b, e) ↦ elim (Bool-cases b) [ inl f ↦ rw (e, f) refl | inr f ↦ rw (e, f) refl ]
]

trunk-Toggle : (s : Status) → Toggle s "body" "trunk-open" "trunk-close"
unfolding visible_commands find_category trunk_open trunk_closed windows_open windows_closed
trunk-Toggle s = elim (Bool-cases s.trunk_rear_open) [
  | inl e ↦ elim (Bool-cases s.windows_open) [ inl p ↦ rw (e, p) refl | inr p ↦ rw (e, p) refl ]
  | inr e ↦ elim (Bool-cases s.windows_open) [ inl p ↦ rw (e, p) refl | inr p ↦ rw (e, p) refl ]
]

windows-Toggle : (s : Status) → Toggle s "body" "windows-vent" "windows-close"
unfolding visible_commands find_category trunk_open trunk_closed windows_open windows_closed
windows-Toggle s = elim (Bool-cases s.trunk_rear_open) [
  | inl e ↦ elim (Bool-cases s.windows_open) [ inl p ↦ rw (e, p) refl | inr p ↦ rw (e, p) refl ]
  | inr e ↦ elim (Bool-cases s.windows_open) [ inl p ↦ rw (e, p) refl | inr p ↦ rw (e, p) refl ]
]

-- the category and the two commands of each toggle
abbrev pub toggles : List (String × String × String)
toggles =
    ("climate", "climate-on", "climate-off")
    ∷ ("charging", "charging-start", "charging-stop")
    ∷ ("charging", "charge-port-open", "charge-port-close")
    ∷ ("security", "lock", "unlock")
    ∷ ("body", "trunk-open", "trunk-close")
    ∷ ("body", "windows-vent", "windows-close")
    ∷ []

-- With a status, the page of the category lists exactly one of the two commands of each toggle,
-- whatever the status says of the vehicle.
visible_commands-toggles :
    (s : Status)
    → All
        (λ ((category, on, off) : String × String × String).
          listed (some s) category on ≡ not (listed (some s) category off))
        toggles
visible_commands-toggles s = (
  climate-Toggle s,
  (charging-Toggle s, (port-Toggle s, (lock-Toggle s, (trunk-Toggle s, (windows-Toggle s, tt))))),
)

-- a command that is listed whatever the status is
abbrev pub is_free : Command → Bool
is_free c = elim c.visible_when [ none ↦ true | some _ ↦ false ]

visible_of-free :
    (status : Option Status) (cs : List Command)
    → any is_free cs ≡ true
    → any is_free (visible_of status cs) ≡ true
unfolding command_visible
visible_of-free status [] h = h
visible_of-free none (c ∷ cs) h = ground (arith, visible_of-free none cs)
visible_of-free (some s) (c ∷ cs) h = elim (Option-cases c.visible_when) [
  | inl e ↦ rw e refl
  | inr (test, e) ↦ elim (Bool-cases (test s)) [
    | inl f ↦ rw (e, f) (visible_of-free (some s) cs (rw e at h))
    | inr f ↦ rw (e, f) (visible_of-free (some s) cs (rw e at h))
  ]
]

find_from_cases :
    (P : Category → Type 0) (cats : List Category) (id : String)
    → All P cats
    → ((c : Category) × (find_from cats id ≡ some c) × P c)
      ⊎ ((find_from cats id ≡ none) × All (λ (c : Category). str_eq c.id id ≡ false) cats)
find_from_cases P [] id h = inr (refl, tt)
find_from_cases P (c ∷ cats) id h = elim (Bool-cases (str_eq c.id id)) [
  | inl e ↦ inl (c, rw e refl, h.0)
  | inr e ↦ elim (find_from_cases P cats id h.1) [
    | inl (d, f, p) ↦ inl (d, rw e f, p)
    | inr (f, g) ↦ inr (rw e f, (e, g))
  ]
]

abbrev IsFree : Category → Type 0
IsFree c = any is_free c.commands ≡ true

categories-IsFree : All IsFree categories
categories-IsFree = (refl, (refl, (refl, (refl, (refl, (refl, (refl, (refl, (refl, tt)))))))))

-- The page of a category of the catalogue is never empty: whatever the status is, it lists a command
-- that no status hides. For any other name the page lists nothing.
visible_commands-free :
    (status : Option Status) (id : String)
    → (any is_free (visible_commands status (find_category id)) ≡ true)
      ⊎ (All (λ (c : Category). str_eq c.id id ≡ false) categories
          × (visible_commands status (find_category id) ≡ []))
unfolding find_category visible_commands
visible_commands-free status id = elim (find_from_cases IsFree categories id categories-IsFree) [
  | inl (c, e, p) ↦ inl (rw e (visible_of-free status c.commands p))
  | inr (e, h) ↦ inr (h, rw e refl)
]
