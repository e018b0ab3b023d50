-- ===== src/Dashboard/Status/Types.antt =====
-- app/qml/js/VehicleState.js: the types of the readings that the dashboard binds to.
use Prim.Native.String.{String}
use electric_eel.Base.{
  ℕ, inl, inr, Bool, Option, none, some, List, [], ◌∷◌, All, Bool-cases, Option-cases,
  if◌then◌else◌,
}
use electric_eel.Base.Int.{pos}
use electric_eel.Dashboard.Json.{
  Json, undefined, null, boolean, number, string, array, object, prop, truthy, or_value,
  is_undefined, or_null, is_missing,
}
use electric_eel.Dashboard.Status.{
  Status, read_body_controller, read_closures_state, read_climate_state, read_charge_state,
  empty_object, section, read_section, merge_body_controller_state, merge_closures_state,
  merge_climate_state, merge_charge_state,
}

-- a number or null, so never `undefined` or a text
abbrev pub IsReading : Json → Type 0
IsReading null = Unit
IsReading (number _ _) = Unit
IsReading _ = ⊥

abbrev pub IsNumber : Json → Type 0
IsNumber (number _ _) = Unit
IsNumber _ = ⊥

-- a field of an answer: a number, null, or not there
abbrev pub IsField : Json → Type 0
IsField undefined = Unit
IsField v = IsReading v

pub record IsTyped (s : Status) : Type 0 where
  pub inside_temp : IsReading s.inside_temp
  pub outside_temp : IsReading s.outside_temp
  pub driver_temp_setting : IsReading s.driver_temp_setting
  pub battery_level : IsReading s.battery_level
  pub charge_limit_soc : IsReading s.charge_limit_soc
  pub charge_current : IsReading s.charge_current
  pub minutes_to_full_charge : IsNumber s.minutes_to_full_charge

-- the fields of a section are numbers
abbrev pub HasNumbers : List String → Json → Type 0
HasNumbers keys obj = All (λ (k : String). IsField (prop k obj)) keys

abbrev pub climate_keys : List String
climate_keys = "insideTempCelsius" ∷ "outsideTempCelsius" ∷ "driverTempSetting" ∷ []

abbrev pub charge_keys : List String
charge_keys =
    "batteryLevel" ∷ "minutesToFullCharge" ∷ "chargeLimitSoc" ∷ "chargeCurrentRequest"
    ∷ "chargingAmps" ∷ []

-- a section that was read, if any, has such fields
abbrev pub IsAnswer : List String → Option Json → Type 0
IsAnswer keys none = Unit
IsAnswer keys (some v) = HasNumbers keys (or_value v empty_object)

or_null-IsReading : (v : Json) → IsField v → IsReading (or_null v)
or_null-IsReading undefined h = tt
or_null-IsReading null h = tt
or_null-IsReading (number n d) h = tt
or_null-IsReading (boolean b) h = h
or_null-IsReading (string s) h = h
or_null-IsReading (array xs) h = h
or_null-IsReading (object fs) h = h

or_zero-IsNumber : (v : Json) → IsField v → IsNumber (or_value v (number (pos 0) 0))
or_zero-IsNumber undefined h = tt
or_zero-IsNumber null h = tt
or_zero-IsNumber (boolean b) h = absurd h
or_zero-IsNumber (string s) h = absurd h
or_zero-IsNumber (array xs) h = absurd h
or_zero-IsNumber (object fs) h = absurd h
or_zero-IsNumber (number n d) h = elim (Bool-cases (truthy (number n d))) [
  | inl e ↦ rw e tt
  | inr e ↦ rw e tt
]

current-IsReading :
    (v w : Json) → IsField v → IsField w → IsReading (if is_undefined v then or_null w else v)
current-IsReading undefined w hv hw = or_null-IsReading w hw
current-IsReading null w hv hw = tt
current-IsReading (number n d) w hv hw = tt
current-IsReading (boolean b) w hv hw = hv
current-IsReading (string s) w hv hw = hv
current-IsReading (array xs) w hv hw = hv
current-IsReading (object fs) w hv hw = hv

read_climate_state-IsTyped :
    (now : ℕ) (obj : Json) (s : Status)
    → HasNumbers climate_keys obj
    → IsTyped s
    → IsTyped (read_climate_state now obj s)
unfolding read_climate_state
read_climate_state-IsTyped now obj s h t = record {
  inside_temp = or_null-IsReading (prop "insideTempCelsius" obj) h.0;
  outside_temp = or_null-IsReading (prop "outsideTempCelsius" obj) h.1.0;
  driver_temp_setting = or_null-IsReading (prop "driverTempSetting" obj) h.1.1.0;
  battery_level = t.battery_level;
  charge_limit_soc = t.charge_limit_soc;
  charge_current = t.charge_current;
  minutes_to_full_charge = t.minutes_to_full_charge;
}

read_charge_state-IsTyped :
    (now : ℕ) (obj : Json) (s : Status)
    → HasNumbers charge_keys obj
    → IsTyped s
    → IsTyped (read_charge_state now obj s)
unfolding read_charge_state
read_charge_state-IsTyped now obj s h t = record {
  inside_temp = t.inside_temp;
  outside_temp = t.outside_temp;
  driver_temp_setting = t.driver_temp_setting;
  battery_level = or_null-IsReading (prop "batteryLevel" obj) h.0;
  minutes_to_full_charge = or_zero-IsNumber (prop "minutesToFullCharge" obj) h.1.0;
  charge_limit_soc = or_null-IsReading (prop "chargeLimitSoc" obj) h.1.1.0;
  charge_current =
      current-IsReading (prop "chargeCurrentRequest" obj) (prop "chargingAmps" obj) h.1.1.1.0
        h.1.1.1.1.0;
}

copied-IsTyped :
    (s : Status) (locked : Option Bool) (doors front rear windows : Bool) (now : ℕ)
    → IsTyped s
    → IsTyped (record s {
      locked = locked;
      doors_open = doors;
      trunk_front_open = front;
      trunk_rear_open = rear;
      windows_open = windows;
      updated_at = now;
    })
copied-IsTyped s locked doors front rear windows now t = record {
  inside_temp = t.inside_temp;
  outside_temp = t.outside_temp;
  driver_temp_setting = t.driver_temp_setting;
  battery_level = t.battery_level;
  charge_limit_soc = t.charge_limit_soc;
  charge_current = t.charge_current;
  minutes_to_full_charge = t.minutes_to_full_charge;
}

read_closures_state-IsTyped :
    (now : ℕ) (obj : Json) (s : Status)
    → HasNumbers [] obj
    → IsTyped s
    → IsTyped (read_closures_state now obj s)
unfolding read_closures_state
read_closures_state-IsTyped now obj s h t = search copied-IsTyped

read_body_controller-IsTyped :
    (now : ℕ) (answer : Json) (s : Status) → IsTyped s → IsTyped (read_body_controller now answer s)
unfolding read_body_controller
read_body_controller-IsTyped now answer s t =
    elim (Bool-cases (is_missing (prop "closureStatuses" (or_value answer empty_object)))) [
      | inl e ↦ rw e (search copied-IsTyped)
      | inr e ↦ rw e (search copied-IsTyped)
    ]

no_keys : (answer : Option Json) → IsAnswer [] answer
no_keys none = tt
no_keys (some v) = tt

read_section-IsTyped :
    (keys : List String) (read : Json → Status → Status)
    → ((obj : Json) (s : Status) → HasNumbers keys obj → IsTyped s → IsTyped (read obj s))
    → (answer : Option Json) (s : Status) → IsAnswer keys answer
    → IsTyped s
    → IsTyped (read_section read answer s)
read_section-IsTyped keys read keep none s h t = t
read_section-IsTyped keys read keep (some v) s h t = keep (or_value v empty_object) s h t

-- the answers to the four requests, each with the time of the call
pub data Answer : Type 0 where
  body_controller closures climate charge : ℕ → String → Answer

module _ (parse : String → Option Json) where
  pub merge : Answer → Status → Status
  unfolding merge_body_controller_state merge_closures_state merge_climate_state merge_charge_state
  merge (body_controller now text) s = merge_body_controller_state parse now s text
  merge (closures now text) s = merge_closures_state parse now s text
  merge (climate now text) s = merge_climate_state parse now s text
  merge (charge now text) s = merge_charge_state parse now s text

  pub merge_all : List Answer → Status → Status
  merge_all [] s = s
  merge_all (answer ∷ answers) s = merge_all answers (merge answer s)

  -- the readings in an answer are numbers, where they are there
  abbrev pub IsWellTyped : Answer → Type 0
  IsWellTyped (climate now text) = IsAnswer climate_keys (section "climateState" (parse text))
  IsWellTyped (charge now text) = IsAnswer charge_keys (section "chargeState" (parse text))
  IsWellTyped _ = Unit

  merge-IsTyped :
      (answer : Answer) (s : Status) → IsWellTyped answer → IsTyped s → IsTyped (merge answer s)
  unfolding merge
  merge-IsTyped (body_controller now text) s h t = elim (Option-cases (parse text)) [
    | inl e ↦ rw (e, merge_body_controller_state) t
    | inr (answer, e) ↦
        rw (e, merge_body_controller_state) (read_body_controller-IsTyped now answer s t)
  ]
  merge-IsTyped (closures now text) s h t =
      read_section-IsTyped [] (read_closures_state now) (read_closures_state-IsTyped now)
        (section "closuresState" (parse text)) s (no_keys (section "closuresState" (parse text))) t
  merge-IsTyped (climate now text) s h t =
      read_section-IsTyped climate_keys (read_climate_state now) (read_climate_state-IsTyped now)
        (section "climateState" (parse text)) s h t
  merge-IsTyped (charge now text) s h t =
      read_section-IsTyped charge_keys (read_charge_state now) (read_charge_state-IsTyped now)
        (section "chargeState" (parse text)) s h t

  -- If the readings in the answers of the vehicle are numbers where they are there, then every
  -- sequence of merges into a status of which each reading is a number or null, and the minutes to a full
  -- charge are a number, leaves a status of which this holds: none is ever `undefined`.
  pub merge_all-IsTyped :
      (answers : List Answer) (s : Status)
      → All IsWellTyped answers
      → IsTyped s
      → IsTyped (merge_all answers s)
  unfolding merge_all
  merge_all-IsTyped [] s h t = t
  merge_all-IsTyped (answer ∷ answers) s h t =
      merge_all-IsTyped answers (merge answer s) h.1 (merge-IsTyped answer s h.0 t)
