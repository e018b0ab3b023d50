-- ===== src/Dashboard/Status/Merges.antt =====
-- app/qml/js/VehicleState.js: what a merge changes, and what it leaves.
use Prim.Native.String.{String}
use electric_eel.Base.{
  ℕ, ◌≡◌, inl, inr, refl, Bool, true, false, ◌||◌, not, Option, none, some, arith, Bool-cases,
}
use electric_eel.Dashboard.Json.{Json, undefined, string, object, no_fields, prop, or_value, truthy}
use electric_eel.Dashboard.Status.{
  Status, read_body_controller, merge_body_controller_state, read_lock,
}

abbrev pub is_known : Option Bool → Bool
is_known none = false
is_known (some _) = true

read_lock-known :
    (lock : Json) (before : Option Bool)
    → (is_known (read_lock lock before) || not (is_known before)) ≡ true
unfolding read_lock
read_lock-known lock before = ground arith

or_empty_closures :
    (answer : Json)
    → prop "closureStatuses" answer ≡ undefined
    → prop "closureStatuses" (or_value answer (object no_fields)) ≡ undefined
or_empty_closures answer missing = elim (Bool-cases (truthy answer)) [
  | inl full ↦ rw full missing
  | inr empty ↦ rw empty refl
]

module _ (parse : String → Option Json) (now : ℕ) where
  -- An answer of the body controller without closures changes the lock and the time at most, and a
  -- lock whose state was known stays known.
  pub merge_body_controller_state-keeps :
      (text : String) (s : Status) (answer : Json)
      → parse text ≡ some answer
      → prop "closureStatuses" answer ≡ undefined
      → let s' = merge_body_controller_state parse now s text in
        (s' ≡ record s { locked = s'.locked; updated_at = now })
        × ((is_known s'.locked || not (is_known s.locked)) ≡ true)
  unfolding merge_body_controller_state read_body_controller
  merge_body_controller_state-keeps text s answer parsed missing =
      let known =
        read_lock-known
          (or_value (prop "vehicleLockState" (or_value answer (object no_fields))) (string ""))
          s.locked in
      rw (parsed, merge_body_controller_state)
        (rw (or_empty_closures answer missing, read_body_controller) (refl, known))
