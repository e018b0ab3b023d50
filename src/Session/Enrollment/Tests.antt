-- ===== src/Session/Enrollment/Tests.antt =====
-- The theorems on the wait for an enrollment applied to a vehicle that enrolls the key after five
-- seconds.
use electric_eel.Base.{ℕ, ◌*◌, ◌≤◌, ◌≡◌, arith, true, none, some, leb, if◌then◌else◌}
use electric_eel.Session.Clock.{second}
use electric_eel.Session.Enrollment.{
  attempt, Info, status_ok, other_status, Car, verify_enrollment, Confirmation, confirmed,
  wait_for_enrollment, confirm_enrollment,
}
use electric_eel.Session.Enrollment.Approval.{Confirms, confirm_enrollment_lem, wait-IsApproved}

abbrev enrolled_at_five : ℕ → Info
enrolled_at_five u = if leb (5 * second) u then status_ok else other_status "not on the list"

abbrev car : Car
car = record {
  session_info = λ u until. (0, enrolled_at_five u);
  start_session = λ u until. record { took = 2; error = none };
}

approved-error :
    (u : ℕ)
    → 5 * second ≤ u
    → (attempt (verify_enrollment car true) second (90 * second) u).error ≡ none
approved-error u h = ground (arith, h)

approved-took :
    (u : ℕ) → (attempt (verify_enrollment car true) second (90 * second) u).took ≤ 3 * second
approved-took u = ground arith

confirm_enrollment_lem_example :
    (r : Confirmation) × (confirm_enrollment 91 car (some "key") (some "key") (90 * second) 0
      ≡ some r)
    × Confirms car (some "key") (some "key") (90 * second) r
confirm_enrollment_lem_example =
    confirm_enrollment_lem 90 car (some "key") (some "key") (90 * second) 0 (omega arith)

wait-IsApproved_example :
    (t : ℕ) × (wait_for_enrollment (verify_enrollment car true) second (90 * second) 91 0 none
      ≡ some (confirmed t))
wait-IsApproved_example =
    wait-IsApproved (verify_enrollment car true) second (90 * second) (5 * second) 90 0 none
      approved-error approved-took (omega arith) (omega arith) (omega arith)
