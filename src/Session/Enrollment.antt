-- ===== src/Session/Enrollment.antt =====
-- helper/session/pairing.go: the wait for the vehicle to enroll a key. `protocol` is outside: a file of
-- a key is read or not, and the answers of the vehicle are those at an instant, with what they took.
pub mod Waits
pub mod Approval
mod Tests
use Prim.Native.String.{String}
use text.Mathlib.Text.{◌==◌ as str_eq}
use electric_eel.Base.{
  ℕ, zero, suc, ◌+◌, ◌*◌, Bool, true, false, not, Option, none, some, if◌then◌else◌, leb,
}
use electric_eel.Session.Clock.{second}

-- what an attempt took, and its error
pub record Attempt : Type 0 where
  pub took : ℕ
  pub error : Option String

-- the confirmation, with its instant, or the end of the context with the last error
pub data Enrollment : Type 0 where
  confirmed : ℕ → Enrollment
  unconfirmed : ℕ → Option String → Enrollment

abbrev pub earlier : ℕ → ℕ → ℕ
earlier a b = if leb a b then a else b

-- The loop of `waitForEnrollment`, on fuel, for a context that is done at the instant `done_at`.
module _ (verify : ℕ → ℕ → Attempt) (interval done_at : ℕ) where
  -- the attempt of an instant, with its own time limit
  abbrev pub attempt : ℕ → Attempt
  attempt now = verify now (earlier done_at (now + 3 * second))

  -- the instant after the timer or the end of the context, whichever is first
  abbrev pub next_turn : ℕ → ℕ
  next_turn finished =
      if leb done_at finished then finished else earlier done_at (finished + interval)

  abbrev pub after_attempt : ℕ → Option String → Option Enrollment → Option Enrollment
  after_attempt finished none rest = some (confirmed finished)
  after_attempt finished (some e) rest = rest

  unfoldable pub wait_for_enrollment : ℕ → ℕ → Option String → Option Enrollment
  wait_for_enrollment zero now last = none
  wait_for_enrollment (suc fuel) now last =
      let made = attempt now in
      let finished = now + made.took in
      let rest = wait_for_enrollment fuel (next_turn finished) made.error in
      if leb done_at now
      then some (unconfirmed now last)
      else after_attempt finished made.error rest

-- the answer to `SessionInfo`
pub data Info : Type 0 where
  no_info : String → Info
  status_ok : Info
  other_status : String → Info

-- The vehicle: what it answers to `SessionInfo` for the requested key and to `StartSession`, each for
-- its instant and its limit.
pub record Car : Type 0 where
  pub session_info : ℕ → ℕ → ℕ × Info
  pub start_session : ℕ → ℕ → Attempt

-- the attempt after an answer to `SessionInfo`
abbrev pub verify_info : Car → Bool → ℕ → ℕ → ℕ × Info → Attempt
verify_info car own now until (took, no_info e) = record { took = took; error = some e }
verify_info car own now until (took, other_status e) = record { took = took; error = some e }
verify_info car own now until (took, status_ok) =
    let started = car.start_session (now + took) until in
    if own
    then record { took = took + started.took; error = started.error }
    else record { took = took; error = none }

-- the function that `confirmEnrollment` waits for, for a key that is this phone's own or not
abbrev pub verify_enrollment : Car → Bool → ℕ → ℕ → Attempt
verify_enrollment car own now until = verify_info car own now until (car.session_info now until)

-- the error of a key that cannot be read, or what the wait gives
pub data Confirmation : Type 0 where
  key_error : Confirmation
  waited : Enrollment → Confirmation

abbrev pub waited_for : Option Enrollment → Option Confirmation
waited_for none = none
waited_for (some e) = some (waited e)

-- `confirmEnrollment`, for the public halves of the requested key and of this phone's key
unfoldable pub confirm_enrollment :
    ℕ → Car → Option String → Option String → ℕ → ℕ → Option Confirmation
unfolding wait_for_enrollment
confirm_enrollment fuel car none private done_at now = some key_error
confirm_enrollment fuel car (some key) none done_at now = some key_error
confirm_enrollment fuel car (some key) (some own) done_at now =
    waited_for
      (wait_for_enrollment (verify_enrollment car (str_eq key own)) second done_at fuel now none)
