-- ===== src/Session/Enrollment/Approval.antt =====
-- helper/session/pairing.go: what a confirmed enrollment has seen, and that an approval in time is
-- confirmed.
use Prim.Native.String.{String}
use text.Mathlib.Text.{◌==◌ as str_eq}
use electric_eel.Base.{
  ℕ, zero, suc, ◌+◌, ◌*◌, ◌≤◌, ◌<◌, ◌≡◌, ◌⊎◌, inl, inr, refl, ap, ◌∙◌, arith, Bool, true, false,
  Option, none, some, leb, Bool-cases, Option-cases,
}
use electric_eel.Session.Clock.{second}
use electric_eel.Session.Enrollment.{
  Attempt, Enrollment, confirmed, unconfirmed, earlier, attempt, next_turn, wait_for_enrollment,
  Info, no_info, status_ok, other_status, Car, verify_info, verify_enrollment, Confirmation,
  key_error, waited, waited_for, confirm_enrollment,
}
use electric_eel.Session.Enrollment.Waits.{
  reach, Ends, wait-Ends, next_turn-reach, after_attempt-none, after_attempt-some,
}

-- the limit of an attempt
abbrev pub limit : ℕ → ℕ → ℕ
limit done_at u = earlier done_at (u + 3 * second)

-- the vehicle reports the requested key as enrolled, and opens a session for this phone's own key
abbrev pub Verified : Car → Bool → ℕ → ℕ → Type 0
Verified car own done_at u =
    ((car.session_info u (limit done_at u)).1 ≡ status_ok)
    × (own ≡ true
        → (car.start_session (u + (car.session_info u (limit done_at u)).0) (limit done_at u)).error
          ≡ none)

verify_info-none :
    (car : Car) (own : Bool) (now until : ℕ) (answer : ℕ × Info)
    → (verify_info car own now until answer).error ≡ none
    → (answer.1 ≡ status_ok)
      × (own ≡ true → (car.start_session (now + answer.0) until).error ≡ none)
verify_info-none car own now until (took, no_info e) h = cc
verify_info-none car own now until (took, other_status e) h = cc
verify_info-none car true now until (took, status_ok) h = (refl, λ o. h)
verify_info-none car false now until (took, status_ok) h = (refl, λ o. cc)

-- what is known when the request has ended
abbrev pub Confirms : Car → Option String → Option String → ℕ → Confirmation → Type 0
Confirms car public private done_at key_error = (public ≡ none) ⊎ (private ≡ none)
Confirms car public private done_at (waited (unconfirmed t e)) = leb done_at t ≡ true
Confirms car public private done_at (waited (confirmed t)) =
    (key : String) × (own : String) × (u : ℕ) × (public ≡ some key)
    × (private ≡ some own)
    × (leb done_at u ≡ false)
    × Verified car (str_eq key own) done_at u

Ends-Confirms :
    (car : Car) (key own : String) (done_at : ℕ) (e : Enrollment)
    → Ends (verify_enrollment car (str_eq key own)) second done_at none e
    → Confirms car (some key) (some own) done_at (waited e)
Ends-Confirms car key own done_at (unconfirmed t last) h = h.0
Ends-Confirms car key own done_at (confirmed t) (u, in_time, fine, at) = (
  key,
  own,
  u,
  refl,
  refl,
  in_time,
  verify_info-none car (str_eq key own) u (limit done_at u) (car.session_info u (limit done_at u))
      fine,
)

-- If the intervals of a second reach the end of the context, the confirmation of an enrollment ends
-- with one turn more. It ends without waiting only if a key cannot be read. It is a failure only when
-- the context is done. It is a success only if, in an attempt that began before the context was done,
-- the vehicle reported the requested key as enrolled and, if it is this phone's own key, opened a session.
pub confirm_enrollment_lem :
    (turns : ℕ) (car : Car) (public private : Option String) (done_at now : ℕ)
    → done_at ≤ now + reach second turns
    → (r : Confirmation) × (confirm_enrollment (suc turns) car public private done_at now ≡ some r)
      × Confirms car public private done_at r
unfolding confirm_enrollment
confirm_enrollment_lem turns car none private done_at now h = (key_error, refl, inl refl)
confirm_enrollment_lem turns car (some key) none done_at now h = (key_error, refl, inr refl)
confirm_enrollment_lem turns car (some key) (some own) done_at now h =
    let verify = verify_enrollment car (str_eq key own) in
    let (e, ended, ends) = wait-Ends verify second done_at turns now none h in
    (waited e, ap waited_for ended, Ends-Confirms car key own done_at e ends)

-- an attempt with an error is one before the approval
failed-early :
    (now since : ℕ) (error : Option String) (e : String)
    → (since ≤ now → error ≡ none)
    → error ≡ some e
    → now < since
failed-early now since none e approved h = cc
failed-early now since (some _) e approved h = elim (Bool-cases (leb since now)) [
  | inl late ↦ let fine = approved (ground (arith, late)) in cc
  | inr early ↦ ground (arith, early)
]

module _ (verify : ℕ → ℕ → Attempt) (interval done_at since : ℕ) where
  -- from an instant on, every attempt has no error
  abbrev pub IsApproved : Type 0
  IsApproved = (u : ℕ) → since ≤ u → (attempt verify interval done_at u).error ≡ none

  -- no attempt takes more than its limit of three seconds
  abbrev pub IsLimited : Type 0
  IsLimited = (u : ℕ) → (attempt verify interval done_at u).took ≤ 3 * second

  next_turn-approved :
      (now took : ℕ)
      → took ≤ 3 * second
      → now < since
      → since + 3 * second + interval ≤ done_at
      → next_turn verify interval done_at (now + took) < since + 3 * second + interval
  next_turn-approved now took limited early enough = ground (arith, limited, early, enough)

  -- If no attempt takes more than three seconds, and from an instant on every attempt has no error,
  -- then a wait is confirmed that begins before three seconds and an interval have passed from that
  -- instant, if its context is not done by then and the intervals reach the end of the context.
  pub wait-IsApproved :
      (turns now : ℕ) (last : Option String)
      → IsApproved
      → IsLimited
      → since + 3 * second + interval ≤ done_at
      → now < since + 3 * second + interval
      → done_at ≤ now + reach interval turns
      → (t : ℕ) × (wait_for_enrollment verify interval done_at (suc turns) now last
          ≡ some (confirmed t))
  unfolding wait_for_enrollment
  wait-IsApproved zero now last approved limited enough begun h = ground (arith, enough, begun, h)
  wait-IsApproved (suc turns) now last approved limited enough begun h =
      let made = attempt verify interval done_at now in
      let in_time : leb done_at now ≡ false = ground (arith, enough, begun) in
      let next = next_turn verify interval done_at (now + made.took) in
      let rest = wait_for_enrollment verify interval done_at (suc turns) next made.error in
      elim (Option-cases made.error) [
        | inl fine ↦ (
          now + made.took,
          rw in_time
              (after_attempt-none verify interval done_at (now + made.took) made.error rest fine),
        )
        | inr (e, error) ↦
            let early : now < since = failed-early now since made.error e (approved now) error in
            let (t, later) =
              wait-IsApproved turns next made.error approved limited enough
                (next_turn-approved now made.took (limited now) early enough)
                (next_turn-reach verify interval done_at turns now made.took h) in
            (
              t,
              rw in_time (
                    after_attempt-some verify interval done_at (now + made.took) made.error e rest
                      error)
                  ∙ later,
            )
      ]
