-- ===== src/Session/Enrollment/Waits.antt =====
-- helper/session/pairing.go: the wait for an enrollment ends, and what it has seen by then.
use Prim.Native.String.{String}
use electric_eel.Base.{
  ℕ, zero, suc, ◌+◌, ◌≤◌, ◌≡◌, ◌⊎◌, inl, inr, refl, ◌∙◌, arith, true, false, Option, none, some,
  leb, Bool-cases, Option-cases,
}
use electric_eel.Session.Enrollment.{
  Attempt, Enrollment, confirmed, unconfirmed, attempt, next_turn, after_attempt,
  wait_for_enrollment,
}

-- how far a number of intervals goes
abbrev pub reach : ℕ → ℕ → ℕ
reach interval zero = 0
reach interval (suc n) = interval + reach interval n

module _ (verify : ℕ → ℕ → Attempt) (interval done_at : ℕ) where
  pub after_attempt-none :
      (finished : ℕ) (error : Option String) (rest : Option Enrollment)
      → error ≡ none
      → after_attempt verify interval done_at finished error rest ≡ some (confirmed finished)
  after_attempt-none finished none rest h = refl
  after_attempt-none finished (some e) rest h = cc

  pub after_attempt-some :
      (finished : ℕ) (error : Option String) (e : String) (rest : Option Enrollment)
      → error ≡ some e
      → after_attempt verify interval done_at finished error rest ≡ rest
  after_attempt-some finished none e rest h = cc
  after_attempt-some finished (some _) e rest h = refl

  -- a confirmed wait has seen an attempt without an error that began in time; one that is not
  -- confirmed lasts until the context is done, and its error is the first one or that of an attempt
  abbrev pub Ends : Option String → Enrollment → Type 0
  Ends last (confirmed t) =
      (u : ℕ) × (leb done_at u ≡ false)
      × ((attempt verify interval done_at u).error ≡ none)
      × (t ≡ u + (attempt verify interval done_at u).took)
  Ends last (unconfirmed t e) =
      (leb done_at t ≡ true)
      × ((e ≡ last)
          ⊎ ((u : ℕ) × (leb done_at u ≡ false) × (e ≡ (attempt verify interval done_at u).error)))

  Ends-later :
      (last : Option String) (now : ℕ) (r : Enrollment)
      → leb done_at now ≡ false
      → Ends (attempt verify interval done_at now).error r
      → Ends last r
  Ends-later last now (confirmed t) in_time h = h
  Ends-later last now (unconfirmed t e) in_time (over, inl is) = (over, inr (now, in_time, is))
  Ends-later last now (unconfirmed t e) in_time (over, inr is) = (over, inr is)

  pub next_turn-reach :
      (turns now took : ℕ)
      → done_at ≤ now + reach interval (suc turns)
      → done_at ≤ next_turn verify interval done_at (now + took) + reach interval turns
  next_turn-reach turns now took h = ground (arith, h)

  -- With one turn more than the intervals up to the end of the context, the wait ends.
  pub wait-Ends :
      (turns now : ℕ) (last : Option String)
      → done_at ≤ now + reach interval turns
      → (r : Enrollment) × (wait_for_enrollment verify interval done_at (suc turns) now last
          ≡ some r)
        × Ends last r
  unfolding wait_for_enrollment
  wait-Ends zero now last h =
      let over : leb done_at now ≡ true = ground (arith, h) in
      (unconfirmed now last, rw over refl, (over, inl refl))
  wait-Ends (suc turns) now last h = elim (Bool-cases (leb done_at now)) [
    | inl over ↦ (unconfirmed now last, rw over refl, (over, inl refl))
    | inr in_time ↦
        let made = attempt verify interval done_at now in
        elim (Option-cases made.error) [
          | inl fine ↦ (
            confirmed (now + made.took),
            rw in_time (
                after_attempt-none (now + made.took) made.error
                  (wait_for_enrollment verify interval done_at (suc turns)
                    (next_turn verify interval done_at (now + made.took)) made.error)
                  fine),
            (now, in_time, fine, refl),
          )
          | inr (e, error) ↦
              let next = next_turn verify interval done_at (now + made.took) in
              let (r, rest, ends) =
                wait-Ends turns next made.error (next_turn-reach turns now made.took h) in
              (
                r,
                rw in_time (
                      after_attempt-some (now + made.took) made.error e
                        (wait_for_enrollment verify interval done_at (suc turns) next made.error)
                        error)
                    ∙ rest,
                Ends-later last now r in_time ends,
              )
        ]
  ]
