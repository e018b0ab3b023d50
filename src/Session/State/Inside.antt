-- ===== src/Session/State/Inside.antt =====
-- helper/session/main.go: the event that says that the vehicle reports its user inside.
use electric_eel.Base.{ℕ, ◌+◌, ◌*◌, ◌≤◌, ◌<◌, ◌≡◌, ◌⊎◌, ◌↔◌, true, false, [], ◌∷◌, ◌++◌, arith}
use electric_eel.Session.State.{
  Session, presence_inside, present, is_some, ready_for_inside, emit_inside, inside_settle_duration,
  vcsec_prime_interval,
}

-- The settled report: present, connected for 45 seconds, and a status of the last 30 seconds.
abbrev pub Settled : Session → ℕ → Type 0
Settled s now =
    (0 < s.connected_at)
    × (0 < s.last_vcsec_prime)
    × (s.last_user_presence ≡ present)
    × (s.connected_at + inside_settle_duration ≤ now)
    × (s.last_vcsec_prime ≤ now)
    × (now ≤ s.last_vcsec_prime + 2 * vcsec_prime_interval)

ready_iff :
    (s : Session) (now : ℕ)
    → (ready_for_inside s.connected_at s.last_vcsec_prime now s.last_user_presence ≡ true)
      ↔ Settled s now
unfolding ready_for_inside
ready_iff s now = ground arith

-- the link is up, presence mode runs, the event has not been sent on this link, and it is settled
abbrev pub IsDue : Session → ℕ → Type 0
IsDue s now =
    (is_some s.car ≡ true)
    × (is_some s.presence_cancel ≡ true)
    × (s.inside_emitted ≡ false)
    × Settled s now

-- The loop's call sends `presence_inside` and marks it as sent exactly when it is due (a live
-- vehicle, presence mode, not sent on this link, connected for 45 seconds, and a status of the last
-- 30 seconds that says that the user is present); in any other case it changes nothing.
pub emit_inside_lem :
    (s : Session) (now : ℕ)
    → (IsDue s now
        × (emit_inside now s
            ≡ record s { inside_emitted = true; events = s.events ++ presence_inside ∷ [] }))
      ⊎ ((¬ IsDue s now) × (emit_inside now s ≡ s))
unfolding emit_inside
emit_inside_lem s now = ground arith
