-- ===== src/Session/State/Backoff.antt =====
-- helper/session/main.go: the quiet period after a failed connection.
use Prim.Native.Nat.{min}
use native.Mathlib.Nat.{pow-suc}
use electric_eel.Base.{
  ℕ, zero, suc, ◌+◌, ◌*◌, ◌^◌, ◌≤◌, ◌<◌, ◌≡◌, ◌↔◌, refl, ap, ◌∙◌, true, List, [], ◌∷◌, arith,
  length,
}
use electric_eel.Session.Clock.{second}
use electric_eel.Session.State.{
  Session, max_backoff, next_backoff, schedule_connect_backoff, clear_connect_backoff,
  connect_backoff_active,
}

-- failures one after the other, at the given times
abbrev pub fail_at : List ℕ → Session → Session
fail_at [] s = s
fail_at (now ∷ times) s = fail_at times (schedule_connect_backoff now s)

-- the state of the period after the first failure and `k` more
abbrev pub doubled : ℕ → ℕ
doubled k = min (2 ^ k * second) max_backoff

pow_pos : (k : ℕ) → 1 ≤ 2 ^ k
pow_pos zero = omega arith
pow_pos (suc k) = rw pow-suc (omega (arith, pow_pos k))

next_doubled : (k : ℕ) → next_backoff (doubled k) ≡ doubled (suc k)
next_doubled k = rw (pow-suc 2 k) (ground (arith, pow_pos k))

fail_doubled :
    (k : ℕ) (times : List ℕ) (s : Session)
    → s.connect_backoff ≡ doubled k
    → (fail_at times s).connect_backoff ≡ doubled (k + length times)
unfolding schedule_connect_backoff
fail_doubled k [] s h = h ∙ ap doubled (omega arith)
fail_doubled k (now ∷ times) s h =
    fail_doubled (suc k) times (schedule_connect_backoff now s) (ap next_backoff h ∙ next_doubled k)
    ∙ ap doubled (omega arith)

-- After a success or a stop, the first failure asks for one second of quiet and each further one
-- doubles the period, up to one minute: after n + 1 failures in a row it is min (2 ^ n) 60 seconds.
fail_at-backoff :
    (now : ℕ) (times : List ℕ) (s : Session)
    → (fail_at (now ∷ times) (clear_connect_backoff s)).connect_backoff
      ≡ min (2 ^ length times * second) max_backoff
unfolding clear_connect_backoff schedule_connect_backoff
fail_at-backoff now times s =
    fail_doubled 0 times (schedule_connect_backoff now (clear_connect_backoff s)) refl
    ∙ ap doubled (omega arith)

-- After a failure at a time, the presence loop is held back at exactly the times before the end of
-- the period that the failure sets, at least one second and at most one minute later.
pub schedule-active :
    (now t : ℕ) (s : Session)
    → let s' = schedule_connect_backoff now s in
      ((connect_backoff_active t s' ≡ true) ↔ (t < now + s'.connect_backoff))
      × (second ≤ s'.connect_backoff)
      × (s'.connect_backoff ≤ max_backoff)
unfolding schedule_connect_backoff connect_backoff_active
schedule-active now t s = ground arith
