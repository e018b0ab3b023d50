-- ===== src/Session/Clock.antt =====
-- Instants and durations of the session child. An instant is a number of nanoseconds, with 0 for
-- Go's zero `time.Time`; a duration is an `int64` number of nanoseconds.
use electric_eel.Base.{ℕ, ◌-◌, Bool, ltb, ◌==◌, if◌then◌else◌}
use electric_eel.Base.Int.{ℤ, pos, negsuc, sub_ℕ, ltb_ℤ}

abbrev pub second : ℕ
second = 1_000_000_000

abbrev pub max_duration : ℕ
max_duration = 9_223_372_036_854_775_807

-- `now.Sub(t)`, which saturates at the ends of `int64`
abbrev pub sub : ℕ → ℕ → ℤ
sub now t =
    if ltb max_duration (now - t)
    then pos max_duration
    else if ltb max_duration (t - now)
    then negsuc max_duration
    else sub_ℕ now t

-- `d > e`
abbrev pub longer : ℤ → ℤ → Bool
longer d e = ltb_ℤ e d

abbrev pub is_zero : ℕ → Bool
is_zero t = t == 0
