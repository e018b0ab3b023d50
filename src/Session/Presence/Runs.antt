-- ===== src/Session/Presence/Runs.antt =====
-- helper/session/main.go: what `presenceStep` does over a run of ticks.
use mathlib.Core.List.{Memᴰ}
use electric_eel.Base.{
  ℕ, suc, ◌+◌, ◌≤◌, ◌≡◌, ◌≢◌, ◌⊎◌, inl, inr, refl, Bool, true, false, List, [], ◌∷◌, arith, length,
  All, if◌then◌else◌,
}
use electric_eel.Base.Int.{pos, ◌≤ℤ◌}
use electric_eel.Session.Clock.{sub, longer}
use electric_eel.Session.Presence.{
  PresenceConfig, Presence, Tick, Action, arrive, depart, presence_live_near, presence_step,
  run_ticks, actions,
}
use electric_eel.Session.Presence.Laws.{Strong, arrive_iff}

abbrev pub near_count : Bool → ℕ
near_count true = 1
near_count false = 0

abbrev pub arrivals : List Action → ℕ
arrivals [] = 0
arrivals (arrive ∷ rest) = suc (arrivals rest)
arrivals (_ ∷ rest) = arrivals rest

abbrev pub departures : List Action → ℕ
departures [] = 0
departures (depart ∷ rest) = suc (departures rest)
departures (_ ∷ rest) = departures rest

step_balance :
    (cfg : PresenceConfig) (s : Presence) (t : Tick) (rest : List Action)
    → arrivals ((presence_step cfg s t).1 ∷ rest) + departures rest + near_count s.near
      ≡ departures ((presence_step cfg s t).1 ∷ rest)
        + arrivals rest
        + near_count (presence_step cfg s t).0.near
unfolding presence_step
step_balance cfg s t rest = ground arith

-- Over any run of ticks arrivals and departures alternate: their numbers differ by exactly the
-- change from away to near between the first state and the last.
pub arrivals-departures :
    (cfg : PresenceConfig) (s : Presence) (ts : List Tick)
    → arrivals (actions cfg s ts) + near_count s.near
      ≡ departures (actions cfg s ts) + near_count (run_ticks cfg s ts).near
unfolding actions run_ticks
arrivals-departures cfg s [] = omega arith
arrivals-departures cfg s (t ∷ ts) =
    let s' = (presence_step cfg s t).0 in
    omega (arith, step_balance cfg s t (actions cfg s' ts), arrivals-departures cfg s' ts)

-- how many samples at the end of a run are strong, after `n` strong ones before it
abbrev pub streak : PresenceConfig → ℕ → List Tick → ℕ
streak cfg n [] = n
streak cfg n (t ∷ ts) =
    streak cfg (if presence_live_near t.seen t.rssi cfg.near_rssi then n + 1 else 0) ts

step_streak :
    (cfg : PresenceConfig) (s : Presence) (t : Tick) (n : ℕ)
    → s.consec_near ≤ n
    → (presence_step cfg s t).0.consec_near
      ≤ (if presence_live_near t.seen t.rssi cfg.near_rssi then n + 1 else 0)
unfolding presence_step presence_live_near
step_streak cfg s t n h = ground arith

run_streak :
    (cfg : PresenceConfig) (s : Presence) (n : ℕ) (ts : List Tick)
    → s.consec_near ≤ n
    → (run_ticks cfg s ts).consec_near ≤ streak cfg n ts
unfolding run_ticks
run_streak cfg s n [] h = h
run_streak cfg s n (t ∷ ts) h =
    run_streak cfg (presence_step cfg s t).0 _ ts (step_streak cfg s t n h)

-- With a positive number of samples to confirm, when a run of ticks is followed by a tick that
-- declares arrival while the link is down, that tick is strong, and with it the strong samples in a
-- row at the end of the run reach that number.
arrive-streak :
    (cfg : PresenceConfig) (s : Presence) (ts : List Tick) (t : Tick)
    → pos 1 ≤ℤ cfg.near_confirm
    → (presence_step cfg (run_ticks cfg s ts) t).1 ≡ arrive
    → t.gatt_up ≡ false
    → Strong cfg t × (cfg.near_confirm ≤ℤ pos (streak cfg s.consec_near ts + 1))
arrive-streak cfg s ts t h a down = ground (
  arith,
  (arrive_iff cfg (run_ticks cfg s ts) t h).0 a,
  run_streak cfg s s.consec_near ts (omega arith),
)

step-Strong :
    (cfg : PresenceConfig) (s : Presence) (t : Tick)
    → s.near ≡ false
    → Strong cfg t
    → (arrive ≡ (presence_step cfg s t).1)
      ⊎ (((presence_step cfg s t).0.near ≡ false)
          × ((presence_step cfg s t).0.consec_near ≡ s.consec_near + 1)
          × (pos (s.consec_near + 2) ≤ℤ cfg.near_confirm))
unfolding presence_step presence_live_near
step-Strong cfg s t away strong = ground arith

-- From the away state a run of strong samples, not empty and long enough to reach the number to
-- confirm together with the strong samples counted before, contains an arrival.
pub strong-arrive :
    (cfg : PresenceConfig) (s : Presence) (t : Tick) (ts : List Tick)
    → s.near ≡ false
    → All (Strong cfg) (t ∷ ts)
    → cfg.near_confirm ≤ℤ pos (s.consec_near + length (t ∷ ts))
    → Memᴰ arrive (actions cfg s (t ∷ ts))
unfolding actions
strong-arrive cfg s t [] away strong long = elim (step-Strong cfg s t away strong.0) [
  | inl now ↦ Memᴰ.head now
  | inr later ↦ absurd (omega arith)
]
strong-arrive cfg s t (u ∷ ts) away strong long = elim (step-Strong cfg s t away strong.0) [
  | inl now ↦ Memᴰ.head now
  | inr later ↦
      Memᴰ.tail (strong-arrive cfg (presence_step cfg s t).0 u ts later.0 strong.1 (omega arith))
]

-- a tick that says nothing of the vehicle
abbrev pub Silent : PresenceConfig → Tick → Type 0
Silent cfg t = (presence_live_near t.seen t.rssi cfg.near_rssi ≡ false) × (t.gatt_up ≡ false)

step-Silent :
    (cfg : PresenceConfig) (s : Presence) (t : Tick)
    → s.near ≡ true
    → Silent cfg t
    → ((depart ≡ (presence_step cfg s t).1)
        ⊎ (((presence_step cfg s t).0.near ≡ true)
            × ((presence_step cfg s t).0.last_seen ≡ s.last_seen)))
      × (longer (sub t.now s.last_seen) cfg.far_timeout ≡ true → depart ≡ (presence_step cfg s t).1)
unfolding presence_step presence_live_near
step-Silent cfg s t near silent = ground arith

abbrev pub last_tick : Tick → List Tick → Tick
last_tick t [] = t
last_tick t (u ∷ ts) = last_tick u ts

-- From the near state a run of silent ticks, the last of them later than the timeout after the
-- vehicle was last seen, contains a departure.
pub silent-depart :
    (cfg : PresenceConfig) (s : Presence) (t : Tick) (ts : List Tick)
    → s.near ≡ true
    → All (Silent cfg) (t ∷ ts)
    → longer (sub (last_tick t ts).now s.last_seen) cfg.far_timeout ≡ true
    → Memᴰ depart (actions cfg s (t ∷ ts))
unfolding actions
silent-depart cfg s t [] near silent late = Memᴰ.head ((step-Silent cfg s t near silent.0).1 late)
silent-depart cfg s t (u ∷ ts) near silent late = elim ((step-Silent cfg s t near silent.0).0) [
  | inl now ↦ Memᴰ.head now
  | inr later ↦
      Memᴰ.tail
        (silent-depart cfg (presence_step cfg s t).0 u ts later.0 silent.1 (rw later.1 late))
]

step_alive :
    (cfg : PresenceConfig) (s : Presence) (t : Tick)
    → pos 0 ≤ℤ cfg.far_timeout
    → Strong cfg t ⊎ (t.gatt_up ≡ true)
    → (presence_step cfg s t).1 ≢ depart
unfolding presence_step presence_live_near
step_alive cfg s t h alive = ground arith

-- With a timeout that is not negative, a run in which every sample is strong or has the link up
-- declares no departure, whatever the state before it.
alive-departures :
    (cfg : PresenceConfig) (s : Presence) (ts : List Tick)
    → pos 0 ≤ℤ cfg.far_timeout
    → All (λ t. Strong cfg t ⊎ (t.gatt_up ≡ true)) ts
    → departures (actions cfg s ts) ≡ 0
unfolding actions
alive-departures cfg s [] h alive = refl
alive-departures cfg s (t ∷ ts) h alive = ground (
  arith,
  step_alive cfg s t h alive.0,
  alive-departures cfg (presence_step cfg s t).0 ts h alive.1,
)
