-- ===== src/Session/Presence.antt =====
-- helper/session/main.go: `presenceStep`, the decision core of the phone-key loop, and its
-- configuration. Signal strengths are `int16` in dBm; the counter of near samples is an `int` that
-- gains one in a tick, and is not bounded here.
pub mod Laws
pub mod Runs
mod Tests
use electric_eel.Base.{ℕ, suc, ◌+◌, ◌*◌, Bool, true, false, ◌&&◌, not, List, [], ◌∷◌, if◌then◌else◌}
use electric_eel.Base.Int.{ℤ, pos, negsuc, leb_ℤ}
use electric_eel.Session.Clock.{second, sub, longer}

pub record PresenceConfig : Type 0 where
  pub near_rssi : ℤ
  pub near_confirm : ℤ
  pub far_timeout : ℤ
  pub scan_interval : ℤ

abbrev pub default_presence_config : PresenceConfig
default_presence_config = record {
  near_rssi = negsuc 89;
  near_confirm = pos 1;
  far_timeout = pos (15 * second);
  scan_interval = pos (2 * second);
}

pub data Action : Type 0 where
  no_action arrive stay_near depart : Action

-- the state that the loop carries from tick to tick
pub record Presence : Type 0 where
  pub near : Bool
  pub consec_near : ℕ
  pub last_seen : ℕ

-- one tick: the time, whether the beacon was seen, its strength, and whether the link is up
pub record Tick : Type 0 where
  pub now : ℕ
  pub seen : Bool
  pub rssi : ℤ
  pub gatt_up : Bool

unfoldable pub presence_live_near : Bool → ℤ → ℤ → Bool
presence_live_near live rssi near_rssi = live && leb_ℤ near_rssi rssi

-- the sample of the tick is taken into the state
pub sample : PresenceConfig → Presence → Tick → Presence
sample cfg s t =
    if t.seen && leb_ℤ cfg.near_rssi t.rssi
    then record s { last_seen = t.now; consec_near = s.consec_near + 1 }
    else if t.gatt_up
    then record s { last_seen = t.now; consec_near = 0 }
    else record s { consec_near = 0 }

-- the `switch` of `presenceStep`
pub decide_action : PresenceConfig → Presence → Tick → Presence × Action
decide_action cfg s t =
    if not s.near && leb_ℤ cfg.near_confirm (pos s.consec_near)
    then (record s { near = true; consec_near = 0 }, arrive)
    else if not s.near && t.gatt_up
    then (record s { near = true; consec_near = 0 }, arrive)
    else if s.near && longer (sub t.now s.last_seen) cfg.far_timeout
    then (record s { near = false; consec_near = 0 }, depart)
    else if s.near
    then (s, stay_near)
    else (s, no_action)

unfoldable pub presence_step : PresenceConfig → Presence → Tick → Presence × Action
unfolding sample decide_action
presence_step cfg s t = decide_action cfg (sample cfg s t) t

-- the verdicts of a run of ticks, and the state after it
unfoldable pub run_ticks : PresenceConfig → Presence → List Tick → Presence
run_ticks cfg s [] = s
run_ticks cfg s (t ∷ ts) = run_ticks cfg (presence_step cfg s t).0 ts

unfoldable pub actions : PresenceConfig → Presence → List Tick → List Action
actions cfg s [] = []
actions cfg s (t ∷ ts) = (presence_step cfg s t).1 ∷ actions cfg (presence_step cfg s t).0 ts
