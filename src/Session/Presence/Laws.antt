-- ===== src/Session/Presence/Laws.antt =====
-- helper/session/main.go: what one `presenceStep` decides.
use electric_eel.Base.{◌+◌, ◌≡◌, ◌↔◌, ◌⊎◌, true, false, arith}
use electric_eel.Base.Int.{pos, ◌≤ℤ◌}
use electric_eel.Session.Clock.{sub, longer}
use electric_eel.Session.Presence.{
  PresenceConfig, Presence, Tick, arrive, depart, presence_live_near, presence_step,
}

-- the beacon was heard at or above the threshold
abbrev pub Strong : PresenceConfig → Tick → Type 0
Strong cfg t = presence_live_near t.seen t.rssi cfg.near_rssi ≡ true

module _ (cfg : PresenceConfig) (s : Presence) (t : Tick) where
  -- With a positive number of samples to confirm, a step declares arrival exactly when the vehicle
  -- was away and the link is up, or this sample is strong and the strong samples in a row reach
  -- that number.
  pub arrive_iff :
      pos 1 ≤ℤ cfg.near_confirm
      → ((presence_step cfg s t).1 ≡ arrive) ↔ (
          (s.near ≡ false)
          × ((t.gatt_up ≡ true) ⊎ (Strong cfg t × (cfg.near_confirm ≤ℤ pos (s.consec_near + 1)))))
  unfolding presence_step presence_live_near
  arrive_iff h = ground arith

  -- With a timeout that is not negative, a step declares departure exactly when the vehicle was
  -- near, this sample is not strong, the link is down, and the time since the last strong sample
  -- or live link is longer than the timeout.
  pub depart_iff :
      pos 0 ≤ℤ cfg.far_timeout
      → ((presence_step cfg s t).1 ≡ depart) ↔ (
          (s.near ≡ true)
          × (¬ Strong cfg t)
          × (t.gatt_up ≡ false)
          × (longer (sub t.now s.last_seen) cfg.far_timeout ≡ true))
  unfolding presence_step presence_live_near
  depart_iff h = ground arith
