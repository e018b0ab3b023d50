-- ===== src/Session/Link/Connect.antt =====
-- helper/session/main.go: what `ensureConnectedLocked` and `dispatch` leave behind.
use Prim.Native.String.{String}
use electric_eel.Base.{ℕ, ◌≡◌, ◌⊎◌, true, false, Option, none, some, arith}
use electric_eel.Session.State.{
  ScanResult, Session, is_some, presence_target_ready, presence_beacon_target,
}
use electric_eel.Session.Link.{
  not_nearby, World, Settings, without_session, reuse, connect_fresh, open_link, make_vehicle,
  handshake, reuse, ensure_connected, dispatch_command,
}

-- no vehicle and no link are cached
abbrev pub IsDown : Session → Type 0
IsDown s = (s.car ≡ none) × (s.conn ≡ none)

module _ (cfg : Settings) (w : World) (now : ℕ) (cmd : String) where
  reuse-live : (s : Session) → is_some s.car ≡ true → is_some (reuse cfg w cmd s).0.car ≡ true
  unfolding reuse
  reuse-live s h = ground arith

  fresh_cases :
      (s : Session)
      → IsDown s
      → (((connect_fresh cfg w now cmd s).1 ≡ none)
          × (is_some (connect_fresh cfg w now cmd s).0.car ≡ true))
        ⊎ ((is_some (connect_fresh cfg w now cmd s).1 ≡ true)
            × IsDown (connect_fresh cfg w now cmd s).0)
  unfolding connect_fresh open_link make_vehicle handshake
  fresh_cases s down = ground arith

  -- From a session that has no link without a vehicle, `ensureConnectedLocked` either reports no
  -- error, and then there is a live vehicle; or it reports one, and then there was a live vehicle
  -- before, or there is neither a vehicle nor a link afterwards.
  ensure_connected_lem :
      (target : Option ScanResult) (s : Session)
      → (s.car ≡ none → s.conn ≡ none)
      → let (s', err) = ensure_connected cfg w now cmd target s in
        ((err ≡ none) × (is_some s'.car ≡ true))
        ⊎ ((is_some err ≡ true) × ((is_some s.car ≡ true) ⊎ IsDown s'))
  unfolding ensure_connected reuse
  ensure_connected_lem target s h = ground (arith, reuse-live s, fresh_cases s)

  -- While presence mode runs on the bluez backend and there is no live vehicle, a command whose
  -- target is not a recent strong beacon is refused, whatever the radio and the vehicle would
  -- answer, and the session is unchanged.
  ensure_connected_away :
      (target : Option ScanResult) (s : Session)
      → s.car ≡ none
      → is_some s.presence_cancel ≡ true
      → cfg.bluez ≡ true
      → presence_target_ready target now s ≡ false
      → ensure_connected cfg w now cmd target s ≡ (s, some not_nearby)
  unfolding ensure_connected
  ensure_connected_away target s down running bluez away = ground arith

  -- A command that runs without an authenticated session leaves no vehicle and no link behind when
  -- it got a connection, and also when it did not, if there was none before: the connection, which
  -- was never authenticated, is not reused.
  pub dispatch-without_session :
      (s : Session)
      → without_session cmd ≡ true
      → (s.car ≡ none → s.conn ≡ none)
      → ((dispatch_command cfg w now cmd s).1 ≡ none) ⊎ (s.car ≡ none)
      → IsDown (dispatch_command cfg w now cmd s).0
  unfolding dispatch_command
  dispatch-without_session s pairing h reason =
      ground (arith, ensure_connected_lem (presence_beacon_target s) s h)
