-- ===== src/Session/Watch/Down.antt =====
-- helper/session/main.go: a link that BlueZ reports as disconnected is torn down at the second report.
use electric_eel.Base.{
  ℕ, suc, ◌≡◌, ap, ◌∙◌, arith, Bool, true, false, Option, some, [], ◌∷◌, ◌==◌, leb, if◌then◌else◌,
}
use electric_eel.Session.Presence.{PresenceConfig}
use electric_eel.Session.State.{
  UserPresence, Session, is_some, emit_event, reset_idle_timer, emit_inside,
}
use electric_eel.Session.Link.{Settings, Status, prime_vcsec, link_dropped}
use electric_eel.Session.Link.Connect.{IsDown}
use electric_eel.Session.Link.Invariant.{apply_all}
use electric_eel.Session.Watch.{
  elapsed, Scan, Turn, Loop, bluez_link, drop_link, prime_due, hold_session, hold, drop_held,
  after_read, after_wait, held_turn, scan_turn, turn, turns,
}

-- A turn with no other operation, at whose end the device is reported as disconnected; the vehicle would
-- answer to a request for its status.
abbrev pub reports_down : ℕ → ℕ → ℕ → UserPresence → Scan → Turn
reports_down seen_at now inside_at p scan = record {
  is_cancelled = false;
  before = [];
  signalled_before = false;
  held = record {
    meanwhile = [];
    seen_at = seen_at;
    wait = elapsed;
    connected = some false;
    now = now;
    answer = Status.status p;
    inside_at = inside_at;
  };
  scan = scan;
}

-- a live link of the bluez backend
pub record IsHeld (cfg : Settings) (link : ℕ) (s : Session) : Type 0 where
  pub bluez : cfg.bluez ≡ true
  pub vehicle : is_some s.car ≡ true
  pub same : s.conn ≡ some link

module _ (cfg : Settings) (pc : PresenceConfig) (link : ℕ) where
  emit_inside-IsHeld :
      (at : ℕ) (s : Session) → IsHeld cfg link s → IsHeld cfg link (emit_inside at s)
  unfolding emit_inside emit_event
  emit_inside-IsHeld at s held = record {
    bluez = held.bluez;
    vehicle = ground arith;
    same = ground arith;
  }

  prime_due-IsHeld :
      (p : UserPresence) (now : ℕ) (s : Session)
      → IsHeld cfg link s
      → IsHeld cfg link (prime_due cfg (Status.status p) now s)
  unfolding prime_vcsec
  prime_due-IsHeld p now s held = record {
    bluez = held.bluez;
    vehicle = ground arith;
    same = ground arith;
  }

  reset-IsHeld : (s : Session) → IsHeld cfg link s → IsHeld cfg link (reset_idle_timer s)
  unfolding reset_idle_timer
  reset-IsHeld s held = record { bluez = held.bluez; vehicle = held.vehicle; same = held.same }

  if-IsHeld :
      (b : Bool) (x y : Session)
      → IsHeld cfg link x
      → IsHeld cfg link y
      → IsHeld cfg link (if b then x else y)
  if-IsHeld true x y hx hy = hx
  if-IsHeld false x y hx hy = hy

  bluez_link-IsHeld : (s : Session) → IsHeld cfg link s → bluez_link cfg s ≡ some link
  bluez_link-IsHeld s held = rw (held.bluez) held.same

  dropped-IsDown : (s : Session) → IsDown (link_dropped s)
  unfolding link_dropped
  dropped-IsDown s = ground arith

  drop_link-IsDown : (s : Session) → IsHeld cfg link s → IsDown (drop_link cfg link s)
  drop_link-IsDown s held =
      let own : (link == link) ≡ true = ground arith in
      rw (bluez_link-IsHeld s held, own) (dropped-IsDown s)

  module _ (seen_at now inside_at : ℕ) (p : UserPresence) (scan : Scan) where
    hold_session-IsHeld :
        (s : Session)
        → IsHeld cfg link s
        → IsHeld cfg link (hold_session cfg (reports_down seen_at now inside_at p scan).held s)
    unfolding hold_session
    hold_session-IsHeld s held = emit_inside-IsHeld inside_at _ (
        if-IsHeld (is_some s.car) (reset_idle_timer (prime_due cfg (Status.status p) now s)) s
          (reset-IsHeld _ (prime_due-IsHeld p now s held)) held)

    -- the loop after the wait of such a turn
    abbrev moved : Loop → Loop
    moved l = record l { presence = record l.presence { near = true; last_seen = seen_at } }

    held_first :
        (l : Loop)
        → IsHeld cfg link l.session
        → turn cfg pc (reports_down seen_at now inside_at p scan) l
          ≡ held_turn cfg (reports_down seen_at now inside_at p scan).held l
    unfolding turn apply_all
    held_first l held =
        ap
          (λ (b : Bool).
            if b
            then held_turn cfg (reports_down seen_at now inside_at p scan).held l
            else scan_turn cfg pc scan l)
          held.vehicle

    down_turn :
        (l : Loop)
        → IsHeld cfg link l.session
        → turn cfg pc (reports_down seen_at now inside_at p scan) l
          ≡ after_read cfg
              (reports_down seen_at now inside_at p scan).held
              link
              (some false)
              (moved l)
    unfolding held_turn apply_all
    down_turn l held =
        held_first l held
        ∙ ap
            (λ (at : Option ℕ).
              after_wait cfg (reports_down seen_at now inside_at p scan).held elapsed at (moved l))
            (bluez_link-IsHeld l.session held)

    first_report :
        (l : Loop)
        → IsHeld cfg link l.session
        → l.link_down_streak ≡ 0
        → (l' : Loop) × (turn cfg pc (reports_down seen_at now inside_at p scan) l ≡ (l', true))
          × IsHeld cfg link l'.session
          × (l'.link_down_streak ≡ 1)
    first_report l held fresh =
        let h = (reports_down seen_at now inside_at p scan).held in
        let next = record (moved l) { link_down_streak = suc l.link_down_streak } in
        let early : leb 2 (suc l.link_down_streak) ≡ false = ground (arith, fresh) in
        (
          (hold cfg h next).0,
          down_turn l held
              ∙ ap (λ (b : Bool). if b then drop_held cfg link (moved l) else hold cfg h next)
                  early,
          hold_session-IsHeld l.session held,
          omega (arith, fresh),
        )

    second_report :
        (l : Loop)
        → IsHeld cfg link l.session
        → l.link_down_streak ≡ 1
        → (l' : Loop) × (turn cfg pc (reports_down seen_at now inside_at p scan) l ≡ (l', true))
          × IsDown l'.session
    unfolding drop_held
    second_report l held once =
        let h = (reports_down seen_at now inside_at p scan).held in
        let next = record (moved l) { link_down_streak = suc l.link_down_streak } in
        let late : leb 2 (suc l.link_down_streak) ≡ true = ground (arith, once) in
        (
          (drop_held cfg link (moved l)).0,
          down_turn l held
              ∙ ap (λ (b : Bool). if b then drop_held cfg link (moved l) else hold cfg h next) late,
          drop_link-IsDown l.session held,
        )

  -- When BlueZ reports a live link as disconnected in two turns in a row, where no other operation comes
  -- between and the vehicle answered its status in the first, then the vehicle and the link are gone after
  -- the second, and the link is still there after the first.
  pub turns-IsDown :
      (seen_at now inside_at seen_at' now' inside_at' : ℕ) (p p' : UserPresence) (scan scan' : Scan)
      (l : Loop)
      → IsHeld cfg link l.session
      → l.link_down_streak ≡ 0
      → let t = reports_down seen_at now inside_at p scan in
        let t' = reports_down seen_at' now' inside_at' p' scan' in
        IsHeld cfg link (turns cfg pc (t ∷ []) l).session
        × IsDown (turns cfg pc (t ∷ t' ∷ []) l).session
  unfolding turns
  turns-IsDown seen_at now inside_at seen_at' now' inside_at' p p' scan scan' l held fresh =
      let (l', first, kept, once) = first_report seen_at now inside_at p scan l held fresh in
      let (l'', second, gone) = second_report seen_at' now' inside_at' p' scan' l' kept once in
      (rw first kept, rw (first, second) gone)
