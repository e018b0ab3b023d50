-- ===== src/Session/Link/Tests.antt =====
-- helper/session/main.go: the session at concrete inputs.
use electric_eel.Base.{◌*◌, ◌≡◌, ◌⊎◌, inr, refl, true, false, none, some, List, [], ◌∷◌}
use electric_eel.Base.Int.{negsuc}
use electric_eel.Text.{Str, codes}
use electric_eel.Catalog.Items.{whole, decimal, leb_number}
use electric_eel.Share.{parse_shared_text}
use electric_eel.Share.Values.{finite, lat_lon}
use electric_eel.Share.Sample.{sample, sample-IsBounded, parse_strokes, print_strokes, parse-print}
use electric_eel.Core.Navigation.{destination_args}
use electric_eel.Session.Navigate.{Target, navigate_connect, after_connect, dispatch_navigate}
use electric_eel.Session.Navigate.Shared.{Names, dispatch_navigate-shared}
use electric_eel.Session.Clock.{second}
use electric_eel.Session.Presence.{default_presence_config}
use electric_eel.Session.Keygen.{
  KeyWorld, missing, unreadable, valid, is_forced, dispatch_keygen, dispatch_keygen_lem,
}
use electric_eel.Session.State.{Session, present, presence_unknown, stop_presence, teardown}
use electric_eel.Session.Link.{World, Settings, status, without_session, dispatch_command}
use electric_eel.Session.Link.Connect.{IsDown, dispatch-without_session}
use electric_eel.Session.Link.Consistent.{IsConsistent}
use electric_eel.Session.Link.Invariant.{
  Op, command, connect_near, inside, depart, start, apply_all, apply_all-IsConsistent,
}

abbrev no_world : KeyWorld
no_world = record { new_key = some "-----BEGIN PUBLIC KEY-----"; save_failed = none }

abbrev fresh : Session
fresh = record {
  car = none;
  conn = none;
  idle_timer = false;
  presence_cancel = none;
  presence_generation = 0;
  presence_cfg = default_presence_config;
  auth_responder = false;
  auth_inbox = none;
  last_beacon = none;
  last_beacon_at = 0;
  connect_backoff_until = 0;
  connect_backoff = 0;
  last_vcsec_prime = 0;
  connected_at = 0;
  last_user_presence = presence_unknown;
  inside_emitted = false;
  events = [];
}

abbrev running : Session
running = record fresh { presence_cancel = some 3; presence_generation = 3 }

abbrev settled : Session
settled = record running {
  car = some 1;
  conn = some 1;
  connected_at = 5;
  last_vcsec_prime = 60 * second;
  last_user_presence = present;
}

abbrev kind_world : World
kind_world = record {
  key_loads = true;
  bus_opens = true;
  adapter_starts = true;
  link_connects = some 1;
  vehicle_made = some 1;
  vehicle_connects = true;
  session_starts = true;
}

abbrev phone : Settings
phone = record { bluez = true; command_domain = λ cmd. none }

dispatch-without_session_example :
    IsDown (dispatch_command phone kind_world 9 "add-key-request" fresh).0
dispatch-without_session_example =
    dispatch-without_session phone kind_world 9 "add-key-request" fresh
      (unfold without_session in refl) (λ h. refl) (inr refl)

fresh-IsConsistent : IsConsistent fresh
fresh-IsConsistent = record {
  link = λ h. refl;
  clean = λ h. (refl, refl, refl);
  responder = refl;
  tapped = λ h. cc;
  newest = tt;
}

abbrev day : List Op
day =
    start default_presence_config
    ∷ connect_near kind_world (status present) 9 none
    ∷ command kind_world 12 "unlock"
    ∷ inside (60 * second)
    ∷ depart
    ∷ []

apply_all-IsConsistent_example : IsConsistent (apply_all phone day fresh)
apply_all-IsConsistent_example = apply_all-IsConsistent phone day fresh fresh-IsConsistent

running-IsConsistent : IsConsistent running
running-IsConsistent = record {
  link = λ h. refl;
  clean = λ h. (refl, refl, refl);
  responder = refl;
  tapped = λ h. cc;
  newest = refl;
}

dispatch_keygen_lem_example :
    let (st', response) = dispatch_keygen no_world ("-f" ∷ []) (fresh, unreadable) in
    ((is_forced ("-f" ∷ []) ≡ true)
      × (((response.ok ≡ false) × (st'.0 ≡ fresh))
          ⊎ ((response.ok ≡ true)
              × (st'.1 ≡ valid response.stdout)
              × (st'.0 ≡ teardown (stop_presence fresh)))))
    ⊎ ((is_forced ("-f" ∷ []) ≡ false)
        × (st'.0 ≡ fresh)
        × ((unreadable ≡ missing) ⊎ (st'.1 ≡ unreadable))
        × ((response.ok ≡ false) ⊎ (st'.1 ≡ valid response.stdout)))
dispatch_keygen_lem_example = dispatch_keygen_lem no_world ("-f" ∷ []) (fresh, unreadable)

-- a point that is shared, on its way to a vehicle that is not connected yet
abbrev shared_point : Str
shared_point = codes "geo:+1110,-10"

dispatch_navigate-shared_example :
    let point = lat_lon (finite (whole 3)) (finite (decimal (negsuc 0) 0)) in
    (target : Target) × Names point target
    × (dispatch_navigate parse_strokes phone kind_world 9 true
          (λ s. s)
          (destination_args print_strokes point)
          fresh
        ≡ after_connect true target (λ s. s) (navigate_connect phone kind_world 9 fresh))
unfolding parse_shared_text leb_number
dispatch_navigate-shared_example =
    dispatch_navigate-shared sample print_strokes parse_strokes (λ v read. parse-print v)
      shared_point (lat_lon (finite (whole 3)) (finite (decimal (negsuc 0) 0))) sample-IsBounded
      refl phone kind_world 9 true (λ s. s) fresh
