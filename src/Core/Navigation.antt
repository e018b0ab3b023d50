-- ===== src/Core/Navigation.antt =====
-- helper/src/core.rs: a destination that is shared with the car, and its preview. `print` is how Rust
-- writes an `f64`.
use Prim.Native.String.{String}
use electric_eel.Base.{Bool, not, Option, none, some, List, [], ◌∷◌, if◌then◌else◌}
use electric_eel.Text.{Str, codes, is_empty}
use electric_eel.Client.{Client, Outcome, ran, failed, run}
use electric_eel.Share.Values.{Double, Destination, lat_lon, address, Library}
use electric_eel.Share.{Parsed, ok, err, ShareParseError, parse_shared_text}
use electric_eel.Core.{Core, World}

-- the kind and the two values that the page shows
pub record Preview : Type 0 where
  pub kind : Str
  pub value1 : Str
  pub value2 : Str

-- what `share_destination` returns
pub data ShareAnswer : Type 0 where
  answered : Bool → String → String → ShareAnswer
  not_parsed : ShareParseError → ShareAnswer
  busy vin_missing no_session session_failed : ShareAnswer

abbrev pub share_answer : Outcome → ShareAnswer
share_answer (ran success out log code) = answered success out log
share_answer (failed _) = session_failed

-- the request to the session, if there is one
unfoldable pub send_navigate : World → Option Client → Core → Core × ShareAnswer
send_navigate w none c = (c, no_session)
send_navigate w (some client) c =
    let (after, outcome) = run "navigate" w.asking client in
    (record c { session = some after }, share_answer outcome)

-- `share_destination` of a text that was parsed
unfoldable pub share_parsed : World → Parsed Destination → Core → Core × ShareAnswer
unfolding send_navigate
share_parsed w (err e) c = (c, not_parsed e)
share_parsed w (ok dest) c =
    if not w.permit
    then (c, busy)
    else if is_empty c.cfg.vin
    then (c, vin_missing)
    else send_navigate w c.session c

unfoldable pub share_destination : Library → World → Str → Core → Core × ShareAnswer
unfolding share_parsed parse_shared_text
share_destination lib w text c = share_parsed w (parse_shared_text lib text) c

module _ (print : Double → Str) where
  -- the arguments of the request
  abbrev pub destination_args : Destination → List Str
  destination_args (lat_lon lat lon) = codes "gps" ∷ print lat ∷ print lon ∷ []
  destination_args (address addr) = codes "address" ∷ addr ∷ []

  abbrev pub preview_of : Parsed Destination → Parsed Preview
  preview_of (err e) = err e
  preview_of (ok (lat_lon lat lon)) =
      ok (record { kind = codes "gps"; value1 = print lat; value2 = print lon })
  preview_of (ok (address addr)) =
      ok (record { kind = codes "address"; value1 = addr; value2 = [] })

  unfoldable pub preview_destination : Library → Str → Parsed Preview
  unfolding parse_shared_text
  preview_destination lib text = preview_of (parse_shared_text lib text)
