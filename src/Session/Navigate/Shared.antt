-- ===== src/Session/Navigate/Shared.antt =====
-- helper/session/navigate.go and helper/src/core.rs: the child accepts what the core sends for a text that
-- was shared.
use electric_eel.Base.{ℕ, ◌≡◌, refl, ap, arith, Bool, true, Option, some}
use electric_eel.Text.{Str, trim}
use electric_eel.Text.Lengths.{length-trim}
use electric_eel.Catalog.Items.{Number}
use electric_eel.Share.Values.{
  Double, finite, not_finite, Destination, lat_lon, address, Library, valid_latlon,
}
use electric_eel.Share.{ok, max_share_text_len, parse_shared_text}
use electric_eel.Share.Ranges.{IsRead}
use electric_eel.Share.Sound.{IsBounded, IsSendable, IsText}
use electric_eel.Share.Sendable.{Explains, parse_shared_text_lem}
use electric_eel.Core.Navigation.{destination_args}
use electric_eel.Session.State.{Session}
use electric_eel.Session.Link.{World, Settings}
use electric_eel.Session.Navigate.{
  Target, gps, text, Checked, valid, check_range, check_text, check_navigate, navigate_connect,
  after_connect, go_on, dispatch_navigate,
}

-- what the vehicle is told names the destination
abbrev pub Names : Destination → Target → Type 0
Names (lat_lon lat lon) (gps x y) = (lat ≡ finite x) × (lon ≡ finite y)
Names (address s) (text t) = t ≡ trim s
Names (lat_lon lat lon) (text t) = ⊥
Names (address s) (gps x y) = ⊥

-- Go reads what Rust prints for a finite double that it has read
abbrev pub ReadsBack : Library → (Double → Str) → (Str → Option Double) → Type 0
ReadsBack lib print go =
    (v : Number) → IsRead lib (finite v) → go (trim (print (finite v))) ≡ some (finite v)

check_range-valid :
    (lat lon : Number)
    → valid_latlon (finite lat) (finite lon) ≡ true
    → check_range lat lon ≡ valid (gps lat lon)
unfolding valid_latlon check_range
check_range-valid lat lon h = ground (arith, h)

check_text-valid :
    (s : Str) → IsText max_share_text_len s → check_text (trim s) ≡ valid (text (trim s))
check_text-valid s (filled, short) = ground (arith, filled, short, length-trim s)

module _ (lib : Library) (print : Double → Str) (go : Str → Option Double)
    (reads : ReadsBack lib print go) where
  check_navigate-valid :
      (dest : Destination)
      → IsSendable lib max_share_text_len dest
      → (target : Target) × (check_navigate go (destination_args print dest) ≡ valid target)
        × Names dest target
  unfolding check_navigate valid_latlon
  check_navigate-valid (address s) h = (text (trim s), check_text-valid s h, refl)
  check_navigate-valid (lat_lon not_finite lon) h = cc
  check_navigate-valid (lat_lon (finite lat) not_finite) h = cc
  check_navigate-valid (lat_lon (finite lat) (finite lon)) h =
      (gps lat lon, rw (reads lat h.1, reads lon h.2) (check_range-valid lat lon h.0), (refl, refl))

  ok-IsSendable :
      (shared : Str) (dest : Destination)
      → IsBounded lib
      → parse_shared_text lib shared ≡ ok dest
      → IsSendable lib max_share_text_len dest
  ok-IsSendable shared dest bounded parsed =
      let explained = parse_shared_text_lem lib shared bounded in
      (rw (parsed, Explains) at explained).2

  -- If decoding makes no text longer, and Go reads back the finite doubles that Rust prints, then the
  -- request to navigate that the core makes of a shared text is never refused by the checks of the child:
  -- it goes on to connect, with the coordinates that were parsed or the trimmed address.
  pub dispatch_navigate-shared :
      (shared : Str) (dest : Destination)
      → IsBounded lib
      → parse_shared_text lib shared ≡ ok dest
      → (cfg : Settings) (w : World) (now : ℕ) (sent : Bool) (meanwhile : Session → Session)
        (s : Session)
      → (target : Target) × Names dest target
        × (dispatch_navigate go cfg w now sent meanwhile (destination_args print dest) s
            ≡ after_connect sent target meanwhile (navigate_connect cfg w now s))
  unfolding dispatch_navigate
  dispatch_navigate-shared shared dest bounded parsed cfg w now sent meanwhile s =
      let (target, accepted, named) =
        check_navigate-valid dest (ok-IsSendable shared dest bounded parsed) in
      (target, named, ap (λ (checked : Checked). go_on cfg w now sent meanwhile checked s) accepted)
