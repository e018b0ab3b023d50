-- ===== src/Session/Navigate.antt =====
-- helper/session/navigate.go: the request to navigate. `strconv.ParseFloat` is a parameter, whose answer
-- is not finite for NaN and the infinities; a text is the list of its code points, which are Go's runes.
-- Between the connection and the command the lock is released, so each is a step of its own.
pub mod Shared
use electric_eel.Base.{
  ℕ, Bool, true, false, not, ◌||◌, Option, none, some, List, [], ◌∷◌, ltb, length, if◌then◌else◌,
}
use electric_eel.Base.Int.{ℤ, pos, negsuc}
use electric_eel.Text.{Str, codes, is_empty, trim, str_eq}
use electric_eel.Catalog.Items.{Number, leb_number}
use electric_eel.Share.Values.{Double, finite, not_finite, whole_number}
use electric_eel.Session.State.{Session, is_some, presence_beacon_target, reset_idle_timer}
use electric_eel.Session.Link.{World, Settings, LinkError, ensure_connected}

abbrev pub max_navigate_text_len : ℕ
max_navigate_text_len = 2000

-- what the vehicle is told
pub data Target : Type 0 where
  gps : Number → Number → Target
  text : Str → Target

-- the errors with the exit code 2
pub data UsageError : Type 0 where
  missing_kind gps_arguments invalid_lat invalid_lon out_of_range : UsageError
  address_arguments invalid_text unknown_kind : UsageError

pub data Checked : Type 0 where
  valid : Target → Checked
  usage : UsageError → Checked

-- `lo <= v && v <= hi`, as the source denies it
abbrev pub outside : ℤ → ℤ → Number → Bool
outside lo hi v = not (leb_number (whole_number lo) v) || not (leb_number v (whole_number hi))

-- the check of the range
unfoldable pub check_range : Number → Number → Checked
unfolding leb_number
check_range lat lon =
    if outside (negsuc 89) (pos 90) lat || outside (negsuc 179) (pos 180) lon
    then usage out_of_range
    else valid (gps lat lon)

abbrev pub check_lon : Number → Option Double → Checked
check_lon lat (some (finite lon)) = check_range lat lon
check_lon lat (some not_finite) = usage invalid_lon
check_lon lat none = usage invalid_lon

abbrev pub check_gps : Option Double → Option Double → Checked
check_gps (some (finite lat)) lon = check_lon lat lon
check_gps (some not_finite) lon = usage invalid_lat
check_gps none lon = usage invalid_lat

abbrev pub check_text : Str → Checked
check_text s =
    if is_empty s || ltb max_navigate_text_len (length s)
    then usage invalid_text
    else valid (text s)

module _ (parse_float : Str → Option Double) where
  abbrev pub gps_case : List Str → Checked
  gps_case (lat ∷ lon ∷ []) = check_gps (parse_float (trim lat)) (parse_float (trim lon))
  gps_case _ = usage gps_arguments

  abbrev pub address_case : List Str → Checked
  address_case (s ∷ []) = check_text (trim s)
  address_case _ = usage address_arguments

  -- the checks before the connection
  unfoldable pub check_navigate : List Str → Checked
  unfolding check_range trim str_eq
  check_navigate [] = usage missing_kind
  check_navigate (kind ∷ args) =
      if str_eq kind (codes "gps")
      then gps_case args
      else if str_eq kind (codes "address")
      then address_case args
      else usage unknown_kind

pub data NavigateAnswer : Type 0 where
  started : Target → NavigateAnswer
  refused : UsageError → NavigateAnswer
  not_connected : LinkError → NavigateAnswer
  session_lost not_sent : NavigateAnswer

-- the connection, with the empty name of a command
unfoldable pub navigate_connect : Settings → World → ℕ → Session → Session × Option LinkError
unfolding ensure_connected presence_beacon_target
navigate_connect cfg w now s = ensure_connected cfg w now "" (presence_beacon_target s) s

-- the command over the connection, if there is one still; `sent` is whether the vehicle took it
unfoldable pub navigate_send : Bool → Target → Session → Session × NavigateAnswer
unfolding reset_idle_timer
navigate_send sent target s =
    if not (is_some s.car)
    then (s, session_lost)
    else if sent
    then (reset_idle_timer s, started target)
    else (s, not_sent)

abbrev pub after_connect :
    Bool → Target → (Session → Session) → Session × Option LinkError → Session × NavigateAnswer
after_connect sent target meanwhile (s, some e) = (s, not_connected e)
after_connect sent target meanwhile (s, none) = navigate_send sent target (meanwhile s)

abbrev pub go_on :
    Settings → World → ℕ → Bool → (Session → Session) → Checked → Session → Session × NavigateAnswer
go_on cfg w now sent meanwhile (usage e) s = (s, refused e)
go_on cfg w now sent meanwhile (valid target) s =
    after_connect sent target meanwhile (navigate_connect cfg w now s)

-- `dispatchNavigate`, where `meanwhile` is what other operations do between its two steps
unfoldable pub dispatch_navigate :
    (Str → Option Double)
    → Settings
    → World
    → ℕ
    → Bool
    → (Session → Session)
    → List Str
    → Session
    → Session × NavigateAnswer
unfolding check_navigate navigate_connect navigate_send
dispatch_navigate parse_float cfg w now sent meanwhile args s =
    go_on cfg w now sent meanwhile (check_navigate parse_float args) s
