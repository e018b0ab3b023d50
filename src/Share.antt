-- ===== src/Share.antt =====
-- helper/src/share.rs: a destination out of a text that was shared. The URL library (`Url::parse` and
-- `form_urlencoded::parse`) and `str::parse::<f64>` are the record `Library`. A double is the decimal
-- number of its shortest text, or not finite; a zero has no sign.
pub mod Values
pub mod Url
pub mod Ranges
pub mod Sound
pub mod Sendable
pub mod PointTexts
pub mod Points
pub mod Maps
pub mod Sample
mod Tests
use Prim.Native.String.{String}
use electric_eel.Base.{
  ℕ, Bool, true, false, not, ◌&&◌, ◌||◌, Option, none, some, List, [], ◌∷◌, ◌==◌, ltb,
  if◌then◌else◌, length, drop, take,
}
use electric_eel.Text.{
  Str, codes, is_empty, is_whitespace, trim, trim_by, str_eq, to_ascii_lowercase,
}
use electric_eel.Text.Parts.{
  split_whitespace, lines, starts_with, break_at, has_char, eq_ignore_ascii_case,
}
use electric_eel.Share.Values.{
  Double, is_zero, Destination, lat_lon, address, parse_latlon_pair, looks_like_latlon_pair,
  Library,
}
use electric_eel.Share.Url.{non_blank, first_value, or_else, parse_map_url}

pub data ShareParseError : Type 0 where
  empty too_long out_of_range : ShareParseError

pub data Parsed {ℓ} (A : Type ℓ) : Type ℓ where
  ok : A → Parsed A
  err : ShareParseError → Parsed A

abbrev pub max_share_text_len : ℕ
max_share_text_len = 2000

-- the first line of some that is not blank, trimmed
abbrev pub first_filled : List Str → Option Str
first_filled [] = none
first_filled (line ∷ rest) =
    let later = first_filled rest in if is_empty (trim line) then later else some (trim line)

unfoldable pub first_non_empty_line : Str → Option Str
unfolding lines trim
first_non_empty_line s = first_filled (lines s)

-- the punctuation that is trimmed off a token
abbrev pub around_url : Str
around_url = codes "()<>\"'.,;!?:"

abbrev pub is_url : Str → Bool
is_url lower = starts_with (codes "http://") lower || starts_with (codes "https://") lower

-- `trim_matches` of a token, if it is an HTTP URL then
abbrev pub as_url : Str → Option Str
as_url token =
    let t = trim_by (has_char around_url) token in
    if is_url (to_ascii_lowercase t) then some t else none

abbrev pub first_url : List Str → Option Str
first_url [] = none
first_url (token ∷ tokens) = or_else (as_url token) (first_url tokens)

unfoldable pub first_url_token : Str → Option Str
unfolding split_whitespace trim_by to_ascii_lowercase
first_url_token s = first_url (split_whitespace s)

-- the rest of a text behind a prefix, but for the case of letters
unfoldable pub strip_prefix_case_insensitive : Str → Str → Option Str
unfolding eq_ignore_ascii_case
strip_prefix_case_insensitive s prefix =
    if eq_ignore_ascii_case (take (length prefix) s) prefix
    then some (drop (length prefix) s)
    else none

-- the text behind the first character of a text
abbrev pub tail : Str → Str
tail [] = []
tail (_ ∷ s) = s

-- the coordinates of the rest of a `geo:` URI, and its query
abbrev pub geo_parts : Str → Str × Option Str
geo_parts rest =
    let (coords, query) = break_at (λ c. c == b'?') rest in
    ((break_at (λ c. c == b';') coords).0, if is_empty query then none else some (tail query))

-- an address out of the query, if any
abbrev pub query_address : Option Str → Option Destination
query_address none = none
query_address (some addr) = some (address addr)

abbrev pub is_origin : Double → Double → Bool
is_origin lat lon = is_zero lat && is_zero lon

-- the destination of the coordinates that were read, and of the address in the query
abbrev pub geo_point : Double × Double → Option Str → Option Destination
geo_point (lat, lon) addr = if is_origin lat lon then query_address addr else some (lat_lon lat lon)

abbrev pub line_or : Str → Option Str → Str
line_or s none = s
line_or s (some line) = line

abbrev pub is_line : Option Str → Str → Bool
is_line none url = false
is_line (some line) url = str_eq line url

abbrev pub ok_or : Option Destination → Parsed Destination → Parsed Destination
ok_or none later = later
ok_or (some dest) later = ok dest

module _ (lib : Library) where
  abbrev pub query_of : Option Str → Option Str
  query_of none = none
  query_of (some q) = non_blank (first_value (codes "q") (lib.parse_form q))

  abbrev pub geo_destination : Str → Option Str → Parsed (Option Destination)
  geo_destination coords addr = elim (parse_latlon_pair lib coords) [
    | some pair ↦ ok (geo_point pair addr)
    | none ↦ if looks_like_latlon_pair lib coords then err out_of_range else ok (query_address addr)
  ]

  unfoldable pub parse_geo_uri : Str → Parsed (Option Destination)
  unfolding break_at parse_latlon_pair looks_like_latlon_pair trim first_value
  parse_geo_uri rest =
      let (coords, query) = geo_parts rest in geo_destination (trim coords) (query_of query)

  -- a pair of coordinates, or an address
  unfoldable pub parse_plain : Str → Parsed Destination
  unfolding parse_latlon_pair looks_like_latlon_pair
  parse_plain line = elim (parse_latlon_pair lib line) [
    | some (lat, lon) ↦ ok (lat_lon lat lon)
    | none ↦ if looks_like_latlon_pair lib line then err out_of_range else ok (address line)
  ]

  abbrev pub after_geo : Str → Parsed (Option Destination) → Parsed Destination
  after_geo line (err e) = err e
  after_geo line (ok (some dest)) = ok dest
  after_geo line (ok none) = parse_plain line

  -- the rest of a `geo:` URI, if the line is one
  unfoldable pub geo_or_plain : Str → Option Str → Parsed Destination
  unfolding parse_geo_uri parse_plain
  geo_or_plain line none = parse_plain line
  geo_or_plain line (some rest) = after_geo line (parse_geo_uri rest)

  -- the first line, as a `geo:` URI if it is one
  unfoldable pub parse_line : Str → Parsed Destination
  unfolding strip_prefix_case_insensitive geo_or_plain
  parse_line line = geo_or_plain line (strip_prefix_case_insensitive line (codes "geo:"))

  -- a URL in the text: its destination, or itself if it is the whole first line
  unfoldable pub shared_url : Option Str → Str → Option Destination
  unfolding parse_map_url str_eq
  shared_url line url =
      or_else (parse_map_url lib url) (if is_line line url then some (address url) else none)

  abbrev pub url_of : Option Str → Option Str → Option Destination
  url_of line none = none
  url_of line (some url) = shared_url line url

  -- a text that is trimmed and not empty
  unfoldable pub parse_trimmed_text : Str → Parsed Destination
  unfolding shared_url parse_line first_non_empty_line first_url_token
  parse_trimmed_text s =
      let line = first_non_empty_line s in
      ok_or (url_of line (first_url_token s)) (parse_line (line_or s line))

  unfoldable pub parse_shared_text : Str → Parsed Destination
  unfolding parse_trimmed_text trim
  parse_shared_text input =
      if ltb max_share_text_len (length input)
      then err too_long
      else if is_empty (trim input)
      then err empty
      else parse_trimmed_text (trim input)
