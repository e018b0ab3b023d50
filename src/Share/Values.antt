-- ===== src/Share/Values.antt =====
-- helper/src/share.rs: destinations, and pairs of coordinates.
use electric_eel.Base.{Bool, true, false, ◌&&◌, Option, none, some, List, [], ◌∷◌, if◌then◌else◌}
use electric_eel.Base.Int.{ℤ, pos, negsuc}
use electric_eel.Text.{Str, codes, is_empty, trim, trim_by}
use electric_eel.Text.Parts.{split, split_whitespace, has_char}
use electric_eel.Catalog.Items.{Number, decimal, leb_number}

-- an `f64`
pub data Double : Type 0 where
  finite : Number → Double
  not_finite : Double

pub data Destination : Type 0 where
  lat_lon : Double → Double → Destination
  address : Str → Destination

-- What is read of a URL: its path, the pairs of its query, and its fragment.
pub record ParsedUrl : Type 0 where
  pub path : Str
  pub query_pairs : List (Str × Str)
  pub fragment : Option Str

pub record Library : Type 0 where
  pub parse_url : Str → Option ParsedUrl
  pub parse_form : Str → List (Str × Str)
  pub parse_f64 : Str → Option Double

abbrev pub whole_number : ℤ → Number
whole_number n = decimal n 0

-- `(lo..=hi).contains(&v)`
abbrev pub within : ℤ → ℤ → Number → Bool
within lo hi v = leb_number (whole_number lo) v && leb_number v (whole_number hi)

unfoldable pub valid_latlon : Double → Double → Bool
unfolding leb_number
valid_latlon (finite lat) (finite lon) =
    within (negsuc 89) (pos 90) lat && within (negsuc 179) (pos 180) lon
valid_latlon (finite lat) not_finite = false
valid_latlon not_finite lon = false

-- `lat == 0.0`
abbrev pub is_zero : Double → Bool
is_zero not_finite = false
is_zero (finite v) = leb_number v (whole_number (pos 0)) && leb_number (whole_number (pos 0)) v

-- a pair if it is in range
unfoldable pub if_valid : Option Double → Option Double → Option (Double × Double)
unfolding valid_latlon
if_valid (some lat) (some lon) = if valid_latlon lat lon then some (lat, lon) else none
if_valid (some lat) none = none
if_valid none lon = none

abbrev pub both_parsed : Option Double → Option Double → Option (Double × Double)
both_parsed (some lat) (some lon) = some (lat, lon)
both_parsed (some lat) none = none
both_parsed none lon = none

abbrev pub valid_pair : Option (Double × Double) → Option (Double × Double)
valid_pair none = none
valid_pair (some (lat, lon)) = if valid_latlon lat lon then some (lat, lon) else none

abbrev pub brackets : Str
brackets = codes "()[]"

-- the two halves at the first kind of separator that occurs
unfoldable pub pair_parts : Str → List Str
unfolding split_whitespace
pair_parts s =
    if has_char s b','
    then split b',' s
    else if has_char s b';'
    then split b';' s
    else if has_char s b'~'
    then split b'~' s
    else if has_char s b'|'
    then split b'|' s
    else split_whitespace s

module _ (lib : Library) where
  -- exactly two parts, each a number
  unfoldable pub two_numbers : List Str → Option (Double × Double)
  unfolding trim
  two_numbers (a ∷ b ∷ []) = both_parsed (lib.parse_f64 (trim a)) (lib.parse_f64 (trim b))
  two_numbers _ = none

  unfoldable pub numeric_pair : Str → Option (Double × Double)
  unfolding pair_parts two_numbers trim trim_by
  numeric_pair text =
      let s = trim_by (has_char brackets) (trim text) in
      if is_empty s then none else two_numbers (pair_parts s)

  unfoldable pub parse_latlon_pair : Str → Option (Double × Double)
  unfolding numeric_pair valid_latlon
  parse_latlon_pair s = valid_pair (numeric_pair s)

  unfoldable pub looks_like_latlon_pair : Str → Bool
  unfolding numeric_pair
  looks_like_latlon_pair s = elim (numeric_pair s) [ none ↦ false | some _ ↦ true ]
