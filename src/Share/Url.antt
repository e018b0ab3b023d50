-- ===== src/Share/Url.antt =====
-- helper/src/share.rs: the destination of a map URL, by the structure of the URL.
use electric_eel.Base.{
  ℕ, zero, suc, ◌-◌, Bool, not, ◌||◌, Option, none, some, List, [], ◌∷◌, ◌++◌, ◌==◌, if◌then◌else◌,
  length,
}
use electric_eel.Text.{Str, codes, is_empty, is_ascii_digit, trim}
use electric_eel.Text.Parts.{
  split_by, split, strip_prefix, after_first, break_at, has_char, contains_any,
  eq_ignore_ascii_case,
}
use electric_eel.Share.Values.{
  Double, finite, not_finite, Destination, lat_lon, address, Library, if_valid, parse_latlon_pair,
}

abbrev pub or_else {ℓ} : {A : Type ℓ} → Option A → Option A → Option A
or_else none later = later
or_else (some a) later = some a

-- `filter(|v| !v.trim().is_empty())`
abbrev pub non_blank : Option Str → Option Str
non_blank none = none
non_blank (some v) = if is_empty (trim v) then none else some v

-- the value of the first pair whose key is `key`, but for the case of letters
unfoldable pub first_value : Str → List (Str × Str) → Option Str
unfolding eq_ignore_ascii_case
first_value key [] = none
first_value key ((k, v) ∷ pairs) =
    let later = first_value key pairs in if eq_ignore_ascii_case k key then some v else later

abbrev pub point : Option (Double × Double) → Option Destination
point none = none
point (some (lat, lon)) = some (lat_lon lat lon)

-- the first key of a list that occurs
abbrev pub find_value : List Str → List (Str × Str) → Option Str
find_value [] pairs = none
find_value (key ∷ keys) pairs = or_else (first_value key pairs) (find_value keys pairs)

abbrev pub lat_keys : List Str
lat_keys = codes "lat" ∷ codes "latitude" ∷ codes "mlat" ∷ []

abbrev pub lon_keys : List Str
lon_keys = codes "lon" ∷ codes "lng" ∷ codes "long" ∷ codes "longitude" ∷ codes "mlon" ∷ []

-- the characters of a pair behind `/@`
abbrev pub is_pair_char : ℕ → Bool
is_pair_char c = is_ascii_digit c || has_char (codes ".-,+") c

-- the number of characters of `s` before its end `rest`
abbrev pub consumed : Str → Str → ℕ
consumed s rest = length s - length rest

-- the candidate behind a marker of `url_path_at_coords`
abbrev pub behind_at : Str → Option Str
behind_at after = some after

abbrev pub behind_place : Str → Option Str
behind_place after = after_first (codes "/@") after

-- the text of a segment that is not bare
abbrev pub wrappers : Str
wrappers = codes "?&=@!"

-- what a segment that is bare pushes
abbrev pub finite_only : Option Double → Option Double
finite_only (some (finite v)) = some (finite v)
finite_only (some not_finite) = none
finite_only none = none

-- `flush` of a run of numbers: the pair that is the best afterwards
abbrev pub flush_run : List Double → Option (Double × Double) → Option (Double × Double)
flush_run (lat ∷ lon ∷ []) best = or_else (if_valid (some lat) (some lon)) best
flush_run _ best = best

abbrev pub first_part : List Str → Str
first_part [] = []
first_part (part ∷ _) = part

abbrev pub second_part : List Str → Str
second_part (_ ∷ part ∷ _) = part
second_part _ = []

-- the address that a text parameter is
abbrev pub text_address : Option Str → Option Destination
text_address none = none
text_address (some v) = if is_empty (trim v) then none else some (address (trim v))

abbrev pub fragment_of : Option Str → Str
fragment_of none = []
fragment_of (some fragment) = fragment

module _ (lib : Library) where
  -- `param(key).and_then(parse_latlon_pair)` for each of some keys
  unfoldable pub pair_of_keys : List Str → List (Str × Str) → Option Destination
  unfolding first_value
  pair_of_keys [] pairs = none
  pair_of_keys (key ∷ keys) pairs =
      let later = pair_of_keys keys pairs in
      elim (first_value key pairs) [
        | none ↦ later
        | some v ↦ or_else (point (parse_latlon_pair lib v)) later
      ]

  unfoldable pub destination_value : Str → Destination
  unfolding trim
  destination_value value = elim (parse_latlon_pair lib value) [
    | none ↦ address (trim value)
    | some (lat, lon) ↦ lat_lon lat lon
  ]

  abbrev pub destination_of : Option Str → Option Destination
  destination_of none = none
  destination_of (some v) = some (destination_value v)

  -- the first of some keys with a value that is not blank
  unfoldable pub explicit_destination : List Str → List (Str × Str) → Option Destination
  unfolding first_value destination_value
  explicit_destination [] pairs = none
  explicit_destination (key ∷ keys) pairs =
      or_else (destination_of (non_blank (first_value key pairs))) (explicit_destination keys pairs)

  abbrev pub parse_trimmed : Option Str → Option Double
  parse_trimmed none = none
  parse_trimmed (some v) = lib.parse_f64 (trim v)

  -- latitude and longitude in two parameters
  unfoldable pub split_params : List (Str × Str) → Option (Double × Double)
  unfolding first_value if_valid
  split_params pairs =
      if_valid (parse_trimmed (find_value lat_keys pairs))
        (parse_trimmed (find_value lon_keys pairs))

  -- the loop of `google_3d4d_coords`; the number is what is left to skip of a part that was read
  unfoldable pub google_loop : ℕ → Str → Option (Double × Double) → Option (Double × Double)
  unfolding strip_prefix after_first break_at if_valid
  google_loop skip [] result = result
  google_loop (suc skip) (c ∷ s) result = google_loop skip s result
  google_loop zero (c ∷ s) result = elim (strip_prefix (codes "!3d") (c ∷ s)) [
    | none ↦ google_loop zero s result
    | some after ↦
        let (lat, rest) = break_at (λ d. d == b'!') after in
        elim (after_first (codes "!4d") rest) [
          | none ↦ result
          | some behind ↦
              let (lon, end) = break_at (λ d. d == b'!') behind in
              google_loop (consumed s end) s
                (or_else (if_valid (lib.parse_f64 lat) (lib.parse_f64 lon)) result)
        ]
  ]

  unfoldable pub google_3d4d_coords : Str → Option (Double × Double)
  unfolding google_loop
  google_3d4d_coords path = google_loop zero path none

  -- the first two numbers of a list of parts
  abbrev pub leading_pair : List Str → Option (Double × Double)
  leading_pair (a ∷ b ∷ _) = if_valid (lib.parse_f64 a) (lib.parse_f64 b)
  leading_pair _ = none

  -- the pair at the beginning of a candidate
  unfoldable pub coords_at : Option Str → Option (Double × Double)
  unfolding break_at if_valid split_by
  coords_at none = none
  coords_at (some cand) = leading_pair (split b',' (break_at (λ c. not (is_pair_char c)) cand).0)

  -- the loop of `url_path_at_coords` for one marker
  unfoldable pub marker_loop : (Str → Option Str) → Str → ℕ → Str → Option (Double × Double)
  unfolding strip_prefix coords_at
  marker_loop behind marker skip [] = none
  marker_loop behind marker (suc skip) (c ∷ s) = marker_loop behind marker skip s
  marker_loop behind marker zero (c ∷ s) = elim (strip_prefix marker (c ∷ s)) [
    | none ↦ marker_loop behind marker zero s
    | some after ↦
        or_else (coords_at (behind after)) (marker_loop behind marker (consumed s after) s)
  ]

  unfoldable pub url_path_at_coords : Str → Option (Double × Double)
  unfolding marker_loop after_first
  url_path_at_coords path =
      or_else (marker_loop behind_at (codes "/@") zero path)
        (marker_loop behind_place (codes "/place/") zero path)

  abbrev pub bare_number : Str → Option Double
  bare_number seg =
      if contains_any wrappers seg then none else finite_only (lib.parse_f64 (trim seg))

  -- the loop of `slash_run_coords` over the segments
  unfoldable pub run_loop :
      List Str → List Double → Option (Double × Double) → Option (Double × Double)
  unfolding if_valid trim
  run_loop [] run best = flush_run run best
  run_loop (seg ∷ segs) run best = elim (bare_number seg) [
    | some v ↦ run_loop segs (run ++ v ∷ []) best
    | none ↦ run_loop segs [] (flush_run run best)
  ]

  unfoldable pub slash_run_coords : Str → Option (Double × Double)
  unfolding split_by run_loop
  slash_run_coords url =
      let path = first_part (split_by (has_char (codes "?#")) url) in
      let fragment = second_part (split b'#' url) in
      run_loop (split b'/' (path ++ b'#' ∷ fragment)) [] none

  -- `parse_map_url` of a URL that was read, with its parameters
  unfoldable pub destination_of_url : Str → Str → List (Str × Str) → Option Destination
  unfolding first_value pair_of_keys explicit_destination split_params google_3d4d_coords
      url_path_at_coords slash_run_coords
  destination_of_url url path params =
      or_else (explicit_destination (codes "pll" ∷ codes "destination" ∷ codes "daddr" ∷ []) params)
        (or_else (pair_of_keys (codes "q" ∷ codes "query" ∷ []) params) (
          or_else (point (google_3d4d_coords path)) (
            or_else (point (split_params params)) (
              or_else (pair_of_keys (codes "ll" ∷ codes "cp" ∷ []) params) (
                or_else (point (url_path_at_coords path)) (
                  or_else (point (slash_run_coords url)) (
                    or_else (text_address (first_value (codes "q") params))
                      (text_address (first_value (codes "query") params)))))))))

  unfoldable pub parse_map_url : Str → Option Destination
  unfolding destination_of_url
  parse_map_url url = elim (lib.parse_url url) [
    | none ↦ none
    | some parsed ↦
        destination_of_url url parsed.path
          (parsed.query_pairs ++ lib.parse_form (fragment_of parsed.fragment))
  ]
