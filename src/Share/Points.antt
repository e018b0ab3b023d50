-- ===== src/Share/Points.antt =====
-- helper/src/share.rs: a point that is written down is read back.
use electric_eel.Base.{
  ℕ, ◌≤◌, ◌≡◌, refl, ap, ◌∙◌, arith, true, false, not, Option, none, some, [], ◌∷◌, ◌++◌, ◌==◌,
  length, all, and-eq_true,
}
use electric_eel.Text.{
  Str, codes, is_empty, is_whitespace, trim, trim_by, to_ascii_lowercase, str_eq,
}
use electric_eel.Text.Parts.{has_char, eq_ignore_ascii_case}
use electric_eel.Text.Plain.{IsAll-mono, trim_by-none, break_at-none, trim-none}
use electric_eel.Share.Values.{
  Double, lat_lon, Library, valid_latlon, brackets, two_numbers, numeric_pair, parse_latlon_pair,
}
use electric_eel.Share.{
  ok, max_share_text_len, strip_prefix_case_insensitive, geo_parts, is_origin, geo_point, query_of,
  geo_destination, parse_geo_uri, parse_plain, after_geo, geo_or_plain, parse_line,
  parse_shared_text,
}
use electric_eel.Share.PointTexts.{
  is_number_char, is_point_char, IsNumberText, point_text, point-filled, point-bare, point-path,
  point-part, point_text-IsAll, parse_shared_text-line, pair_parts-point, number-trim,
}

is_empty-point : (a b : Str) → is_empty (point_text a b) ≡ false
is_empty-point [] b = refl
is_empty-point (c ∷ a) b = refl

module _ (lib : Library) (a b : Str) (lat lon : Double) (ha : IsNumberText a) (hb : IsNumberText b)
    (reads_lat : lib.parse_f64 a ≡ some lat) (reads_lon : lib.parse_f64 b ≡ some lon) where
  whole_trim : trim (point_text a b) ≡ point_text a b
  whole_trim = trim-none (point_text a b) (
      IsAll-mono is_point_char (λ (d : ℕ). not (is_whitespace d)) (point_text a b) point-filled
        (point_text-IsAll a b ha hb))

  whole_bare : trim_by (has_char brackets) (point_text a b) ≡ point_text a b
  whole_bare = trim_by-none (has_char brackets) (point_text a b) (
      IsAll-mono is_point_char (λ (d : ℕ). not (has_char brackets d)) (point_text a b) point-bare
        (point_text-IsAll a b ha hb))

  numeric_pair-point : numeric_pair lib (point_text a b) ≡ some (lat, lon)
  unfolding numeric_pair two_numbers
  numeric_pair-point =
      rw
        (
          whole_trim,
          whole_bare,
          is_empty-point a b,
          pair_parts-point a b ha hb,
          number-trim a ha,
          number-trim b hb,
          reads_lat,
          reads_lon,
        )
        refl

  pub parse_latlon_pair-point :
      valid_latlon lat lon ≡ true → parse_latlon_pair lib (point_text a b) ≡ some (lat, lon)
  unfolding parse_latlon_pair
  parse_latlon_pair-point range = rw (numeric_pair-point, range) refl

  geo_parts-point : geo_parts (point_text a b) ≡ (point_text a b, none)
  geo_parts-point =
      let whole = point_text a b in
      let points = point_text-IsAll a b ha hb in
      rw
        (break_at-none (λ c. c == b'?') whole
          (IsAll-mono is_point_char (λ (d : ℕ). not (d == b'?')) whole point-path points))
        (rw
          (break_at-none (λ c. c == b';') whole
            (IsAll-mono is_point_char (λ (d : ℕ). not (d == b';')) whole point-part points))
          refl)

  parse_geo_uri-point :
      valid_latlon lat lon ≡ true
      → is_origin lat lon ≡ false
      → parse_geo_uri lib (point_text a b) ≡ ok (some (lat_lon lat lon))
  unfolding parse_geo_uri
  parse_geo_uri-point range away =
      ap (λ (parts : Str × Option Str). geo_destination lib (trim parts.0) (query_of lib parts.1))
        geo_parts-point
      ∙ rw whole_trim
          (rw (parse_latlon_pair-point range, geo_destination) (rw (away, geo_point) refl))

  parse_plain-point :
      valid_latlon lat lon ≡ true → parse_plain lib (point_text a b) ≡ ok (lat_lon lat lon)
  unfolding parse_plain
  parse_plain-point range = rw (parse_latlon_pair-point range, parse_plain) refl

  geo_line-point :
      valid_latlon lat lon ≡ true
      → is_origin lat lon ≡ false
      → parse_line lib (codes "geo:" ++ point_text a b) ≡ ok (lat_lon lat lon)
  unfolding parse_line strip_prefix_case_insensitive eq_ignore_ascii_case str_eq to_ascii_lowercase
      geo_or_plain
  geo_line-point range away =
      ap (after_geo lib (codes "geo:" ++ point_text a b)) (parse_geo_uri-point range away)

-- the beginning of a number is not that of a `geo:` URI
not-geo :
    (c : ℕ) (s : Str)
    → is_number_char c ≡ true
    → strip_prefix_case_insensitive (c ∷ s) (codes "geo:") ≡ none
unfolding strip_prefix_case_insensitive eq_ignore_ascii_case str_eq to_ascii_lowercase
not-geo c s h = ground (arith, h)

plain_line-number :
    (lib : Library) (a s : Str)
    → IsNumberText a
    → parse_line lib (a ++ s) ≡ parse_plain lib (a ++ s)
unfolding parse_line geo_or_plain
plain_line-number lib [] s h = absurd h
plain_line-number lib (c ∷ a) s h =
    ap (geo_or_plain lib (c ∷ (a ++ s)))
      (not-geo c (a ++ s) (and-eq_true (is_number_char c) (all is_number_char a) h).0)

-- A pair of coordinates in range, each the text of a number that the parser of `f64` reads, is parsed as
-- this point if it is not too long: with a comma between them, and as a `geo:` URI if it is not the
-- origin.
pub parse_shared_text-point :
    (lib : Library) (a b : Str) (lat lon : Double)
    → IsNumberText a
    → IsNumberText b
    → lib.parse_f64 a ≡ some lat
    → lib.parse_f64 b ≡ some lon
    → valid_latlon lat lon ≡ true
    → length (codes "geo:" ++ point_text a b) ≤ max_share_text_len
    → (parse_shared_text lib (point_text a b) ≡ ok (lat_lon lat lon))
      × (is_origin lat lon ≡ false
          → parse_shared_text lib (codes "geo:" ++ point_text a b) ≡ ok (lat_lon lat lon))
parse_shared_text-point lib [] b lat lon ha hb la lb range short = absurd ha
parse_shared_text-point lib (c ∷ a) b lat lon ha hb la lb range short =
    let points = point_text-IsAll (c ∷ a) b ha hb in
    (
      parse_shared_text-line c (a ++ b',' ∷ b) points lib (omega (arith, short))
          ∙ plain_line-number lib (c ∷ a) (b',' ∷ b) ha
          ∙ parse_plain-point lib (c ∷ a) b lat lon ha hb la lb range,
      λ away.
          parse_shared_text-line b'g' (codes "eo:" ++ point_text (c ∷ a) b) points lib short
          ∙ geo_line-point lib (c ∷ a) b lat lon ha hb la lb range away,
    )
