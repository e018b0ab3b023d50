-- ===== src/Share/Tests.antt =====
-- helper/src/share.rs: shared texts at concrete inputs, and the theorems at some. Numbers are in strokes:
-- `+111000` is 1.11 and `+1110` is 3.
use electric_eel.Base.{◌≡◌, refl, arith, false, some, ◌++◌}
use electric_eel.Base.Int.{negsuc}
use electric_eel.Text.{Str, codes}
use electric_eel.Catalog.Items.{whole, decimal, leb_number}
use electric_eel.Share.Values.{finite, lat_lon, address, valid_latlon}
use electric_eel.Share.Url.{google_3d4d_coords}
use electric_eel.Share.{ok, err, out_of_range, is_origin, parse_shared_text}
use electric_eel.Share.Sendable.{Explains, parse_shared_text_lem}
use electric_eel.Share.PointTexts.{point_text}
use electric_eel.Share.Points.{parse_shared_text-point}
use electric_eel.Share.Sample.{sample, sample-IsBounded}

osm : Str
osm = codes "Home\nhttps://osm.org/#map=+10/+1110/-10."

osm_text :
    parse_shared_text sample osm ≡ ok (lat_lon (finite (whole 3)) (finite (decimal (negsuc 0) 0)))
unfolding osm parse_shared_text leb_number
osm_text = refl

geo_query : parse_shared_text sample (codes "GEO:+0,+0?q=Paris") ≡ ok (address (codes "Paris"))
unfolding parse_shared_text leb_number
geo_query = refl

not_a_point :
    parse_shared_text sample (
      codes
        "+1110,  -1111111111111111111111111111111111111111111111111111111111111111111111111111111111111111111111111111111111111111111111111111111111111111111111111111111111111111111111111111111111111110")
    ≡ err out_of_range
unfolding parse_shared_text leb_number
not_a_point = refl

google :
    google_3d4d_coords sample (codes "/place/x/@+10,+10/data=!3d+110!4d+1110!16s")
    ≡ some (finite (whole 2), finite (whole 3))
unfolding google_3d4d_coords leb_number
google = refl

parse_shared_text_lem_example :
    Explains sample
      (codes "https://osm.org/?q=Paris")
      (parse_shared_text sample (codes "https://osm.org/?q=Paris"))
parse_shared_text_lem_example =
    parse_shared_text_lem sample (codes "https://osm.org/?q=Paris") sample-IsBounded

parse_shared_text-point_example :
    (parse_shared_text sample (point_text (codes "+1110") (codes "-10"))
      ≡ ok (lat_lon (finite (whole 3)) (finite (decimal (negsuc 0) 0))))
    × (is_origin (finite (whole 3)) (finite (decimal (negsuc 0) 0)) ≡ false
        → parse_shared_text sample (codes "geo:" ++ point_text (codes "+1110") (codes "-10"))
          ≡ ok (lat_lon (finite (whole 3)) (finite (decimal (negsuc 0) 0))))
unfolding valid_latlon
parse_shared_text-point_example =
    parse_shared_text-point sample (codes "+1110") (codes "-10") (finite (whole 3))
      (finite (decimal (negsuc 0) 0)) refl refl refl refl refl (omega arith)
