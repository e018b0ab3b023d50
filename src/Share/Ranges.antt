-- ===== src/Share/Ranges.antt =====
-- helper/src/share.rs: every pair of coordinates that is found is in range, and was read.
use electric_eel.Base.{
  ℕ, zero, suc, ◌≡◌, inl, inr, true, Option, none, some, List, [], ◌∷◌, ◌++◌, ◌==◌, All, All-append,
  Bool-cases, Option-cases,
}
use electric_eel.Text.{Str, codes, is_empty, trim, trim_by}
use electric_eel.Text.Parts.{strip_prefix, after_first, break_at, has_char, contains_any}
use electric_eel.Share.Values.{
  Double, finite, not_finite, Library, valid_latlon, if_valid, both_parsed, valid_pair, brackets,
  pair_parts, two_numbers, numeric_pair, parse_latlon_pair,
}
use electric_eel.Share.Url.{
  or_else, google_loop, google_3d4d_coords, leading_pair, coords_at, marker_loop, behind_at,
  behind_place, url_path_at_coords, flush_run, bare_number, run_loop, slash_run_coords,
  split_params, consumed, parse_trimmed, find_value, lat_keys, lon_keys, finite_only, wrappers,
}

-- what is there has a property
abbrev pub Holds {ℓ κ} : {A : Type ℓ} → (A → Type κ) → Option A → Type κ
Holds P none = Unit
Holds P (some a) = P a

pub or_else-Holds {ℓ κ} :
    {A : Type ℓ} (P : A → Type κ) (a b : Option A) → Holds P a → Holds P b → Holds P (or_else a b)
or_else-Holds P none b ha hb = hb
or_else-Holds P (some a) b ha hb = ha

module _ (lib : Library) where
  -- a double that `str::parse` gives for some text
  abbrev pub IsRead : Double → Type 0
  IsRead x = (s : Str) × (lib.parse_f64 s ≡ some x)

  abbrev pub IsInRange : Double × Double → Type 0
  IsInRange (lat, lon) = (valid_latlon lat lon ≡ true) × IsRead lat × IsRead lon

  parse_f64-IsRead : (s : Str) → Holds IsRead (lib.parse_f64 s)
  parse_f64-IsRead s = elim (Option-cases (lib.parse_f64 s)) [
    | inl e ↦ rw e tt
    | inr (x, e) ↦ rw e (s, e)
  ]

  if_valid-IsInRange :
      (lat lon : Option Double)
      → Holds IsRead lat
      → Holds IsRead lon
      → Holds IsInRange (if_valid lat lon)
  unfolding if_valid
  if_valid-IsInRange none lon a b = tt
  if_valid-IsInRange (some lat) none a b = tt
  if_valid-IsInRange (some lat) (some lon) a b = elim (Bool-cases (valid_latlon lat lon)) [
    | inl e ↦ rw (e, Holds) (e, a, b)
    | inr e ↦ rw (e, Holds) tt
  ]

  parsed-IsInRange : (a b : Str) → Holds IsInRange (if_valid (lib.parse_f64 a) (lib.parse_f64 b))
  parsed-IsInRange a b =
      if_valid-IsInRange (lib.parse_f64 a) (lib.parse_f64 b) (parse_f64-IsRead a)
        (parse_f64-IsRead b)

  flush_run-IsInRange :
      (run : List Double) (best : Option (Double × Double))
      → All IsRead run
      → Holds IsInRange best
      → Holds IsInRange (flush_run run best)
  flush_run-IsInRange [] best all_read h = h
  flush_run-IsInRange (a ∷ []) best all_read h = h
  flush_run-IsInRange (a ∷ b ∷ []) best all_read h =
      or_else-Holds IsInRange (if_valid (some a) (some b)) best
        (if_valid-IsInRange (some a) (some b) all_read.0 all_read.1.0) h
  flush_run-IsInRange (a ∷ b ∷ c ∷ run) best all_read h = h

  valid_both-IsInRange :
      (a b : Option Double)
      → Holds IsRead a
      → Holds IsRead b
      → Holds IsInRange (valid_pair (both_parsed a b))
  unfolding if_valid
  valid_both-IsInRange none b ha hb = tt
  valid_both-IsInRange (some a) none ha hb = tt
  valid_both-IsInRange (some a) (some b) ha hb = if_valid-IsInRange (some a) (some b) ha hb

  finite_only-IsRead : (o : Option Double) → Holds IsRead o → Holds IsRead (finite_only o)
  finite_only-IsRead none h = tt
  finite_only-IsRead (some (finite v)) h = h
  finite_only-IsRead (some not_finite) h = tt

  two_numbers-IsInRange : (parts : List Str) → Holds IsInRange (valid_pair (two_numbers lib parts))
  unfolding two_numbers
  two_numbers-IsInRange [] = tt
  two_numbers-IsInRange (a ∷ []) = tt
  two_numbers-IsInRange (a ∷ b ∷ c ∷ parts) = tt
  two_numbers-IsInRange (a ∷ b ∷ []) =
      valid_both-IsInRange (lib.parse_f64 (trim a)) (lib.parse_f64 (trim b))
        (parse_f64-IsRead (trim a)) (parse_f64-IsRead (trim b))

  bare_number-IsRead : (seg : Str) → Holds IsRead (bare_number lib seg)
  bare_number-IsRead seg = elim (Bool-cases (contains_any wrappers seg)) [
    | inl e ↦ rw (e, Holds) tt
    | inr e ↦
        rw (e, Holds) (finite_only-IsRead (lib.parse_f64 (trim seg)) (parse_f64-IsRead (trim seg)))
  ]

  numeric_pair-IsInRange : (s : Str) → Holds IsInRange (valid_pair (numeric_pair lib s))
  unfolding numeric_pair
  numeric_pair-IsInRange text =
      let s = trim_by (has_char brackets) (trim text) in
      elim (Bool-cases (is_empty s)) [
        | inl e ↦ rw (e, Holds) tt
        | inr e ↦ rw (e, Holds) (two_numbers-IsInRange (pair_parts s))
      ]

  pub parse_latlon_pair-IsInRange : (s : Str) → Holds IsInRange (parse_latlon_pair lib s)
  unfolding parse_latlon_pair
  parse_latlon_pair-IsInRange s = numeric_pair-IsInRange s

  parse_trimmed-IsRead : (o : Option Str) → Holds IsRead (parse_trimmed lib o)
  parse_trimmed-IsRead none = tt
  parse_trimmed-IsRead (some v) = parse_f64-IsRead (trim v)

  pub split_params-IsInRange : (pairs : List (Str × Str)) → Holds IsInRange (split_params lib pairs)
  unfolding split_params
  split_params-IsInRange pairs =
      if_valid-IsInRange (parse_trimmed lib (find_value lat_keys pairs))
        (parse_trimmed lib (find_value lon_keys pairs))
        (parse_trimmed-IsRead (find_value lat_keys pairs))
        (parse_trimmed-IsRead (find_value lon_keys pairs))

  google_loop-IsInRange :
      (skip : ℕ) (s : Str) (result : Option (Double × Double))
      → Holds IsInRange result
      → Holds IsInRange (google_loop lib skip s result)
  unfolding google_loop
  google_loop-IsInRange skip [] result h = h
  google_loop-IsInRange (suc skip) (c ∷ s) result h = google_loop-IsInRange skip s result h
  google_loop-IsInRange zero (c ∷ s) result h =
      elim (Option-cases (strip_prefix (codes "!3d") (c ∷ s))) [
        | inl e ↦ rw (e, Holds) (google_loop-IsInRange zero s result h)
        | inr (after, e) ↦
            rw (e, Holds)
              (let lat = break_at (λ d. d == b'!') after in
                elim (Option-cases (after_first (codes "!4d") lat.1)) [
                  | inl e2 ↦ rw (e2, Holds) h
                  | inr (behind, e2) ↦
                      let lon = break_at (λ d. d == b'!') behind in
                      rw e2 (
                        google_loop-IsInRange (consumed s lon.1) s
                          (or_else (if_valid (lib.parse_f64 lat.0) (lib.parse_f64 lon.0)) result)
                          (or_else-Holds IsInRange
                            (if_valid (lib.parse_f64 lat.0) (lib.parse_f64 lon.0)) result
                            (parsed-IsInRange lat.0 lon.0) h))
                ])
      ]

  pub google_3d4d_coords-IsInRange : (path : Str) → Holds IsInRange (google_3d4d_coords lib path)
  unfolding google_3d4d_coords
  google_3d4d_coords-IsInRange path = google_loop-IsInRange zero path none tt

  leading_pair-IsInRange : (parts : List Str) → Holds IsInRange (leading_pair lib parts)
  leading_pair-IsInRange [] = tt
  leading_pair-IsInRange (a ∷ []) = tt
  leading_pair-IsInRange (a ∷ b ∷ parts) = parsed-IsInRange a b

  coords_at-IsInRange : (cand : Option Str) → Holds IsInRange (coords_at lib cand)
  unfolding coords_at
  coords_at-IsInRange none = tt
  coords_at-IsInRange (some cand) = leading_pair-IsInRange _

  marker_loop-IsInRange :
      (behind : Str → Option Str) (marker : Str) (skip : ℕ) (s : Str)
      → Holds IsInRange (marker_loop lib behind marker skip s)
  unfolding marker_loop
  marker_loop-IsInRange behind marker skip [] = tt
  marker_loop-IsInRange behind marker (suc skip) (c ∷ s) =
      marker_loop-IsInRange behind marker skip s
  marker_loop-IsInRange behind marker zero (c ∷ s) =
      elim (Option-cases (strip_prefix marker (c ∷ s))) [
        | inl e ↦ rw (e, Holds) (marker_loop-IsInRange behind marker zero s)
        | inr (after, e) ↦
            rw (e, Holds)
              (or_else-Holds IsInRange (coords_at lib (behind after))
                (marker_loop lib behind marker (consumed s after) s)
                (coords_at-IsInRange (behind after))
                (marker_loop-IsInRange behind marker (consumed s after) s))
      ]

  pub url_path_at_coords-IsInRange : (path : Str) → Holds IsInRange (url_path_at_coords lib path)
  unfolding url_path_at_coords
  url_path_at_coords-IsInRange path =
      or_else-Holds IsInRange (marker_loop lib behind_at (codes "/@") zero path) _
        (marker_loop-IsInRange behind_at (codes "/@") zero path)
        (marker_loop-IsInRange behind_place (codes "/place/") zero path)

  run_loop-IsInRange :
      (segs : List Str) (run : List Double) (best : Option (Double × Double))
      → All IsRead run
      → Holds IsInRange best
      → Holds IsInRange (run_loop lib segs run best)
  unfolding run_loop
  run_loop-IsInRange [] run best all_read h = flush_run-IsInRange run best all_read h
  run_loop-IsInRange (seg ∷ segs) run best all_read h =
      let read = bare_number-IsRead seg in
      elim (Option-cases (bare_number lib seg)) [
        | inl e ↦
            rw (e, Holds)
              (run_loop-IsInRange segs [] (flush_run run best) tt
                (flush_run-IsInRange run best all_read h))
        | inr (v, e) ↦
            rw (e, Holds)
              (run_loop-IsInRange segs (run ++ v ∷ []) best
                (All-append IsRead run (v ∷ []) all_read (rw (e, Holds) at read, tt)) h)
      ]

  pub slash_run_coords-IsInRange : (url : Str) → Holds IsInRange (slash_run_coords lib url)
  unfolding slash_run_coords
  slash_run_coords-IsInRange url =
      search (λ (segs : List Str). run_loop-IsInRange segs [] none tt tt)
