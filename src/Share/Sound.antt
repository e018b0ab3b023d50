-- ===== src/Share/Sound.antt =====
-- helper/src/share.rs: the destinations of URLs and of plain lines can be sent: they are coordinates in
-- range, or texts that are neither blank nor too long.
use electric_eel.Base.{
  ℕ, ◌≤◌, ◌≡◌, inl, inr, refl, arith, false, Option, none, some, List, [], ◌∷◌, ◌++◌, length, All,
  All-append, Bool-cases, Option-cases,
}
use electric_eel.Text.{Str, codes, is_empty, trim}
use electric_eel.Text.Trim.{trim_twice}
use electric_eel.Text.Parts.{eq_ignore_ascii_case}
use electric_eel.Text.Lengths.{IsShort, length-trim}
use electric_eel.Share.Values.{
  Double, Destination, lat_lon, address, ParsedUrl, Library, parse_latlon_pair,
  looks_like_latlon_pair,
}
use electric_eel.Share.Url.{
  non_blank, first_value, point, pair_of_keys, destination_value, destination_of,
  explicit_destination, text_address, fragment_of, destination_of_url, parse_map_url,
}
use electric_eel.Share.{Parsed, ok, err, out_of_range, query_of, parse_plain}
use electric_eel.Share.Ranges.{
  Holds, IsInRange, or_else-Holds, parse_latlon_pair-IsInRange, split_params-IsInRange,
  google_3d4d_coords-IsInRange, url_path_at_coords-IsInRange, slash_run_coords-IsInRange,
}

-- what `Url::parse` and `form_urlencoded::parse` keep to: what is decoded is not longer than what was
-- encoded, be it in the query or in the fragment of a URL, or in a form
pub record IsBounded (lib : Library) : Type 0 where
  pub query_values :
      (u : Str) (p : ParsedUrl)
      → lib.parse_url u ≡ some p
      → All (λ (kv : Str × Str). length kv.1 ≤ length u) p.query_pairs
  pub fragment_values :
      (u : Str) (p : ParsedUrl)
      → lib.parse_url u ≡ some p
      → All (λ (kv : Str × Str). length kv.1 ≤ length u) (lib.parse_form (fragment_of p.fragment))
  pub form_values : (q : Str) → All (λ (kv : Str × Str). length kv.1 ≤ length q) (lib.parse_form q)

-- at most so many characters, and not blank
abbrev pub IsText : ℕ → Str → Type 0
IsText n t = (is_empty (trim t) ≡ false) × (length t ≤ n)

abbrev pub IsSendable : Library → ℕ → Destination → Type 0
IsSendable lib n (lat_lon lat lon) = IsInRange lib (lat, lon)
IsSendable lib n (address t) = IsText n t

-- what is returned has a property, or it is the error of a pair out of range
abbrev pub HoldsOk : {A : Type 0} → (A → Type 0) → Parsed A → Type 0
HoldsOk P (err e) = e ≡ out_of_range
HoldsOk P (ok a) = P a

module _ (n : ℕ) where
  point-IsSendable :
      (lib : Library) (o : Option (Double × Double))
      → Holds (IsInRange lib) o
      → Holds (IsSendable lib n) (point o)
  point-IsSendable lib none h = tt
  point-IsSendable lib (some (lat, lon)) h = h

  pub trimmed-IsText : (t : Str) → is_empty (trim t) ≡ false → length t ≤ n → IsText n (trim t)
  trimmed-IsText t filled short = (rw (trim_twice t) filled, omega (arith, short, length-trim t))

  first_value-short :
      (key : Str) (pairs : List (Str × Str))
      → All (λ (kv : Str × Str). length kv.1 ≤ n) pairs
      → Holds (λ v. length v ≤ n) (first_value key pairs)
  unfolding first_value
  first_value-short key [] h = tt
  first_value-short key ((k, v) ∷ pairs) h = elim (Bool-cases (eq_ignore_ascii_case k key)) [
    | inl e ↦ rw e h.0
    | inr e ↦ rw e (first_value-short key pairs h.1)
  ]

  non_blank-IsText : (o : Option Str) → Holds (λ v. length v ≤ n) o → Holds (IsText n) (non_blank o)
  non_blank-IsText none h = tt
  non_blank-IsText (some v) h = elim (Bool-cases (is_empty (trim v))) [
    | inl e ↦ rw e tt
    | inr e ↦ rw e (e, h)
  ]

  text_address-IsSendable :
      (lib : Library) (o : Option Str)
      → Holds (λ v. length v ≤ n) o
      → Holds (IsSendable lib n) (text_address o)
  text_address-IsSendable lib none h = tt
  text_address-IsSendable lib (some v) h = elim (Bool-cases (is_empty (trim v))) [
    | inl e ↦ rw e tt
    | inr e ↦ rw e (trimmed-IsText v e h)
  ]

module _ (lib : Library) (n : ℕ) where
  destination_value-IsSendable : (v : Str) → IsText n v → IsSendable lib n (destination_value lib v)
  unfolding destination_value
  destination_value-IsSendable v h =
      let range = parse_latlon_pair-IsInRange lib v in
      elim (Option-cases (parse_latlon_pair lib v)) [
        | inl e ↦ rw (e, IsSendable) (trimmed-IsText n v h.0 h.1)
        | inr (pair, e) ↦ rw (e, IsSendable) (rw (e, Holds) at range)
      ]

  destination_of-IsSendable :
      (o : Option Str) → Holds (IsText n) o → Holds (IsSendable lib n) (destination_of lib o)
  destination_of-IsSendable none h = tt
  destination_of-IsSendable (some v) h = destination_value-IsSendable v h

  module _ (pairs : List (Str × Str))
      (short : All (λ (kv : Str × Str). length kv.1 ≤ n) pairs) where
    explicit-IsSendable :
        (keys : List Str) → Holds (IsSendable lib n) (explicit_destination lib keys pairs)
    unfolding explicit_destination
    explicit-IsSendable [] = tt
    explicit-IsSendable (key ∷ keys) =
        let v = non_blank (first_value key pairs) in
        or_else-Holds (IsSendable lib n) (destination_of lib v)
          (explicit_destination lib keys pairs)
          (destination_of-IsSendable v
            (non_blank-IsText n (first_value key pairs) (first_value-short n key pairs short)))
          (explicit-IsSendable keys)

    pair_of_keys-IsSendable :
        (keys : List Str) → Holds (IsSendable lib n) (pair_of_keys lib keys pairs)
    unfolding pair_of_keys
    pair_of_keys-IsSendable [] = tt
    pair_of_keys-IsSendable (key ∷ keys) = elim (Option-cases (first_value key pairs)) [
      | inl e ↦ rw (e, Holds) (pair_of_keys-IsSendable keys)
      | inr (v, e) ↦
          rw (e, Holds)
            (or_else-Holds (IsSendable lib n) (point (parse_latlon_pair lib v))
              (pair_of_keys lib keys pairs)
              (point-IsSendable n lib (parse_latlon_pair lib v) (parse_latlon_pair-IsInRange lib v))
              (pair_of_keys-IsSendable keys))
    ]

    text-IsSendable : (key : Str) → Holds (IsSendable lib n) (text_address (first_value key pairs))
    text-IsSendable key =
        text_address-IsSendable n lib (first_value key pairs) (first_value-short n key pairs short)

    pub destination_of_url-IsSendable :
        (url path : Str) → Holds (IsSendable lib n) (destination_of_url lib url path pairs)
    unfolding destination_of_url
    destination_of_url-IsSendable url path =
        search
          (
            or_else-Holds, explicit-IsSendable, pair_of_keys-IsSendable, point-IsSendable,
            text-IsSendable, split_params-IsInRange, google_3d4d_coords-IsInRange,
            url_path_at_coords-IsInRange, slash_run_coords-IsInRange,
          )
          depth 16

module _ (lib : Library) (bounded : IsBounded lib) where
  All-weaker :
      (m n : ℕ) (pairs : List (Str × Str))
      → m ≤ n
      → All (λ (kv : Str × Str). length kv.1 ≤ m) pairs
      → All (λ (kv : Str × Str). length kv.1 ≤ n) pairs
  All-weaker m n [] le h = tt
  All-weaker m n (kv ∷ pairs) le h = (omega (arith, h.0), All-weaker m n pairs le h.1)

  pub parse_map_url-IsSendable :
      (n : ℕ) (url : Str) → length url ≤ n → Holds (IsSendable lib n) (parse_map_url lib url)
  unfolding parse_map_url
  parse_map_url-IsSendable n url short = elim (Option-cases (lib.parse_url url)) [
    | inl e ↦ rw (e, Holds) tt
    | inr (parsed, e) ↦
        let form = lib.parse_form (fragment_of parsed.fragment) in
        let pairs = parsed.query_pairs ++ form in
        let all_short =
          All-append (λ (kv : Str × Str). length kv.1 ≤ length url) parsed.query_pairs form
            (bounded.query_values url parsed e) (bounded.fragment_values url parsed e) in
        rw (e, Holds)
          (destination_of_url-IsSendable lib n pairs
            (All-weaker (length url) n pairs short all_short) url parsed.path)
  ]

  pub query_of-IsText :
      (n : ℕ) (query : Option Str) → Holds (IsShort n) query → Holds (IsText n) (query_of lib query)
  query_of-IsText n none h = tt
  query_of-IsText n (some q) h = non_blank-IsText n (first_value (codes "q") (lib.parse_form q)) (
      first_value-short n (codes "q") (lib.parse_form q)
        (All-weaker (length q) n (lib.parse_form q) h (bounded.form_values q)))

  pub parse_plain-IsSendable :
      (n : ℕ) (line : Str) → IsText n line → HoldsOk (IsSendable lib n) (parse_plain lib line)
  unfolding parse_plain
  parse_plain-IsSendable n line h =
      let range = parse_latlon_pair-IsInRange lib line in
      elim (Option-cases (parse_latlon_pair lib line)) [
        | inr (pair, e) ↦ rw (e, HoldsOk) (rw (e, Holds) at range)
        | inl e ↦
            rw (e, HoldsOk)
              (elim (Bool-cases (looks_like_latlon_pair lib line)) [
                | inl e2 ↦ rw (e2, HoldsOk) refl
                | inr e2 ↦ rw (e2, HoldsOk) h
              ])
      ]
