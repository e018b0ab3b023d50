-- ===== src/Share/Sendable.antt =====
-- helper/src/share.rs: every destination can be sent, and what each error means.
use electric_eel.Base.{
  ℕ, ◌≤◌, ◌<◌, ◌≡◌, inl, inr, refl, arith, true, false, Option, none, some, List, [], ◌∷◌, ◌==◌,
  ltb, length, take, All, Bool-cases, Option-cases, if◌then◌else◌, length-drop,
}
use electric_eel.Text.{Str, codes, is_empty, is_whitespace, trim, trim_by, to_ascii_lowercase}
use electric_eel.Text.Parts.{
  strip_prefix, has_char, lines, split_whitespace, eq_ignore_ascii_case, break_at,
}
use electric_eel.Text.Lengths.{
  IsShort, All-IsShort_mono, length-trim_by, trim-filled, lines-IsShort, split_whitespace-IsShort,
  break_at-length,
}
use electric_eel.Share.Values.{
  Double, Destination, address, Library, parse_latlon_pair, looks_like_latlon_pair,
}
use electric_eel.Share.Url.{parse_map_url}
use electric_eel.Share.{
  Parsed, ok, err, empty, too_long, out_of_range, max_share_text_len, first_filled,
  first_non_empty_line, around_url, is_url, as_url, first_url, first_url_token,
  strip_prefix_case_insensitive, tail, geo_parts, query_address, is_origin, geo_point, query_of,
  geo_destination, parse_geo_uri, after_geo, geo_or_plain, parse_line, is_line, shared_url, url_of,
  line_or, parse_trimmed_text, parse_shared_text,
}
use electric_eel.Share.Ranges.{Holds, IsInRange, or_else-Holds, parse_latlon_pair-IsInRange}
use electric_eel.Share.Sound.{
  IsBounded, IsText, IsSendable, HoldsOk, trimmed-IsText, parse_map_url-IsSendable, query_of-IsText,
  parse_plain-IsSendable,
}

url-filled : (t : Str) → is_url (to_ascii_lowercase t) ≡ true → is_empty (trim t) ≡ false
unfolding strip_prefix to_ascii_lowercase
url-filled [] h = ground (arith, h)
url-filled (c ∷ s) h = trim-filled c s (unfold is_whitespace in ground (arith, h))

module _ (n : ℕ) where
  as_url-IsText : (token : Str) → length token ≤ n → Holds (IsText n) (as_url token)
  as_url-IsText token short =
      let t = trim_by (has_char around_url) token in
      elim (Bool-cases (is_url (to_ascii_lowercase t))) [
        | inl e ↦
            rw e (url-filled t e, omega (arith, short, length-trim_by (has_char around_url) token))
        | inr e ↦ rw e tt
      ]

  first_url-IsText :
      (tokens : List Str) → All (IsShort n) tokens → Holds (IsText n) (first_url tokens)
  first_url-IsText [] h = tt
  first_url-IsText (token ∷ tokens) h =
      or_else-Holds (IsText n) (as_url token) (first_url tokens) (as_url-IsText token h.0)
        (first_url-IsText tokens h.1)

  first_filled-IsText :
      (all_lines : List Str) → All (IsShort n) all_lines → Holds (IsText n) (first_filled all_lines)
  first_filled-IsText [] h = tt
  first_filled-IsText (line ∷ rest) h = elim (Bool-cases (is_empty (trim line))) [
    | inl e ↦ rw e (first_filled-IsText rest h.1)
    | inr e ↦ rw e (trimmed-IsText n line e h.0)
  ]

  line_or-IsText :
      (s : Str) (line : Option Str) → IsText n s → Holds (IsText n) line → IsText n (line_or s line)
  line_or-IsText s none hs h = hs
  line_or-IsText s (some line) hs h = h

  tail-IsShort :
      (s : Str) → length s ≤ n → Holds (IsShort n) (if is_empty s then none else some (tail s))
  tail-IsShort [] h = tt
  tail-IsShort (c ∷ s) h = omega (arith, h)

  geo_parts-IsShort : (rest : Str) → length rest ≤ n → Holds (IsShort n) (geo_parts rest).1
  geo_parts-IsShort rest h =
      let parts = break_at (λ c. c == b'?') rest in
      tail-IsShort parts.1 (omega (arith, h, (break_at-length (λ c. c == b'?') rest).1))

  strip_prefix_case_insensitive-IsShort :
      (s prefix : Str) → length s ≤ n → Holds (IsShort n) (strip_prefix_case_insensitive s prefix)
  unfolding strip_prefix_case_insensitive
  strip_prefix_case_insensitive-IsShort s prefix h =
      elim (Bool-cases (eq_ignore_ascii_case (take (length prefix) s) prefix)) [
        | inl e ↦ rw e (omega (arith, h, length-drop (length prefix) s))
        | inr e ↦ rw e tt
      ]

module _ (lib : Library) (n : ℕ) where
  query_address-IsSendable :
      (addr : Option Str) → Holds (IsText n) addr → Holds (IsSendable lib n) (query_address addr)
  query_address-IsSendable none h = tt
  query_address-IsSendable (some addr) h = h

  geo_point-IsSendable :
      (pair : Double × Double) (addr : Option Str)
      → IsInRange lib pair
      → Holds (IsText n) addr
      → Holds (IsSendable lib n) (geo_point pair addr)
  geo_point-IsSendable (lat, lon) addr range h = elim (Bool-cases (is_origin lat lon)) [
    | inl e ↦ rw e (query_address-IsSendable addr h)
    | inr e ↦ rw e range
  ]

module _ (lib : Library) (bounded : IsBounded lib) (n : ℕ) where
  geo_destination-IsSendable :
      (coords : Str) (addr : Option Str)
      → Holds (IsText n) addr
      → HoldsOk (Holds (IsSendable lib n)) (geo_destination lib coords addr)
  geo_destination-IsSendable coords addr h =
      let range = parse_latlon_pair-IsInRange lib coords in
      elim (Option-cases (parse_latlon_pair lib coords)) [
        | inr (pair, e) ↦
            rw (e, HoldsOk) (geo_point-IsSendable lib n pair addr (rw (e, Holds) at range) h)
        | inl e ↦
            rw (e, HoldsOk)
              (elim (Bool-cases (looks_like_latlon_pair lib coords)) [
                | inl e2 ↦ rw (e2, HoldsOk) refl
                | inr e2 ↦ rw (e2, HoldsOk) (query_address-IsSendable lib n addr h)
              ])
      ]

  parse_geo_uri-IsSendable :
      (rest : Str) → length rest ≤ n → HoldsOk (Holds (IsSendable lib n)) (parse_geo_uri lib rest)
  unfolding parse_geo_uri
  parse_geo_uri-IsSendable rest h =
      let parts = geo_parts rest in
      geo_destination-IsSendable (trim parts.0) (query_of lib parts.1)
        (query_of-IsText lib bounded n parts.1 (geo_parts-IsShort n rest h))

  after_geo-IsSendable :
      (line : Str) (geo : Parsed (Option Destination))
      → IsText n line
      → HoldsOk (Holds (IsSendable lib n)) geo
      → HoldsOk (IsSendable lib n) (after_geo lib line geo)
  after_geo-IsSendable line (err e) text h = h
  after_geo-IsSendable line (ok none) text h = parse_plain-IsSendable lib bounded n line text
  after_geo-IsSendable line (ok (some dest)) text h = h

  parse_line-IsSendable :
      (line : Str) → IsText n line → HoldsOk (IsSendable lib n) (parse_line lib line)
  unfolding parse_line geo_or_plain
  parse_line-IsSendable line text =
      let short = strip_prefix_case_insensitive-IsShort n line (codes "geo:") text.1 in
      elim (Option-cases (strip_prefix_case_insensitive line (codes "geo:"))) [
        | inl e ↦ rw (e, HoldsOk) (parse_plain-IsSendable lib bounded n line text)
        | inr (rest, e) ↦
            rw (e, HoldsOk)
              (after_geo-IsSendable line (parse_geo_uri lib rest) text
                (parse_geo_uri-IsSendable rest (rw (e, Holds) at short)))
      ]

  shared_url-IsSendable :
      (line : Option Str) (url : Str)
      → IsText n url
      → Holds (IsSendable lib n) (shared_url lib line url)
  unfolding shared_url
  shared_url-IsSendable line url text =
      or_else-Holds (IsSendable lib n) (parse_map_url lib url)
        (if is_line line url then some (address url) else none)
        (parse_map_url-IsSendable lib bounded n url text.1)
        (elim (Bool-cases (is_line line url)) [ inl e ↦ rw e text | inr e ↦ rw e tt ])

  url_of-IsSendable :
      (line url : Option Str)
      → Holds (IsText n) url
      → Holds (IsSendable lib n) (url_of lib line url)
  url_of-IsSendable line none h = tt
  url_of-IsSendable line (some url) h = shared_url-IsSendable line url h

  parse_trimmed_text-IsSendable :
      (s : Str) → IsText n s → HoldsOk (IsSendable lib n) (parse_trimmed_text lib s)
  unfolding parse_trimmed_text first_url_token first_non_empty_line
  parse_trimmed_text-IsSendable s text =
      let line = first_non_empty_line s in
      let url = first_url_token s in
      let line_text =
        first_filled-IsText n (lines s)
          (All-IsShort_mono n (length s) (lines s) text.1 (lines-IsShort s)) in
      let url_text =
        first_url-IsText n (split_whitespace s) (
          All-IsShort_mono n (length s) (split_whitespace s) text.1 (split_whitespace-IsShort s)) in
      let dest = url_of-IsSendable line url url_text in
      elim (Option-cases (url_of lib line url)) [
        | inl e ↦
            rw (e, HoldsOk)
              (parse_line-IsSendable (line_or s line) (line_or-IsText n s line text line_text))
        | inr (d, e) ↦ rw (e, HoldsOk) (rw (e, Holds) at dest)
      ]

-- what the parser says of a text: it is too long, blank, or neither, and then a destination can be sent
abbrev pub Explains : Library → Str → Parsed Destination → Type 0
Explains lib text (err too_long) = max_share_text_len < length text
Explains lib text (err empty) = (length text ≤ max_share_text_len) × (is_empty (trim text) ≡ true)
Explains lib text (err out_of_range) =
    (length text ≤ max_share_text_len) × (is_empty (trim text) ≡ false)
Explains lib text (ok dest) =
    (length text ≤ max_share_text_len)
    × (is_empty (trim text) ≡ false)
    × IsSendable lib max_share_text_len dest

HoldsOk-Explains :
    (lib : Library) (text : Str) (r : Parsed Destination)
    → length text ≤ max_share_text_len
    → is_empty (trim text) ≡ false
    → HoldsOk (IsSendable lib max_share_text_len) r
    → Explains lib text r
HoldsOk-Explains lib text (ok dest) short filled h = (short, filled, h)
HoldsOk-Explains lib text (err out_of_range) short filled h = (short, filled)
HoldsOk-Explains lib text (err empty) short filled h = cc
HoldsOk-Explains lib text (err too_long) short filled h = cc

-- If decoding makes no text longer, then a text is refused as too long exactly when it has more than
-- 2000 characters, and as empty exactly when it is blank and not too long; and a destination is a pair
-- of coordinates in range, each a number that was read, or a text that is not blank and has at most 2000 characters.
pub parse_shared_text_lem :
    (lib : Library) (text : Str) → IsBounded lib → Explains lib text (parse_shared_text lib text)
unfolding parse_shared_text
parse_shared_text_lem lib text bounded = elim (Bool-cases (ltb max_share_text_len (length text))) [
  | inl long ↦ rw (long, Explains) (ground (arith, long))
  | inr short ↦ elim (Bool-cases (is_empty (trim text))) [
    | inl blank ↦ rw (short, blank, Explains) (ground (arith, short), blank)
    | inr filled ↦
        let le : length text ≤ max_share_text_len = ground (arith, short) in
        rw (short, filled, Explains)
          (HoldsOk-Explains lib text (parse_trimmed_text lib (trim text)) le filled (
            parse_trimmed_text-IsSendable lib bounded max_share_text_len (trim text)
              (trimmed-IsText max_share_text_len text filled le)))
  ]
]
