-- ===== src/Share/Maps.antt =====
-- helper/src/share.rs: the point of a map in the fragment of a URL.
use electric_eel.Base.{
  ℕ, ◌≡◌, inl, inr, refl, ap, ◌∙◌, arith, Bool, true, false, not, ◌&&◌, Option, none, some, List,
  [], ◌∷◌, ◌++◌, ◌==◌, all, and-eq_true, Bool-cases, Option-cases,
}
use electric_eel.Catalog.Items.{Number}
use electric_eel.Text.{Str, codes}
use electric_eel.Text.Parts.{
  cons_head, split_by, split, split-plain, split-sep, has_char, contains_any,
}
use electric_eel.Text.Plain.{IsNone, IsAll, IsAll-mono, IsAll-append}
use electric_eel.Share.Values.{Double, finite, Library, valid_latlon, if_valid}
use electric_eel.Share.Url.{
  wrappers, bare_number, flush_run, run_loop, first_part, second_part, slash_run_coords,
}
use electric_eel.Share.PointTexts.{is_number_char, IsNumberText, IsNumberText-IsAll, number-trim}

-- the parts of `base ++ w ++ "/" ++ rest`: some, one that ends in `w`, and those of `rest`
module _ (w rest : Str) (plain : IsNone (λ c. c == b'/') w)
    (wrapped : contains_any wrappers w ≡ true) where
  abbrev HasWrapped : List Str → Type 0
  HasWrapped parts =
      (before : List Str) × (q : Str) × (parts ≡ before ++ q ∷ split b'/' rest)
      × (contains_any wrappers q ≡ true)

  cons_head-HasWrapped :
      (c : ℕ) (parts before : List Str) (q : Str)
      → parts ≡ before ++ q ∷ split b'/' rest
      → contains_any wrappers q ≡ true
      → HasWrapped (cons_head c parts)
  cons_head-HasWrapped c parts [] q e h = ([], c ∷ q, ap (cons_head c) e, ground (arith, h))
  cons_head-HasWrapped c parts (p ∷ before) q e h = ((c ∷ p) ∷ before, q, ap (cons_head c) e, h)

  split-HasWrapped : (base : Str) → HasWrapped (split b'/' (base ++ (w ++ b'/' ∷ rest)))
  unfolding split_by
  split-HasWrapped [] = ([], w, split-sep (λ c. c == b'/') w b'/' rest plain refl, wrapped)
  split-HasWrapped (c ∷ base) =
      let (before, q, e, h) = split-HasWrapped base in
      elim (Bool-cases (c == b'/')) [
        | inl sep ↦ ([] ∷ before, q, rw (sep, e) refl, h)
        | inr other ↦
            rw other (cons_head-HasWrapped c (split b'/' (base ++ (w ++ b'/' ∷ rest))) before q e h)
      ]

number-bare : (c : ℕ) → is_number_char c ≡ true → not (has_char wrappers c) ≡ true
number-bare c h = ground (arith, h)

number-segment : (c : ℕ) → is_number_char c ≡ true → not (c == b'/') ≡ true
number-segment c h = ground (arith, h)

contains_any-none : (cs s : Str) → IsNone (has_char cs) s → contains_any cs s ≡ false
contains_any-none cs [] h = refl
contains_any-none cs (c ∷ s) h =
    let both = and-eq_true (not (has_char cs c)) (all (λ (d : ℕ). not (has_char cs d)) s) h in
    ground (arith, both.0, contains_any-none cs s both.1)

module _ (lib : Library) where
  number-is_bare :
      (a : Str) (v : Number)
      → IsNumberText a
      → lib.parse_f64 a ≡ some (finite v)
      → bare_number lib a ≡ some (finite v)
  number-is_bare a v h reads =
      rw
        (contains_any-none wrappers a (
          IsAll-mono is_number_char (λ (c : ℕ). not (has_char wrappers c)) a number-bare
            (IsNumberText-IsAll a h)))
        (rw (number-trim a h, reads) refl)

  wrapped-not_bare : (q : Str) → contains_any wrappers q ≡ true → bare_number lib q ≡ none
  wrapped-not_bare q h = rw h refl

  module _ (a b q : Str) (lat lon : Number) (bare_a : bare_number lib a ≡ some (finite lat))
      (bare_b : bare_number lib b ≡ some (finite lon)) (wrapped : bare_number lib q ≡ none)
      (range : valid_latlon (finite lat) (finite lon) ≡ true) where
    run_loop-last :
        (before : List Str) (run : List Double) (best : Option (Double × Double))
        → run_loop lib (before ++ q ∷ a ∷ b ∷ []) run best ≡ some (finite lat, finite lon)
    unfolding run_loop if_valid
    run_loop-last [] run best = rw (wrapped, bare_a, bare_b, range, run_loop) refl
    run_loop-last (seg ∷ before) run best = elim (Option-cases (bare_number lib seg)) [
      | inl e ↦ rw (e, run_loop) (run_loop-last before [] (flush_run run best))
      | inr (v, e) ↦ rw (e, run_loop) (run_loop-last before (run ++ v ∷ []) best)
    ]

-- `map=zoom/a/b`
abbrev pub map_fragment : Str → Str → Str → Str
map_fragment zoom a b = (codes "map=" ++ zoom) ++ b'/' ∷ (a ++ b'/' ∷ b)

-- a character that divides no fragment
abbrev pub is_zoom_char : ℕ → Bool
is_zoom_char c = not (c == b'/') && not (c == b'#')

number-zoom : (c : ℕ) → is_number_char c ≡ true → is_zoom_char c ≡ true
number-zoom c h = ground (arith, h)

zoom-segment : (c : ℕ) → is_zoom_char c ≡ true → not (c == b'/') ≡ true
zoom-segment c h = ground (arith, h)

zoom-fragment : (c : ℕ) → is_zoom_char c ≡ true → not (c == b'#') ≡ true
zoom-fragment c h = ground (arith, h)

base-fragment : (c : ℕ) → not (has_char (codes "?#") c) ≡ true → not (c == b'#') ≡ true
base-fragment c h = ground (arith, h)

segments-point :
    (a b : Str) → IsNumberText a → IsNumberText b → split b'/' (a ++ b'/' ∷ b) ≡ a ∷ b ∷ []
segments-point a b ha hb =
    let segment = λ (s : Str) (h : IsNumberText s).
      IsAll-mono is_number_char (λ (c : ℕ). not (c == b'/')) s number-segment
        (IsNumberText-IsAll s h) in
    split-sep (λ c. c == b'/') a b'/' b (segment a ha) refl
    ∙ ap (λ (parts : List Str). a ∷ parts) (split-plain (λ c. c == b'/') b (segment b hb))

map_fragment-IsNone :
    (zoom a b : Str)
    → IsAll is_zoom_char zoom
    → IsNumberText a
    → IsNumberText b
    → IsNone (λ c. c == b'#') (map_fragment zoom a b)
map_fragment-IsNone zoom a b hz ha hb =
    let plain = λ (c : ℕ). not (c == b'#') in
    let number = λ (s : Str) (h : IsNumberText s).
      IsAll-mono is_zoom_char plain s zoom-fragment
        (IsAll-mono is_number_char is_zoom_char s number-zoom (IsNumberText-IsAll s h)) in
    IsAll-append plain (codes "map=" ++ zoom) (b'/' ∷ (a ++ b'/' ∷ b))
      (IsAll-append plain (codes "map=") zoom refl
        (IsAll-mono is_zoom_char plain zoom zoom-fragment hz))
      (IsAll-append plain a (b'/' ∷ b) (number a ha) (number b hb))

-- In a URL whose fragment is `map=`, a zoom, and a pair of numbers in range, with slashes between them,
-- the coordinates are this pair, whatever the URL has before its fragment, numbers included, if it has
-- no query: neither the zoom nor a number of the path is taken for a coordinate.
slash_run_coords-map :
    (lib : Library) (base zoom a b : Str) (lat lon : Number)
    → IsNone (has_char (codes "?#")) base
    → IsAll is_zoom_char zoom
    → IsNumberText a
    → IsNumberText b
    → lib.parse_f64 a ≡ some (finite lat)
    → lib.parse_f64 b ≡ some (finite lon)
    → valid_latlon (finite lat) (finite lon) ≡ true
    → slash_run_coords lib (base ++ b'#' ∷ map_fragment zoom a b) ≡ some (finite lat, finite lon)
unfolding slash_run_coords
slash_run_coords-map lib base zoom a b lat lon hbase hz ha hb ra rb range =
    let fragment = map_fragment zoom a b in
    let path : first_part (split_by (has_char (codes "?#")) (base ++ b'#' ∷ fragment)) ≡ base =
      ap first_part (split-sep (has_char (codes "?#")) base b'#' fragment hbase refl) in
    let behind : second_part (split b'#' (base ++ b'#' ∷ fragment)) ≡ fragment = ap second_part (
      split-sep (λ c. c == b'#') base b'#' fragment
        (IsAll-mono (λ (c : ℕ). not (has_char (codes "?#") c)) (λ (c : ℕ). not (c == b'#')) base
          base-fragment hbase)
        refl
      ∙ ap (λ (parts : List Str). base ∷ parts)
          (split-plain (λ c. c == b'#') fragment (map_fragment-IsNone zoom a b hz ha hb))) in
    let (before, q, parts, wrapped) =
      split-HasWrapped (codes "#map=" ++ zoom) (a ++ b'/' ∷ b)
        (IsAll-append (λ (c : ℕ). not (c == b'/')) (codes "#map=") zoom refl
          (IsAll-mono is_zoom_char (λ (c : ℕ). not (c == b'/')) zoom zoom-segment hz))
        refl base in
    rw (path, behind)
      (ap (λ (segs : List Str). run_loop lib segs [] none)
          (parts ∙ ap (λ (segs : List Str). before ++ q ∷ segs) (segments-point a b ha hb))
        ∙ run_loop-last lib a b q lat lon (number-is_bare lib a lat ha ra)
            (number-is_bare lib b lon hb rb) (wrapped-not_bare lib q wrapped) range before [] none)
