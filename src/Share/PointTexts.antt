-- ===== src/Share/PointTexts.antt =====
-- helper/src/share.rs: the text of a point is one line, no URL, and splits at its comma.
use electric_eel.Base.{
  ℕ, ◌≤◌, ◌≡◌, refl, ap, ◌∙◌, arith, Bool, true, false, not, ◌||◌, none, some, List, [], ◌∷◌, ◌++◌,
  ◌==◌, ltb, length,
}
use electric_eel.Text.{Str, codes, is_whitespace, is_ascii_digit, trim, trim_by, to_ascii_lowercase}
use electric_eel.Text.Parts.{split, split-plain, split-sep, strip_prefix, has_char}
use electric_eel.Text.Plain.{
  IsAll, IsNone, IsAll-mono, IsAll-append, IsAll-trim_by, trim-none, split_whitespace-none,
  lines-none, has_char-middle,
}
use electric_eel.Share.Values.{Library, brackets, pair_parts}
use electric_eel.Share.{
  max_share_text_len, first_non_empty_line, around_url, is_url, as_url, first_url_token, parse_line,
  parse_trimmed_text, parse_shared_text,
}

-- the characters of a number in decimals
abbrev pub is_number_char : ℕ → Bool
is_number_char c = is_ascii_digit c || has_char (codes "+-.") c

-- those of a point, and of a `geo:` URI
abbrev pub is_point_char : ℕ → Bool
is_point_char c = is_number_char c || has_char (codes ",:geo") c

-- a text that begins with a character of a number, and has no others
abbrev pub IsNumberText : Str → Type 0
IsNumberText [] = ⊥
IsNumberText (c ∷ s) = IsAll is_number_char (c ∷ s)

-- the text of a point
abbrev pub point_text : Str → Str → Str
point_text a b = a ++ b',' ∷ b

number-point : (c : ℕ) → is_number_char c ≡ true → is_point_char c ≡ true
number-point c h = ground (arith, h)

number-filled : (c : ℕ) → is_number_char c ≡ true → not (is_whitespace c) ≡ true
unfolding is_whitespace
number-filled c h = ground (arith, h)

number-other : (c : ℕ) → is_number_char c ≡ true → not (c == b',') ≡ true
number-other c h = ground (arith, h)

pub point-filled : (c : ℕ) → is_point_char c ≡ true → not (is_whitespace c) ≡ true
unfolding is_whitespace
point-filled c h = ground (arith, h)

point-line : (c : ℕ) → is_point_char c ≡ true → not (c == b'\n') ≡ true
point-line c h = ground (arith, h)

pub point-bare : (c : ℕ) → is_point_char c ≡ true → not (has_char brackets c) ≡ true
point-bare c h = ground (arith, h)

pub point-path : (c : ℕ) → is_point_char c ≡ true → not (c == b'?') ≡ true
point-path c h = ground (arith, h)

pub point-part : (c : ℕ) → is_point_char c ≡ true → not (c == b';') ≡ true
point-part c h = ground (arith, h)

pub IsNumberText-IsAll : (a : Str) → IsNumberText a → IsAll is_number_char a
IsNumberText-IsAll [] h = absurd h
IsNumberText-IsAll (c ∷ a) h = h

pub point_text-IsAll :
    (a b : Str) → IsNumberText a → IsNumberText b → IsAll is_point_char (point_text a b)
point_text-IsAll a b ha hb =
    IsAll-append is_point_char a (b',' ∷ b)
      (IsAll-mono is_number_char is_point_char a number-point (IsNumberText-IsAll a ha))
      (IsAll-mono is_number_char is_point_char b number-point (IsNumberText-IsAll b hb))

-- a text of such characters is no URL
not-url : (s : Str) → IsAll is_point_char s → is_url (to_ascii_lowercase s) ≡ false
unfolding strip_prefix to_ascii_lowercase
not-url [] h = refl
not-url (c ∷ s) h = ground (arith, h)

as_url-none : (s : Str) → IsAll is_point_char s → as_url s ≡ none
as_url-none s h =
    rw
      (not-url (trim_by (has_char around_url) s)
        (IsAll-trim_by is_point_char (has_char around_url) s h))
      refl

module _ (c : ℕ) (s : Str) (h : IsAll is_point_char (c ∷ s)) where
  no_blank : IsNone is_whitespace (c ∷ s)
  no_blank = IsAll-mono is_point_char (λ (d : ℕ). not (is_whitespace d)) (c ∷ s) point-filled h

  point-trim : trim (c ∷ s) ≡ c ∷ s
  point-trim = trim-none (c ∷ s) no_blank

  point-no_url : first_url_token (c ∷ s) ≡ none
  unfolding first_url_token
  point-no_url = rw (split_whitespace-none c s no_blank) (rw (as_url-none (c ∷ s) h) refl)

  point-line_first : first_non_empty_line (c ∷ s) ≡ some (c ∷ s)
  unfolding first_non_empty_line
  point-line_first =
      rw
        (lines-none c s
          (IsAll-mono is_point_char (λ (d : ℕ). not (d == b'\n')) (c ∷ s) point-line h))
        (rw point-trim refl)

  -- a text of such characters is read as its only line
  parse_trimmed_text-line :
      (lib : Library) → parse_trimmed_text lib (c ∷ s) ≡ parse_line lib (c ∷ s)
  unfolding parse_trimmed_text
  parse_trimmed_text-line lib = rw (point-no_url, point-line_first) refl

  pub parse_shared_text-line :
      (lib : Library)
      → length (c ∷ s) ≤ max_share_text_len
      → parse_shared_text lib (c ∷ s) ≡ parse_line lib (c ∷ s)
  unfolding parse_shared_text
  parse_shared_text-line lib short =
      let le : ltb max_share_text_len (length (c ∷ s)) ≡ false = ground (arith, short) in
      rw (le, point-trim) (parse_trimmed_text-line lib)

module _ (a b : Str) (ha : IsNumberText a) (hb : IsNumberText b) where
  point_text-split : split b',' (point_text a b) ≡ a ∷ b ∷ []
  point_text-split =
      split-sep (λ d. d == b',') a b',' b
        (IsAll-mono is_number_char (λ (d : ℕ). not (d == b',')) a number-other
          (IsNumberText-IsAll a ha))
        refl
      ∙ ap (λ (parts : List Str). a ∷ parts)
          (split-plain (λ d. d == b',') b
            (IsAll-mono is_number_char (λ (d : ℕ). not (d == b',')) b number-other
              (IsNumberText-IsAll b hb)))

  pub pair_parts-point : pair_parts (point_text a b) ≡ a ∷ b ∷ []
  unfolding pair_parts
  pair_parts-point = rw (has_char-middle a b',' b) point_text-split

pub number-trim : (a : Str) → IsNumberText a → trim a ≡ a
number-trim a ha = trim-none a (
    IsAll-mono is_number_char (λ (d : ℕ). not (is_whitespace d)) a number-filled
      (IsNumberText-IsAll a ha))
