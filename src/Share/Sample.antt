-- ===== src/Share/Sample.antt =====
-- A library for tests: URLs and forms without any encoding, and the numbers in strokes of Catalog.Strokes.
use mathlib.Core.Path.{subst}
use electric_eel.Base.{
  some-injective, ℕ, zero, suc, ◌≤◌, ◌≡◌, refl, ap, arith, Bool, true, not, ◌&&◌, Option, none,
  some, List, [], ◌∷◌, map, ◌==◌, all, All, length, if◌then◌else◌,
}
use electric_eel.Base.Int.{ℤ, pos, negsuc}
use electric_eel.Text.{Str, codes, is_empty, trim}
use electric_eel.Text.Parts.{split, break_at, has_char}
use electric_eel.Text.Lengths.{IsShort, All-IsShort_mono, split_by-IsShort, break_at-length}
use electric_eel.Text.Plain.{trim-none}
use electric_eel.Dashboard.Json.{number}
use electric_eel.Catalog.Items.{Number}
use electric_eel.Catalog.Strokes.{zeros, strokes, write, read_number, read-write, write-IsNumeral}
use electric_eel.Share.Values.{Double, finite, not_finite, ParsedUrl, Library}
use electric_eel.Share.Url.{fragment_of}
use electric_eel.Share.{tail}
use electric_eel.Share.Sound.{IsBounded}

abbrev pub key_value : Str → Str × Str
key_value part = let (k, v) = break_at (λ c. c == b'=') part in (k, tail v)

abbrev pub parse_form : Str → List (Str × Str)
parse_form q = map key_value (split b'&' q)

abbrev before_hash : Str → Str
before_hash u = (break_at (λ c. c == b'#') u).0

abbrev after_hash : Str → Str
after_hash u = tail (break_at (λ c. c == b'#') u).1

abbrev query : Str → Str
query u = tail (break_at (λ c. c == b'?') (before_hash u)).1

abbrev is_strokes : Str → Bool
is_strokes s = not (is_empty s) && all (has_char (codes "+-01")) s

abbrev pub parse_strokes : Str → Option Double
parse_strokes s = if is_strokes s then some (finite (read_number s)) else none

abbrev pub print_strokes : Double → Str
print_strokes (finite v) = write (number v.mantissa v.decimals)
print_strokes not_finite = codes "NaN"

abbrev sample_url : Str → ParsedUrl
sample_url u = record {
  path = (break_at (λ c. c == b'?') (before_hash u)).0;
  query_pairs = parse_form (query u);
  fragment = some (after_hash u);
}

abbrev pub sample : Library
sample = record {
  parse_url = λ u. some (sample_url u);
  parse_form = parse_form;
  parse_f64 = parse_strokes;
}

length-tail : (s : Str) → length (tail s) ≤ length s
length-tail [] = omega arith
length-tail (c ∷ s) = omega arith

values-short :
    (n : ℕ) (parts : List Str)
    → All (IsShort n) parts
    → All (λ (kv : Str × Str). length kv.1 ≤ n) (map key_value parts)
values-short n [] h = tt
values-short n (part ∷ parts) h =
    let v = (break_at (λ c. c == b'=') part).1 in
    (
      omega (arith, h.0, length-tail v, (break_at-length (λ c. c == b'=') part).1),
      values-short n parts h.1,
    )

form-short :
    (n : ℕ) (q : Str) → length q ≤ n → All (λ (kv : Str × Str). length kv.1 ≤ n) (parse_form q)
form-short n q h =
    values-short n (split b'&' q)
      (All-IsShort_mono n (length q) (split b'&' q) h (split_by-IsShort (λ c. c == b'&') q))

length-query : (u : Str) → length (query u) ≤ length u
length-query u =
    let before = before_hash u in
    let rest = (break_at (λ c. c == b'?') before).1 in
    omega (
      arith,
      length-tail rest,
      (break_at-length (λ c. c == b'?') before).1,
      (break_at-length (λ c. c == b'#') u).0,
    )

length-after_hash : (u : Str) → length (after_hash u) ≤ length u
length-after_hash u =
    let rest = (break_at (λ c. c == b'#') u).1 in
    omega (arith, length-tail rest, (break_at-length (λ c. c == b'#') u).1)

pub sample-IsBounded : IsBounded sample
sample-IsBounded = record {
  query_values = λ u p e.
      subst (λ (p : ParsedUrl). All (λ (kv : Str × Str). length kv.1 ≤ length u) p.query_pairs)
        (some-injective (sample_url u) p e) (form-short (length u) (query u) (length-query u));
  fragment_values = λ u p e.
      subst
        (λ (p : ParsedUrl).
          All (λ (kv : Str × Str). length kv.1 ≤ length u) (parse_form (fragment_of p.fragment)))
        (some-injective (sample_url u) p e)
        (form-short (length u) (after_hash u) (length-after_hash u));
  form_values = λ q. form-short (length q) q (omega arith);
}

zeros-is_strokes : (d : ℕ) → all (has_char (codes "+-01")) (zeros d) ≡ true
zeros-is_strokes zero = refl
zeros-is_strokes (suc d) = zeros-is_strokes d

strokes-is_strokes : (n d : ℕ) → all (has_char (codes "+-01")) (strokes n d) ≡ true
strokes-is_strokes zero d = zeros-is_strokes d
strokes-is_strokes (suc n) d = strokes-is_strokes n d

write-is_strokes : (m : ℤ) (d : ℕ) → is_strokes (write (number m d)) ≡ true
write-is_strokes (pos n) d = strokes-is_strokes n d
write-is_strokes (negsuc n) d = strokes-is_strokes n d

pub parse-print : (v : Number) → parse_strokes (trim (print_strokes (finite v))) ≡ some (finite v)
parse-print v =
    rw
      (
        trim-none (write (number v.mantissa v.decimals)) (write-IsNumeral v.mantissa v.decimals).0,
        write-is_strokes v.mantissa v.decimals,
      )
      (ap (λ (n : Number). some (finite n)) (read-write v.mantissa v.decimals))
