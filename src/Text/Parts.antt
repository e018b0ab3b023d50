-- ===== src/Text/Parts.antt =====
-- The functions of Rust's `str` that divide and search a text.
use electric_eel.Base.{
  ℕ, ◌≡◌, refl, arith, and-eq_true, all, ◌++◌, Bool, true, false, not, ◌&&◌, ◌||◌, Option, none,
  some, List, [], ◌∷◌, ◌==◌, if◌then◌else◌,
}
use electric_eel.Text.{Str, is_empty, is_whitespace, str_eq, to_ascii_lowercase}

-- the first part of a list of parts, made longer by one character
abbrev pub cons_head : ℕ → List Str → List Str
cons_head c [] = (c ∷ []) ∷ []
cons_head c (part ∷ parts) = (c ∷ part) ∷ parts

-- `s.split(p)`
unfoldable pub split_by : (ℕ → Bool) → Str → List Str
split_by p [] = [] ∷ []
split_by p (d ∷ s) = let rest = split_by p s in if p d then [] ∷ rest else cons_head d rest

abbrev pub split : ℕ → Str → List Str
split c = split_by (λ d. d == c)

abbrev pub non_empty : List Str → List Str
non_empty [] = []
non_empty (part ∷ parts) = let rest = non_empty parts in if is_empty part then rest else part ∷ rest

-- `s.split_whitespace()`
unfoldable pub split_whitespace : Str → List Str
unfolding split_by is_whitespace
split_whitespace s = non_empty (split_by is_whitespace s)

-- a line without the `\r` at its end
abbrev pub strip_cr : Str → Str
strip_cr [] = []
strip_cr (c ∷ s) = let rest = strip_cr s in if is_empty s && c == b'\r' then [] else c ∷ rest

-- The lines of the parts between the ends of lines: the last part is a line only if it is not empty,
-- and keeps a `\r`.
abbrev pub lines_of : List Str → List Str
lines_of [] = []
lines_of (part ∷ []) = if is_empty part then [] else part ∷ []
lines_of (part ∷ next ∷ parts) = strip_cr part ∷ lines_of (next ∷ parts)

-- `s.lines()`
unfoldable pub lines : Str → List Str
unfolding split_by
lines s = lines_of (split b'\n' s)

-- `s.strip_prefix(m)`
unfoldable pub strip_prefix : Str → Str → Option Str
strip_prefix [] s = some s
strip_prefix (a ∷ m) [] = none
strip_prefix (a ∷ m) (b ∷ s) = let rest = strip_prefix m s in if a == b then rest else none

abbrev pub starts_with : Str → Str → Bool
starts_with m s = elim (strip_prefix m s) [ none ↦ false | some _ ↦ true ]

-- what follows the first `m` of `s`, which is found with `s.find(m)`
unfoldable pub after_first : Str → Str → Option Str
unfolding strip_prefix
after_first m [] = strip_prefix m []
after_first m (c ∷ s) =
    let later = after_first m s in
    elim (strip_prefix m (c ∷ s)) [ some rest ↦ some rest | none ↦ later ]

-- the text before the first character that is one of `p`, and the text from it on
unfoldable pub break_at : (ℕ → Bool) → Str → Str × Str
break_at p [] = ([], [])
break_at p (c ∷ s) =
    let (before, rest) = break_at p s in if p c then ([], c ∷ s) else (c ∷ before, rest)

-- a character out of a set of them
abbrev pub has_char : Str → ℕ → Bool
has_char [] d = false
has_char (c ∷ cs) d = d == c || has_char cs d

-- `s.contains([_])`
abbrev pub contains_any : Str → Str → Bool
contains_any cs [] = false
contains_any cs (d ∷ s) = has_char cs d || contains_any cs s

-- `eq_ignore_ascii_case`
unfoldable pub eq_ignore_ascii_case : Str → Str → Bool
unfolding str_eq to_ascii_lowercase
eq_ignore_ascii_case s t = str_eq (to_ascii_lowercase s) (to_ascii_lowercase t)

module _ (p : ℕ → Bool) where
  -- a text without a separator is one part
  pub split-plain : (s : Str) → all (λ (c : ℕ). not (p c)) s ≡ true → split_by p s ≡ s ∷ []
  unfolding split_by
  split-plain [] h = refl
  split-plain (c ∷ s) h =
      let both = and-eq_true (not (p c)) (all (λ (d : ℕ). not (p d)) s) h in
      let other : p c ≡ false = ground (arith, both.0) in rw (other, split-plain s both.1) refl

  -- a text without a separator, before one, is the first part
  pub split-sep :
      (s : Str) (c : ℕ) (rest : Str)
      → all (λ (c : ℕ). not (p c)) s ≡ true
      → p c ≡ true
      → split_by p (s ++ c ∷ rest) ≡ s ∷ split_by p rest
  unfolding split_by
  split-sep [] c rest h is = rw is refl
  split-sep (d ∷ s) c rest h is =
      let both = and-eq_true (not (p d)) (all (λ (d : ℕ). not (p d)) s) h in
      let other : p d ≡ false = ground (arith, both.0) in
      rw (other, split-sep s c rest both.1 is) refl
