-- ===== src/Text/Lengths.antt =====
-- How long the parts of a text are, and which are not blank.
use electric_eel.Base.{
  ℕ, suc, ◌≤◌, ◌≡◌, inl, inr, arith, Bool, false, List, [], ◌∷◌, length, All, Bool-cases,
}
use electric_eel.Text.{Str, is_empty, is_whitespace, trim, trim_by, trim_start_by, trim_end_by}
use electric_eel.Text.Parts.{
  cons_head, split_by, non_empty, split_whitespace, strip_cr, lines_of, lines, break_at, split,
}

-- at most so many characters
abbrev pub IsShort : ℕ → Str → Type 0
IsShort n s = length s ≤ n

length-trim_start_by : (p : ℕ → Bool) (s : Str) → length (trim_start_by p s) ≤ length s
unfolding trim_start_by
length-trim_start_by p [] = omega arith
length-trim_start_by p (c ∷ s) = ground (arith, length-trim_start_by p s)

length-trim_end_by : (p : ℕ → Bool) (s : Str) → length (trim_end_by p s) ≤ length s
unfolding trim_end_by
length-trim_end_by p [] = omega arith
length-trim_end_by p (c ∷ s) = ground (arith, length-trim_end_by p s)

pub length-trim_by : (p : ℕ → Bool) (s : Str) → length (trim_by p s) ≤ length s
unfolding trim_by
length-trim_by p s =
    omega (arith, length-trim_end_by p (trim_start_by p s), length-trim_start_by p s)

pub length-trim : (s : Str) → length (trim s) ≤ length s
unfolding trim
length-trim s = length-trim_by is_whitespace s

-- a text whose first character is not blank is not blank
pub trim-filled : (c : ℕ) (s : Str) → is_whitespace c ≡ false → is_empty (trim (c ∷ s)) ≡ false
unfolding trim trim_by trim_start_by trim_end_by
trim-filled c s h = rw h (ground (arith, h))

module _ (n : ℕ) where
  pub All-IsShort_mono :
      (m : ℕ) (parts : List Str) → m ≤ n → All (IsShort m) parts → All (IsShort n) parts
  All-IsShort_mono m [] h all_short = all_short
  All-IsShort_mono m (part ∷ parts) h (short, rest) =
      (omega (arith, short), All-IsShort_mono m parts h rest)

-- the first part grows by a character, the others stay
cons_head-IsShort :
    (n c : ℕ) (parts : List Str) → All (IsShort n) parts → All (IsShort (suc n)) (cons_head c parts)
cons_head-IsShort n c [] h = (omega arith, tt)
cons_head-IsShort n c (part ∷ parts) h =
    (omega (arith, h.0), All-IsShort_mono (suc n) n parts (omega arith) h.1)

pub split_by-IsShort : (p : ℕ → Bool) (s : Str) → All (IsShort (length s)) (split_by p s)
unfolding split_by
split_by-IsShort p [] = (omega arith, tt)
split_by-IsShort p (d ∷ s) = elim (Bool-cases (p d)) [
  | inl sep ↦ rw sep (
    omega arith,
    All-IsShort_mono (suc (length s)) (length s) (split_by p s) (omega arith)
        (split_by-IsShort p s),
  )
  | inr other ↦ rw other (cons_head-IsShort (length s) d (split_by p s) (split_by-IsShort p s))
]

non_empty-IsShort :
    (n : ℕ) (parts : List Str) → All (IsShort n) parts → All (IsShort n) (non_empty parts)
non_empty-IsShort n [] h = h
non_empty-IsShort n (part ∷ parts) h = elim (Bool-cases (is_empty part)) [
  | inl e ↦ rw e (non_empty-IsShort n parts h.1)
  | inr e ↦ rw e (h.0, non_empty-IsShort n parts h.1)
]

pub split_whitespace-IsShort : (s : Str) → All (IsShort (length s)) (split_whitespace s)
unfolding split_whitespace
split_whitespace-IsShort s =
    non_empty-IsShort (length s) (split_by is_whitespace s) (split_by-IsShort is_whitespace s)

length-strip_cr : (s : Str) → length (strip_cr s) ≤ length s
length-strip_cr [] = omega arith
length-strip_cr (c ∷ s) = ground (arith, length-strip_cr s)

lines_of-IsShort :
    (n : ℕ) (parts : List Str) → All (IsShort n) parts → All (IsShort n) (lines_of parts)
lines_of-IsShort n [] h = h
lines_of-IsShort n (part ∷ []) h = elim (Bool-cases (is_empty part)) [
  | inl e ↦ rw e tt
  | inr e ↦ rw e h
]
lines_of-IsShort n (part ∷ next ∷ parts) h =
    (omega (arith, h.0, length-strip_cr part), lines_of-IsShort n (next ∷ parts) h.1)

pub lines-IsShort : (s : Str) → All (IsShort (length s)) (lines s)
unfolding lines
lines-IsShort s = lines_of-IsShort (length s) (split b'\n' s) (split_by-IsShort _ s)

pub break_at-length :
    (p : ℕ → Bool) (s : Str)
    → (length (break_at p s).0 ≤ length s) × (length (break_at p s).1 ≤ length s)
unfolding break_at
break_at-length p [] = (omega arith, omega arith)
break_at-length p (c ∷ s) = ground (arith, break_at-length p s)
