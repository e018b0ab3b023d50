-- ===== src/Text/Plain.antt =====
-- Texts whose characters are all of one kind: what trimming, dividing and searching make of them.
use electric_eel.Base.{
  ℕ, ◌≡◌, refl, ap, ◌∙◌, arith, Bool, true, not, [], ◌∷◌, ◌++◌, ◌==◌, all, and-eq_true,
}
use electric_eel.Text.{Str, is_whitespace, trim, trim_by, trim_start_by, trim_end_by}
use electric_eel.Text.Parts.{
  split_whitespace, non_empty, lines, lines_of, break_at, split-plain, has_char,
}

-- every character has the test `p`
abbrev pub IsAll : (ℕ → Bool) → Str → Type 0
IsAll p s = all p s ≡ true

abbrev pub IsNone : (ℕ → Bool) → Str → Type 0
IsNone p s = all (λ (c : ℕ). not (p c)) s ≡ true

pub IsAll-mono :
    (p q : ℕ → Bool) (s : Str) → ((c : ℕ) → p c ≡ true → q c ≡ true) → IsAll p s → IsAll q s
IsAll-mono p q [] imp h = refl
IsAll-mono p q (c ∷ s) imp h =
    let both = and-eq_true (p c) (all p s) h in rw (imp c both.0, IsAll-mono p q s imp both.1) refl

pub IsAll-append : (p : ℕ → Bool) (s t : Str) → IsAll p s → IsAll p t → IsAll p (s ++ t)
IsAll-append p [] t hs ht = ht
IsAll-append p (c ∷ s) t hs ht =
    let both = and-eq_true (p c) (all p s) hs in rw (both.0, IsAll-append p s t both.1 ht) refl

module _ (p : ℕ → Bool) where
  trim_start_by-none : (s : Str) → IsNone p s → trim_start_by p s ≡ s
  unfolding trim_start_by
  trim_start_by-none [] h = refl
  trim_start_by-none (c ∷ s) h = ground (arith, h)

  trim_end_by-none : (s : Str) → IsNone p s → trim_end_by p s ≡ s
  unfolding trim_end_by
  trim_end_by-none [] h = refl
  trim_end_by-none (c ∷ s) h = ground (arith, h, trim_end_by-none s)

  -- trimming takes nothing off a text that has nothing to trim
  pub trim_by-none : (s : Str) → IsNone p s → trim_by p s ≡ s
  unfolding trim_by
  trim_by-none s h = ap (trim_end_by p) (trim_start_by-none s h) ∙ trim_end_by-none s h

  pub break_at-none : (s : Str) → IsNone p s → break_at p s ≡ (s, [])
  unfolding break_at
  break_at-none [] h = refl
  break_at-none (c ∷ s) h = ground (arith, h, break_at-none s)

-- trimming keeps what holds of all characters
module _ (q p : ℕ → Bool) where
  IsAll-trim_start_by : (s : Str) → IsAll q s → IsAll q (trim_start_by p s)
  unfolding trim_start_by
  IsAll-trim_start_by [] h = refl
  IsAll-trim_start_by (c ∷ s) h = ground (arith, h, IsAll-trim_start_by s)

  IsAll-trim_end_by : (s : Str) → IsAll q s → IsAll q (trim_end_by p s)
  unfolding trim_end_by
  IsAll-trim_end_by [] h = refl
  IsAll-trim_end_by (c ∷ s) h = ground (arith, h, IsAll-trim_end_by s)

  pub IsAll-trim_by : (s : Str) → IsAll q s → IsAll q (trim_by p s)
  unfolding trim_by
  IsAll-trim_by s h = IsAll-trim_end_by (trim_start_by p s) (IsAll-trim_start_by s h)

pub trim-none : (s : Str) → IsNone is_whitespace s → trim s ≡ s
unfolding trim
trim-none s h = trim_by-none is_whitespace s h

pub split_whitespace-none :
    (c : ℕ) (s : Str) → IsNone is_whitespace (c ∷ s) → split_whitespace (c ∷ s) ≡ (c ∷ s) ∷ []
unfolding split_whitespace
split_whitespace-none c s h = ap non_empty (split-plain is_whitespace (c ∷ s) h)

pub lines-none : (c : ℕ) (s : Str) → IsNone (λ d. d == b'\n') (c ∷ s) → lines (c ∷ s) ≡ (c ∷ s) ∷ []
unfolding lines
lines-none c s h = ap lines_of (split-plain (λ d. d == b'\n') (c ∷ s) h)

-- a character that is put between two texts occurs in them
pub has_char-middle : (s : Str) (c : ℕ) (t : Str) → has_char (s ++ c ∷ t) c ≡ true
has_char-middle [] c t = ground arith
has_char-middle (d ∷ s) c t = ground (arith, has_char-middle s c t)
