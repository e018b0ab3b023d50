-- ===== src/Text/Trim.antt =====
-- Laws of the text functions: trimming, comparing, lowering.
use electric_eel.Base.{
  ℕ, ◌≡◌, ◌⊎◌, inl, inr, refl, sym, ap, ◌∙◌, Bool, true, false, List, [], ◌∷◌, arith, Bool-cases,
}
use electric_eel.Text.{Str, str_eq, trim_start_by, trim_end_by, trim_by, trim, contains_str}

pub str_eq-eq : (s t : Str) → str_eq s t ≡ true → s ≡ t
unfolding str_eq
str_eq-eq [] [] h = refl
str_eq-eq [] (b ∷ t) h = cc
str_eq-eq (a ∷ s) [] h = cc
str_eq-eq (a ∷ s) (b ∷ t) h = ground (arith, str_eq-eq s t)

pub str_eq_refl : (s : Str) → str_eq s s ≡ true
unfolding str_eq
str_eq_refl [] = refl
str_eq_refl (a ∷ s) = ground (arith, str_eq_refl s)

pub contains_str-cases :
    (t : Str) (ts : List Str) (s : Str)
    → contains_str (t ∷ ts) s ≡ true
    → (s ≡ t) ⊎ (contains_str ts s ≡ true)
unfolding contains_str
contains_str-cases t ts s h = elim (Bool-cases (str_eq t s)) [
  | inl e ↦ inl (sym (str_eq-eq t s e))
  | inr e ↦ inr (rw e at h)
]

module _ (p : ℕ → Bool) where
  trim_end_by_keep : (c : ℕ) (s : Str) → p c ≡ false → trim_end_by p (c ∷ s) ≡ c ∷ trim_end_by p s
  unfolding trim_end_by
  trim_end_by_keep c s h = ground arith

  trim_end_by_twice : (s : Str) → trim_end_by p (trim_end_by p s) ≡ trim_end_by p s
  unfolding trim_end_by
  trim_end_by_twice [] = refl
  trim_end_by_twice (c ∷ s) = ground (arith, trim_end_by_twice s)

  trim_start_by_cases :
      (s : Str)
      → (trim_start_by p s ≡ [])
        ⊎ ((c : ℕ) × (r : Str) × (trim_start_by p s ≡ c ∷ r) × (p c ≡ false))
  unfolding trim_start_by
  trim_start_by_cases [] = inl refl
  trim_start_by_cases (c ∷ s) = elim (Bool-cases (p c)) [
    | inl h ↦ rw h (trim_start_by_cases s)
    | inr h ↦ inr (c, s, rw h refl, h)
  ]

  trim_start_by_stop : (c : ℕ) (s : Str) → p c ≡ false → trim_start_by p (c ∷ s) ≡ c ∷ s
  unfolding trim_start_by
  trim_start_by_stop c s h = rw h

  pub trim_by_twice : (s : Str) → trim_by p (trim_by p s) ≡ trim_by p s
  unfolding trim_by
  trim_by_twice s = elim (trim_start_by_cases s) [
    | inl e ↦ rw e refl
    | inr (c, r, e, h) ↦ rw e (
        rw (trim_end_by_keep c r h) (
          rw (trim_start_by_stop c (trim_end_by p r) h)
            (trim_end_by_keep c (trim_end_by p r) h ∙ ap (λ t. c ∷ t) (trim_end_by_twice r))))
  ]

pub trim_twice : (s : Str) → trim (trim s) ≡ trim s
unfolding trim
trim_twice s = trim_by_twice _ s
