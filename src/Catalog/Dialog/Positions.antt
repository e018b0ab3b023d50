-- ===== src/Catalog/Dialog/Positions.antt =====
-- What the form sends: the positions of the arguments.
use electric_eel.Base.{
  ℕ, zero, suc, ◌≤◌, ◌<◌, ◌≡◌, ◌⊎◌, inl, inr, refl, arith, ◌∙◌, and-eq_true, true, none, some, List,
  [], ◌∷◌, map, length, take, get_elem?, some-injective, ap,
}
use electric_eel.Text.{Str, is_empty}
use electric_eel.Catalog.Items.{Arg}
use electric_eel.Catalog.Dialog.{text_of, is_blank_at, pop_loop, on_accepted}

-- a position behind the loop is blank, or behind the first `n`
is_empty-nil : (s : Str) → is_empty s ≡ true → s ≡ []
is_empty-nil [] h = refl
is_empty-nil (c ∷ s) h = cc

pop_loop-blank :
    (args : List Arg) (n i : ℕ) → (i < pop_loop args n) ⊎ (n ≤ i) ⊎ (is_blank_at args i ≡ true)
pop_loop-blank args zero i = inr (inl (omega arith))
pop_loop-blank args (suc n) i = ground (arith, pop_loop-blank args n i)

get_elem?-take :
    {A : Type 0} (xs : List A) (n i : ℕ)
    → ((i < n) × (get_elem? (take n xs) i ≡ get_elem? xs i))
      ⊎ ((n ≤ i) × (get_elem? (take n xs) i ≡ none))
get_elem?-take xs zero i = inr (omega arith, refl)
get_elem?-take [] (suc n) i = ground arith
get_elem?-take (x ∷ xs) (suc n) zero = inl (omega arith, refl)
get_elem?-take (x ∷ xs) (suc n) (suc i) = ground (arith, get_elem?-take xs n i)

get_elem?-map :
    (args : List Arg) (i : ℕ) (a : Arg)
    → get_elem? args i ≡ some a
    → (get_elem? (map text_of args) i ≡ some (text_of a)) × (i < length args)
get_elem?-map [] i a h = cc
get_elem?-map (b ∷ args) zero a h =
    (ap (λ (c : Arg). some (text_of c)) (some-injective b a h), omega arith)
get_elem?-map (b ∷ args) (suc i) a h = ground (arith, get_elem?-map args i a h)

is_blank_at-get :
    (args : List Arg) (i : ℕ) (a : Arg)
    → get_elem? args i ≡ some a
    → is_blank_at args i ≡ true
    → (a.optional ≡ true) × (text_of a ≡ [])
is_blank_at-get args i a h blank =
    let both = and-eq_true a.optional (is_empty (text_of a)) (rw (h, is_blank_at) at blank) in
    (both.0, is_empty-nil (text_of a) both.1)

-- Each argument of a form is sent at its own position in the list of the command; only an optional
-- argument with an empty text can be left out.
pub on_accepted-get_elem? :
    (args : List Arg) (i : ℕ) (a : Arg)
    → get_elem? args i ≡ some a
    → (get_elem? (on_accepted args) i ≡ some (text_of a))
      ⊎ ((get_elem? (on_accepted args) i ≡ none) × (a.optional ≡ true) × (text_of a ≡ []))
unfolding on_accepted
on_accepted-get_elem? args i a h =
    let n = pop_loop args (length args) in
    let found = get_elem?-map args i a h in
    elim (get_elem?-take (map text_of args) n i) [
      | inl (lt, e) ↦ inl (e ∙ found.0)
      | inr (le, e) ↦ elim (pop_loop-blank args (length args) i) [
        | inl lt ↦ absurd (omega arith)
        | inr (inl long) ↦ absurd (omega (arith, found.1))
        | inr (inr blank) ↦ let both = is_blank_at-get args i a h blank in inr (e, both.0, both.1)
      ]
    ]
