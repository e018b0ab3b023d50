-- ===== src/Translations/Merge/Unique.antt =====
-- tools/apply-translations.py: every message of the template is in the merged catalogue once.
use Prim.Native.String.{String}
use text.Mathlib.Text.{◌==◌}
use text.Mathlib.TextEquality.{eq_iff}
use electric_eel.Base.{
  ℕ, ◌+◌, ◌≡◌, inl, inr, refl, ap, ◌∙◌, Bool, not, ◌&&◌, ◌||◌, List, [], ◌∷◌, ◌++◌, map, arith,
  if◌then◌else◌, Bool-cases, any,
}
use electric_eel.Translations.{
  Context, Message, Entry, Dict, is_blank, template_msgs, has_seen, note, note_all, note_contexts,
  add_entry, add_entries, by_ctx, fill, fill_context, messages, merge,
}

abbrev pub count {ℓ} : {A : Type ℓ} → (A → Bool) → List A → ℕ
count p [] = 0
count p (x ∷ xs) = (if p x then 1 else 0) + count p xs

count-append {ℓ} :
    {A : Type ℓ} (p : A → Bool) (xs ys : List A) → count p (xs ++ ys) ≡ count p xs + count p ys
count-append p [] ys = omega arith
count-append p (x ∷ xs) ys = ground (arith, count-append p xs ys)

module _ (name s : String) where
  abbrev is_entry : String × Entry → Bool
  is_entry e = e.0 == name && e.1.0 == s

  abbrev is_source : Entry → Bool
  is_source e = e.0 == s

  -- The messages with this source in contexts of this name.
  abbrev pub occurrences : List Context → ℕ
  occurrences [] = 0
  occurrences (c ∷ cs) =
      (if c.name == name then count (λ m. m.source == s) c.messages else 0) + occurrences cs

  -- Some context of this name has a message with this source, which is not blank.
  abbrev pub mentions_in : List Context → Bool
  mentions_in cs =
      any (λ c. any (λ m. not (is_blank m.source) && c.name == name && m.source == s) c.messages) cs

  abbrev SeenOnce : List (String × Entry) → Type 0
  SeenOnce es = count is_entry es ≡ (if has_seen name s es then 1 else 0)

  has_seen-append :
      (es : List (String × Entry)) (e : String × Entry)
      → has_seen name s (es ++ e ∷ []) ≡ (has_seen name s es || is_entry e)
  has_seen-append [] e = ground arith
  has_seen-append (e' ∷ es) e = ground (arith, has_seen-append es e)

  note-seen :
      (n : String) (m : Message) (es : List (String × Entry))
      → has_seen name s (note n m es)
        ≡ (has_seen name s es || (not (is_blank m.source) && n == name && m.source == s))
  note-seen n m es = elim (Bool-cases (n == name && m.source == s)) [
    | inl same ↦
        let name_eq : n ≡ name = (eq_iff n name).0 (ground arith) in
        let source_eq : m.source ≡ s = (eq_iff m.source s).0 (ground arith) in
        ground (arith, has_seen-append es (n, (m.source, m.locations)))
    | inr other ↦ ground (arith, has_seen-append es (n, (m.source, m.locations)))
  ]

  note-once :
      (n : String) (m : Message) (es : List (String × Entry)) → SeenOnce es → SeenOnce (note n m es)
  note-once n m es h = elim (Bool-cases (n == name && m.source == s)) [
    | inl same ↦
        let name_eq : n ≡ name = (eq_iff n name).0 (ground arith) in
        let source_eq : m.source ≡ s = (eq_iff m.source s).0 (ground arith) in
        ground (
          arith,
          has_seen-append es (n, (m.source, m.locations)),
          count-append is_entry es ((n, (m.source, m.locations)) ∷ []),
        )
    | inr other ↦ ground (
      arith,
      has_seen-append es (n, (m.source, m.locations)),
      count-append is_entry es ((n, (m.source, m.locations)) ∷ []),
    )
  ]

  note_all-once :
      (n : String) (ms : List Message) (es : List (String × Entry))
      → SeenOnce es
      → SeenOnce (note_all n ms es)
  note_all-once n [] es h = h
  note_all-once n (m ∷ ms) es h = note_all-once n ms (note n m es) (note-once n m es h)

  note_all-seen :
      (n : String) (ms : List Message) (es : List (String × Entry))
      → has_seen name s (note_all n ms es) ≡ (
          has_seen name s es || any (λ m. not (is_blank m.source) && n == name && m.source == s) ms)
  note_all-seen n [] es = ground arith
  note_all-seen n (m ∷ ms) es = ground (arith, note_all-seen n ms (note n m es), note-seen n m es)

  note_contexts-once :
      (cs : List Context) (es : List (String × Entry))
      → SeenOnce es
      → SeenOnce (note_contexts cs es)
  note_contexts-once [] es h = h
  note_contexts-once (c ∷ cs) es h =
      note_contexts-once cs (note_all c.name c.messages es) (note_all-once c.name c.messages es h)

  note_contexts-seen :
      (cs : List Context) (es : List (String × Entry))
      → has_seen name s (note_contexts cs es) ≡ (has_seen name s es || mentions_in cs)
  note_contexts-seen [] es = ground arith
  note_contexts-seen (c ∷ cs) es = ground (
    arith,
    note_contexts-seen cs (note_all c.name c.messages es),
    note_all-seen c.name c.messages es,
  )

  abbrev groups_count : List (String × List Entry) → ℕ
  groups_count [] = 0
  groups_count ((n, es) ∷ groups) =
      (if n == name then count is_source es else 0) + groups_count groups

  add_entry-count :
      (n : String) (e : Entry) (groups : List (String × List Entry))
      → groups_count (add_entry n e groups)
        ≡ groups_count groups + (if is_entry (n, e) then 1 else 0)
  add_entry-count n e [] = ground arith
  add_entry-count n e ((n', es) ∷ groups) = elim (Bool-cases (n' == n)) [
    | inl same ↦
        let eq : n' ≡ n = (eq_iff n' n).0 same in ground (arith, count-append is_source es (e ∷ []))
    | inr other ↦ ground (arith, add_entry-count n e groups)
  ]

  add_entries-count :
      (es : List (String × Entry)) (groups : List (String × List Entry))
      → groups_count (add_entries es groups) ≡ groups_count groups + count is_entry es
  add_entries-count [] groups = omega arith
  add_entries-count ((n, e) ∷ es) groups =
      ground (arith, add_entries-count es (add_entry n e groups), add_entry-count n e groups)

  count-fill :
      (d : Dict) (es : List Entry)
      → count (λ m. m.source == s) (map (fill d) es) ≡ count is_source es
  unfolding fill
  count-fill d [] = refl
  count-fill d (e ∷ es) = ground (arith, count-fill d es)

  occurrences-fill_context :
      (d : Dict) (groups : List (String × List Entry))
      → occurrences (map (fill_context d) groups) ≡ groups_count groups
  unfolding fill_context
  occurrences-fill_context d [] = refl
  occurrences-fill_context d ((n, es) ∷ groups) =
      ground (arith, occurrences-fill_context d groups, count-fill d es)

-- The merged catalogue has a message once if the template has it with a source that is not blank, in
-- whatever contexts of that name and however often, and not at all otherwise.
pub occurrences-merge :
    (name s : String) (tpl cat : List Context)
    → occurrences name s (merge tpl cat) ≡ (if mentions_in name s tpl then 1 else 0)
unfolding merge by_ctx template_msgs
occurrences-merge name s tpl cat = omega (
  arith,
  occurrences-fill_context name s (messages cat) (by_ctx (template_msgs tpl)),
  add_entries-count name s (note_contexts tpl []) [],
  note_contexts-once name s tpl [] refl
      ∙ ap (λ b. if b then 1 else 0) (note_contexts-seen name s tpl []),
)
