-- ===== src/Translations/Merge/Groups.antt =====
-- tools/apply-translations.py: which messages of the template the entries and their groups have.
use Prim.Native.String.{String}
use text.Mathlib.Text.{◌==◌}
use text.Mathlib.TextEquality.{eq_iff}
use electric_eel.Base.{
  ◌≡◌, inl, inr, refl, ◌∙◌, Bool, true, false, not, ◌&&◌, ◌||◌, List, [], ◌∷◌, ◌++◌, arith,
  Bool-cases, All, any, All-append,
}
use electric_eel.Translations.{
  Context, Message, Entry, is_blank, template_msgs, has_seen, note, note_all, note_contexts,
  add_entry, add_entries, by_ctx,
}
use electric_eel.Translations.Merge.{if_either, group_has, GroupsHaveText}

-- Some context has a message with this source.
abbrev pub mentions : String → List Context → Bool
mentions s cs = any (λ c. any (λ m. not (is_blank m.source) && m.source == s) c.messages) cs

abbrev entries_have : String → List (String × Entry) → Bool
entries_have s es = any (λ e. e.1.0 == s) es

any-append {ℓ} :
    {A : Type ℓ} (p : A → Bool) (xs ys : List A) → any p (xs ++ ys) ≡ (any p xs || any p ys)
any-append p [] ys = refl
any-append p (x ∷ xs) ys = ground (arith, any-append p xs ys)

seen-have :
    (name s : String) (es : List (String × Entry))
    → has_seen name s es ≡ true
    → entries_have s es ≡ true
seen-have name s [] h = absurd cc
seen-have name s ((n, (k, l)) ∷ es) h = ground (arith, seen-have name s es)

note-have :
    (s name : String) (m : Message) (es : List (String × Entry))
    → entries_have s (note name m es)
      ≡ (entries_have s es || (not (is_blank m.source) && m.source == s))
note-have s name m es = elim (Bool-cases (m.source == s)) [
  | inl same ↦
      let eq : m.source ≡ s = (eq_iff m.source s).0 same in
      let seen : has_seen name m.source es ≡ true → entries_have s es ≡ true =
        λ h. rw⁻¹ eq (seen-have name m.source es h) in
      ground (
        arith,
        seen,
        any-append (λ (e : String × Entry). e.1.0 == s) es ((name, (m.source, m.locations)) ∷ []),
      )
  | inr other ↦ ground (
    arith,
    any-append (λ (e : String × Entry). e.1.0 == s) es ((name, (m.source, m.locations)) ∷ []),
  )
]

note_all-have :
    (s name : String) (ms : List Message) (es : List (String × Entry))
    → entries_have s (note_all name ms es)
      ≡ (entries_have s es || any (λ m. not (is_blank m.source) && m.source == s) ms)
note_all-have s name [] es = ground arith
note_all-have s name (m ∷ ms) es =
    ground (arith, note_all-have s name ms (note name m es), note-have s name m es)

note_contexts-have :
    (s : String) (cs : List Context) (es : List (String × Entry))
    → entries_have s (note_contexts cs es) ≡ (entries_have s es || mentions s cs)
note_contexts-have s [] es = ground arith
note_contexts-have s (c ∷ cs) es = ground (
  arith,
  note_contexts-have s cs (note_all c.name c.messages es),
  note_all-have s c.name c.messages es,
)

add_entry-has :
    (s name : String) (e : Entry) (groups : List (String × List Entry))
    → group_has s (add_entry name e groups) ≡ (group_has s groups || e.0 == s)
add_entry-has s name e [] = ground arith
add_entry-has s name e ((n, es) ∷ groups) =
    ground
      (arith, any-append (λ (e' : Entry). e'.0 == s) es (e ∷ []), add_entry-has s name e groups)

add_entries-has :
    (s : String) (es : List (String × Entry)) (groups : List (String × List Entry))
    → group_has s (add_entries es groups) ≡ (group_has s groups || entries_have s es)
add_entries-has s [] groups = ground arith
add_entries-has s ((name, e) ∷ es) groups =
    ground (arith, add_entries-has s es (add_entry name e groups), add_entry-has s name e groups)

-- The groups have a source just when the template mentions it.
pub by_ctx-has :
    (s : String) (tpl : List Context) → group_has s (by_ctx (template_msgs tpl)) ≡ mentions s tpl
unfolding by_ctx template_msgs
by_ctx-has s tpl = add_entries-has s (note_contexts tpl []) [] ∙ note_contexts-have s tpl []

abbrev EntriesHaveText : List (String × Entry) → Type 0
EntriesHaveText es = All (λ e. is_blank e.1.0 ≡ false) es

note-HasText :
    (name : String) (m : Message) (es : List (String × Entry))
    → EntriesHaveText es
    → EntriesHaveText (note name m es)
note-HasText name m es h =
    if_either EntriesHaveText (is_blank m.source || has_seen name m.source es) h (λ fresh.
      let text : is_blank m.source ≡ false = ground arith in
      All-append (λ (e : String × Entry). is_blank e.1.0 ≡ false) es
        ((name, (m.source, m.locations)) ∷ []) h (text, tt))

note_all-HasText :
    (name : String) (ms : List Message) (es : List (String × Entry))
    → EntriesHaveText es
    → EntriesHaveText (note_all name ms es)
note_all-HasText name [] es h = h
note_all-HasText name (m ∷ ms) es h =
    note_all-HasText name ms (note name m es) (note-HasText name m es h)

note_contexts-HasText :
    (cs : List Context) (es : List (String × Entry))
    → EntriesHaveText es
    → EntriesHaveText (note_contexts cs es)
note_contexts-HasText [] es h = h
note_contexts-HasText (c ∷ cs) es h =
    note_contexts-HasText cs (note_all c.name c.messages es)
      (note_all-HasText c.name c.messages es h)

add_entry-HasText :
    (name : String) (e : Entry) (groups : List (String × List Entry))
    → is_blank e.0 ≡ false
    → GroupsHaveText groups
    → GroupsHaveText (add_entry name e groups)
add_entry-HasText name e [] text h = ((text, tt), tt)
add_entry-HasText name e ((n, es) ∷ groups) text h = ground (
  arith,
  add_entry-HasText name e groups text h.1,
  All-append (λ (e' : Entry). is_blank e'.0 ≡ false) es (e ∷ []) h.0 (text, tt),
)

add_entries-HasText :
    (es : List (String × Entry)) (groups : List (String × List Entry))
    → EntriesHaveText es
    → GroupsHaveText groups
    → GroupsHaveText (add_entries es groups)
add_entries-HasText [] groups text h = h
add_entries-HasText ((name, e) ∷ es) groups text h =
    add_entries-HasText es (add_entry name e groups) text.1
      (add_entry-HasText name e groups text.0 h)

-- No entry of a group has a blank source.
pub by_ctx-HasText : (tpl : List Context) → GroupsHaveText (by_ctx (template_msgs tpl))
unfolding by_ctx template_msgs
by_ctx-HasText tpl =
    add_entries-HasText (note_contexts tpl []) [] (note_contexts-HasText tpl [] tt) tt
