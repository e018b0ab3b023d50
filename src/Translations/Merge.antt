-- ===== src/Translations/Merge.antt =====
-- tools/apply-translations.py: what the merged catalogue has in it.
pub mod Groups
pub mod Results
pub mod Texts
pub mod Unique
use Prim.Native.String.{String}
use text.Mathlib.Text.{◌==◌}
use text.Mathlib.TextEquality.{eq_iff}
use text.Mathlib.TextPositions.{eq_refl}
use mathlib.Core.Path.{subst}
use electric_eel.Base.{
  ℕ, ◌≡◌, ◌⊎◌, inl, inr, refl, sym, ap, ◌∙◌, Bool, true, false, not, ◌&&◌, ◌||◌, Option, none, some,
  List, [], ◌∷◌, ◌++◌, map, arith, if◌then◌else◌, Bool-cases, Option-cases, All, All-append, any,
}
use electric_eel.Translations.{
  Context, Message, Entry, Dict, Translation, absent, finished, unfinished, lookup, set_default,
  finished_text, is_blank, add_text, add_message, add_messages, add_contexts, messages,
  template_msgs, has_seen, note, note_all, note_contexts, add_entry, add_entries, by_ctx,
  translation_of, fill, fill_context, merge,
}

-- The first of two answers that there is.
abbrev pub or_else : Option String → Option String → Option String
or_else none b = b
or_else (some a) b = some a

lookup-append :
    (s k v : String) (d : Dict)
    → lookup s (d ++ (k, v) ∷ []) ≡ or_else (lookup s d) (if k == s then some v else none)
lookup-append s k v [] = refl
lookup-append s k v ((k', v') ∷ d) = ground (arith, lookup-append s k v d)

pub lookup-set_default :
    (s k v : String) (d : Dict)
    → lookup s (set_default k v d) ≡ or_else (lookup s d) (if k == s then some v else none)
lookup-set_default s k v d = elim (Option-cases (lookup k d)) [
  | inl e ↦ ground (arith, lookup-append s k v d)
  | inr (a, e) ↦ elim (Bool-cases (k == s)) [
    | inl same ↦ let eq : k ≡ s = (eq_iff k s).0 same in ground arith
    | inr other ↦ ground arith
  ]
]

pub if_either {ℓ κ} :
    {A : Type ℓ} (P : A → Type κ) {x y : A} (b : Bool)
    → P x
    → (b ≡ false → P y)
    → P (if b then x else y)
if_either P true px py = px
if_either P false px py = py refl

-- What holds of every source and text of a dictionary.
module _ (P : String → String → Type 0) where
  abbrev pub AllTexts : Dict → Type 0
  AllTexts d = All (λ p. P p.0 p.1) d

  abbrev pub FinishedHas : Message → Type 0
  FinishedHas m = (t : String) → finished_text m.translation ≡ some t → P m.source t

  pub lookup-AllTexts : (s t : String) (d : Dict) → AllTexts d → lookup s d ≡ some t → P s t
  lookup-AllTexts s t [] h e = absurd cc
  lookup-AllTexts s t ((k, v) ∷ d) h e = elim (Bool-cases (k == s)) [
    | inl same ↦
        let key : k ≡ s = (eq_iff k s).0 same in
        let text : v ≡ t = ground arith in subst (λ u. P s u) text (subst (λ u. P u v) key h.0)
    | inr other ↦ lookup-AllTexts s t d h.1 (ground arith)
  ]

  set_default-AllTexts :
      (k v : String) (d : Dict) → AllTexts d → P k v → AllTexts (set_default k v d)
  set_default-AllTexts k v d h new =
      elim (lookup k d) as (λ o. AllTexts (elim o [ none ↦ d ++ (k, v) ∷ [] | some _ ↦ d ])) [
        | none ↦ All-append (λ (p : String × String). P p.0 p.1) d ((k, v) ∷ []) h (new, tt)
        | some _ ↦ h
      ]

  add_text-AllTexts :
      (k : String) (o : Option String) (d : Dict)
      → AllTexts d
      → ((t : String) → o ≡ some t → P k t)
      → AllTexts (add_text k o d)
  add_text-AllTexts k none d h has = h
  add_text-AllTexts k (some t) d h has = set_default-AllTexts k t d h (has t refl)

  add_message-AllTexts :
      (m : Message) (d : Dict) → AllTexts d → FinishedHas m → AllTexts (add_message m d)
  add_message-AllTexts m d h has =
      if_either AllTexts (is_blank m.source) h
        (λ _. add_text-AllTexts m.source (finished_text m.translation) d h has)

  abbrev pub MessagesHave : List Message → Type 0
  MessagesHave ms = All FinishedHas ms

  abbrev pub ContextsHave : List Context → Type 0
  ContextsHave cs = All (λ c. MessagesHave c.messages) cs

  add_messages-AllTexts :
      (ms : List Message) (d : Dict) → AllTexts d → MessagesHave ms → AllTexts (add_messages ms d)
  add_messages-AllTexts [] d h has = h
  add_messages-AllTexts (m ∷ ms) d h has =
      add_messages-AllTexts ms (add_message m d) (add_message-AllTexts m d h has.0) has.1

  add_contexts-AllTexts :
      (cs : List Context) (d : Dict) → AllTexts d → ContextsHave cs → AllTexts (add_contexts cs d)
  add_contexts-AllTexts [] d h has = h
  add_contexts-AllTexts (c ∷ cs) d h has =
      add_contexts-AllTexts cs (add_messages c.messages d)
        (add_messages-AllTexts c.messages d h has.0) has.1

  pub messages-AllTexts : (cs : List Context) → ContextsHave cs → AllTexts (messages cs)
  unfolding messages
  messages-AllTexts cs has = add_contexts-AllTexts cs [] tt has

-- Every text in a dictionary that `messages` makes is there because it is not empty.
abbrev pub Full : String → String → Type 0
Full s t = (t == "") ≡ false

abbrev pub IsFull : Dict → Type 0
IsFull d = AllTexts Full d

finished_text-full : (tr : Translation) (t : String) → finished_text tr ≡ some t → (t == "") ≡ false
finished_text-full absent t h = absurd cc
finished_text-full (unfinished u) t h = absurd cc
finished_text-full (finished u) t h = ground arith

MessagesHave-Full : (ms : List Message) → MessagesHave Full ms
MessagesHave-Full [] = tt
MessagesHave-Full (m ∷ ms) = (finished_text-full m.translation, MessagesHave-Full ms)

ContextsHave-Full : (cs : List Context) → ContextsHave Full cs
ContextsHave-Full [] = tt
ContextsHave-Full (c ∷ cs) = (MessagesHave-Full c.messages, ContextsHave-Full cs)

pub messages-IsFull : (cs : List Context) → IsFull (messages cs)
messages-IsFull cs = messages-AllTexts Full cs (ContextsHave-Full cs)

abbrev pub has_source : String → List Entry → Bool
has_source s es = any (λ e. e.0 == s) es

abbrev pub HasText : List Entry → Type 0
HasText es = All (λ e. is_blank e.0 ≡ false) es

add_message-fill :
    (s : String) (old : Dict) (e : Entry) (d : Dict)
    → IsFull old
    → is_blank e.0 ≡ false
    → lookup s (add_message (fill old e) d)
      ≡ or_else (lookup s d) (if e.0 == s then lookup s old else none)
unfolding fill
add_message-fill s old (k, locations) d full text = elim (Option-cases (lookup k old)) [
  | inl missing ↦ elim (Bool-cases (k == s)) [
    | inl same ↦ let eq : k ≡ s = (eq_iff k s).0 same in ground arith
    | inr other ↦ ground arith
  ]
  | inr (t, found) ↦
      let text_full = lookup-AllTexts Full k t old full found in
      elim (Bool-cases (k == s)) [
        | inl same ↦
            let eq : k ≡ s = (eq_iff k s).0 same in ground (arith, lookup-set_default s k t d)
        | inr other ↦ ground (arith, lookup-set_default s k t d)
      ]
]

add_messages-fill :
    (s : String) (old : Dict) (es : List Entry) (d : Dict)
    → IsFull old
    → HasText es
    → lookup s (add_messages (map (fill old) es) d)
      ≡ or_else (lookup s d) (if has_source s es then lookup s old else none)
add_messages-fill s old [] d full text = ground arith
add_messages-fill s old (e ∷ es) d full text = ground (
  arith,
  add_messages-fill s old es (add_message (fill old e) d) full text.1,
  add_message-fill s old e d full text.0,
)

abbrev pub group_has : String → List (String × List Entry) → Bool
group_has s groups = any (λ g. has_source s g.1) groups

abbrev pub GroupsHaveText : List (String × List Entry) → Type 0
GroupsHaveText groups = All (λ g. HasText g.1) groups

pub add_contexts-fill :
    (s : String) (old : Dict) (groups : List (String × List Entry)) (d : Dict)
    → IsFull old
    → GroupsHaveText groups
    → lookup s (add_contexts (map (fill_context old) groups) d)
      ≡ or_else (lookup s d) (if group_has s groups then lookup s old else none)
unfolding fill_context
add_contexts-fill s old [] d full text = ground arith
add_contexts-fill s old ((name, es) ∷ groups) d full text = ground (
  arith,
  add_contexts-fill s old groups (add_messages (map (fill old) es) d) full text.1,
  add_messages-fill s old es d full text.0,
)
