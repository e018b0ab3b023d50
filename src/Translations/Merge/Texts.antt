-- ===== src/Translations/Merge/Texts.antt =====
-- tools/apply-translations.py: which text of the old catalogue each message of the merged one has.
use Prim.Native.String.{String}
use text.Mathlib.Text.{◌==◌}
use text.Mathlib.TextEquality.{eq_iff}
use electric_eel.Base.{
  ◌≡◌, inl, inr, refl, ap, ◌∙◌, false, Option, none, some, List, [], ◌∷◌, map, arith, if◌then◌else◌,
  Bool-cases, All,
}
use electric_eel.Translations.{
  Context, Message, Entry, Dict, lookup, finished_text, is_blank, add_text, add_message,
  add_messages, add_contexts, messages, template_msgs, by_ctx, translation_of, fill, fill_context,
  merge,
}
use electric_eel.Translations.Merge.{or_else, lookup-set_default, HasText, GroupsHaveText}
use electric_eel.Translations.Merge.Groups.{mentions, by_ctx-HasText}
use electric_eel.Translations.Merge.Results.{messages-merge}

abbrev first_in : String → List Message → Option String
first_in s [] = none
first_in s (m ∷ ms) =
    or_else (if m.source == s then finished_text m.translation else none) (first_in s ms)

-- the first finished text of the source in any context of the catalogue, if there is one
abbrev pub first_text : String → List Context → Option String
first_text s [] = none
first_text s (c ∷ cs) = or_else (first_in s c.messages) (first_text s cs)

or_else_assoc : (a b c : Option String) → or_else (or_else a b) c ≡ or_else a (or_else b c)
or_else_assoc none b c = refl
or_else_assoc (some a) b c = refl

module _ (s : String) (text : is_blank s ≡ false) where
  lookup-add_text :
      (k : String) (o : Option String) (d : Dict)
      → lookup s (add_text k o d) ≡ or_else (lookup s d) (if k == s then o else none)
  lookup-add_text k none d = ground arith
  lookup-add_text k (some t) d = lookup-set_default s k t d

  lookup-add_message :
      (m : Message) (d : Dict)
      → lookup s (add_message m d)
        ≡ or_else (lookup s d) (if m.source == s then finished_text m.translation else none)
  lookup-add_message m d = elim (Bool-cases (m.source == s)) [
    | inl same ↦
        let eq : m.source ≡ s = (eq_iff m.source s).0 same in
        ground (arith, lookup-add_text m.source (finished_text m.translation) d)
    | inr other ↦ ground (arith, lookup-add_text m.source (finished_text m.translation) d)
  ]

  lookup-add_messages :
      (ms : List Message) (d : Dict)
      → lookup s (add_messages ms d) ≡ or_else (lookup s d) (first_in s ms)
  lookup-add_messages [] d = ground arith
  lookup-add_messages (m ∷ ms) d =
      lookup-add_messages ms (add_message m d)
      ∙ ap (λ o. or_else o (first_in s ms)) (lookup-add_message m d)
      ∙ or_else_assoc (lookup s d) (if m.source == s then finished_text m.translation else none)
          (first_in s ms)

  lookup-add_contexts :
      (cs : List Context) (d : Dict)
      → lookup s (add_contexts cs d) ≡ or_else (lookup s d) (first_text s cs)
  lookup-add_contexts [] d = ground arith
  lookup-add_contexts (c ∷ cs) d =
      lookup-add_contexts cs (add_messages c.messages d)
      ∙ ap (λ o. or_else o (first_text s cs)) (lookup-add_messages c.messages d)
      ∙ or_else_assoc (lookup s d) (first_in s c.messages) (first_text s cs)

  lookup-messages : (cs : List Context) → lookup s (messages cs) ≡ first_text s cs
  unfolding messages
  lookup-messages cs = lookup-add_contexts cs []

-- every message has the first finished text of its source
abbrev MessagesTranslate : List Context → List Message → Type 0
MessagesTranslate cat ms = All (λ m. m.translation ≡ translation_of (first_text m.source cat)) ms

abbrev pub Translates : List Context → List Context → Type 0
Translates cat cs = All (λ c. MessagesTranslate cat c.messages) cs

module _ (cat : List Context) where
  fill-MessagesTranslate :
      (es : List Entry) → HasText es → MessagesTranslate cat (map (fill (messages cat)) es)
  unfolding fill
  fill-MessagesTranslate [] text = tt
  fill-MessagesTranslate ((k, locations) ∷ es) text =
      (ap translation_of (lookup-messages k text.0 cat), fill-MessagesTranslate es text.1)

  fill_context-Translates :
      (groups : List (String × List Entry))
      → GroupsHaveText groups
      → Translates cat (map (fill_context (messages cat)) groups)
  unfolding fill_context
  fill_context-Translates [] text = tt
  fill_context-Translates ((name, es) ∷ groups) text =
      (fill-MessagesTranslate es text.0, fill_context-Translates groups text.1)

-- Every message of the merged catalogue has the first finished text that its source has in any context of
-- the old one, and is unfinished if there is none; so a source that two contexts translate in two
-- ways gets the first text in both. And the texts that the tool would read back are those of the old
-- catalogue for the sources that the template mentions, and none for any other.
pub merge-Translates :
    (tpl cat : List Context)
    → Translates cat (merge tpl cat)
      × ((s : String)
          → lookup s (messages (merge tpl cat))
            ≡ (if mentions s tpl then lookup s (messages cat) else none))
unfolding merge
merge-Translates tpl cat = (
  fill_context-Translates cat (by_ctx (template_msgs tpl)) (by_ctx-HasText tpl),
  λ s. messages-merge s tpl cat,
)
