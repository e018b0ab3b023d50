-- ===== src/Translations/Merge/Results.antt =====
-- tools/apply-translations.py: the merged catalogue beside the template and the old catalogue.
use Prim.Native.String.{String}
use text.Mathlib.TextPositions.{eq_refl}
use mathlib.Core.Path.{ap₂}
use electric_eel.Base.{
  ◌≡◌, refl, sym, ap, ◌∙◌, true, Option, none, some, List, [], ◌∷◌, map, arith, if◌then◌else◌, All,
}
use electric_eel.Translations.{
  Context, Message, Entry, Dict, Location, Translation, finished_text, translation_of, lookup,
  messages, template_msgs, by_ctx, fill, fill_context, merge,
}
use electric_eel.Translations.Merge.{
  has_source, group_has, add_contexts-fill, messages-IsFull, MessagesHave, ContextsHave,
  FinishedHas, AllTexts, messages-AllTexts, lookup-AllTexts,
}
use electric_eel.Translations.Merge.Groups.{mentions, by_ctx-has, by_ctx-HasText}

-- The texts that the tool would read back from the catalogue it writes are those of the old
-- catalogue for the sources that the template mentions, and none for any other.
pub messages-merge :
    (s : String) (tpl cat : List Context)
    → lookup s (messages (merge tpl cat))
      ≡ (if mentions s tpl then lookup s (messages cat) else none)
unfolding merge messages
messages-merge s tpl cat = rw⁻¹ (by_ctx-has s tpl) (
    add_contexts-fill s (messages cat) (by_ctx (template_msgs tpl)) [] (messages-IsFull cat)
      (by_ctx-HasText tpl))

abbrev keep : List Location → String → Translation → Message
keep locations source translation = record {
  locations = locations;
  source = source;
  translation = translation;
}

abbrev in_context : String → List Message → Context
in_context name messages = record { name = name; messages = messages }

module _ (old new : Dict) where
  map-fill :
      (es : List Entry)
      → ((s : String) → has_source s es ≡ true → lookup s old ≡ lookup s new)
      → map (fill old) es ≡ map (fill new) es
  unfolding fill
  map-fill [] same = refl
  map-fill ((k, l) ∷ es) same =
      ap₂ (λ (o : Option String) (ms : List Message). keep l k (translation_of o) ∷ ms)
        (same k (ground (arith, eq_refl k))) (map-fill es (λ s h. same s (ground arith)))

  map-fill_context :
      (groups : List (String × List Entry))
      → ((s : String) → group_has s groups ≡ true → lookup s old ≡ lookup s new)
      → map (fill_context old) groups ≡ map (fill_context new) groups
  unfolding fill_context
  map-fill_context [] same = refl
  map-fill_context ((n, es) ∷ groups) same =
      ap₂ (λ (ms : List Message) (cs : List Context). in_context n ms ∷ cs)
        (map-fill es (λ s h. same s (ground arith)))
        (map-fill_context groups (λ s h. same s (ground arith)))

-- Merging a template into a catalogue, and then another whose sources the first one mentions, gives
-- what merging the second alone gives: no finished translation is lost on the way. So merging the
-- same template again changes nothing.
pub merge-merge :
    (tpl later cat : List Context)
    → ((s : String) → mentions s later ≡ true → mentions s tpl ≡ true)
    → merge later (merge tpl cat) ≡ merge later cat
unfolding merge
merge-merge tpl later cat covers =
    map-fill_context (messages (merge tpl cat)) (messages cat) (by_ctx (template_msgs later))
      (λ s h.
        let known = covers s (sym (by_ctx-has s later) ∙ h) in
        messages-merge s tpl cat ∙ ap (λ b. if b then lookup s (messages cat) else none) known)

-- The sources and places of a catalogue, without its translations.
abbrev pub outline : List Context → List (String × List Entry)
outline cs = map (λ c. (c.name, map (λ m. (m.source, m.locations)) c.messages)) cs

-- Every translation is the finished one that the tool finds for its source.
abbrev pub IsSettled : Dict → List Context → Type 0
IsSettled d cs =
    All (λ c. All (λ m. translation_of (lookup m.source d) ≡ m.translation) c.messages) cs

fill-outline :
    (d : Dict) (ms : List Message)
    → All (λ m. translation_of (lookup m.source d) ≡ m.translation) ms
    → map (fill d) (map (λ m. (m.source, m.locations)) ms) ≡ ms
unfolding fill
fill-outline d [] h = refl
fill-outline d (m ∷ ms) h =
    ap₂ (λ (t : Translation) (ms' : List Message). keep m.locations m.source t ∷ ms') h.0
      (fill-outline d ms h.1)

fill_context-outline :
    (d : Dict) (cs : List Context) → IsSettled d cs → map (fill_context d) (outline cs) ≡ cs
unfolding fill_context
fill_context-outline d [] h = refl
fill_context-outline d (c ∷ cs) h =
    ap₂ (λ (ms : List Message) (cs' : List Context). in_context c.name ms ∷ cs')
      (fill-outline d c.messages h.0) (fill_context-outline d cs h.1)

-- A catalogue that has the template's contexts, sources and places in their order, and whose
-- translations agree with the ones that the tool reads from it, is left as it is.
pub merge_fixed :
    (tpl cat : List Context)
    → outline cat ≡ by_ctx (template_msgs tpl)
    → IsSettled (messages cat) cat
    → merge tpl cat ≡ cat
unfolding merge
merge_fixed tpl cat same settled =
    ap (map (fill_context (messages cat))) (sym same)
    ∙ fill_context-outline (messages cat) cat settled

finished_text-translation_of :
    (o : Option String) (t : String) → finished_text (translation_of o) ≡ some t → o ≡ some t
finished_text-translation_of none t h = absurd cc
finished_text-translation_of (some u) t h = ground arith

module _ (P : String → String → Type 0) (d : Dict) (h : AllTexts P d) where
  fill-FinishedHas : (e : Entry) → FinishedHas P (fill d e)
  unfolding fill
  fill-FinishedHas (k, l) t found =
      lookup-AllTexts P k t d h (finished_text-translation_of (lookup k d) t found)

  fill-MessagesHave : (es : List Entry) → MessagesHave P (map (fill d) es)
  fill-MessagesHave [] = tt
  fill-MessagesHave (e ∷ es) = (fill-FinishedHas e, fill-MessagesHave es)

  fill_context-ContextsHave :
      (groups : List (String × List Entry)) → ContextsHave P (map (fill_context d) groups)
  unfolding fill_context
  fill_context-ContextsHave [] = tt
  fill_context-ContextsHave ((n, es) ∷ groups) =
      (fill-MessagesHave es, fill_context-ContextsHave groups)

-- Whatever holds of the source and text of every finished translation of the old catalogue holds of
-- those of the merged one.
pub merge-ContextsHave :
    (P : String → String → Type 0) (tpl cat : List Context)
    → ContextsHave P cat
    → ContextsHave P (merge tpl cat)
unfolding merge
merge-ContextsHave P tpl cat h =
    fill_context-ContextsHave P (messages cat) (messages-AllTexts P cat h)
      (by_ctx (template_msgs tpl))
