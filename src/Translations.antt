-- ===== src/Translations.antt =====
-- app/translations and tools/apply-translations.py: the catalogues of the messages that the pages
-- show, and the tool that merges the template into the catalogue of a language. A catalogue is what
-- `xml.etree` reads from a file: its contexts and messages in order. An element without text and one
-- with the empty text are the same here, since the tool treats them alike.
pub mod Merge
pub mod Markers
mod Tests
use Prim.Native.String.{String}
use text.Mathlib.Text.{◌==◌}
use electric_eel.Base.{
  Bool, true, false, not, ◌&&◌, ◌||◌, Option, none, some, List, [], ◌∷◌, ◌++◌, map, if◌then◌else◌,
}
use electric_eel.Base.{ℕ, all}
use electric_eel.Text.{between, codes, is_whitespace}

pub record Location : Type 0 where
  pub filename : String
  pub line : String

-- `<translation>`: absent, with `type="unfinished"`, or without
pub data Translation : Type 0 where
  absent : Translation
  unfinished : String → Translation
  finished : String → Translation

pub record Message : Type 0 where
  pub locations : List Location
  pub source : String
  pub translation : Translation

pub record Context : Type 0 where
  pub name : String
  pub messages : List Message

-- what is known of a message apart from its translation
abbrev pub Entry : Type 0
Entry = String × List Location

abbrev pub Dict : Type 0
Dict = List (String × String)

-- `str.isspace`, which also has the four separators below the blank
abbrev python_space : ℕ → Bool
python_space c = is_whitespace c || between 0x1c 0x1f c

-- `not src.strip()`
unfoldable pub is_blank : String → Bool
unfolding is_whitespace
is_blank s = all python_space (codes s)

abbrev pub lookup : String → Dict → Option String
lookup k [] = none
lookup k ((k', v) ∷ d) = if k' == k then some v else lookup k d

-- `dict.setdefault`
abbrev pub set_default : String → String → Dict → Dict
set_default k v d = elim (lookup k d) [ none ↦ d ++ (k, v) ∷ [] | some _ ↦ d ]

-- the text of a finished translation that has one
abbrev pub finished_text : Translation → Option String
finished_text (finished t) = if t == "" then none else some t
finished_text _ = none

-- `if text: out.setdefault(src, text)`
abbrev pub add_text : String → Option String → Dict → Dict
add_text src none d = d
add_text src (some t) d = set_default src t d

abbrev pub add_message : Message → Dict → Dict
add_message m d = if is_blank m.source then d else add_text m.source (finished_text m.translation) d

abbrev pub add_messages : List Message → Dict → Dict
add_messages [] d = d
add_messages (m ∷ ms) d = add_messages ms (add_message m d)

abbrev pub add_contexts : List Context → Dict → Dict
add_contexts [] d = d
add_contexts (c ∷ cs) d = add_contexts cs (add_messages c.messages d)

-- `messages`
unfoldable pub messages : List Context → Dict
messages cs = add_contexts cs []

-- `(name, src) in seen`: `seen` has the names and sources of `template_msgs`
abbrev pub has_seen : String → String → List (String × Entry) → Bool
has_seen name src [] = false
has_seen name src ((n, (s, _)) ∷ es) = (n == name && s == src) || has_seen name src es

abbrev pub note : String → Message → List (String × Entry) → List (String × Entry)
note name m es =
    if is_blank m.source || has_seen name m.source es
    then es
    else es ++ (name, (m.source, m.locations)) ∷ []

abbrev pub note_all : String → List Message → List (String × Entry) → List (String × Entry)
note_all name [] es = es
note_all name (m ∷ ms) es = note_all name ms (note name m es)

abbrev pub note_contexts : List Context → List (String × Entry) → List (String × Entry)
note_contexts [] es = es
note_contexts (c ∷ cs) es = note_contexts cs (note_all c.name c.messages es)

unfoldable pub template_msgs : List Context → List (String × Entry)
unfolding is_blank
template_msgs tpl = note_contexts tpl []

-- `by_ctx.setdefault(ctx_name, []).append((src, locations))`
abbrev pub add_entry : String → Entry → List (String × List Entry) → List (String × List Entry)
add_entry name e [] = (name, e ∷ []) ∷ []
add_entry name e ((n, es) ∷ groups) =
    let rest = add_entry name e groups in
    if n == name then (n, es ++ e ∷ []) ∷ groups else (n, es) ∷ rest

abbrev pub add_entries :
    List (String × Entry) → List (String × List Entry) → List (String × List Entry)
add_entries [] groups = groups
add_entries ((name, e) ∷ es) groups = add_entries es (add_entry name e groups)

unfoldable pub by_ctx : List (String × Entry) → List (String × List Entry)
by_ctx es = add_entries es []

abbrev pub translation_of : Option String → Translation
translation_of (some t) = finished t
translation_of none = unfinished ""

unfoldable pub fill : Dict → Entry → Message
fill old (src, locations) = record {
  locations = locations;
  source = src;
  translation = translation_of (lookup src old);
}

unfoldable pub fill_context : Dict → String × List Entry → Context
unfolding fill
fill_context old (name, es) = record { name = name; messages = map (fill old) es }

-- the body of the loop of `main` over the languages
unfoldable pub merge : List Context → List Context → List Context
unfolding fill_context by_ctx template_msgs messages
merge tpl cat = map (fill_context (messages cat)) (by_ctx (template_msgs tpl))
