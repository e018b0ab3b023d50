-- ===== src/Translations/Markers.antt =====
-- app/translations: the place markers of the messages, which the pages fill by `arg`.
use Prim.Native.String.{String}
use mathlib.Core.Path.{subst}
use electric_eel.Base.{
  ℕ, ◌≡◌, Bool, true, ◌&&◌, List, [], ◌∷◌, arith, ◌==◌, if◌then◌else◌, all, and-eq_true, ◌||◌,
  Option, none, some,
}
use electric_eel.Text.{codes, str_eq, is_ascii_digit}
use electric_eel.Text.Trim.{str_eq-eq}
use electric_eel.Translations.{Context, Message, finished_text, merge}
use electric_eel.Translations.Merge.Results.{merge-ContextsHave}
use electric_eel.Translations.Merge.{MessagesHave, ContextsHave}

-- the characters that follow a percent sign and are a digit or an `n`, in order
unfoldable pub markers : List ℕ → List ℕ
markers [] = []
markers (c ∷ []) = []
markers (c ∷ d ∷ s) =
    let rest = markers (d ∷ s) in
    if c == b'%' && (is_ascii_digit d || d == b'n') then d ∷ rest else rest

-- the markers of a text are those of its source
abbrev pub SameMarkers : String → String → Type 0
SameMarkers source text = markers (codes text) ≡ markers (codes source)

same_markers : String → String → Bool
unfolding str_eq markers
same_markers source text = str_eq (markers (codes text)) (markers (codes source))

abbrev check_text : String → Option String → Bool
check_text source none = true
check_text source (some t) = same_markers source t

check_text_lem :
    (source : String) (o : Option String)
    → check_text source o ≡ true
    → (t : String) → o ≡ some t
    → SameMarkers source t
unfolding same_markers
check_text_lem source none h t found = absurd cc
check_text_lem source (some u) h t found =
    let same : u ≡ t = ground arith in
    subst (λ v. SameMarkers source v) same
      (str_eq-eq (markers (codes u)) (markers (codes source)) h)

abbrev check_messages : List Message → Bool
check_messages ms = all (λ m. check_text m.source (finished_text m.translation)) ms

check_messages_lem : (ms : List Message) → check_messages ms ≡ true → MessagesHave SameMarkers ms
check_messages_lem [] h = tt
check_messages_lem (m ∷ ms) h =
    let both =
      and-eq_true (check_text m.source (finished_text m.translation)) (check_messages ms) h in
    (check_text_lem m.source (finished_text m.translation) both.0, check_messages_lem ms both.1)

-- the test of a whole catalogue
unfoldable pub markers_kept : List Context → Bool
unfolding same_markers
markers_kept cs = all (λ c. check_messages c.messages) cs

pub markers_kept_lem : (cs : List Context) → markers_kept cs ≡ true → ContextsHave SameMarkers cs
unfolding markers_kept
markers_kept_lem [] h = tt
markers_kept_lem (c ∷ cs) h =
    let both =
      and-eq_true (check_messages c.messages) (all (λ c'. check_messages c'.messages) cs) h in
    (check_messages_lem c.messages both.0, markers_kept_lem cs both.1)

-- If every finished translation of a catalogue has the place markers of its source in order, which
-- the test `markers_kept` decides, so has every one of the merged catalogue.
merge-SameMarkers :
    (tpl cat : List Context) → markers_kept cat ≡ true → ContextsHave SameMarkers (merge tpl cat)
merge-SameMarkers tpl cat h = merge-ContextsHave SameMarkers tpl cat (markers_kept_lem cat h)
