-- ===== src/Translations/Tests.antt =====
-- app/translations: the theorems applied to some messages of the template and of the Italian catalogue.
use electric_eel.Base.{◌≡◌, refl, true, none, some, List, [], ◌∷◌, if◌then◌else◌}
use Prim.Native.String.{String}
use electric_eel.Translations.{
  is_blank, Location, Context, finished, unfinished, lookup, messages, merge, by_ctx, template_msgs,
}
use electric_eel.Translations.Merge.Groups.{mentions}
use electric_eel.Translations.Merge.Results.{outline, IsSettled}
use electric_eel.Translations.Merge.Texts.{first_text, Translates, merge-Translates}
use electric_eel.Translations.Merge.Unique.{occurrences, mentions_in, occurrences-merge}
use electric_eel.Translations.Markers.{markers_kept}

abbrev dialog : List Location
dialog = record { filename = "../qml/pages/ArgumentDialog.qml"; line = "41" } ∷ []

abbrev category : List Location
category = record { filename = "../qml/pages/CategoryPage.qml"; line = "48" } ∷ []

abbrev template : List Context
template =
    record {
      name = "ArgumentDialog";
      messages = record { locations = dialog; source = "Run"; translation = unfinished "" } ∷ [];
    }
    ∷ record {
      name = "CategoryPage";
      messages =
          record { locations = category; source = "%1 • %2°C inside"; translation = unfinished "" }
          ∷ record { locations = category; source = "Climate on"; translation = unfinished "" }
          ∷ [];
    }
    ∷ []

abbrev italian : List Context
italian =
    record {
      name = "ArgumentDialog";
      messages =
          record { locations = dialog; source = "Run"; translation = finished "Esegui" } ∷ [];
    }
    ∷ record {
      name = "CategoryPage";
      messages =
          record {
            locations = category;
            source = "%1 • %2°C inside";
            translation = finished "%1 • %2°C all'interno";
          }
          ∷ record {
            locations = category;
            source = "Climate on";
            translation = finished "Clima acceso";
          }
          ∷ [];
    }
    ∷ []

-- two contexts translate one source in two ways
abbrev split_catalogue : List Context
split_catalogue =
    record {
      name = "CategoryPage";
      messages =
          record { locations = category; source = "Climate on"; translation = unfinished "Clima" }
          ∷ record { locations = category; source = "Climate on"; translation = finished "Acceso" }
          ∷ [];
    }
    ∷ record {
      name = "CoverPage";
      messages =
          record {
            locations = dialog;
            source = "Climate on";
            translation = finished "Clima acceso";
          }
          ∷ [];
    }
    ∷ []

first_of_two : first_text "Climate on" split_catalogue ≡ some "Acceso"
first_of_two = refl

italian-outline : outline italian ≡ by_ctx (template_msgs template)
unfolding by_ctx template_msgs is_blank
italian-outline = refl

italian-IsSettled : IsSettled (messages italian) italian
unfolding messages is_blank
italian-IsSettled = ((refl, tt), ((refl, (refl, tt)), tt))

italian_markers : markers_kept italian ≡ true
unfolding markers_kept
italian_markers = refl

merge-Translates_example :
    Translates split_catalogue (merge template split_catalogue)
    × ((s : String)
        → lookup s (messages (merge template split_catalogue))
          ≡ (if mentions s template then lookup s (messages split_catalogue) else none))
merge-Translates_example = merge-Translates template split_catalogue

occurrences-merge_example :
    occurrences "CategoryPage" "Climate on" (merge template italian)
    ≡ (if mentions_in "CategoryPage" "Climate on" template then 1 else 0)
occurrences-merge_example = occurrences-merge "CategoryPage" "Climate on" template italian
