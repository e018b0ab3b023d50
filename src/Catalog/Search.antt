-- ===== src/Catalog/Search.antt =====
-- app/qml/js/CommandCatalog.js: the list of the categories and `findCategory`.
use Prim.Native.String.{String}
use text.Mathlib.Text.{◌==◌ as str_eq}
use electric_eel.Base.{Option, none, some, List, [], ◌∷◌, if◌then◌else◌}
use electric_eel.Catalog.Items.{Category}
use electric_eel.Catalog.Data.Climate.{attention, climate}
use electric_eel.Catalog.Data.Charging.{charging}
use electric_eel.Catalog.Data.Body.{security, body, media}
use electric_eel.Catalog.Data.Others.{software, keys, diagnostics}

-- `CATEGORIES`
abbrev pub categories : List Category
categories =
    attention ∷ climate ∷ charging ∷ security ∷ body ∷ media ∷ software ∷ keys ∷ diagnostics ∷ []

-- the loop of `findCategory`
abbrev pub find_from : List Category → String → Option Category
find_from [] id = none
find_from (c ∷ cs) id = let rest = find_from cs id in if str_eq c.id id then some c else rest

unfoldable pub find_category : String → Option Category
find_category id = find_from categories id
