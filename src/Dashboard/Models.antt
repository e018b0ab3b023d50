-- ===== src/Dashboard/Models.antt =====
-- app/qml/js/VehicleState.js: the models of the dashboard, and the guess from the VIN. The names are
-- those before translation; `toUpperCase` is a parameter.
pub mod Agreement
use electric_eel.Base.{
  ℕ, zero, suc, Bool, true, false, List, [], ◌∷◌, length, ltb, ◌&&◌, ◌||◌, not, if◌then◌else◌,
  get_elem?, Option, none, some, ◌==◌,
}
use electric_eel.Text.{Str, codes, str_eq, is_empty}

pub record Model : Type 0 where
  pub id : Str
  pub name : Str
  pub image : Str

abbrev model : Str → Str → Str → Model
model id name image = record { id = id; name = name; image = image }

-- `MODELS`, with the names before translation
abbrev pub models : List Model
models =
    model (codes "") (codes "Auto (from VIN)") (codes "")
    ∷ model (codes "model3") (codes "Model 3") (codes "../../img/model3.png")
    ∷ model (codes "models") (codes "Model S") (codes "../../img/models.png")
    ∷ model (codes "modelx") (codes "Model X") (codes "../../img/modelx.png")
    ∷ model (codes "modely") (codes "Model Y") (codes "../../img/modely.png")
    ∷ model (codes "cybertruck") (codes "Cybertruck") (codes "../../img/cybertruck.png")
    ∷ []

abbrev default_image : Str
default_image = codes "../../img/model3.png"

abbrev pub find_image : List Model → Str → Str
find_image [] id = default_image
find_image (m ∷ ms) id =
    let rest = find_image ms id in
    if str_eq m.id id && not (is_empty m.image) then m.image else rest

unfoldable pub model_image : Str → Str
unfolding str_eq
model_image id = find_image models id

abbrev pub find_name : List Model → Str → Str
find_name [] id = codes "Model 3"
find_name (m ∷ ms) id = let rest = find_name ms id in if str_eq m.id id then m.name else rest

unfoldable pub model_name : Str → Str
unfolding str_eq
model_name id = find_name models id

-- the loop of `modelIndex` from the position `i` on
abbrev pub find_index : List Model → ℕ → Str → ℕ
find_index [] i id = 0
find_index (m ∷ ms) i id = let rest = find_index ms (suc i) id in if str_eq m.id id then i else rest

unfoldable pub model_index : Str → ℕ
unfolding str_eq
model_index id = find_index models 0 id

-- `s.indexOf(prefix) === 0`
unfoldable pub starts_with : Str → Str → Bool
starts_with s [] = true
starts_with [] (p ∷ prefix) = false
starts_with (c ∷ s) (p ∷ prefix) = c == p && starts_with s prefix

abbrev pub prefixes : List (Str × Str)
prefixes =
    (codes "LRW3", codes "model3")
    ∷ (codes "LRWY", codes "modely")
    ∷ (codes "5YJ3", codes "model3")
    ∷ (codes "5Y3", codes "model3")
    ∷ (codes "5YJY", codes "modely")
    ∷ (codes "5YJX", codes "modelx")
    ∷ (codes "5YFY", codes "modely")
    ∷ (codes "5YFS", codes "models")
    ∷ (codes "5YJS", codes "models")
    ∷ (codes "7SAS", codes "models")
    ∷ (codes "7SAX", codes "modelx")
    ∷ (codes "7SAY", codes "modely")
    ∷ (codes "7G2Z", codes "cybertruck")
    ∷ (codes "7G2Y", codes "modely")
    ∷ (codes "XP7", codes "modely")
    ∷ (codes "LRW", codes "modely")
    ∷ []

abbrev pub find_prefix : List (Str × Str) → Str → Str
find_prefix [] vin = []
find_prefix ((prefix, id) ∷ table) vin =
    let rest = find_prefix table vin in if starts_with vin prefix then id else rest

module _ (to_upper_case : Str → Str) where
  unfoldable pub guess_model : Str → Str
  unfolding starts_with
  guess_model vin =
      if ltb (length (to_upper_case vin)) 4 then [] else find_prefix prefixes (to_upper_case vin)

  unfoldable pub effective_model : Str → Str → Str
  unfolding guess_model
  effective_model model vin = if is_empty model then guess_model vin else model

  unfoldable pub car_image_source : Str → Str → Str
  unfolding model_image effective_model
  car_image_source model vin = model_image (effective_model model vin)
