-- ===== src/Dashboard/Models/Agreement.antt =====
-- app/qml/js/VehicleState.js beside helper/src/config.rs: the dashboard and the core know the same
-- models.
use electric_eel.Base.{
  ℕ, suc, ◌≡◌, inl, inr, refl, ap, Bool, true, false, some, List, [], ◌∷◌, map, all, arith, length,
  ltb, get_elem?, if◌then◌else◌, Bool-cases, and-eq_true,
}
use electric_eel.Text.{Str, str_eq, is_empty, contains_str}
use electric_eel.Text.Trim.{str_eq-eq}
use electric_eel.Config.{valid_models}
use electric_eel.Dashboard.Models.{
  Model, models, model_index, find_image, find_index, find_prefix, prefixes, guess_model,
  effective_model, car_image_source, starts_with,
}

if_either {ℓ κ} :
    {A : Type ℓ} (P : A → Type κ) (b : Bool) (x y : A) → P x → P y → P (if b then x else y)
if_either P true x y px py = px
if_either P false x y px py = py

abbrev IsKnown : Str → Type 0
IsKnown id = contains_str valid_models id ≡ true

find_prefix-IsKnown :
    (table : List (Str × Str)) (vin : Str)
    → all (λ row. contains_str valid_models row.1) table ≡ true
    → IsKnown (find_prefix table vin)
unfolding contains_str
find_prefix-IsKnown [] vin h = refl
find_prefix-IsKnown ((prefix, id) ∷ table) vin h =
    let both =
      and-eq_true (contains_str valid_models id)
        (all (λ row. contains_str valid_models row.1) table) h in
    if_either IsKnown (starts_with vin prefix) id (find_prefix table vin) both.0
      (find_prefix-IsKnown table vin both.1)

-- Whatever the VIN, the model that is guessed from it is one that `SetConfig` accepts; and so is the
-- model that is drawn, if the one of the configuration is.
effective_model-IsKnown :
    (to_upper_case : Str → Str) (model vin : Str)
    → contains_str valid_models model ≡ true
    → (contains_str valid_models (guess_model to_upper_case vin) ≡ true)
      × (contains_str valid_models (effective_model to_upper_case model vin) ≡ true)
unfolding effective_model contains_str str_eq
effective_model-IsKnown to_upper_case model vin known =
    let guessed : IsKnown (guess_model to_upper_case vin) =
      if_either IsKnown (ltb (length (to_upper_case vin)) 4) []
        (find_prefix prefixes (to_upper_case vin)) refl
        (find_prefix-IsKnown prefixes (to_upper_case vin) refl) in
    (
      guessed,
      if_either IsKnown (is_empty model) (guess_model to_upper_case vin) model guessed known,
    )

find_index-shift :
    (ms : List Model) (i : ℕ) (id : Str)
    → contains_str (map (λ m. m.id) ms) id ≡ true
    → find_index ms (suc i) id ≡ suc (find_index ms i id)
unfolding contains_str
find_index-shift [] i id h = absurd cc
find_index-shift (m ∷ ms) i id h = ground (arith, find_index-shift ms (suc i) id)

find_index-get :
    (ms : List Model) (id : Str)
    → contains_str (map (λ m. m.id) ms) id ≡ true
    → get_elem? (map (λ m. m.id) ms) (find_index ms 0 id) ≡ some id
unfolding contains_str
find_index-get [] id h = absurd cc
find_index-get (m ∷ ms) id h = elim (Bool-cases (str_eq m.id id)) [
  | inl same ↦ rw same (ap (λ t. some t) (str_eq-eq m.id id same))
  | inr other ↦
      let later : contains_str (map (λ m'. m'.id) ms) id ≡ true = rw other at h in
      rw (other, find_index-shift ms 0 id later) (find_index-get ms id later)
]

find_image-has : (ms : List Model) (id : Str) → is_empty (find_image ms id) ≡ false
find_image-has [] id = refl
find_image-has (m ∷ ms) id = ground (arith, find_image-has ms id)

-- A model that `SetConfig` accepts is found again at the place in the list of models that the
-- settings page selects for it; and whatever the model and the VIN, there is an image to draw.
pub model_index-get :
    (to_upper_case : Str → Str) (id vin : Str)
    → contains_str valid_models id ≡ true
    → (get_elem? (map (λ m. m.id) models) (model_index id) ≡ some id)
      × (is_empty (car_image_source to_upper_case id vin) ≡ false)
unfolding model_index car_image_source
model_index-get to_upper_case id vin known =
    (find_index-get models id known, find_image-has models (effective_model to_upper_case id vin))
