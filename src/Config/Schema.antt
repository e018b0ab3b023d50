-- ===== src/Config/Schema.antt =====
-- helper/src/config.rs and `Core::new` of helper/src/core.rs: schema versions, older files, and the
-- migration at the start.
use electric_eel.Base.{
  ℕ, ◌<◌, ◌≡◌, ◌↔◌, ◌⊎◌, Bool, true, false, Option, some, List, arith, inl, inr, Option-cases,
}
use electric_eel.Text.{Str, is_empty}
use electric_eel.Text.Trim.{str_eq-eq, str_eq_refl}
use electric_eel.Config.{
  Config, ConfigVersion, v0, VinState, paired, version_of, before_current, writable,
}
use electric_eel.Config.Loading.{
  LegacyConfig, field, missing, EnrollmentField, enrollment, from_legacy, migrate, bytes, loaded,
  load,
}

-- The migration at the start marks the key as paired exactly when the file has the oldest schema,
-- is not yet paired, names a VIN, and both key files exist; in any other case the state of the
-- enrollment is that of the file. No version before the current one is left, and a file of a newer
-- schema is neither changed nor written.
pub migrate_lem :
    (key_files : Bool) (c : Config)
    → let (c', dirty) = migrate key_files c in
      ((c'.vin_state ≡ paired) ↔ (
        (c.vin_state ≡ paired)
        ⊎ ((c.version ≡ v0) × (is_empty c.vin ≡ false) × (key_files ≡ true))))
      × (before_current c'.version ≡ false)
      × (c'.vin ≡ c.vin)
      × ((writable c ≡ true) ⊎ ((c' ≡ c) × (dirty ≡ false)))
unfolding migrate writable
migrate_lem key_files c = ground arith

-- A second start changes nothing more and does not write the file again.
pub migrate_twice :
    (key_files later : Bool) (c : Config)
    → migrate later (migrate key_files c).0 ≡ ((migrate key_files c).0, false)
unfolding migrate
migrate_twice key_files later c = ground arith

enrollment_iff :
    (state : EnrollmentField VinState) (paired_vin : EnrollmentField Str) (vin : Str)
    (version : Option ConfigVersion)
    → ((enrollment state paired_vin vin version).0 ≡ paired) ↔ (
        (state ≡ field paired)
        ⊎ ((state ≡ missing) × (paired_vin ≡ field vin) × (is_empty vin ≡ false)))
enrollment_iff (field state) p vin version = ground arith
enrollment_iff missing (field v) vin version = ground (arith, str_eq-eq v vin, str_eq_refl vin)
enrollment_iff missing missing vin version = ground arith

-- A file is read as paired exactly when it says so itself, or has no enrollment state of the current
-- schema and names as its paired VIN a text that is not empty and is its VIN.
pub from_legacy-paired :
    (raw : LegacyConfig)
    → ((from_legacy raw).vin_state ≡ paired) ↔ (
        (raw.vin_state ≡ field paired)
        ⊎ ((raw.vin_state ≡ missing)
            × (raw.paired_vin ≡ field raw.vin)
            × (is_empty raw.vin ≡ false)))
unfolding from_legacy
from_legacy-paired raw = enrollment_iff raw.vin_state raw.paired_vin raw.vin raw.version

-- When the file carries a version above 2, and the JSON library reads the same version into the
-- fields if it can read the fields at all, then whatever `load` returns is no configuration that
-- `save` would write, and the start neither changes it nor writes it: the file of a newer build is
-- never replaced, nor taken for a corrupt one.
pub load-newer :
    (parse : List ℕ → Option LegacyConfig) (json_version : List ℕ → Option ℕ) (raw : List ℕ) (v : ℕ)
    → json_version raw ≡ some v
    → 2 < v
    → ((fields : LegacyConfig) → parse raw ≡ some fields → fields.version ≡ some (version_of v))
    → (key_files : Bool) (c : Config) (backed_up : Bool)
    → load parse json_version (bytes raw) ≡ loaded c backed_up
    → (writable c ≡ false) × (backed_up ≡ false) × (migrate key_files c ≡ (c, false))
unfolding load writable migrate version_of
load-newer parse json_version raw v says above agrees key_files c backed_up h =
    elim (Option-cases (parse raw)) [
      | inl e ↦ ground arith
      | inr (fields, e) ↦ ground (arith, agrees fields e)
    ]
