-- ===== src/Authorize/Tests.antt =====
-- The theorems on the callers applied to the default list and a caller on it.
use electric_eel.Base.{ℕ, ◌≡◌, refl, Option, none, some, List, [], ◌∷◌, get_elem?}
use electric_eel.Text.{
  Str, codes, str_eq, contains_str, trim, trim_by, trim_start_by, trim_end_by, is_whitespace,
}
use electric_eel.Text.Parts.{split_by}
use electric_eel.Authorize.{
  split_and_trim, resolve, resolve_caller_paths, default_raw, default_allowed_callers, Credentials,
  Process, World, authorize,
}
use electric_eel.Authorize.Callers.{authorize_lem}

abbrev paths : List Str
paths = codes "/usr/bin/harbour-electric-eel" ∷ codes "/opt/foo" ∷ []

-- no link is resolved
abbrev no_links : Str → Option Str
no_links p = none

abbrev app : Process
app = record { uid = some 100000; exe = some (codes "/usr/bin/xdg-dbus-proxy") }

abbrev caller : World
caller = record {
  credentials = some (record { process_id = some 4711; unix_user_id = some 100000 });
  process = λ n. some app;
}

authorize_lem_example :
    (c : Credentials) × (n : ℕ) × (u : ℕ) × (proc : Process) × (p : Str) × (i : ℕ)
    × (caller.credentials ≡ some c)
    × (c.process_id ≡ some n)
    × (c.unix_user_id ≡ some u)
    × (caller.process n ≡ some proc)
    × (proc.uid ≡ some u)
    × (proc.exe ≡ some (resolve no_links p))
    × (get_elem? (split_and_trim (default_raw no_links none)) i ≡ some p)
unfolding authorize default_allowed_callers resolve_caller_paths split_and_trim split_by trim
    trim_by trim_start_by trim_end_by is_whitespace contains_str str_eq
authorize_lem_example = authorize_lem no_links none caller refl
