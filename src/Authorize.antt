-- ===== src/Authorize.antt =====
-- helper/src/authorize.rs: which callers may use the privileged methods. What the bus, /proc and the
-- file system answer is a parameter.
pub mod Callers
mod Tests
use electric_eel.Base.{
  ℕ, Bool, true, false, not, Option, none, some, List, [], ◌∷◌, map, ◌==◌, if◌then◌else◌,
}
use electric_eel.Text.{Str, codes, trim, is_empty, contains_str}
use electric_eel.Text.Parts.{split_by, split}

-- `map(str::trim)` and the filter
abbrev pub trimmed : List Str → List Str
trimmed [] = []
trimmed (part ∷ parts) =
    let rest = trimmed parts in if is_empty (trim part) then rest else trim part ∷ rest

unfoldable pub split_and_trim : Str → List Str
unfolding split_by
split_and_trim s = trimmed (split b',' s)

abbrev or_same : Str → Option Str → Str
or_same p none = p
or_same p (some resolved) = resolved

module _ (canonicalize : Str → Option Str) where
  abbrev pub resolve : Str → Str
  resolve p = or_same p (canonicalize p)

  unfoldable pub resolve_caller_paths : List Str → List Str
  resolve_caller_paths paths = map resolve paths

  abbrev pub default_raw : Option Str → Str
  default_raw none = codes "/usr/bin/harbour-electric-eel,/usr/bin/xdg-dbus-proxy"
  default_raw (some raw) = raw

  -- `default_allowed_callers` for the value of the environment variable
  unfoldable pub default_allowed_callers : Option Str → List Str
  unfolding split_and_trim resolve_caller_paths
  default_allowed_callers variable = resolve_caller_paths (split_and_trim (default_raw variable))

pub record Credentials : Type 0 where
  pub process_id : Option ℕ
  pub unix_user_id : Option ℕ

pub record Process : Type 0 where
  pub uid : Option ℕ
  pub exe : Option Str

-- what the bus says of the sender, if anything, and the processes of /proc
pub record World : Type 0 where
  pub credentials : Option Credentials
  pub process : ℕ → Option Process

-- the reasons of `HelperError::Forbidden`
pub data Forbidden : Type 0 where
  no_credentials incomplete no_uid uid_mismatch no_binary not_authorized : Forbidden

-- the check of the binary
abbrev pub check_exe : List Str → Option Str → Option Forbidden
check_exe allowed none = some no_binary
check_exe allowed (some exe) = if contains_str allowed exe then none else some not_authorized

-- the check of the user
abbrev pub check_uid : List Str → ℕ → Option ℕ → Option Str → Option Forbidden
check_uid allowed cred_uid none exe = some no_uid
check_uid allowed cred_uid (some proc_uid) exe =
    if not (proc_uid == cred_uid) then some uid_mismatch else check_exe allowed exe

abbrev pub check_process : List Str → ℕ → Option Process → Option Forbidden
check_process allowed cred_uid none = some no_uid
check_process allowed cred_uid (some proc) = check_uid allowed cred_uid proc.uid proc.exe

abbrev pub check_ids : (ℕ → Option Process) → List Str → Option ℕ → Option ℕ → Option Forbidden
check_ids process allowed none uid = some incomplete
check_ids process allowed (some pid) none = some incomplete
check_ids process allowed (some pid) (some cred_uid) = check_process allowed cred_uid (process pid)

abbrev pub check_credentials :
    (ℕ → Option Process) → List Str → Option Credentials → Option Forbidden
check_credentials process allowed none = some no_credentials
check_credentials process allowed (some c) = check_ids process allowed c.process_id c.unix_user_id

-- `authorize`, where `none` is `Ok(())`
unfoldable pub authorize : World → List Str → Option Forbidden
authorize w allowed = check_credentials w.process allowed w.credentials
