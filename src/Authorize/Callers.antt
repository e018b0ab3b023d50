-- ===== src/Authorize/Callers.antt =====
-- helper/src/authorize.rs: the list of callers as it is written and read, and who is let in.
use electric_eel.Base.{
  ℕ, suc, ◌≡◌, inl, inr, refl, ap, ◌∙◌, arith, true, false, not, Option, none, some, List, [], ◌∷◌,
  ◌++◌, map, ◌==◌, All, all, get_elem?,
}
use electric_eel.Text.{Str, trim, trim_by, trim_start_by, trim_end_by, is_empty, contains_str}
use electric_eel.Text.Trim.{contains_str-cases}
use electric_eel.Text.Parts.{split, split-plain, split-sep}
use electric_eel.Authorize.{
  trimmed, split_and_trim, resolve, resolve_caller_paths, default_raw, default_allowed_callers,
  Credentials, Process, World, check_uid, check_process, check_ids, check_credentials, authorize,
}

-- a path without blanks at its ends and without a comma
abbrev pub IsPath : Str → Type 0
IsPath p = (trim p ≡ p) × (is_empty p ≡ false) × (all (λ (c : ℕ). not (c == b',')) p ≡ true)

-- the paths with commas between them
abbrev pub join : List Str → Str
join [] = []
join (p ∷ []) = p
join (p ∷ q ∷ ps) = p ++ b',' ∷ join (q ∷ ps)

trimmed-path : (p : Str) (parts : List Str) → IsPath p → trimmed (p ∷ parts) ≡ p ∷ trimmed parts
trimmed-path p parts h = rw (h.0, h.1) refl

-- Paths without a comma, without blanks at their ends and not empty, written with commas between them, are
-- read back as they are, in order.
split_and_trim-join : (ps : List Str) → All IsPath ps → split_and_trim (join ps) ≡ ps
unfolding split_and_trim trim trim_by trim_start_by trim_end_by
split_and_trim-join [] h = refl
split_and_trim-join (p ∷ []) h =
    ap trimmed (split-plain (λ d. d == b',') p h.0.2) ∙ trimmed-path p [] h.0
split_and_trim-join (p ∷ q ∷ ps) h =
    ap trimmed (split-sep (λ d. d == b',') p b',' (join (q ∷ ps)) h.0.2 refl)
    ∙ trimmed-path p (split b',' (join (q ∷ ps))) h.0
    ∙ ap (λ (t : List Str). p ∷ t) (split_and_trim-join (q ∷ ps) h.1)

contains_str-map :
    (f : Str → Str) (paths : List Str) (exe : Str)
    → contains_str (map f paths) exe ≡ true
    → (i : ℕ) × (p : Str) × (get_elem? paths i ≡ some p) × (exe ≡ f p)
unfolding contains_str
contains_str-map f [] exe h = cc
contains_str-map f (p ∷ paths) exe h = elim (contains_str-cases (f p) (map f paths) exe h) [
  | inl e ↦ (0, p, refl, e)
  | inr rest ↦ let (i, q, at, e) = contains_str-map f paths exe rest in (suc i, q, at, e)
]

-- a process of the user that the bus names, whose binary is on the list
abbrev ByProcess : List Str → ℕ → Process → Type 0
ByProcess allowed uid proc =
    (exe : Str) × (proc.uid ≡ some uid) × (proc.exe ≡ some exe) × (contains_str allowed exe ≡ true)

check_uid-none :
    (allowed : List Str) (cred_uid : ℕ) (uid : Option ℕ) (exe : Option Str)
    → check_uid allowed cred_uid uid exe ≡ none
    → (e : Str) × (uid ≡ some cred_uid) × (exe ≡ some e) × (contains_str allowed e ≡ true)
check_uid-none allowed cred_uid none exe h = cc
check_uid-none allowed cred_uid (some uid) none h = ground arith
check_uid-none allowed cred_uid (some uid) (some exe) h =
    (exe, ground (arith, h), refl, ground (arith, h))

check_uid-some :
    (allowed : List Str) (cred_uid : ℕ) (exe : Str)
    → contains_str allowed exe ≡ true
    → check_uid allowed cred_uid (some cred_uid) (some exe) ≡ none
check_uid-some allowed cred_uid exe h = ground (arith, h)

check_process-none :
    (allowed : List Str) (cred_uid : ℕ) (found : Option Process)
    → check_process allowed cred_uid found ≡ none
    → (proc : Process) × (found ≡ some proc) × ByProcess allowed cred_uid proc
check_process-none allowed cred_uid none h = cc
check_process-none allowed cred_uid (some proc) h =
    (proc, refl, check_uid-none allowed cred_uid proc.uid proc.exe h)

check_ids-none :
    (process : ℕ → Option Process) (allowed : List Str) (pid uid : Option ℕ)
    → check_ids process allowed pid uid ≡ none
    → (n : ℕ) × (u : ℕ) × (proc : Process) × (pid ≡ some n)
      × (uid ≡ some u)
      × (process n ≡ some proc)
      × ByProcess allowed u proc
check_ids-none process allowed none uid h = cc
check_ids-none process allowed (some pid) none h = cc
check_ids-none process allowed (some pid) (some uid) h =
    let (proc, found, by) = check_process-none allowed uid (process pid) h in
    (pid, uid, proc, refl, refl, found, by)

check_credentials-none :
    (process : ℕ → Option Process) (allowed : List Str) (found : Option Credentials)
    → check_credentials process allowed found ≡ none
    → (c : Credentials) × (n : ℕ) × (u : ℕ) × (proc : Process) × (found ≡ some c)
      × (c.process_id ≡ some n)
      × (c.unix_user_id ≡ some u)
      × (process n ≡ some proc)
      × ByProcess allowed u proc
check_credentials-none process allowed none h = cc
check_credentials-none process allowed (some c) h =
    let (n, u, proc, pid, uid, found, by) =
      check_ids-none process allowed c.process_id c.unix_user_id h in
    (c, n, u, proc, refl, pid, uid, found, by)

-- A caller is let in only if the bus names its process and its user, /proc has that process as one of
-- the same user, and its binary is what a path of the configured list is resolved to.
pub authorize_lem :
    (canonicalize : Str → Option Str) (variable : Option Str) (w : World)
    → authorize w (default_allowed_callers canonicalize variable) ≡ none
    → (c : Credentials) × (n : ℕ) × (u : ℕ) × (proc : Process) × (p : Str) × (i : ℕ)
      × (w.credentials ≡ some c)
      × (c.process_id ≡ some n)
      × (c.unix_user_id ≡ some u)
      × (w.process n ≡ some proc)
      × (proc.uid ≡ some u)
      × (proc.exe ≡ some (resolve canonicalize p))
      × (get_elem? (split_and_trim (default_raw canonicalize variable)) i ≡ some p)
unfolding authorize default_allowed_callers resolve_caller_paths
authorize_lem canonicalize variable w h =
    let allowed = default_allowed_callers canonicalize variable in
    let (c, n, u, proc, known, pid, uid, found, (exe, same, binary, on_list)) =
      check_credentials-none w.process allowed w.credentials h in
    let (i, p, at, is) =
      contains_str-map (resolve canonicalize) (split_and_trim (default_raw canonicalize variable))
        exe on_list in
    (c, n, u, proc, p, i, known, pid, uid, found, same, binary ∙ ap some is, at)
