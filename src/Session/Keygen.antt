-- ===== src/Session/Keygen.antt =====
-- helper/session/main.go: the request for a key. `protocol`, the generator of keys and the printer of
-- public keys are outside: a key is its public half in print, and a file of a key is what
-- `protocol.LoadPrivateKey` makes of it.
use Prim.Native.String.{String}
use text.Mathlib.Text.{◌==◌ as str_eq}
use electric_eel.Base.{
  ◌≡◌, ◌⊎◌, inl, inr, refl, Bool, true, false, Option, none, some, List, any, if◌then◌else◌,
  Bool-cases,
}
use electric_eel.Session.State.{Session, stop_presence, teardown}

-- `valid` holds the printed public key
pub data KeyFile : Type 0 where
  missing unreadable unprintable : KeyFile
  valid : String → KeyFile

-- What is outside of the request: the new key in print, unless it could not be made, and what is on
-- disk after a save that failed, or none if it succeeded.
pub record KeyWorld : Type 0 where
  pub new_key : Option String
  pub save_failed : Option KeyFile

pub record KeyResponse : Type 0 where
  pub ok : Bool
  pub stdout : String

-- the state of the request: the session and the file of the key
abbrev pub State : Type 0
State = Session × KeyFile

abbrev pub refused_key : KeyResponse
refused_key = record { ok = false; stdout = "" }

abbrev pub is_forced : List String → Bool
is_forced args = any (λ (a : String). str_eq a "-f") args

-- the end of the presence mode and of the link, for a key that was replaced
abbrev after_save : Bool → Session → Session
after_save force s = if force then teardown (stop_presence s) else s

-- the new key is saved
abbrev pub save_key : Bool → Option KeyFile → String → State → State × KeyResponse
save_key force (some left) pub_key (s, file) = ((s, left), refused_key)
save_key force none pub_key (s, file) =
    ((after_save force s, valid pub_key), record { ok = true; stdout = pub_key })

-- a new key is made
abbrev pub make_key : Bool → KeyWorld → Option String → State → State × KeyResponse
make_key force w none st = (st, refused_key)
make_key force w (some pub_key) st = save_key force w.save_failed pub_key st

-- without `-f` an existing key is kept
abbrev pub reuse_key : KeyWorld → State → State × KeyResponse
reuse_key w (s, valid pub_key) = ((s, valid pub_key), record { ok = true; stdout = pub_key })
reuse_key w (s, unprintable) = ((s, unprintable), refused_key)
reuse_key w (s, unreadable) = ((s, unreadable), refused_key)
reuse_key w (s, missing) = make_key false w w.new_key (s, missing)

-- `dispatchKeygen`
unfoldable pub dispatch_keygen : KeyWorld → List String → State → State × KeyResponse
dispatch_keygen w args st = if is_forced args then make_key true w w.new_key st else reuse_key w st

-- a key that is there is not replaced
abbrev IsKept : KeyFile → KeyFile → Type 0
IsKept file file' = (file ≡ missing) ⊎ (file' ≡ file)

abbrev Forced : State → State × KeyResponse → Type 0
Forced st answer =
    ((answer.1.ok ≡ false) × (answer.0.0 ≡ st.0))
    ⊎ ((answer.1.ok ≡ true)
        × (answer.0.1 ≡ valid answer.1.stdout)
        × (answer.0.0 ≡ teardown (stop_presence st.0)))

abbrev Reused : State → State × KeyResponse → Type 0
Reused st answer =
    (answer.0.0 ≡ st.0)
    × IsKept st.1 answer.0.1
    × ((answer.1.ok ≡ false) ⊎ (answer.0.1 ≡ valid answer.1.stdout))

save_key-Forced :
    (left : Option KeyFile) (key : String) (st : State) → Forced st (save_key true left key st)
save_key-Forced none key (s, file) = inr (refl, refl, refl)
save_key-Forced (some left) key (s, file) = inl (refl, refl)

make_key-Forced :
    (w : KeyWorld) (key : Option String) (st : State) → Forced st (make_key true w key st)
make_key-Forced w none st = inl (refl, refl)
make_key-Forced w (some key) st = save_key-Forced w.save_failed key st

save_key-Reused :
    (left : Option KeyFile) (key : String) (s : Session)
    → Reused (s, missing) (save_key false left key (s, missing))
save_key-Reused none key s = (refl, inl refl, inr refl)
save_key-Reused (some left) key s = (refl, inl refl, inl refl)

make_key-Reused :
    (w : KeyWorld) (key : Option String) (s : Session)
    → Reused (s, missing) (make_key false w key (s, missing))
make_key-Reused w none s = (refl, inl refl, inl refl)
make_key-Reused w (some key) s = save_key-Reused w.save_failed key s

reuse_key-Reused : (w : KeyWorld) (st : State) → Reused st (reuse_key w st)
reuse_key-Reused w (s, valid key) = (refl, inr refl, inr refl)
reuse_key-Reused w (s, unprintable) = (refl, inr refl, inl refl)
reuse_key-Reused w (s, unreadable) = (refl, inr refl, inl refl)
reuse_key-Reused w (s, missing) = make_key-Reused w w.new_key s

-- A forced request either fails and leaves the session as it is, or the key that it prints is that of
-- the file, and presence mode and link are ended. A request that is not forced leaves the session as it is and never
-- replaces a file that is there, even one that cannot be read; and the key that it prints is that of
-- the file.
pub dispatch_keygen_lem :
    (w : KeyWorld) (args : List String) (st : State)
    → let (st', response) = dispatch_keygen w args st in
      ((is_forced args ≡ true)
        × (((response.ok ≡ false) × (st'.0 ≡ st.0))
            ⊎ ((response.ok ≡ true)
                × (st'.1 ≡ valid response.stdout)
                × (st'.0 ≡ teardown (stop_presence st.0)))))
      ⊎ ((is_forced args ≡ false)
          × (st'.0 ≡ st.0)
          × ((st.1 ≡ missing) ⊎ (st'.1 ≡ st.1))
          × ((response.ok ≡ false) ⊎ (st'.1 ≡ valid response.stdout)))
unfolding dispatch_keygen
dispatch_keygen_lem w args st = elim (Bool-cases (is_forced args)) [
  | inl e ↦ inl (e, rw e (make_key-Forced w w.new_key st))
  | inr e ↦ let kept = reuse_key-Reused w st in inr (e, rw e kept.0, rw e kept.1, rw e kept.2)
]
