-- ===== src/Session/Serve.antt =====
-- helper/session/serve.go, the dispatch of requests in helper/session/main.go, and the checks of a request
-- to pair in helper/session/pairing.go. A line is what `json.Unmarshal` makes of it. What is outside of a
-- request, with the operations of other goroutines that the lock lets in before it and within it, is the
-- record `Outside`. The texts of the answers are left out.
pub mod Answers
pub mod Performs
pub mod Runs
mod Tests
use Prim.Native.String.{String}
use text.Mathlib.Text.{◌==◌ as str_eq}
use electric_eel.Base.{
  ℕ, ◌-◌, ◌%◌, Bool, true, false, not, ◌&&◌, Option, none, some, List, [], ◌∷◌, ltb, map,
  if◌then◌else◌,
}
use electric_eel.Base.Int.{ℤ, pos, negsuc}
use electric_eel.Text.{Str, codes, str_eq as same_bytes}
use electric_eel.Share.Values.{Double}
use electric_eel.Session.Presence.{PresenceConfig, default_presence_config}
use electric_eel.Session.State.{Session, is_some}
use electric_eel.Session.Keygen.{KeyFile, KeyWorld, KeyResponse, State, dispatch_keygen}
use electric_eel.Session.Link.{
  World, Settings, LinkError, dispatch_command, presence_start, presence_stop,
}
use electric_eel.Session.Link.Invariant.{Op, apply_all}
use electric_eel.Session.Navigate.{
  NavigateAnswer, started, refused, not_connected, session_lost, not_sent, dispatch_navigate,
}

pub record Request : Type 0 where
  pub type_name : String
  pub id : String
  pub cmd : String
  pub args : List String

-- `OK` and `ExitCode`, with the number of the request
pub record Response : Type 0 where
  pub id : String
  pub ok : Bool
  pub exit_code : ℕ

-- The libraries: `flag.FlagSet` with the four flags of presence mode, whose values are not narrowed
-- yet, from the defaults; `strconv.ParseFloat`; and the public bytes of a file of a public key, and of the
-- file of the private key.
pub record Library : Type 0 where
  pub parse_flags : PresenceConfig → List String → Option PresenceConfig
  pub parse_float : Str → Option Double
  pub load_public_key : String → Option (List ℕ)
  pub load_private_key : KeyFile → Option (List ℕ)

-- `executed` is whether the command with these arguments, its name first, had no error, with the
-- confirmation of an enrollment; `sent`
-- whether the vehicle took the request to navigate.
pub record Outside : Type 0 where
  pub before : List Op
  pub within : List Op
  pub now : ℕ
  pub link : World
  pub keys : KeyWorld
  pub executed : List String → Bool
  pub sent : Bool

abbrev pub accepted : String → Response
accepted id = record { id = id; ok = true; exit_code = 0 }

abbrev pub failed_with : ℕ → String → Response
failed_with code id = record { id = id; ok = false; exit_code = code }

abbrev pub answer_of : Bool → String → Response
answer_of true id = accepted id
answer_of false id = failed_with 1 id

-- `int16(v)`
abbrev pub int16_of : ℤ → ℤ
int16_of (pos n) = let m = n % 65536 in if ltb m 32768 then pos m else negsuc (65535 - m)
int16_of (negsuc n) = let m = n % 65536 in if ltb m 32768 then negsuc m else pos (65535 - m)

abbrev pub narrow : Option PresenceConfig → Option PresenceConfig
narrow none = none
narrow (some cfg) = some (record cfg { near_rssi = int16_of cfg.near_rssi })

module _ (lib : Library) (cfg : Settings) (o : Outside) where
  abbrev pub parse_presence_args : List String → Option PresenceConfig
  parse_presence_args args = narrow (lib.parse_flags default_presence_config args)

  abbrev pub dispatch_presence_start : String → Option PresenceConfig → State → State × Response
  dispatch_presence_start id none st = (st, failed_with 2 id)
  dispatch_presence_start id (some args) (s, file) =
      let (s', ok) = presence_start cfg args s in ((s', file), answer_of ok id)

  abbrev pub dispatch_presence_stop : String → State → State × Response
  dispatch_presence_stop id (s, file) = ((presence_stop s, file), accepted id)

  -- the rest of `dispatch`, for a command of the vehicle
  abbrev pub dispatch_vehicle : String → String → List String → State → State × Response
  dispatch_vehicle id cmd args (s, file) =
      let (s', err) = dispatch_command cfg o.link o.now cmd s in
      ((s', file), answer_of (not (is_some err) && o.executed (cmd ∷ args)) id)

  abbrev pub keygen_request : String → List String → State → State × Response
  keygen_request id args st =
      let (st', r) = dispatch_keygen o.keys args st in (st', answer_of r.ok id)

  -- the key of the file that is to be paired must be that of this phone
  abbrev pub pair_keys :
      String → List String → Option (List ℕ) → Option (List ℕ) → State → State × Response
  pair_keys id args none own st = (st, failed_with 2 id)
  pair_keys id args (some key) none st = (st, failed_with 2 id)
  pair_keys id args (some key) (some own) st =
      if not (same_bytes key own)
      then (st, failed_with 2 id)
      else dispatch_vehicle id "add-key-request" args st

  pub dispatch_pair : String → List String → State → State × Response
  unfolding dispatch_command same_bytes
  dispatch_pair id (key ∷ role ∷ form ∷ []) st =
      pair_keys id (key ∷ role ∷ form ∷ []) (lib.load_public_key key) (lib.load_private_key st.1) st
  dispatch_pair id _ st = (st, failed_with 2 id)

  abbrev pub navigate_answer : String → NavigateAnswer → Response
  navigate_answer id (started target) = accepted id
  navigate_answer id (refused e) = failed_with 2 id
  navigate_answer id (not_connected e) = failed_with 1 id
  navigate_answer id session_lost = failed_with 1 id
  navigate_answer id not_sent = failed_with 1 id

  abbrev pub navigate_request : String → List String → State → State × Response
  navigate_request id args (s, file) =
      let (s', answer) =
        dispatch_navigate lib.parse_float cfg o.link o.now o.sent (apply_all cfg o.within)
          (map codes args) s in
      ((s', file), navigate_answer id answer)

  pub dispatch : Request → State → State × Response
  unfolding dispatch_pair dispatch_keygen presence_start presence_stop dispatch_navigate
      dispatch_command
  dispatch r st =
      if str_eq r.cmd "pair"
      then dispatch_pair r.id r.args st
      else if str_eq r.cmd "keygen"
      then keygen_request r.id r.args st
      else if str_eq r.cmd "presence-start"
      then dispatch_presence_start r.id (parse_presence_args r.args) st
      else if str_eq r.cmd "presence-stop"
      then dispatch_presence_stop r.id st
      else if str_eq r.cmd "navigate"
      then navigate_request r.id r.args st
      else dispatch_vehicle r.id r.cmd r.args st

-- `too_long` is a line of more bytes than the scanner takes, 1 MiB.
pub data Line : Type 0 where
  empty malformed too_long : Line
  request : Request → Line

abbrev pub meanwhile : Settings → List Op → State → State
meanwhile cfg ops (s, file) = (apply_all cfg ops s, file)

-- The body of the loop of `serveConn`. The scanner does not hand over a line that is too long.
pub serve_line : Library → Settings → Outside → Line → State → State × Option Response
unfolding dispatch
serve_line lib cfg o empty st = (st, none)
serve_line lib cfg o too_long st = (st, none)
serve_line lib cfg o malformed st = (st, some (failed_with 1 ""))
serve_line lib cfg o (request r) st =
    if not (str_eq r.type_name "request")
    then (st, some (failed_with 1 r.id))
    else let (st', answer) = dispatch lib cfg o r st in (st', some answer)

-- whether the scanner goes on after the line
abbrev pub has_scanned : Line → Bool
has_scanned too_long = false
has_scanned empty = true
has_scanned malformed = true
has_scanned (request r) = true

abbrev pub cons_some {ℓ} : {A : Type ℓ} → Option A → List A → List A
cons_some none xs = xs
cons_some (some x) xs = x ∷ xs

pub serve_lines : Library → Settings → List (Outside × Line) → State → State × List Response
unfolding serve_line
serve_lines lib cfg [] st = (st, [])
serve_lines lib cfg ((o, line) ∷ lines) st =
    let (st', answer) = serve_line lib cfg o line (meanwhile cfg o.before st) in
    let (st'', answers) = serve_lines lib cfg lines st' in
    if has_scanned line then (st'', cons_some answer answers) else (st', cons_some answer [])

-- `shutdown`, but for the connection to the bus
pub shutdown : State → State
unfolding presence_stop
shutdown (s, file) = (presence_stop s, file)

-- The loop until the connection breaks, and the shutdown, with the operations that the lock lets in
-- between.
pub serve_conn :
    Library → Settings → List Op → List (Outside × Line) → State → State × List Response
unfolding serve_lines shutdown
serve_conn lib cfg last lines st =
    let (st', answers) = serve_lines lib cfg lines st in
    (shutdown (meanwhile cfg last st'), answers)
