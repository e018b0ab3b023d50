-- ===== src/Session/Serve/Answers.antt =====
-- helper/session/serve.go: the answers to the lines of a connection, and what is left after it.
use Prim.Native.String.{String}
use text.Mathlib.Text.{◌==◌ as str_eq}
use electric_eel.Base.{
  ℕ, ◌<◌, ◌≡◌, ◌⊎◌, inl, inr, refl, arith, Bool, true, false, not, ◌&&◌, Option, none, some, List,
  [], ◌∷◌, map, All, if◌then◌else◌, Bool-cases,
}
use electric_eel.Text.{codes, str_eq as same_bytes}
use electric_eel.Session.Presence.{PresenceConfig}
use electric_eel.Session.State.{is_some}
use electric_eel.Session.Keygen.{State, dispatch_keygen}
use electric_eel.Session.Link.{Settings, dispatch_command, presence_start}
use electric_eel.Session.Link.Connect.{IsDown}
use electric_eel.Session.Link.Invariant.{Op, apply_all}
use electric_eel.Session.Navigate.{
  NavigateAnswer, started, refused, not_connected, session_lost, not_sent, dispatch_navigate,
}
use electric_eel.Session.Serve.{
  Request, Response, Library, Outside, failed_with, answer_of, dispatch_presence_start,
  dispatch_vehicle, pair_keys, dispatch_pair, parse_presence_args, navigate_answer,
  navigate_request, dispatch, Line, empty, malformed, too_long, request, meanwhile, serve_line,
  serve_lines, shutdown, serve_conn,
}

-- the exit code is zero exactly for a success
abbrev pub IsSound : Response → Type 0
IsSound r = ((r.ok ≡ true) × (r.exit_code ≡ 0)) ⊎ ((r.ok ≡ false) × (0 < r.exit_code))

-- an answer to the request of this number
abbrev IsAnswer : String → Response → Type 0
IsAnswer id r = (r.id ≡ id) × IsSound r

-- the numbers that ask for an answer: that of each line but the empty ones, up to the first line that
-- is too long
abbrev pub asked : List (Outside × Line) → List String
asked [] = []
asked ((o, empty) ∷ lines) = asked lines
asked ((o, too_long) ∷ lines) = []
asked ((o, malformed) ∷ lines) = "" ∷ asked lines
asked ((o, request r) ∷ lines) = r.id ∷ asked lines

if-IsAnswer :
    (id : String) (b : Bool) (x y : State × Response)
    → IsAnswer id x.1
    → IsAnswer id y.1
    → IsAnswer id (if b then x else y).1
if-IsAnswer id true x y hx hy = hx
if-IsAnswer id false x y hx hy = hy

answer_of-IsAnswer : (ok : Bool) (id : String) → IsAnswer id (answer_of ok id)
answer_of-IsAnswer true id = (refl, inl (refl, refl))
answer_of-IsAnswer false id = (refl, inr (refl, omega arith))

usage-IsAnswer : (id : String) → IsAnswer id (failed_with 2 id)
usage-IsAnswer id = (refl, inr (refl, omega arith))

module _ (lib : Library) (cfg : Settings) (o : Outside) where
  dispatch_presence_start-IsAnswer :
      (id : String) (args : Option PresenceConfig) (st : State)
      → IsAnswer id (dispatch_presence_start lib cfg o id args st).1
  dispatch_presence_start-IsAnswer id none st = usage-IsAnswer id
  dispatch_presence_start-IsAnswer id (some args) (s, file) =
      answer_of-IsAnswer (presence_start cfg args s).1 id

  dispatch_vehicle-IsAnswer :
      (id cmd : String) (args : List String) (st : State)
      → IsAnswer id (dispatch_vehicle lib cfg o id cmd args st).1
  dispatch_vehicle-IsAnswer id cmd args (s, file) =
      answer_of-IsAnswer
        (not (is_some (dispatch_command cfg o.link o.now cmd s).1) && o.executed (cmd ∷ args)) id

  pair_keys-IsAnswer :
      (id : String) (args : List String) (key own : Option (List ℕ)) (st : State)
      → IsAnswer id (pair_keys lib cfg o id args key own st).1
  pair_keys-IsAnswer id args none own st = usage-IsAnswer id
  pair_keys-IsAnswer id args (some key) none st = usage-IsAnswer id
  pair_keys-IsAnswer id args (some key) (some own) st =
      if-IsAnswer id (not (same_bytes key own)) _ _ (usage-IsAnswer id)
        (dispatch_vehicle-IsAnswer id "add-key-request" args st)

  dispatch_pair-IsAnswer :
      (id : String) (args : List String) (st : State)
      → IsAnswer id (dispatch_pair lib cfg o id args st).1
  unfolding dispatch_pair
  dispatch_pair-IsAnswer id (key ∷ role ∷ form ∷ []) st =
      pair_keys-IsAnswer id (key ∷ role ∷ form ∷ []) (lib.load_public_key key)
        (lib.load_private_key st.1) st
  dispatch_pair-IsAnswer id [] st = usage-IsAnswer id
  dispatch_pair-IsAnswer id (a ∷ []) st = usage-IsAnswer id
  dispatch_pair-IsAnswer id (a ∷ b ∷ []) st = usage-IsAnswer id
  dispatch_pair-IsAnswer id (a ∷ b ∷ c ∷ d ∷ rest) st = usage-IsAnswer id

  navigate_answer-IsAnswer :
      (id : String) (answer : NavigateAnswer) → IsAnswer id (navigate_answer lib cfg o id answer)
  navigate_answer-IsAnswer id (started target) = answer_of-IsAnswer true id
  navigate_answer-IsAnswer id (refused e) = usage-IsAnswer id
  navigate_answer-IsAnswer id (not_connected e) = answer_of-IsAnswer false id
  navigate_answer-IsAnswer id session_lost = answer_of-IsAnswer false id
  navigate_answer-IsAnswer id not_sent = answer_of-IsAnswer false id

  navigate_request-IsAnswer :
      (id : String) (args : List String) (st : State)
      → IsAnswer id (navigate_request lib cfg o id args st).1
  navigate_request-IsAnswer id args (s, file) =
      navigate_answer-IsAnswer id
        (dispatch_navigate lib.parse_float cfg o.link o.now o.sent (apply_all cfg o.within)
          (map codes args) s).1

  dispatch-IsAnswer : (r : Request) (st : State) → IsAnswer r.id (dispatch lib cfg o r st).1
  unfolding dispatch
  dispatch-IsAnswer r st =
      if-IsAnswer r.id (str_eq r.cmd "pair") _ _ (dispatch_pair-IsAnswer r.id r.args st) (
        if-IsAnswer r.id (str_eq r.cmd "keygen") _ _
          (answer_of-IsAnswer (dispatch_keygen o.keys r.args st).1.ok r.id)
          (if-IsAnswer r.id (str_eq r.cmd "presence-start") _ _
            (dispatch_presence_start-IsAnswer r.id (parse_presence_args lib cfg o r.args) st)
            (if-IsAnswer r.id (str_eq r.cmd "presence-stop") _ _ (answer_of-IsAnswer true r.id) (
              if-IsAnswer r.id (str_eq r.cmd "navigate") _ _
                (navigate_request-IsAnswer r.id r.args st)
                (dispatch_vehicle-IsAnswer r.id r.cmd r.args st)))))

  request-IsAnswer :
      (r : Request) (st : State)
      → (x : Response) × ((serve_line lib cfg o (request r) st).1 ≡ some x) × IsAnswer r.id x
  unfolding serve_line
  request-IsAnswer r st = elim (Bool-cases (str_eq r.type_name "request")) [
    | inl e ↦ ((dispatch lib cfg o r st).1, rw e refl, dispatch-IsAnswer r st)
    | inr e ↦ (failed_with 1 r.id, rw e refl, answer_of-IsAnswer false r.id)
  ]

-- the answers in the order of what was asked
abbrev Answered : List (Outside × Line) → List Response → Type 0
Answered lines rs = (map (λ (r : Response). r.id) rs ≡ asked lines) × All IsSound rs

Answered-cons :
    (id : String) (rest : List String) (r : Response) (rs : List Response)
    → IsAnswer id r
    → (map (λ (r : Response). r.id) rs ≡ rest) × All IsSound rs
    → (map (λ (r : Response). r.id) (r ∷ rs) ≡ id ∷ rest) × All IsSound (r ∷ rs)
Answered-cons id rest r rs h tail = (cc, (h.1, tail.1))

module _ (lib : Library) (cfg : Settings) where
  serve_lines-Answered :
      (lines : List (Outside × Line)) (st : State) → Answered lines (serve_lines lib cfg lines st).1
  unfolding serve_lines serve_line
  serve_lines-Answered [] st = (refl, tt)
  serve_lines-Answered ((o, empty) ∷ lines) st =
      serve_lines-Answered lines (meanwhile cfg o.before st)
  serve_lines-Answered ((o, too_long) ∷ lines) st = (refl, tt)
  serve_lines-Answered ((o, malformed) ∷ lines) st =
      Answered-cons "" (asked lines) (failed_with 1 "") _ (answer_of-IsAnswer false "")
        (serve_lines-Answered lines (meanwhile cfg o.before st))
  serve_lines-Answered ((o, request r) ∷ lines) st =
      let ready = meanwhile cfg o.before st in
      let (x, same, answer) = request-IsAnswer lib cfg o r ready in
      rw same (
        Answered-cons r.id (asked lines) x _ answer
          (serve_lines-Answered lines (serve_line lib cfg o (request r) ready).0))

  shutdown-IsDown :
      (st : State)
      → IsDown (shutdown st).0
        × ((shutdown st).0.presence_cancel ≡ none)
        × ((shutdown st).0.auth_inbox ≡ none)
  unfolding shutdown
  shutdown-IsDown st = ground arith

  -- Whatever lines arrive and whatever is outside of each: every line that is not empty, before the first that
  -- is too long if there is one, gets one answer, in the order of the lines and with the number of its
  -- request, whose exit code is zero exactly for a success, and no other line gets one; and once the connection is gone there is no vehicle, no link, no presence mode and no responder.
  pub serve_conn_lem :
      (last : List Op) (lines : List (Outside × Line)) (st : State)
      → let (st', answers) = serve_conn lib cfg last lines st in
        (map (λ (r : Response). r.id) answers ≡ asked lines)
        × All IsSound answers
        × IsDown st'.0
        × (st'.0.presence_cancel ≡ none)
        × (st'.0.auth_inbox ≡ none)
  unfolding serve_conn
  serve_conn_lem last lines st =
      let (same, sound) = serve_lines-Answered lines st in
      let (down, cancel, inbox) =
        shutdown-IsDown (meanwhile cfg last (serve_lines lib cfg lines st).0) in
      (same, sound, down, cancel, inbox)
