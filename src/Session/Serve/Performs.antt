-- ===== src/Session/Serve/Performs.antt =====
-- helper/session/main.go: the operations of the session that each request performs.
use Prim.Native.String.{String}
use text.Mathlib.Text.{◌==◌ as str_eq}
use text.Mathlib.TextEquality.{eq_iff}
use electric_eel.Base.{
  ℕ, ◌≡◌, inl, inr, refl, sym, ap, ◌∙◌, Bool, true, false, not, ◌&&◌, Option, none, some, List, [],
  ◌∷◌, ◌++◌, map, if◌then◌else◌, any, arith,
}
use electric_eel.Text.{codes, str_eq as same_bytes}
use electric_eel.Text.Trim.{str_eq-eq}
use electric_eel.Session.Presence.{PresenceConfig}
use electric_eel.Session.State.{Session}
use electric_eel.Session.Keygen.{KeyFile, State, is_forced, dispatch_keygen, dispatch_keygen_lem}
use electric_eel.Session.Link.{Settings, LinkError, presence_stop}
use electric_eel.Session.Link.Invariant.{
  Op, command, stop, start, navigate_to, navigate as navigate_op, apply, apply_all,
}
use electric_eel.Session.Link.Reach.{AnyOp, apply_all-append}
use electric_eel.Session.Navigate.{
  Checked, UsageError, usage, valid, Target, navigate_connect, after_connect, go_on, check_navigate,
  dispatch_navigate, navigate_send,
}
use electric_eel.Session.Serve.{
  Request, Response, Library, Outside, failed_with, answer_of, accepted, dispatch_presence_start,
  dispatch_presence_stop, dispatch_vehicle, keygen_request, pair_keys, dispatch_pair,
  parse_presence_args, navigate_answer, navigate_request, dispatch,
}

-- the requests that are not commands of the vehicle
abbrev pub own_requests : List String
own_requests = "pair" ∷ "keygen" ∷ "presence-start" ∷ "presence-stop" ∷ "navigate" ∷ []

-- The operations that a request makes, with its answer and the file of the key when it came: a pairing with
-- the key of that file, a new key in place of the old one, a start and a stop of presence mode, a
-- connection for a destination and what follows it, or a command of the vehicle. A request that is refused
-- makes none.
pub data Performs (lib : Library) (cfg : Settings) (o : Outside) (file : KeyFile) (r : Request)
    (answer : Response) (ops : List Op) : Type 0 where
  not_paired :
      r.cmd ≡ "pair" → answer ≡ failed_with 2 r.id → ops ≡ [] → Performs lib cfg o file r answer ops
  no_presence :
      r.cmd ≡ "presence-start"
      → parse_presence_args lib cfg o r.args ≡ none
      → answer ≡ failed_with 2 r.id
      → ops ≡ []
      → Performs lib cfg o file r answer ops
  no_target :
      (e : UsageError)
      → r.cmd ≡ "navigate"
      → check_navigate lib.parse_float (map codes r.args) ≡ usage e
      → answer ≡ failed_with 2 r.id
      → ops ≡ []
      → Performs lib cfg o file r answer ops
  paired :
      (key role form : String) (k : List ℕ)
      → r.cmd ≡ "pair"
      → r.args ≡ key ∷ role ∷ form ∷ []
      → lib.load_public_key key ≡ some k
      → lib.load_private_key file ≡ some k
      → ops ≡ command o.link o.now "add-key-request" ∷ []
      → Performs lib cfg o file r answer ops
  replaced :
      r.cmd ≡ "keygen"
      → is_forced r.args ≡ true
      → answer.ok ≡ true
      → ops ≡ stop ∷ []
      → Performs lib cfg o file r answer ops
  kept :
      r.cmd ≡ "keygen"
      → (is_forced r.args && answer.ok) ≡ false
      → ops ≡ []
      → Performs lib cfg o file r answer ops
  presence_started :
      (args : PresenceConfig)
      → r.cmd ≡ "presence-start"
      → parse_presence_args lib cfg o r.args ≡ some args
      → ops ≡ start args ∷ []
      → Performs lib cfg o file r answer ops
  presence_stopped :
      r.cmd ≡ "presence-stop"
      → answer ≡ accepted r.id
      → ops ≡ stop ∷ []
      → Performs lib cfg o file r answer ops
  not_reached :
      r.cmd ≡ "navigate"
      → answer ≡ failed_with 1 r.id
      → ops ≡ navigate_to o.link o.now ∷ []
      → Performs lib cfg o file r answer ops
  navigated :
      (target : Target)
      → r.cmd ≡ "navigate"
      → check_navigate lib.parse_float (map codes r.args) ≡ valid target
      → ops ≡ navigate_to o.link o.now ∷ (o.within ++ (navigate_op o.sent target ∷ []))
      → Performs lib cfg o file r answer ops
  commanded :
      any (str_eq r.cmd) own_requests ≡ false
      → ops ≡ command o.link o.now r.cmd ∷ []
      → Performs lib cfg o file r answer ops

answer_of-ok : (ok : Bool) (id : String) → (answer_of ok id).ok ≡ ok
answer_of-ok true id = refl
answer_of-ok false id = refl

if_cases :
    {A : Type 0} (P : A → Type 0) (b : Bool) (x y : A)
    → (b ≡ true → P x)
    → (b ≡ false → P y)
    → P (if b then x else y)
if_cases P true x y hx hy = hx refl
if_cases P false x y hx hy = hy refl

module _ (lib : Library) (cfg : Settings) (o : Outside) (r : Request) (st : State) where
  -- from `st`, a run of operations that the request may make leads to the session with this answer
  abbrev Runs : State × Response → Type 0
  Runs x = (ops : List Op) × Performs lib cfg o st.1 r x.1 ops × (x.0.0 ≡ apply_all cfg ops st.0)

  vehicle-Runs :
      any (str_eq r.cmd) own_requests ≡ false
      → Runs (dispatch_vehicle lib cfg o r.id r.cmd r.args st)
  unfolding apply apply_all
  vehicle-Runs other = (command o.link o.now r.cmd ∷ [], commanded other refl, refl)

  presence_start-Runs :
      (args : Option PresenceConfig)
      → r.cmd ≡ "presence-start"
      → parse_presence_args lib cfg o r.args ≡ args
      → Runs (dispatch_presence_start lib cfg o r.id args st)
  unfolding apply apply_all
  presence_start-Runs none e same = ([], no_presence e same refl refl, refl)
  presence_start-Runs (some args) e same =
      (start args ∷ [], presence_started args e same refl, refl)

  presence_stop-Runs : r.cmd ≡ "presence-stop" → Runs (dispatch_presence_stop lib cfg o r.id st)
  unfolding apply apply_all
  presence_stop-Runs e = (stop ∷ [], presence_stopped e refl refl, refl)

  pair_keys-Runs :
      (key role form : String) (public own : Option (List ℕ))
      → r.cmd ≡ "pair"
      → r.args ≡ key ∷ role ∷ form ∷ []
      → lib.load_public_key key ≡ public
      → lib.load_private_key st.1 ≡ own
      → Runs (pair_keys lib cfg o r.id (key ∷ role ∷ form ∷ []) public own st)
  unfolding apply apply_all
  pair_keys-Runs key role form none own e args p q = ([], not_paired e refl refl, refl)
  pair_keys-Runs key role form (some k) none e args p q = ([], not_paired e refl refl, refl)
  pair_keys-Runs key role form (some k) (some k') e args p q =
      if_cases Runs (not (same_bytes k k')) _ _ (λ other. ([], not_paired e refl refl, refl))
        (λ same. (
          command o.link o.now "add-key-request" ∷ [],
          paired key role form k e args p
              (q ∙ ap some (sym (str_eq-eq k k' (ground (arith, same))))) refl,
          refl,
        ))

  keygen-Runs : r.cmd ≡ "keygen" → Runs (keygen_request lib cfg o r.id r.args st)
  unfolding apply apply_all presence_stop
  keygen-Runs e =
      let ok = answer_of-ok (dispatch_keygen o.keys r.args st).1.ok r.id in
      elim (dispatch_keygen_lem o.keys r.args st) [
        | inl (forced, inl (bad, same)) ↦ ([], kept e (ground arith) refl, same)
        | inl (forced, inr (good, file, ended)) ↦
            (stop ∷ [], replaced e forced (ok ∙ good) refl, ended)
        | inr (plain, same, file, answer) ↦ ([], kept e (ground arith) refl, same)
      ]

  after_connect-Runs :
      (target : Target) (reached : Session × Option LinkError)
      → r.cmd ≡ "navigate"
      → check_navigate lib.parse_float (map codes r.args) ≡ valid target
      → reached ≡ navigate_connect cfg o.link o.now st.0
      → let next = after_connect o.sent target (apply_all cfg o.within) reached in
        Runs ((next.0, st.1), navigate_answer lib cfg o r.id next.1)
  unfolding apply apply_all
  after_connect-Runs target (s, some failure) e checked same =
      (navigate_to o.link o.now ∷ [], not_reached e refl refl, ap (λ x. x.0) same)
  after_connect-Runs target (s, none) e checked same = (
    navigate_to o.link o.now ∷ (o.within ++ (navigate_op o.sent target ∷ [])),
    navigated target e checked refl,
    ap (λ x. (navigate_send o.sent target (apply_all cfg o.within x.0)).0) same
        ∙ sym (
            apply_all-append AnyOp cfg o.within (navigate_op o.sent target ∷ [])
              (navigate_connect cfg o.link o.now st.0).0),
  )

  go_on-Runs :
      (checked : Checked)
      → r.cmd ≡ "navigate"
      → check_navigate lib.parse_float (map codes r.args) ≡ checked
      → let next = go_on cfg o.link o.now o.sent (apply_all cfg o.within) checked st.0 in
        Runs ((next.0, st.1), navigate_answer lib cfg o r.id next.1)
  unfolding apply_all
  go_on-Runs (usage failure) e same = ([], no_target failure e same refl refl, refl)
  go_on-Runs (valid target) e same =
      after_connect-Runs target (navigate_connect cfg o.link o.now st.0) e same refl

  navigate-Runs : r.cmd ≡ "navigate" → Runs (navigate_request lib cfg o r.id r.args st)
  unfolding dispatch_navigate
  navigate-Runs e = go_on-Runs (check_navigate lib.parse_float (map codes r.args)) e refl

  dispatch_pair-Runs :
      (args : List String)
      → r.cmd ≡ "pair"
      → r.args ≡ args
      → Runs (dispatch_pair lib cfg o r.id args st)
  unfolding dispatch_pair apply_all
  dispatch_pair-Runs (key ∷ role ∷ form ∷ []) e args =
      pair_keys-Runs key role form (lib.load_public_key key) (lib.load_private_key st.1) e args refl
        refl
  dispatch_pair-Runs [] e args = ([], not_paired e refl refl, refl)
  dispatch_pair-Runs (a ∷ []) e args = ([], not_paired e refl refl, refl)
  dispatch_pair-Runs (a ∷ b ∷ []) e args = ([], not_paired e refl refl, refl)
  dispatch_pair-Runs (a ∷ b ∷ c ∷ d ∷ rest) e args = ([], not_paired e refl refl, refl)

  pub dispatch-Runs : Runs (dispatch lib cfg o r st)
  unfolding dispatch
  dispatch-Runs =
      let named : (name : String) → str_eq r.cmd name ≡ true → r.cmd ≡ name =
        λ name e. (eq_iff r.cmd name).0 e in
      if_cases Runs (str_eq r.cmd "pair") _ _ (λ e. dispatch_pair-Runs r.args (named "pair" e) refl)
        (λ e0.
          if_cases Runs (str_eq r.cmd "keygen") _ _ (λ e. keygen-Runs (named "keygen" e))
            (λ e1.
              if_cases Runs (str_eq r.cmd "presence-start") _ _
                (λ e.
                  presence_start-Runs (parse_presence_args lib cfg o r.args)
                    (named "presence-start" e) refl)
                (λ e2.
                  if_cases Runs (str_eq r.cmd "presence-stop") _ _
                    (λ e. presence_stop-Runs (named "presence-stop" e))
                    (λ e3.
                      if_cases Runs (str_eq r.cmd "navigate") _ _
                        (λ e. navigate-Runs (named "navigate" e))
                        (λ e4. vehicle-Runs (ground arith))))))
