-- ===== src/Core/Run.antt =====
-- helper/src/core.rs: which commands `run` refuses, and when it runs a binary instead of the session.
use Prim.Native.String.{String}
use electric_eel.Base.{
  ℕ, ◌≡◌, ◌⊎◌, inl, inr, refl, Bool, true, false, Option, none, some, List, All, get_elem?,
  All-get_elem?, arith, Option-cases, any,
}
use electric_eel.Base.Int.{ℤ}
use electric_eel.Text.{Str}
use electric_eel.Dashboard.Json.{Json}
use electric_eel.Dashboard.Status.{Status}
use electric_eel.Client.{Client, Outcome, ran, failed, is_some, run}
use electric_eel.Catalog.Items.{Number, Command}
use electric_eel.Catalog.Search.{find_category}
use electric_eel.Catalog.Page.{visible_commands, command_with_state_defaults}
use electric_eel.Catalog.Dialog.{Input}
use electric_eel.Catalog.Dialog.Filled.{SlidesInRange}
use electric_eel.Catalog.Commands.{
  RangeError, is_known_command, is_pin_command, validate_arg_ranges,
}
use electric_eel.Catalog.Commands.Numerals.{Numerals}
use electric_eel.Catalog.Commands.Known.{is_pin, visible_commands-known}
use electric_eel.Catalog.Commands.Form.{submit, IsKnownStatus, validate_arg_ranges-on_accepted}
use electric_eel.Core.{Core, World}
use electric_eel.Core.Commands.{
  RunAnswer, fallback, unknown_command, invalid_argument, session_answer, send_command, execute,
  run_checked, run_command,
}

-- a binary is run, which takes the adapter for itself
abbrev pub is_fallback : RunAnswer → Bool
is_fallback (fallback _) = true
is_fallback _ = false

-- the command or its arguments are refused
abbrev pub is_rejected : RunAnswer → Bool
is_rejected unknown_command = true
is_rejected (invalid_argument _) = true
is_rejected _ = false

session_answer-bluez :
    (w : World) (outcome : Outcome) → is_fallback (session_answer w true outcome) ≡ false
unfolding session_answer
session_answer-bluez w (ran success out err code) = refl
session_answer-bluez w (failed e) = refl

send_command-bluez :
    (w : World) (cmd : String) (session : Option Client) (c : Core)
    → c.bluez ≡ true
    → is_some session ≡ true
    → is_fallback (send_command w cmd session c).1 ≡ false
unfolding send_command
send_command-bluez w cmd none c h up = cc
send_command-bluez w cmd (some client) c h up =
    ground (arith, h, session_answer-bluez w (run cmd w.asking client).1)

run_checked-bluez :
    (w : World) (cmd : String) (error : Option RangeError) (c : Core)
    → c.bluez ≡ true
    → is_some c.session ≡ true
    → is_fallback (run_checked w cmd error c).1 ≡ false
unfolding run_checked execute
run_checked-bluez w cmd (some e) c h up = refl
run_checked-bluez w cmd none c h up = ground (arith, send_command-bluez w cmd c.session c h up)

session_answer-is_rejected :
    (w : World) (bluez : Bool) (outcome : Outcome)
    → is_rejected (session_answer w bluez outcome) ≡ false
unfolding session_answer
session_answer-is_rejected w bluez (ran success out err code) = refl
session_answer-is_rejected w true (failed e) = refl
session_answer-is_rejected w false (failed e) = refl

send_command-is_rejected :
    (w : World) (cmd : String) (session : Option Client) (c : Core)
    → is_rejected (send_command w cmd session c).1 ≡ false
unfolding send_command
send_command-is_rejected w cmd none c = refl
send_command-is_rejected w cmd (some client) c =
    session_answer-is_rejected w c.bluez (run cmd w.asking client).1

execute-is_rejected :
    (w : World) (cmd : String) (c : Core) → is_rejected (execute w cmd c).1 ≡ false
unfolding execute
execute-is_rejected w cmd c = ground (arith, send_command-is_rejected w cmd c.session c)

module _ (parse_int : Str → Option ℤ) (parse_float : Str → Option Number) where
  -- With the backend that shares the adapter and a session client, `run` never runs a binary instead of the session,
  -- whatever the command, its arguments, and what is outside.
  run_command-bluez :
      (w : World) (cmd : String) (args : List Str) (c : Core)
      → c.bluez ≡ true
      → is_some c.session ≡ true
      → is_fallback (run_command parse_int parse_float w cmd args c).1 ≡ false
  unfolding run_command
  run_command-bluez w cmd args c h up =
      ground
        (arith, run_checked-bluez w cmd (validate_arg_ranges parse_int parse_float cmd args) c h up)

  run_command-accepted :
      (w : World) (cmd : String) (args : List Str) (c : Core)
      → is_known_command cmd ≡ true
      → validate_arg_ranges parse_int parse_float cmd args ≡ none
      → run_command parse_int parse_float w cmd args c ≡ execute w cmd c
  unfolding run_command run_checked
  run_command-accepted w cmd args c known valid = rw (known, valid) refl

  -- A command that is not refused as unknown or for its arguments is one that the core knows with arguments
  -- that pass the check; any other is refused, and then nothing has changed and no child was asked.
  run_command-is_rejected :
      (w : World) (cmd : String) (args : List Str) (c : Core)
      → let (c', answer) = run_command parse_int parse_float w cmd args c in
        ((is_rejected answer ≡ true) × (c' ≡ c))
        ⊎ ((is_rejected answer ≡ false)
            × (is_known_command cmd ≡ true)
            × (validate_arg_ranges parse_int parse_float cmd args ≡ none))
  unfolding run_command run_checked
  run_command-is_rejected w cmd args c =
      elim (Option-cases (validate_arg_ranges parse_int parse_float cmd args)) [
        | inl e ↦ ground (arith, execute-is_rejected w cmd c)
        | inr (r, e) ↦ ground arith
      ]

module _ (ns : Numerals) (coerce : Json → Option Number) where
  -- The core never refuses what a page sends as unknown or for its arguments: the command of any form that a
  -- page opens is known to it and its arguments pass the check, as long as the temperature setting, the
  -- charge limit and the charging current of the status, where it has them, are numbers, the last two of them
  -- whole, and the sliders move within their ranges. That it is not sent for another reason, such
  -- as no session, is not excluded.
  pub run_command-submit :
      (w : World) (core : Core) (status : Option Status) (category : String) (i : ℕ) (c : Command)
      (inputs : List (ℕ × Input))
      → get_elem? (visible_commands status (find_category category)) i ≡ some c
      → IsKnownStatus ns.IsDouble status
      → All (SlidesInRange ns.IsDouble (command_with_state_defaults coerce status c).args) inputs
      → is_rejected
          (run_command ns.parse_int ns.parse_float w c.id (submit ns coerce status c inputs) core).1
        ≡ false
  run_command-submit w core status category i c inputs listed known ok =
      let args = submit ns coerce status c inputs in
      let served =
        All-get_elem?
          (λ (d : Command).
            (is_known_command d.id ≡ true) × (any is_pin d.args ≡ is_pin_command d.id))
          (visible_commands status (find_category category)) i c
          (visible_commands-known status category) listed in
      let valid =
        validate_arg_ranges-on_accepted ns coerce status category i c inputs listed known ok in
      rw (run_command-accepted ns.parse_int ns.parse_float w c.id args core served.0 valid)
        (execute-is_rejected w c.id core)
