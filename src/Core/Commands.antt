-- ===== src/Core/Commands.antt =====
-- helper/src/core.rs: the commands of the client.
use Prim.Native.String.{String}
use electric_eel.Base.{Bool, not, Option, none, some, List, if◌then◌else◌}
use electric_eel.Base.Int.{ℤ}
use electric_eel.Text.{Str}
use electric_eel.Client.{Client, Outcome, ran, failed, run}
use electric_eel.Catalog.Items.{Number}
use electric_eel.Catalog.Commands.{is_known_command, RangeError, validate_arg_ranges}
use electric_eel.Core.{Core, World}
use electric_eel.Core.Requests.{is_configured}

-- what `run` returns: the answer of the session, the output of the binary that is run instead, or an
-- error
pub data RunAnswer : Type 0 where
  answered : Bool → String → String → ℤ → RunAnswer
  fallback : Option Str → RunAnswer
  unknown_command busy not_configured_for_run session_unavailable : RunAnswer
  invalid_argument : RangeError → RunAnswer

-- the `match` on the answer of the session
unfoldable pub session_answer : World → Bool → Outcome → RunAnswer
session_answer w bluez (ran success out err code) = answered success out err code
session_answer w bluez (failed _) = if bluez then session_unavailable else fallback w.one_shot

-- the command, to the session or to the binary
unfoldable pub send_command : World → String → Option Client → Core → Core × RunAnswer
unfolding session_answer
send_command w cmd none c = (c, fallback w.one_shot)
send_command w cmd (some client) c =
    let (after, outcome) = run cmd w.asking client in
    (record c { session = some after }, session_answer w c.bluez outcome)

-- `run` of a command whose arguments were checked
unfoldable pub execute : World → String → Core → Core × RunAnswer
unfolding is_configured send_command
execute w cmd c =
    if not w.permit
    then (c, busy)
    else if not (is_configured c)
    then (c, not_configured_for_run)
    else send_command w cmd c.session c

-- a command after the check of its arguments
unfoldable pub run_checked : World → String → Option RangeError → Core → Core × RunAnswer
unfolding execute
run_checked w cmd (some e) c = (c, invalid_argument e)
run_checked w cmd none c = execute w cmd c

module _ (parse_int : Str → Option ℤ) (parse_float : Str → Option Number) where
  -- `Core::run`
  unfoldable pub run_command : World → String → List Str → Core → Core × RunAnswer
  unfolding run_checked
  run_command w cmd args c =
      if not (is_known_command cmd)
      then (c, unknown_command)
      else run_checked w cmd (validate_arg_ranges parse_int parse_float cmd args) c
