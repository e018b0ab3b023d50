-- ===== src/Core/Requests.antt =====
-- helper/src/core.rs: a new key, and the pairing with the vehicle.
use electric_eel.Base.{Bool, true, false, not, ◌&&◌, ◌||◌, Option, none, some, if◌then◌else◌}
use electric_eel.Text.{Str, codes, is_empty, trim}
use electric_eel.Config.{Config, VinState, paired, unpaired, writable}
use electric_eel.Client.{Client, Outcome, ran, failed, run, invalidate}
use electric_eel.Core.{
  Core, World, OperationError, persist, write_pubkey, keygen_failed, map_client, start_phone_key,
  stop_phone_key, is_saved, after_error,
}

abbrev pub with_state : VinState → Config → Config
with_state state cfg = record cfg { vin_state = state }

-- `generate_key` for a key that is replaced, up to the request: the enrollment is reset in the file
-- and in memory, and the phone key stopped
unfoldable pub reset_enrollment : World → Core → Core
reset_enrollment w c =
    let stopped = stop_phone_key w c in
    record stopped {
      cfg = with_state unpaired c.cfg;
      file = with_state unpaired c.cfg;
      session = map_client invalidate stopped.session;
    }

-- the public key, or the error
pub data KeyAnswer : Type 0 where
  generated : Str → KeyAnswer
  refused : OperationError → KeyAnswer

-- the `match` on the answer of the session
unfoldable pub key_answer : World → Outcome → KeyAnswer
key_answer w (ran true out _ _) =
    if w.writes_public then generated (trim (codes out)) else refused write_pubkey
key_answer w _ = refused keygen_failed

-- `generate_key_one_shot`
unfoldable pub generate_key_one_shot : World → KeyAnswer
generate_key_one_shot w = elim w.one_shot [
  | none ↦ refused keygen_failed
  | some public ↦ generated (trim public)
]

-- the client is dropped after a key that was replaced
unfoldable pub after_key : Bool → KeyAnswer → Core → Core
after_key replacing (generated _) c =
    if replacing then record c { session = map_client invalidate c.session } else c
after_key replacing (refused _) c = c

-- the request for the key, to the session or to the binary
unfoldable pub ask_key : World → Bool → Option Client → Core → Core × KeyAnswer
unfolding key_answer generate_key_one_shot after_key
ask_key w replacing none c =
    (after_key replacing (generate_key_one_shot w) c, generate_key_one_shot w)
ask_key w replacing (some client) c =
    let (after, outcome) = run "keygen" w.asking client in
    let answer = key_answer w outcome in
    (after_key replacing answer (record c { session = some after }), answer)

unfoldable pub request_key : World → Bool → Core → Core × KeyAnswer
unfolding ask_key
request_key w replacing c =
    ask_key w replacing c.session
      (record c { key_file = if replacing then w.key_after else c.key_file })

-- `generate_key`
unfoldable pub generate_key : World → Bool → Core → Core × KeyAnswer
unfolding reset_enrollment request_key
generate_key w force c =
    let replacing = force || not c.key_file in
    if not (writable c.cfg)
    then (c, refused persist)
    else if replacing && not (is_saved w)
    then (after_error w (with_state unpaired c.cfg) c, refused persist)
    else request_key w replacing (if replacing then reset_enrollment w c else c)

-- what `pair` returns: `Ok` with true, `Ok` with false and a reason, or an error
pub data PairAnswer : Type 0 where
  pairing_done : PairAnswer
  pairing_busy no_public_key declined not_started : PairAnswer
  session_required read_only not_configured session_failed not_persisted : PairAnswer

-- `pair` after the vehicle has confirmed the key
unfoldable pub confirm_pairing : World → Core → Core × PairAnswer
confirm_pairing w c =
    if not (is_saved w)
    then (after_error w (with_state paired c.cfg) c, not_persisted)
    else let enrolled = record c {
      cfg = with_state paired c.cfg;
      file = with_state paired c.cfg;
    } in
      let (started, error) = start_phone_key w enrolled in
      (started, elim error [ none ↦ pairing_done | some _ ↦ not_started ])

-- the `match` on the answer of the session
unfoldable pub pair_answered : World → Outcome → Core → Core × PairAnswer
unfolding confirm_pairing
pair_answered w (ran true _ _ _) c = confirm_pairing w c
pair_answered w (ran false _ _ _) c = (c, declined)
pair_answered w (failed _) c = (c, session_failed)

-- the condition of `common_args_locked`
unfoldable pub is_configured : Core → Bool
is_configured c = not (is_empty c.cfg.vin) && c.key_file

-- `pair` after the phone key was stopped
unfoldable pub enroll : World → Option Client → Core → Core × PairAnswer
unfolding is_configured pair_answered
enroll w none c = (c, session_required)
enroll w (some client) c =
    if not (is_configured c)
    then (c, not_configured)
    else if not w.public_file
    then (c, no_public_key)
    else let (after, outcome) = run "pair" w.asking client in
      pair_answered w outcome (record c { session = some after })

abbrev has_client : Option Client → Bool
has_client none = false
has_client (some _) = true

-- `pair`
unfoldable pub pair : World → Core → Core × PairAnswer
unfolding enroll
pair w c =
    if not w.permit
    then (c, pairing_busy)
    else if not (has_client c.session)
    then (c, session_required)
    else if not (writable c.cfg)
    then (c, read_only)
    else let stopped = stop_phone_key w c in enroll w stopped.session stopped
