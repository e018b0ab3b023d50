-- ===== src/Core/Invariant/Keys.antt =====
-- helper/src/core.rs: the phone key over key generation and pairing.
use electric_eel.Base.{
  ◌≡◌, refl, Bool, true, false, not, ◌||◌, ◌&&◌, Option, none, some, arith, if◌then◌else◌,
}
use electric_eel.Client.{Client, Outcome, ran, failed, run}
use electric_eel.Config.{Config, paired, unpaired, writable}
use electric_eel.Core.{
  persist, Core, World, is_saved, after_error, eligible, start_phone_key, stop_phone_key,
}
use electric_eel.Core.PhoneKey.{IsSafe, start_phone_key-IsSafe, stop_phone_key-IsSafe}
use electric_eel.Core.Requests.{
  with_state, reset_enrollment, request_key, refused, generate_key, not_persisted, pairing_done,
  not_started, confirm_pairing, pair_answered, enroll, pair,
}
use electric_eel.Core.Keys.{request_key-Keeps, reset_enrollment-IsEnded}
use electric_eel.Core.Invariant.Parts.{Keeps-IsSafe, idle-IsSafe, if-IsSafe, client-IsSafe}

request_key-IsSafe :
    (w : World) (replacing : Bool) (c : Core)
    → IsSafe c
    → IsSafe (request_key w replacing (if replacing then reset_enrollment w c else c)).0
request_key-IsSafe w true c h =
    let reset = reset_enrollment w c in
    let ended = reset_enrollment-IsEnded w c in
    let written : Core = record reset { key_file = w.key_after } in
    Keeps-IsSafe written (request_key w true reset).0 (request_key-Keeps w true reset)
      (idle-IsSafe written ended.0 ended.2)
request_key-IsSafe w false c h =
    Keeps-IsSafe c (request_key w false c).0 (request_key-Keeps w false c) h

after_error-IsSafe : (w : World) (cfg : Config) (c : Core) → IsSafe c → IsSafe (after_error w cfg c)
unfolding eligible
after_error-IsSafe w cfg c h = record {
  eligible_started = h.eligible_started;
  client = h.client;
  wanted = h.wanted;
}

pub generate_key-IsSafe :
    (w : World) (force : Bool) (c : Core) → IsSafe c → IsSafe (generate_key w force c).0
unfolding generate_key
generate_key-IsSafe w force c h =
    let replacing = force || not c.key_file in
    let asked = request_key w replacing (if replacing then reset_enrollment w c else c) in
    let unsaved = after_error w (with_state unpaired c.cfg) c in
    if-IsSafe (not (writable c.cfg)) (c, refused persist)
      (if replacing && not (is_saved w) then (unsaved, refused persist) else asked) h
      (if-IsSafe (replacing && not (is_saved w)) (unsaved, refused persist) asked
        (after_error-IsSafe w (with_state unpaired c.cfg) c h) (request_key-IsSafe w replacing c h))

-- another client, and an enrollment of a core whose phone key is off
enrolled-IsSafe :
    (c : Core) (client : Client)
    → IsSafe c
    → c.phone_key_started ≡ false
    → IsSafe (record c {
      session = some client;
      cfg = with_state paired c.cfg;
      file = with_state paired c.cfg;
    })
enrolled-IsSafe c client h off = record {
  eligible_started = λ e. cc;
  client = λ e. refl;
  wanted = h.wanted;
}

pair_answered-IsSafe :
    (w : World) (outcome : Outcome) (client : Client) (c : Core)
    → IsSafe c
    → c.phone_key_started ≡ false
    → IsSafe (pair_answered w outcome (record c { session = some client })).0
unfolding pair_answered confirm_pairing
pair_answered-IsSafe w (ran false out err code) client c h off = client-IsSafe c client h
pair_answered-IsSafe w (failed e) client c h off = client-IsSafe c client h
pair_answered-IsSafe w (ran true out err code) client c h off =
    let enrolled : Core = record c {
      session = some client;
      cfg = with_state paired c.cfg;
      file = with_state paired c.cfg;
    } in
    let started = start_phone_key w enrolled in
    let asked : Core = record c { session = some client } in
    if-IsSafe (not (is_saved w)) (after_error w (with_state paired c.cfg) asked, not_persisted)
      (started.0, elim started.1 [ none ↦ pairing_done | some _ ↦ not_started ])
      (after_error-IsSafe w (with_state paired c.cfg) asked (client-IsSafe c client h))
      (start_phone_key-IsSafe w enrolled (enrolled-IsSafe c client h off))

enroll-IsSafe :
    (w : World) (session : Option Client) (c : Core)
    → IsSafe c
    → c.phone_key_started ≡ false
    → IsSafe (enroll w session c).0
unfolding enroll
enroll-IsSafe w none c h off = h
enroll-IsSafe w (some client) c h off =
    let answer = run "pair" w.asking client in
    ground (arith, h, pair_answered-IsSafe w answer.1 answer.0 c h off)

pub pair-IsSafe : (w : World) (c : Core) → IsSafe c → IsSafe (pair w c).0
unfolding pair stop_phone_key
pair-IsSafe w c h =
    let stopped = stop_phone_key w c in
    let safe : IsSafe stopped = stop_phone_key-IsSafe w c h in
    let off : stopped.phone_key_started ≡ false = ground arith in
    ground (arith, h, enroll-IsSafe w stopped.session stopped safe off)
