-- ===== src/Core/Keys.antt =====
-- helper/src/core.rs: what a new key and a pairing leave in memory, in the file, and of the phone key.
use electric_eel.Base.{
  ◌≡◌, ◌≢◌, ◌⊎◌, refl, ap, ◌∙◌, Bool, true, false, not, ◌||◌, Option, none, some, arith,
  if◌then◌else◌,
}
use electric_eel.Config.{paired, unpaired}
use electric_eel.Client.{Client, Outcome, ran, failed, is_some, invalidate, run}
use electric_eel.Core.{Core, World, persist, map_client, stop_phone_key}
use electric_eel.Core.PhoneKey.{IsSafe, stop_phone_key-IsSafe, start_phone_key_lem}
use electric_eel.Core.SetConfig.{IsEnded, start_phone_key-cfg}
use electric_eel.Core.Requests.{
  with_state, reset_enrollment, KeyAnswer, generated, refused, key_answer, generate_key_one_shot,
  after_key, ask_key, request_key, generate_key, PairAnswer, pairing_done, not_started,
  not_persisted, confirm_pairing, pair_answered, enroll, pair,
}

-- the same configuration in memory and in the file, the same state of the phone key, the same
-- presence of a private key, and a session client as before
abbrev pub Keeps : Core → Core → Type 0
Keeps c c' =
    (c'.cfg ≡ c.cfg)
    × (c'.file ≡ c.file)
    × (c'.phone_key_started ≡ c.phone_key_started)
    × (c'.phone_key_enabled ≡ c.phone_key_enabled)
    × (c'.phone_key_retry_at ≡ c.phone_key_retry_at)
    × (c'.key_file ≡ c.key_file)
    × (is_some c'.session ≡ is_some c.session)

map_client-is_some :
    (f : Client → Client) (session : Option Client)
    → is_some (map_client f session) ≡ is_some session
map_client-is_some f none = refl
map_client-is_some f (some client) = refl

after_key-Keeps :
    (replacing : Bool) (answer : KeyAnswer) (c : Core) → Keeps c (after_key replacing answer c)
unfolding after_key
after_key-Keeps true (generated key) c =
    (refl, refl, refl, refl, refl, refl, map_client-is_some invalidate c.session)
after_key-Keeps false (generated key) c = (refl, refl, refl, refl, refl, refl, refl)
after_key-Keeps replacing (refused e) c = (refl, refl, refl, refl, refl, refl, refl)

ask_key-Keeps :
    (w : World) (replacing : Bool) (session : Option Client) (c : Core)
    → session ≡ c.session
    → Keeps c (ask_key w replacing session c).0
unfolding ask_key
ask_key-Keeps w replacing none c e = after_key-Keeps replacing (generate_key_one_shot w) c
ask_key-Keeps w replacing (some client) c e =
    let answer = run "keygen" w.asking client in
    let kept =
      after_key-Keeps replacing (key_answer w answer.1) (record c { session = some answer.0 }) in
    (kept.0, kept.1, kept.2, kept.3, kept.4, kept.5, kept.6 ∙ ap is_some e)

pub request_key-Keeps :
    (w : World) (replacing : Bool) (c : Core)
    → Keeps
        (record c { key_file = if replacing then w.key_after else c.key_file })
        (request_key w replacing c).0
unfolding request_key
request_key-Keeps w replacing c =
    ask_key-Keeps w replacing c.session
      (record c { key_file = if replacing then w.key_after else c.key_file }) refl

pub reset_enrollment-IsEnded : (w : World) (c : Core) → IsEnded (reset_enrollment w c)
unfolding reset_enrollment stop_phone_key
reset_enrollment-IsEnded w c = ground arith

-- `generate_key` either could not write the configuration, and then nothing has changed but that the file
-- may say that no key is paired; or the key
-- is replaced, and then, even if the new one was not made, the configuration in memory and
-- in the file says that no key is paired, and the phone key is neither started nor wanted nor to be retried; or
-- there is a key that is not to be replaced, and then the configuration and the phone key are as before.
pub generate_key_lem :
    (w : World) (force : Bool) (c : Core)
    → let (c', answer) = generate_key w force c in
      ((answer ≡ refused persist)
        × (c' ≡ record c { file = c'.file })
        × ((c'.file ≡ c.file) ⊎ (c'.file ≡ with_state unpaired c.cfg)))
      ⊎ (((force || not c.key_file) ≡ true) × IsEnded c' × (c'.file ≡ c'.cfg))
      ⊎ (((force || not c.key_file) ≡ false) × Keeps c c')
unfolding generate_key
generate_key_lem w force c = ground (
  arith,
  request_key-Keeps w true (reset_enrollment w c),
  request_key-Keeps w false c,
  reset_enrollment-IsEnded w c,
)

-- the enrollment is as before in memory, and in the file unless its save was not synced
abbrev Unchanged : Core → Core → PairAnswer → Type 0
Unchanged c c' answer =
    (c'.cfg ≡ c.cfg)
    × ((c'.file ≡ c.file) ⊎ ((answer ≡ not_persisted) × (c'.file ≡ with_state paired c.cfg)))

abbrev IsPaired : Core → Core → Type 0
IsPaired c c' = (c'.cfg ≡ with_state paired c.cfg) × (c'.file ≡ with_state paired c.cfg)

abbrev Paired : Core → Core × PairAnswer → Type 0
Paired c (c', answer) =
    (IsPaired c c'
      × (((answer ≡ pairing_done) × (c'.phone_key_started ≡ true))
          ⊎ ((answer ≡ not_started) × (c'.phone_key_started ≡ false))))
    ⊎ (Unchanged c c' answer × (answer ≢ pairing_done) × (answer ≢ not_started))

confirm_pairing-Paired :
    (w : World) (c : Core) → IsSafe c → c.phone_key_started ≡ false → Paired c (confirm_pairing w c)
unfolding confirm_pairing
confirm_pairing-Paired w c h off =
    let enrolled : Core = record c {
      cfg = with_state paired c.cfg;
      file = with_state paired c.cfg;
    } in
    let safe : IsSafe enrolled = record {
      eligible_started = λ e. cc;
      client = λ e. cc;
      wanted = h.wanted;
    } in
    ground (arith, start_phone_key-cfg w enrolled, start_phone_key_lem w enrolled safe)

pair_answered-Paired :
    (w : World) (outcome : Outcome) (c : Core)
    → IsSafe c
    → c.phone_key_started ≡ false
    → Paired c (pair_answered w outcome c)
unfolding pair_answered
pair_answered-Paired w (ran true out err code) c h off = confirm_pairing-Paired w c h off
pair_answered-Paired w (ran false out err code) c h off = ground arith
pair_answered-Paired w (failed e) c h off = ground arith

enroll-Paired :
    (w : World) (session : Option Client) (c : Core)
    → IsSafe c
    → c.phone_key_started ≡ false
    → Paired c (enroll w session c)
unfolding enroll
enroll-Paired w none c h off = ground arith
enroll-Paired w (some client) c h off =
    let answer = run "pair" w.asking client in
    let asked : Core = record c { session = some answer.0 } in
    let safe : IsSafe asked = record {
      eligible_started = λ e. cc;
      client = λ e. cc;
      wanted = h.wanted;
    } in
    ground (arith, pair_answered-Paired w answer.1 asked safe off)

-- From a core whose phone key is marked only for a paired VIN with its key, `pair` either marks the configuration as paired, in memory
-- and in the file, and then it says that it is done and the phone key is started, or that it could not be started and it
-- is not; or it says neither, and then the configuration in memory is as before, and that in the file too, unless
-- the save of the pairing had an error, after which the file may be marked as paired.
pub pair_lem :
    (w : World) (c : Core)
    → IsSafe c
    → let (c', answer) = pair w c in
      (((c'.cfg ≡ with_state paired c.cfg) × (c'.file ≡ with_state paired c.cfg))
        × (((answer ≡ pairing_done) × (c'.phone_key_started ≡ true))
            ⊎ ((answer ≡ not_started) × (c'.phone_key_started ≡ false))))
      ⊎ (((c'.cfg ≡ c.cfg)
            × ((c'.file ≡ c.file)
                ⊎ ((answer ≡ not_persisted) × (c'.file ≡ with_state paired c.cfg))))
          × (answer ≢ pairing_done)
          × (answer ≢ not_started))
unfolding pair stop_phone_key
pair_lem w c h =
    let stopped = stop_phone_key w c in
    ground (arith, enroll-Paired w stopped.session stopped (stop_phone_key-IsSafe w c h))
