-- ===== src/Session/Serve/Tests.antt =====
-- The theorems on the requests applied to a connection with a key, a start of presence mode and a pairing.
use Prim.Native.String.{String}
use text.Mathlib.Text.{◌==◌ as str_eq}
use electric_eel.Base.{
  ℕ, ◌≡◌, refl, true, false, Option, none, some, List, [], ◌∷◌, map, All, if◌then◌else◌,
}
use electric_eel.Base.Int.{pos, negsuc}
use electric_eel.Session.Presence.{PresenceConfig, default_presence_config}
use electric_eel.Session.State.{presence_unknown}
use electric_eel.Session.Keygen.{KeyFile, missing, unreadable, unprintable, valid, State}
use electric_eel.Session.Link.{Settings, vcsec}
use electric_eel.Session.Link.Connect.{IsDown}
use electric_eel.Session.Serve.{
  Response, Library, Outside, Line, empty, malformed, too_long, request, dispatch, int16_of,
  serve_conn,
}
use electric_eel.Session.Serve.Answers.{IsSound, serve_conn_lem}

abbrev no_flags : PresenceConfig → List String → Option PresenceConfig
no_flags cfg [] = some cfg
no_flags cfg (a ∷ args) = none

abbrev private_bytes : KeyFile → Option (List ℕ)
private_bytes (valid pub_key) = some (4 ∷ 7 ∷ [])
private_bytes unprintable = some []
private_bytes missing = none
private_bytes unreadable = none

abbrev lib : Library
lib = record {
  parse_flags = no_flags;
  parse_float = λ s. none;
  load_public_key = λ file. if str_eq file "public.pem" then some (4 ∷ 7 ∷ []) else none;
  load_private_key = private_bytes;
}

abbrev bluez : Settings
bluez = record { bluez = true; command_domain = λ cmd. some vcsec }

abbrev calm : Outside
calm = record {
  before = [];
  within = [];
  now = 9;
  link = record {
    key_loads = true;
    bus_opens = true;
    adapter_starts = true;
    link_connects = some 1;
    vehicle_made = some 2;
    vehicle_connects = true;
    session_starts = true;
  };
  keys = record { new_key = some "-----BEGIN PUBLIC KEY-----"; save_failed = none };
  executed = λ args. true;
  sent = true;
}

abbrev asleep : State
asleep = (
  record {
    car = none;
    conn = none;
    idle_timer = false;
    presence_cancel = none;
    presence_generation = 0;
    presence_cfg = default_presence_config;
    auth_responder = false;
    auth_inbox = none;
    last_beacon = none;
    last_beacon_at = 0;
    connect_backoff_until = 0;
    connect_backoff = 0;
    last_vcsec_prime = 0;
    connected_at = 0;
    last_user_presence = presence_unknown;
    inside_emitted = false;
    events = [];
  },
  missing,
)

abbrev with_key : State
with_key = (asleep.0, valid "-----BEGIN PUBLIC KEY-----")

abbrev ask : String → String → List String → Line
ask id cmd args = request (record { type_name = "request"; id = id; cmd = cmd; args = args })

abbrev pair_args : List String
pair_args = "public.pem" ∷ "owner" ∷ "cloud_key" ∷ []

abbrev lines : List (Outside × Line)
lines =
    (calm, ask "1" "keygen" [])
    ∷ ((calm, empty)
        ∷ ((calm, ask "2" "pair" pair_args)
            ∷ ((calm, malformed)
                ∷ ((calm, ask "3" "presence-start" [])
                    ∷ ((calm, ask "4" "pair" [])
                        ∷ ((calm, too_long) ∷ ((calm, ask "5" "wake" []) ∷ [])))))))

int16_wraps : int16_of (pos 40000) ≡ negsuc 25535
int16_wraps = refl

int16_keeps : int16_of (negsuc 89) ≡ negsuc 89
int16_keeps = refl

pair_answer :
    (dispatch lib bluez calm
      (record { type_name = "request"; id = "4"; cmd = "pair"; args = [] })
      asleep).1.exit_code
    ≡ 2
unfolding dispatch
pair_answer = refl

keygen_answer :
    (dispatch lib bluez calm
      (record { type_name = "request"; id = "1"; cmd = "keygen"; args = [] })
      asleep).1.exit_code
    ≡ 0
unfolding dispatch
keygen_answer = refl

serve_conn_lem_example :
    let (st', answers) = serve_conn lib bluez [] lines asleep in
    (map (λ (r : Response). r.id) answers ≡ "1" ∷ "2" ∷ "" ∷ "3" ∷ "4" ∷ [])
    × All IsSound answers
    × IsDown st'.0
    × (st'.0.presence_cancel ≡ none)
    × (st'.0.auth_inbox ≡ none)
serve_conn_lem_example = serve_conn_lem lib bluez [] lines asleep
