-- ===== src/Config/Sanitize.antt =====
-- helper/src/config.rs: `sanitize` and `validate_config` agree.
use electric_eel.Base.{
  ◌≤◌, ◌≡◌, ◌↔◌, ◌⊎◌, inl, inr, refl, true, false, none, [], arith, if◌then◌else◌, Bool-cases,
  length, all,
}
use electric_eel.Base.Int.{ℤ, pos, ◌≤ℤ◌}
use electric_eel.Text.{Str, trim, to_ascii_lowercase, contains_str, byte_len}
use electric_eel.Text.Trim.{contains_str-cases, trim_twice}
use electric_eel.Config.{
  Config, valid_models, default_config, vin_bad, key_name_bad, vin_re, key_name_re, sanitize,
  validate_config, candidate, is_vin_char, is_key_name_char, max_timeout_sec, max_key_name_len,
}

-- A model of the list is already trimmed and in lower case.
model_stable : (m : Str) → contains_str valid_models m ≡ true → to_ascii_lowercase (trim m) ≡ m
unfolding trim to_ascii_lowercase
model_stable m h = elim (contains_str-cases _ _ m h) [
  | inl e ↦ rw e refl
  | inr h ↦ elim (contains_str-cases _ _ m h) [
    | inl e ↦ rw e refl
    | inr h ↦ elim (contains_str-cases _ _ m h) [
      | inl e ↦ rw e refl
      | inr h ↦ elim (contains_str-cases _ _ m h) [
        | inl e ↦ rw e refl
        | inr h ↦ elim (contains_str-cases _ _ m h) [
          | inl e ↦ rw e refl
          | inr h ↦ elim (contains_str-cases _ _ m h) [
            | inl e ↦ rw e refl
            | inr h ↦ absurd (unfold contains_str in cc)
          ]
        ]
      ]
    ]
  ]
]

default_key_name : key_name_bad (trim default_config.key_name) ≡ false
unfolding trim key_name_re byte_len
default_key_name = refl

trim_nil : trim [] ≡ []
unfolding trim
trim_nil = refl

default_model : contains_str valid_models (to_ascii_lowercase (trim [])) ≡ true
unfolding trim to_ascii_lowercase contains_str
default_model = refl

vin_clean : (v : Str) → vin_bad (trim (if vin_bad (trim v) then [] else trim v)) ≡ false
vin_clean v = elim (Bool-cases (vin_bad (trim v))) [
  | inl bad ↦ rw bad (rw trim_nil refl)
  | inr good ↦ rw good (rw (trim_twice v) good)
]

model_clean :
    (m : Str)
    → contains_str valid_models (
        to_ascii_lowercase (trim (if contains_str valid_models m then m else default_config.model)))
      ≡ true
model_clean m = elim (Bool-cases (contains_str valid_models m)) [
  | inl good ↦ rw good (rw (model_stable m good) good)
  | inr bad ↦ rw bad default_model
]

key_name_clean :
    (k : Str)
    → key_name_bad (trim (if key_name_bad (trim k) then default_config.key_name else trim k))
      ≡ false
key_name_clean k = elim (Bool-cases (key_name_bad (trim k))) [
  | inl bad ↦ rw bad default_key_name
  | inr good ↦ rw good (rw (trim_twice k) good)
]

validate_none :
    (vin model key_name : Str) (connect command : ℤ)
    → pos 1 ≤ℤ connect
    → connect ≤ℤ max_timeout_sec
    → pos 1 ≤ℤ command
    → command ≤ℤ max_timeout_sec
    → vin_bad (trim vin) ≡ false
    → contains_str valid_models (to_ascii_lowercase (trim model)) ≡ true
    → key_name_bad (trim key_name) ≡ false
    → validate_config vin model key_name connect command ≡ none
unfolding validate_config
validate_none vin model key_name connect command a b c d e f g = rw (e, f, g) (ground arith)

-- A loaded configuration, whatever the file held, passes the validation of `SetConfig` once it has
-- been sanitized.
pub sanitize-validate_config :
    (c : Config)
    → let s = sanitize c in
      validate_config s.vin s.model s.key_name s.connect_timeout_sec s.command_timeout_sec ≡ none
unfolding sanitize
sanitize-validate_config c =
    let s = sanitize c in
    validate_none s.vin s.model s.key_name s.connect_timeout_sec s.command_timeout_sec
      (ground arith) (ground arith) (ground arith) (ground arith) (vin_clean c.vin)
      (model_clean (to_ascii_lowercase (trim c.model))) (key_name_clean c.key_name)

-- The five arguments of `SetConfig` are accepted exactly when both timeouts lie between 1 and 300
-- seconds, the trimmed VIN is empty or has 17 characters of the VIN alphabet, the trimmed model in
-- lower case is a known one, and the trimmed key name has at most 64 bytes, all of its alphabet.
pub validate_config_iff :
    (vin model key_name : Str) (connect command : ℤ)
    → (validate_config vin model key_name connect command ≡ none) ↔ (
        (pos 1 ≤ℤ connect)
        × (connect ≤ℤ max_timeout_sec)
        × (pos 1 ≤ℤ command)
        × (command ≤ℤ max_timeout_sec)
        × ((trim vin ≡ []) ⊎ ((length (trim vin) ≡ 17) × (all is_vin_char (trim vin) ≡ true)))
        × (contains_str valid_models (to_ascii_lowercase (trim model)) ≡ true)
        × (byte_len (trim key_name) ≤ max_key_name_len)
        × (all is_key_name_char (trim key_name) ≡ true))
unfolding validate_config vin_re key_name_re
validate_config_iff vin model key_name connect command = ground arith

-- When `SetConfig` accepts its arguments, the configuration that it saves is left as it is by the
-- repair at the next start.
pub sanitize-candidate :
    (c : Config) (vin model key_name : Str) (connect command : ℤ)
    → validate_config vin model key_name connect command ≡ none
    → sanitize (candidate c vin model key_name connect command)
      ≡ candidate c vin model key_name connect command
unfolding validate_config sanitize candidate
sanitize-candidate c vin model key_name connect command h =
    ground
      (arith, trim_twice vin, trim_twice key_name, model_stable (to_ascii_lowercase (trim model)))
