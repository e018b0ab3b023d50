-- ===== src/Core/Invariant/Parts.antt =====
-- helper/src/core.rs: the changes of a core that leave the phone key sound.
use electric_eel.Base.{◌≡◌, refl, sym, ap, ◌∙◌, Bool, true, false, none, some, arith, if◌then◌else◌}
use electric_eel.Client.{Client, is_some}
use electric_eel.Core.{Core, eligible}
use electric_eel.Core.PhoneKey.{IsSafe}
use electric_eel.Core.Keys.{Keeps}

-- a core that differs in what the phone key does not depend on
pub Keeps-IsSafe : (c c' : Core) → Keeps c c' → IsSafe c → IsSafe c'
unfolding eligible
Keeps-IsSafe c c' k h = record {
  eligible_started = λ e. ground (arith, h.eligible_started, k);
  client = λ e. k.6 ∙ h.client (sym k.2 ∙ e);
  wanted = λ e. k.3 ∙ h.wanted (ap is_some (sym k.4) ∙ e);
}

-- a phone key that is neither started nor to be retried
pub idle-IsSafe : (c : Core) → c.phone_key_started ≡ false → c.phone_key_retry_at ≡ none → IsSafe c
idle-IsSafe c off never = record {
  eligible_started = λ e. cc;
  client = λ e. cc;
  wanted = λ e. ground (arith, never, e);
}

pub if-IsSafe :
    {A : Type 0} (b : Bool) (x y : Core × A)
    → IsSafe x.0
    → IsSafe y.0
    → IsSafe (if b then x else y).0
if-IsSafe true x y hx hy = hx
if-IsSafe false x y hx hy = hy

pub client-IsSafe :
    (c : Core) (client : Client) → IsSafe c → IsSafe (record c { session = some client })
unfolding eligible
client-IsSafe c client h = record {
  eligible_started = h.eligible_started;
  client = λ e. refl;
  wanted = h.wanted;
}

pub stopped-IsSafe : (c : Core) → IsSafe c → IsSafe (record c { phone_key_started = false })
stopped-IsSafe c h = record { eligible_started = λ e. cc; client = λ e. cc; wanted = h.wanted }
