-- ===== src/Bluez/Framing/Tests.antt =====
-- helper/session/bluez/connection.go: the framing at concrete inputs.
use mathlib.Core.List.{flatten}
use electric_eel.Base.{ℕ, ◌≡◌, ◌⊎◌, refl, true, false, List, [], ◌∷◌, ◌++◌, arith, take}
use electric_eel.Bluez.Framing.{
  Attempt, Connection, sent, context_ended, write_failed, frame, send, rx_all,
}
use electric_eel.Bluez.Framing.Send.{send_lem}
use electric_eel.Bluez.Framing.Receive.{rx_all_lem, rx_all-send}

abbrev always : ℕ → Attempt
always round = record { ended_before = false; written = true; ended_after = false }

abbrev idle : Connection
idle = record { rx_buf = []; last_rx = 5; inbox = []; has_observer = true; observed = [] }

abbrev message : List ℕ
message = 7 ∷ 8 ∷ 9 ∷ []

send_in_two :
    send always 4 message
    ≡ record { result = sent; block_length = 4; chunks = (0 ∷ 3 ∷ 7 ∷ 8 ∷ []) ∷ (9 ∷ []) ∷ [] }
unfolding send
send_in_two = refl

send_lem_example :
    (((send always 4 message).result ≡ sent)
      × (flatten (send always 4 message).chunks ≡ frame message))
    ⊎ (((send always 4 message).result ≡ context_ended)
        ⊎ ((send always 4 message).result ≡ write_failed))
send_lem_example = send_lem always 4 message (omega arith)

abbrev pieces : List (ℕ × List ℕ)
pieces = (6, 0 ∷ []) ∷ (7, 3 ∷ 7 ∷ 8 ∷ []) ∷ (9, 9 ∷ 0 ∷ 1 ∷ []) ∷ (12, 4 ∷ []) ∷ []

rx_all_lem_example :
    ((rx_all 5 pieces idle).rx_buf ≡ [])
    × ((rx_all 5 pieces idle).observed ≡ [] ++ message ∷ (4 ∷ []) ∷ [])
    × ((rx_all 5 pieces idle).inbox ≡ [] ++ take 5 (message ∷ (4 ∷ []) ∷ []))
rx_all_lem_example =
    rx_all_lem 5 5 pieces (message ∷ (4 ∷ []) ∷ []) idle (omega arith) (omega arith) refl refl refl
      refl

abbrev halves : List (ℕ × List ℕ)
halves = (6, 0 ∷ 3 ∷ 7 ∷ []) ∷ (9, 8 ∷ 9 ∷ []) ∷ []

rx_all-send_example :
    ((rx_all 5 halves idle).observed ≡ [] ++ message ∷ [])
    × ((rx_all 5 halves idle).inbox ≡ [] ++ message ∷ [])
rx_all-send_example =
    rx_all-send always 4 message 5 4 halves idle (omega arith) (unfold send in refl)
      (unfold send flatten in refl) (omega arith) (omega arith) refl refl refl
