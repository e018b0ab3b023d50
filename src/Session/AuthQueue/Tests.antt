-- ===== src/Session/AuthQueue/Tests.antt =====
-- The theorem on the queue applied to three datagrams in a channel for two.
use electric_eel.Base.{refl, arith, List, [], ◌∷◌}
use electric_eel.Session.AuthQueue.{Op, enqueue, take_one, steps}
use electric_eel.Session.AuthQueue.Refine.{Log, Runs, Refines, steps-Refines}

abbrev burst : List Op
burst = enqueue (1 ∷ []) 0 0 ∷ enqueue (2 ∷ []) 0 0 ∷ enqueue (3 ∷ []) 1 0 ∷ take_one ∷ []

abbrev empty_log : Log
empty_log = record { sent = []; gone = 0 }

steps-Refines_example : (log' : Log) × Runs burst empty_log log' × Refines 2 (steps 2 burst []) log'
steps-Refines_example =
    steps-Refines 2 burst [] empty_log (omega arith) (refl, omega arith, omega arith)
