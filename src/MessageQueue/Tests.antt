-- ===== src/MessageQueue/Tests.antt =====
-- The theorems about the message queue at small inputs.
use orbis_agent_desktop.Base.{ℕ, [], ◌∷◌, text}
use orbis_agent_desktop.MessageQueue.{Message}
use orbis_agent_desktop.MessageQueue.Fifo.{Inv, run, start, pushes, pops, shuts_down, run-start-Inv}

abbrev note : ℕ → Message
note n = record { topic = text "t"; payload = n ∷ []; received_at = n }

run-start-Inv_example : Inv 2 (
    run
      (start 2)
      (pushes (note 1) ∷ pushes (note 2) ∷ pushes (note 3) ∷ pops ∷ shuts_down ∷ pops ∷ []))
run-start-Inv_example =
    run-start-Inv 2
      (pushes (note 1) ∷ pushes (note 2) ∷ pushes (note 3) ∷ pops ∷ shuts_down ∷ pops ∷ [])
