-- ===== src/Executor/Worker/Tests.antt =====
-- Two commands that arrive while the worker waits.
use orbis_agent_desktop.Base.{
  ◌+◌, ◌-◌, ◌*◌, ◌≡◌, ◌≤◌, refl, false, List, [], ◌∷◌, ◌++◌, Text, text, length, arith,
}
use orbis_agent_desktop.Executor.Inbox.{process_command}
use orbis_agent_desktop.Executor.Worker.{
  Event, command, stop, work, started, woken, take_front, work_at, step, run,
}
use orbis_agent_desktop.Executor.Worker.Order.{Inv, run-started-Inv}
use orbis_agent_desktop.Executor.Worker.Liveness.{turns, run-executes}

abbrev past : List Event
past = work ∷ command (text "a") ∷ work ∷ command (text "b") ∷ []

abbrev future : List Event
future = work ∷ work ∷ command (text "c") ∷ work ∷ work ∷ work ∷ work ∷ work ∷ []

run-started-Inv_example : Inv (run started (past ++ future ++ stop ∷ []))
run-started-Inv_example = run-started-Inv (past ++ future ++ stop ∷ [])

not_stopped : (run started past).stop_requested ≡ false
unfolding run step work_at woken take_front started process_command
not_stopped = refl

in_time :
    2 * (length (run started past).accepted - length (run started past).executed) + 3 ≤ turns future
unfolding run step work_at woken take_front started process_command
in_time = omega arith

run-executes_example :
    (more : List Text) × ((run (run started past) future).executed
      ≡ (run started past).accepted ++ more)
run-executes_example =
    run-executes past future (refl, (refl, (refl, (refl, (refl, (refl, (refl, (refl, tt))))))))
      not_stopped in_time
