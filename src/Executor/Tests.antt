-- ===== src/Executor/Tests.antt =====
-- A small JSON library to apply the theorems about the executor with: a value is a text, an object
-- the texts of its fields, every key of a text reads as the text, and byte 255 cannot be written.
use orbis_agent_desktop.Base.{
  ◌≡◌, ◌≢◌, refl, ◌⊎◌, Bool, true, false, ◌||◌, ◌==◌, List, [], ◌∷◌, ◌++◌, Text, text, is_empty,
  none,
}
use orbis_agent_desktop.Base.Int.{pos, negsuc}
use orbis_agent_desktop.Json.{JsonLib, ok, AlwaysDumps}
use orbis_agent_desktop.Topics.{topic_for, topic_commands_fmt, device_topic}
use orbis_agent_desktop.Executor.{Env, runs, exited, execute_command, run_shell}
use orbis_agent_desktop.Executor.Lifecycle.{Lifecycle, execute_command-Lifecycle}
use orbis_agent_desktop.Executor.Shell.{IsLate, run_shell_timeout}
use orbis_agent_desktop.Executor.Inbox.{on_message, on_message-routes}

abbrev join : List (Text × Text) → Text
join [] = []
join ((key, value) ∷ fields) = value ++ join fields

abbrev flatten : List Text → Text
flatten [] = []
flatten (t ∷ ts) = t ++ flatten ts

abbrev not_utf8 : Text → Bool
not_utf8 [] = false
not_utf8 (c ∷ cs) = c == 255 || not_utf8 cs

abbrev pub lenient : JsonLib
lenient = record {
  Value = Text;
  parse = λ s. ok s;
  value_text = λ v key default. ok v;
  value_int = λ v key default. ok default;
  value_json = λ v key default. ok v;
  elements = λ v. none;
  member = λ v key. none;
  null = [];
  of_text = λ s. s;
  of_int = λ z. [];
  object = join;
  array = flatten;
  dump = λ v. ok v;
}

pub lenient-AlwaysDumps : AlwaysDumps lenient
lenient-AlwaysDumps = record { dumped = λ v. v; dump_ok = λ v. refl }

abbrev env : Env lenient
env = record {
  device_id = 100 ∷ [];
  now = λ n. n ∷ [];
  process = λ command. runs 2 (104 ∷ 105 ∷ []) (exited 0);
  log_collector = true;
  network_scanner = false;
  update_manager = true;
}

execute_command-Lifecycle_example :
    ((execute_command lenient env (text "collect_now") 0).result ≡ ok tt)
    × Lifecycle lenient env lenient-AlwaysDumps
        (text "collect_now")
        (execute_command lenient env (text "collect_now") 0).actions
execute_command-Lifecycle_example =
    execute_command-Lifecycle lenient env lenient-AlwaysDumps (text "collect_now")
      (text "collect_now") (text "collect_now") refl refl (unfold text in refl) 0

run_shell_timeout_example :
    let r = run_shell (runs 90 (104 ∷ []) (exited 0)) (pos 30) in
    (r.1 ≡ 90)
    × ((IsLate 90 (pos 30)
          × (r.0.exit_code ≡ negsuc 0)
          × (r.0.output ≡ [])
          × (is_empty r.0.error ≡ false))
        ⊎ ((IsLate 90 (pos 30) → ⊥)
            × (r.0.exit_code ≡ pos 0)
            × (r.0.output ≡ 104 ∷ [])
            × (r.0.error ≡ [])))
run_shell_timeout_example = run_shell_timeout 90 (pos 30) (104 ∷ []) (exited 0)

on_message-routes_example :
    (((topic_for topic_commands_fmt (100 ∷ []) ≡ device_topic (100 ∷ []) (text "/commands"))
        ⊎ (topic_for topic_commands_fmt (100 ∷ []) ≡ device_topic (100 ∷ []) (text "/update")))
      × (on_message (100 ∷ []) [] (topic_for topic_commands_fmt (100 ∷ [])) (1 ∷ [])
          ≡ (1 ∷ []) ∷ []))
    ⊎ ((topic_for topic_commands_fmt (100 ∷ []) ≢ device_topic (100 ∷ []) (text "/commands"))
        × (topic_for topic_commands_fmt (100 ∷ []) ≢ device_topic (100 ∷ []) (text "/update"))
        × (on_message (100 ∷ []) [] (topic_for topic_commands_fmt (100 ∷ [])) (1 ∷ []) ≡ []))
on_message-routes_example =
    on_message-routes (100 ∷ []) (topic_for topic_commands_fmt (100 ∷ [])) (1 ∷ []) []
