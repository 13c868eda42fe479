-- ===== src/Executor/Shell.antt =====
-- The shell of the executor: timeouts, the size of a result, and output that is not text.
use orbis_agent_desktop.Base.{
  ℕ, ◌+◌, ◌≤◌, ◌<◌, ◌≡◌, refl, inl, inr, false, [], ◌∷◌, ◌++◌, Text, text, is_empty, length, take,
  arith, ltb, length-append, length-take, Bool-cases, take-append, ltb→lt, ◌⊎◌,
}
use orbis_agent_desktop.Base.Int.{ℤ, pos, negsuc}
use orbis_agent_desktop.Json.{JsonLib, ok, err}
use orbis_agent_desktop.Topics.{topic_for, topic_results_fmt}
use orbis_agent_desktop.Executor.Effects.{publish}
use orbis_agent_desktop.Executor.{
  Env, runs, run_shell, exit_code_of, wait_for, returned, joined, exited, signalled, truncated,
  command_output_max_bytes, handle_shell, shell_command, publish_result, result_doc, statut_of,
  nothing, WaitStatus,
}

-- A command that is still running at its timeout; a negative timeout is over at once.
abbrev pub IsLate : ℕ → ℤ → Type 0
IsLate seconds (pos timeout) = timeout < seconds
IsLate seconds (negsuc n) = Unit {0}

-- Whatever the timeout, the call returns when the command ends, neither before nor after: the timeout
-- does not bound it. The result is that of a command that is late, with the exit code -1, an error and no
-- output, or that of the command, with its exit code or -1 for a signal, and its output.
pub run_shell_timeout :
    (seconds : ℕ) (timeout : ℤ) (output : Text) (status : WaitStatus)
    → let r = run_shell (runs seconds output status) timeout in
      (r.1 ≡ seconds)
      × ((IsLate seconds timeout
            × (r.0.exit_code ≡ negsuc 0)
            × (r.0.output ≡ [])
            × (is_empty r.0.error ≡ false))
          ⊎ ((IsLate seconds timeout → ⊥)
              × (r.0.exit_code ≡ elim status [ exited code ↦ pos code | signalled ↦ negsuc 0 ])
              × (r.0.output ≡ output)
              × (r.0.error ≡ [])))
unfolding run_shell wait_for returned joined exit_code_of text
run_shell_timeout seconds (negsuc n) output status = (omega arith, inl (tt, refl, refl, refl))
run_shell_timeout seconds (pos timeout) output status = elim (Bool-cases (ltb timeout seconds)) [
  | inl e ↦
      let late : timeout < seconds = ltb→lt timeout seconds e in
      rw e (omega (arith, late), inl (late, refl, refl, refl))
  | inr e ↦
      let in_time : timeout < seconds → ⊥ = λ h. ground (arith, e, h) in
      rw e (omega arith, inr (in_time, ended status, refl, refl))
]
  where
    ended :
        (s : WaitStatus) → exit_code_of s ≡ elim s [ exited code ↦ pos code | signalled ↦ negsuc 0 ]
    ended (exited n) = refl
    ended signalled = refl

take_cut :
    (n : ℕ) (output mark : Text)
    → n < length output
    → take n (take n output ++ mark) ≡ take n output
take_cut n output mark h = take-append n (take n output) mark (omega (arith, length-take n output))

length_cut :
    (n : ℕ) (output mark : Text)
    → n < length output
    → length (take n output ++ mark) ≡ n + length mark
length_cut n output mark h = omega (arith, length-append (take n output) mark, length-take n output)

-- Output of up to 65,536 bytes stands in a result as it is; of longer output the result has the first
-- 65,536 bytes and a mark of 12.
truncated_lem :
    (output : Text)
    → ((length output ≤ command_output_max_bytes) × (truncated output ≡ output))
      ⊎ ((command_output_max_bytes < length output)
          × (length (truncated output) ≡ command_output_max_bytes + 12)
          × (take command_output_max_bytes (truncated output)
              ≡ take command_output_max_bytes output))
unfolding truncated text
truncated_lem output = elim (Bool-cases (ltb command_output_max_bytes (length output))) [
  | inl e ↦
      let longer = ltb→lt _ _ e in
      inr (
        longer,
        rw e (length_cut command_output_max_bytes output _ longer),
        rw e (take_cut command_output_max_bytes output _ longer),
      )
  | inr e ↦ inl (ground (arith, e), rw e refl)
]

module _ (json : JsonLib) (env : Env json) where
  abbrev result_topic : Text
  result_topic = topic_for topic_results_fmt env.device_id

  -- Where a command is not empty and the report that it runs can be written, a result that cannot
  -- be written as JSON, such as one whose output is no UTF-8 or was cut within a character, is not
  -- published: the handler throws after the command ran.
  handle_shell_undumpable :
      (id payload running what : Text) (timeout : ℤ) (n : ℕ)
      → let command = shell_command json env payload in
        let r = (run_shell (env.process command) timeout).0 in
        is_empty command ≡ false
        → json.dump (result_doc json env id (text "executing") [] [] nothing (env.now n))
          ≡ ok running
        → json.dump (
            result_doc json env id
              (statut_of r.exit_code)
              (truncated r.output)
              r.error
              r.exit_code
              (env.now (n + 1)))
          ≡ err what
        → let o = handle_shell json env id payload timeout n in
          (o.result ≡ err what) × (o.actions ≡ publish result_topic running ∷ [])
  unfolding handle_shell publish_result
  handle_shell_undumpable id payload running what timeout n e p q = rw e (rw p (rw q (refl, refl)))
