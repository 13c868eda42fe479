-- ===== src/Executor/Windows.antt =====
-- `runShell` of src/services/CommandExecutor.cpp for Windows. What the system does with the command line
-- within the time is a parameter.
use orbis_agent_desktop.Base.{
  ℕ, ◌-◌, ◌*◌, ◌%◌, ◌^◌, ◌<◌, ◌≡◌, refl, true, false, List, [], ◌∷◌, ◌++◌, Option, none, some, Text,
  text, c_string, if◌then◌else◌, ◌==◌, ltb, All, arith, is_empty, ap, flatten, sym, append-nil, ◌∙◌,
  append_assoc,
}
use orbis_agent_desktop.Base.Int.{ℤ, pos, negsuc, sub_ℕ}
use orbis_agent_desktop.Executor.{ShellResult}

-- How the wait for the process ends: within the time, with its code, or after it.
data Waited : Type 0 where
  signalled : ℕ → Waited
  timed_out : Waited

-- What a process leaves: how the wait for it ended, and what each `ReadFile` gives after that.
record Ran : Type 0 where
  waited : Waited
  reads : List Text

-- `none` is a failure of `CreateProcessA`; the wait is in milliseconds.
abbrev System : Type 0
System = Text → ℕ → Option Ran

-- `static_cast<DWORD>(timeout_sec) * 1000`
wait_ms : ℤ → ℕ
wait_ms (pos n) = n * 1000 % 2 ^ 32
wait_ms (negsuc n) = (2 ^ 32 - 1 - n % 2 ^ 32) * 1000 % 2 ^ 32

-- `static_cast<int>` of a `DWORD`
to_int : ℕ → ℤ
to_int n = if ltb n (2 ^ 31) then pos n else sub_ℕ n (2 ^ 32)

-- The loop over `ReadFile`, which adds its bytes as a text of C: a read of no bytes ends it.
read_output : Text → List Text → Text
unfolding c_string
read_output output [] = output
read_output output ([] ∷ reads) = output
read_output output ((c ∷ cs) ∷ reads) = read_output (output ++ c_string (c ∷ cs)) reads

after_wait : Waited → Text → ShellResult
unfolding to_int
after_wait (signalled code) output = record { exit_code = to_int code; output = output; error = [] }
after_wait timed_out output = record {
  exit_code = negsuc 0;
  output = output;
  error = text "Command timed out";
}

run_shell : System → Text → ℤ → ShellResult
unfolding wait_ms read_output after_wait
run_shell system command timeout_sec =
    elim (system (text "cmd.exe /c " ++ command) (wait_ms timeout_sec)) [
      | none ↦ record { exit_code = negsuc 0; output = []; error = text "CreateProcess failed" }
      | some ran ↦ after_wait ran.waited (read_output [] ran.reads)
    ]

-- What a `ReadFile` gives of a text: some bytes, none of them 0.
abbrev Plain : Text → Type 0
Plain r = (is_empty r ≡ false) × All (λ c. 0 < c) r

c_string-plain : (s : Text) → All (λ c. 0 < c) s → c_string s ≡ s
unfolding c_string
c_string-plain [] h = refl
c_string-plain (c ∷ cs) h =
    let nonzero : (c == 0) ≡ false = ground (arith, h.0) in
    rw nonzero (ap (λ t. c ∷ t) (c_string-plain cs h.1))

read_output-Plain :
    (reads : List Text) (output : Text)
    → All Plain reads
    → read_output output reads ≡ output ++ flatten reads
unfolding read_output c_string
read_output-Plain [] output h = sym (append-nil output)
read_output-Plain ([] ∷ reads) output h = ground (arith, h.0.0)
read_output-Plain ((c ∷ cs) ∷ reads) output h =
    let whole = c_string-plain (c ∷ cs) h.0.1 in
    ap (λ t. read_output (output ++ t) reads) whole
    ∙ read_output-Plain reads (output ++ c ∷ cs) h.1
    ∙ append_assoc output (c ∷ cs) (flatten reads)

-- A command that ends within its time, of up to 4,294,967 seconds, with a code below 2^31, and whose
-- output has no byte 0: the result is its code and its whole output, without an error.
run_shell-ended :
    (system : System) (command : Text) (timeout code : ℕ) (reads : List Text)
    → timeout * 1000 < 2 ^ 32
    → code < 2 ^ 31
    → All Plain reads
    → system (text "cmd.exe /c " ++ command) (timeout * 1000)
      ≡ some (record { waited = signalled code; reads = reads })
    → run_shell system command (pos timeout)
      ≡ record { exit_code = pos code; output = flatten reads; error = [] }
unfolding run_shell
run_shell-ended system command timeout code reads h k plain e =
    let exact : timeout * 1000 % 2 ^ 32 ≡ timeout * 1000 = omega (arith, h) in
    let small : ltb code (2 ^ 31) ≡ true = ground (arith, k) in
    rw (exact, run_shell) (rw e (rw small (rw (read_output-Plain reads [] plain) refl)))
