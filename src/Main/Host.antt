-- ===== src/Main/Host.antt =====
-- The facts of the host in the registration, and the sinks of the log, of src/main.cpp. For Linux the
-- version of the system is read with the code of the heartbeat.
use orbis_agent_desktop.Base.{
  ℕ, ◌*◌, Bool, List, [], ◌∷◌, ◌++◌, Option, none, some, Text, text, if◌then◌else◌, ◌==◌,
}
use orbis_agent_desktop.Base.Files.{Files}
use orbis_agent_desktop.Heartbeat.Linux as Linux

data Platform : Type 0 where
  linux mac_os windows : Platform

get_platform : Platform → Text
get_platform windows = text "windows"
get_platform mac_os = text "macos"
get_platform linux = text "linux"

-- From the files, for Linux, and `kern.osproductversion`, for macOS.
get_os_version : Platform → Files → Text → Text
get_os_version linux fs product_version = Linux.get_os_version fs
get_os_version mac_os fs product_version = text "macOS " ++ product_version
get_os_version windows fs product_version = text "Windows"

-- From `wProcessorArchitecture`, for Windows, and the machine of `uname`.
get_architecture : Platform → ℕ → Text → Text
get_architecture windows architecture machine =
    if architecture == 9
    then text "x86_64"
    else if architecture == 12
    then text "arm64"
    else text "x86"
get_architecture linux architecture machine = machine
get_architecture mac_os architecture machine = machine

data Sink : Type 0 where
  -- A rotating file, with the bytes and the number of its files.
  rotating_file : Text → ℕ → ℕ → Sink
  stdout_color : Sink

-- The sinks of the logger, and the fault that is told on the standard error: an exception of the file's
-- sink leaves it out.
init_logging : Option Text → Text → Bool → List Sink × Option Text
init_logging fault log_file foreground =
    let console = if foreground then stdout_color ∷ [] else [] in
    elim fault [
      | none ↦ (rotating_file log_file (10 * 1024 * 1024) 3 ∷ console, none)
      | some what ↦ (console, some what)
    ]
