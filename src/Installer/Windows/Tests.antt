-- ===== src/Installer/Windows/Tests.antt =====
-- The theorems about the Windows service, on a machine that holds the program alone and has the service.
use orbis_agent_desktop.Base.{
  ℕ, ◌≡◌, refl, true, List, [], ◌∷◌, ◌++◌, map, none, some, text, ◌<◌, arith,
}
use orbis_agent_desktop.Installer.Copies.{Keeps}
use orbis_agent_desktop.Installer.Tests.{exec_path, program_only}
use orbis_agent_desktop.Installer.Windows.{
  manager, service, null, Scm, install, register, start, stop, is_running, uninstall, dest_cfg,
  error_service_exists,
}
use orbis_agent_desktop.Installer.Windows.Handles.{Released, all-Released}
use orbis_agent_desktop.Installer.Windows.Kept.{Elsewhere, Done, install-Registered}
use orbis_agent_desktop.Installer.Windows.Status.{
  Process, start_pending, running, stopped, initial, svc_main, summary, svc_main_lem, count_stops,
  stops, stop_pendings,
}

abbrev scm : Scm
scm = record {
  manager_opens = true;
  create_error = some error_service_exists;
  service_opens = true;
  start_error = λ h. elim h [ manager ↦ none | service ↦ none | null ↦ some 6 ];
  delete_works = true;
  manager_reopens = true;
  service_reopens = true;
  stop_works = true;
  running = true;
}

all-Released_example :
    Released (register scm).1
    × Released (start scm).1
    × Released (stop scm).1
    × Released (is_running scm).1
    × Released (uninstall scm).1
all-Released_example = all-Released scm (λ h. refl)

install-Registered_example :
    let r = install scm program_only exec_path (text "/none") none none in
    Keeps Elsewhere dest_cfg program_only r.files
    × (r.ok ≡ true → Done scm program_only exec_path r)
install-Registered_example =
    install-Registered scm program_only exec_path (text "/none") none none refl

-- A pause, which is ignored, and a stop.
abbrev ctrls : List ℕ
ctrls = 2 ∷ 1 ∷ []

svc_main_lem_example :
    (count_stops ctrls ≡ 0 → svc_main true true initial ctrls ≡ none)
    × (0 < count_stops ctrls
        → (p : Process) × (svc_main true true initial ctrls ≡ some p)
          × (map summary p.reported
              ≡ (start_pending, 1)
                ∷ (running, 0)
                ∷ (stop_pendings (count_stops ctrls) 2 ++ (stopped, 0) ∷ [])))
unfolding count_stops stops
svc_main_lem_example = svc_main_lem ctrls (omega arith)
