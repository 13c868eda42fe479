-- ===== src/Scanner/Probe.antt =====
-- `probePort` and `resolveHostname` of src/services/NetworkScanner.cpp over the calls of the sockets, and
-- what the scan takes for an open port. The calls that make the socket non-blocking and start the
-- connection are part of what `select` then sees. The law of `select` is that of Linux.
use orbis_agent_desktop.Base.{
  ℕ, ◌+◌, ◌-◌, ◌*◌, ◌%◌, ◌<◌, ◌≡◌, refl, Bool, true, false, List, [], ◌∷◌, Option, none, some, Text,
  if◌then◌else◌, All, keep, arith, leb,
}
use orbis_agent_desktop.Base.Int.{ℤ, pos, negsuc}
use orbis_agent_desktop.Scanner.{Interface, Inet, probe_all}
use orbis_agent_desktop.Scanner.Scan.{Network, neighbors, ping_host, default_timeout_ms}

pub record Sockets : Type 0 where
  -- Whether `socket` gives a descriptor.
  pub opens : Text → ℤ → Bool
  -- What `select` returns for a connection to the port of 16 bits, within microseconds.
  pub select : Text → ℕ → ℕ → ℤ
  -- The name that `getnameinfo` finds.
  pub getnameinfo : Text → Option Text

-- `static_cast<uint16_t>`
pub to_uint16 : ℤ → ℕ
to_uint16 (pos n) = n % 65536
to_uint16 (negsuc n) = 65535 - n % 65536

abbrev is_positive : ℤ → Bool
is_positive (pos n) = leb 1 n
is_positive (negsuc n) = false

pub probe_port : Sockets → Text → ℤ → ℕ → Bool
unfolding to_uint16
probe_port s ip port timeout_ms =
    if s.opens ip port
    then is_positive (s.select ip (to_uint16 port) (timeout_ms * 1000))
    else false

pub resolve_hostname : Sockets → Text → Text
resolve_hostname s ip = elim (s.getnameinfo ip) [ none ↦ [] | some host ↦ host ]

-- The network of a scan, as the sockets show it.
pub over_sockets : Sockets → Option (List Interface) → (Text → ℤ) → (ℕ → Bool) → Text → Network
unfolding probe_port resolve_hostname
over_sockets s interfaces response_ms stop_requested now = record {
  interfaces = interfaces;
  probe_port = probe_port s;
  response_ms = response_ms;
  resolve_hostname = resolve_hostname s;
  stop_requested = stop_requested;
  now = now;
}

-- What a host does with a connection: it accepts or refuses it after microseconds.
pub data Answer : Type 0 where
  accepted refused : ℕ → Answer

abbrev pub after_us : Answer → ℕ
after_us (accepted t) = t
after_us (refused t) = t

-- Linux: `select` gives a socket as writable once its connection is made, and also once it has failed.
-- Its timeout is normalised: a `tv_usec` of 1,000,000 or more, which POSIX lets it refuse, counts as
-- the same time in seconds.
pub record LinuxSelect (s : Sockets) (answers : Text → ℕ → Option Answer) : Type 0 where
  pub answered :
      (ip : Text) (port us : ℕ) (a : Answer)
      → answers ip port ≡ some a
      → after_us a < us
      → s.select ip port us ≡ pos 1

module _ (s : Sockets) (answers : Text → ℕ → Option Answer) (law : LinuxSelect s answers) where
  -- The host refuses a connection to the port, in time.
  abbrev pub Refuses : Text → ℤ → Type 0
  Refuses ip port =
      (t : ℕ) × (answers ip (to_uint16 port) ≡ some (refused t))
      × (t < 500000)
      × (s.opens ip port ≡ true)

  probe_port-refused :
      (ip : Text) (port : ℤ) (timeout_ms : ℕ)
      → 500000 < timeout_ms * 1000 + 1
      → Refuses ip port
      → probe_port s ip port timeout_ms ≡ true
  unfolding probe_port
  probe_port-refused ip port timeout_ms h (t, e, early, opened) = rw opened (
      rw
        (law.answered ip (to_uint16 port) (timeout_ms * 1000) (refused t) e
          (omega (arith, early, h)))
        refl)

  keep_all :
      (ip : Text) (ports : List ℤ)
      → All (Refuses ip) ports
      → keep (λ port. probe_port s ip port default_timeout_ms) ports ≡ ports
  keep_all ip [] h = refl
  keep_all ip (port ∷ ports) h =
      rw (probe_port-refused ip port default_timeout_ms (omega arith) h.0)
        (rw (keep_all ip ports h.1) refl)

  -- Where `select` tells of connections as on Linux, which takes a `tv_usec` of 1,000,000 or more too:
  -- a host that refuses every connection, in time, is reported as a neighbour with every port of the
  -- scan open.
  pub neighbors-refused :
      (inet : Inet) (interfaces : Option (List Interface)) (response_ms : Text → ℤ) (now ip : Text)
      (ports : List ℤ)
      → Refuses ip (pos 80)
      → All (Refuses ip) ports
      → neighbors inet (over_sockets s interfaces response_ms (λ n. false) now) ports (ip ∷ [])
        ≡ record {
          ip = ip;
          hostname = resolve_hostname s ip;
          open_ports = ports;
          response_time_ms = response_ms ip;
        }
          ∷ []
  unfolding neighbors over_sockets ping_host probe_all
  neighbors-refused inet interfaces response_ms now ip ports web all =
      let up = probe_port-refused ip (pos 80) 1000 (omega arith) web in
      rw up (rw (keep_all ip ports all) refl)
