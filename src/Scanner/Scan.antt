-- ===== src/Scanner/Scan.antt =====
-- `scan` and `pingHost` of src/services/NetworkScanner.cpp, which put the parts together. The tasks that
-- run at the same time are taken in the order of their hosts; the probe of a port with its timeout, the
-- names of hosts, the clock and the publication are parameters.
use orbis_agent_desktop.Base.{
  ℕ, zero, suc, ◌+◌, ◌≤◌, ◌≡◌, refl, sym, ap, Bool, true, false, ◌||◌, List, [], ◌∷◌, Option, none,
  some, Text, text, is_empty, if◌then◌else◌, length, arith, Bool-cases, Option-cases, inl, inr,
  find, take, drop, ltb,
}
use orbis_agent_desktop.Base.Int.{ℤ, pos, negsuc}
use orbis_agent_desktop.Base.Stoi.{stoi}
use orbis_agent_desktop.Json.{JsonLib, Result, ok, err}
use orbis_agent_desktop.Topics.{topic_for, topic_discovery_fmt}
use orbis_agent_desktop.Scanner.{
  Interface, Neighbor, Inet, detect_local_subnet, hosts_from, expand, expand_cidr, parse_ports,
  probe_all, discovery_doc,
}
use mathlib.Core.Option
use mathlib.Core.Bool.{false≢true}

-- What the network answers: whether a port of a host is open within a number of milliseconds.
pub record Network : Type 0 where
  pub interfaces : Option (List Interface)
  pub probe_port : Text → ℤ → ℕ → Bool
  pub response_ms : Text → ℤ
  pub resolve_hostname : Text → Text
  pub stop_requested : ℕ → Bool
  pub now : Text

-- The first of three ports that is open, with the time that it took.
unfoldable pub ping_host : Network → Text → Option ℤ
ping_host net ip =
    if net.probe_port ip (pos 80) 1000
      || net.probe_port ip (pos 443) 1000
      || net.probe_port ip (pos 22) 1000
    then some (net.response_ms ip)
    else none

-- The default of the parameter `timeout_ms` of `probePort`.
abbrev pub default_timeout_ms : ℕ
default_timeout_ms = 500

unfoldable pub neighbors : Inet → Network → List ℤ → List Text → List Neighbor
unfolding ping_host
neighbors inet net ports hosts =
    probe_all inet (ping_host net) net.resolve_hostname
      (λ ip port. net.probe_port ip port default_timeout_ms) net.stop_requested 0 ports hosts

-- The topic and the document that are given to `publish_fn_`, nothing without a network, or the
-- exception.
pub scan : JsonLib → Inet → Network → Text → Text → Result (Option (Text × Text))
unfolding neighbors
scan json inet net device_id port_range =
    let cidr = detect_local_subnet inet net.interfaces in
    if is_empty cidr then ok none else elim (expand_cidr inet cidr) [
      | none ↦ err (text "stoi")
      | some hosts ↦
          let found = neighbors inet net (parse_ports port_range) hosts in
          elim (json.dump (discovery_doc json device_id net.now cidr found)) [
            | err what ↦ err what
            | ok payload ↦ ok (some (topic_for topic_discovery_fmt device_id, payload))
          ]
    ]

is_none : Option (List Text) → Bool
is_none none = true
is_none (some hosts) = false

none≢some : (hosts : List Text) → ◌≡◌ {A = Option (List Text)} none (some hosts) → ⊥
unfolding is_none
none≢some hosts e = false≢true (sym (ap is_none e))

length-probe_all :
    (inet : Inet) (ping : Text → Option ℤ) (resolve : Text → Text) (probe : Text → ℤ → Bool)
    (stop : ℕ → Bool) (n : ℕ) (ports : List ℤ) (ips : List Text)
    → length (probe_all inet ping resolve probe stop n ports ips) ≤ length ips
unfolding probe_all
length-probe_all inet ping resolve probe stop n ports [] = omega arith
length-probe_all inet ping resolve probe stop n ports (ip ∷ ips) =
    let rest = length-probe_all inet ping resolve probe stop (n + 1) ports ips in
    elim (Bool-cases (stop n)) [
      | inl e ↦ rw (e, length) (omega arith)
      | inr e ↦
          rw (e, length)
            (elim (Option-cases (ping ip)) [
              | inl f ↦ rw (f, length) (omega (arith, rest))
              | inr (ms, f) ↦ rw (f, length) (omega (arith, rest))
            ])
    ]

module _ (inet : Inet) where
  length-hosts_from : (net i n : ℕ) → length (hosts_from inet net i n) ≡ n
  unfolding hosts_from
  length-hosts_from net i zero = refl
  length-hosts_from net i (suc n) = omega (arith, length-hosts_from net (i + 1) n)

  length-expand : (net : ℕ) (bits : ℤ) → length (expand inet net bits) ≤ 254
  unfolding expand
  length-expand net (negsuc n) = omega arith
  length-expand net (pos bits) = elim (Bool-cases (ltb bits 16 || ltb 30 bits)) [
    | inl e ↦ rw e (omega arith)
    | inr e ↦ rw e (rw (length-hosts_from net 1 _) (omega arith))
  ]

  length-expand_cidr :
      (cidr : Text) (hosts : List Text) → expand_cidr inet cidr ≡ some hosts → length hosts ≤ 254
  unfolding expand_cidr
  length-expand_cidr cidr hosts e = elim (Option-cases (find (text "/") cidr)) [
    | inl f ↦
        let p : some [] ≡ some hosts = (rw (f, expand_cidr) at e) in
        let q : [] ≡ hosts = cc in rw⁻¹ q (omega arith)
    | inr (slash, f) ↦
        let net = inet.inet_pton (take slash cidr) in
        let p : Option.map (expand inet net) (stoi (drop (slash + 1) cidr)) ≡ some hosts =
          (rw (f, expand_cidr) at e) in
        elim (Option-cases (stoi (drop (slash + 1) cidr))) [
          | inl g ↦
              let q : ◌≡◌ {A = Option (List Text)} none (some hosts) = (rw g at p) in
              absurd (none≢some hosts q)
          | inr (bits, g) ↦
              let q : some (expand inet net bits) ≡ some hosts = (rw g at p) in
              let r : expand inet net bits ≡ hosts = cc in rw⁻¹ r (length-expand net bits)
        ]
  ]

  -- A scan finds at most 254 neighbours, whatever network the text names.
  pub length-neighbors :
      (net : Network) (ports : List ℤ) (cidr : Text) (hosts : List Text)
      → expand_cidr inet cidr ≡ some hosts
      → length (neighbors inet net ports hosts) ≤ 254
  unfolding neighbors
  length-neighbors net ports cidr hosts e = omega (
    arith,
    length-expand_cidr cidr hosts e,
    length-probe_all inet (ping_host net) net.resolve_hostname
        (λ ip port. net.probe_port ip port default_timeout_ms) net.stop_requested 0 ports hosts,
  )
