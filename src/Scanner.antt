-- ===== src/Scanner.antt =====
-- src/services/NetworkScanner.cpp: the local network, its hosts and ports, and the document of a scan,
-- for POSIX. What the system says of interfaces and hosts is a parameter, and so are `inet_ntop`
-- and `inet_pton`; an address is its 32-bit number in host order.
pub mod Cidr
pub mod Scan
pub mod Probe
pub mod Adapters
pub mod Tests
use orbis_agent_desktop.Base.{
  ℕ, zero, suc, ◌+◌, ◌-◌, ◌*◌, ◌^◌, ◌%◌, min, Bool, true, false, ◌||◌, List, [], ◌∷◌, ◌++◌, map,
  Option, none, some, Text, text, text_eq, find, is_empty, if◌then◌else◌, take, drop, keep, leb,
  ltb, ◌==◌,
}
use orbis_agent_desktop.Base.Int.{ℤ, pos, negsuc}
use orbis_agent_desktop.Base.Decimal.{nat_to_text}
use orbis_agent_desktop.Base.Stoi.{stoi}
use orbis_agent_desktop.Json.{JsonLib, Result, ok, err}
use orbis_agent_desktop.Topics.{topic_for, topic_discovery_fmt}
use mathlib.Core.Option
use Prim.Native.Nat.{bit_and}

-- An entry of `getifaddrs`; `ipv4` is its address and mask where it has an IPv4 address.
pub record Interface : Type 0 where
  pub name : Text
  pub ipv4 : Option (ℕ × ℕ)

pub record Neighbor : Type 0 where
  pub ip : Text
  pub hostname : Text
  pub open_ports : List ℤ
  pub response_time_ms : ℤ

-- The loop over the leading ones of a mask, on fuel; 32 turns leave no bit.
pub prefix_bits : ℕ → ℕ → Option ℕ
prefix_bits zero m = none
prefix_bits (suc fuel) m =
    let rest = prefix_bits fuel (m * 2 % 2 ^ 32) in
    if bit_and m 0x80000000 == 0 then some 0 else Option.map suc rest

-- `std::getline` with a comma: a comma at the end opens no token.
tokens : Text → Text → List Text
tokens token [] = token ∷ []
tokens token (c ∷ s) =
    let more = tokens [] s in
    let longer = tokens (token ++ c ∷ []) s in
    if c == b',' then token ∷ (if is_empty s then [] else more) else longer

split : Text → List Text
unfolding tokens
split [] = []
split (c ∷ s) = tokens [] (c ∷ s)

numbers : List Text → List ℤ
numbers [] = []
numbers (t ∷ ts) = elim (stoi t) [ none ↦ numbers ts | some n ↦ n ∷ numbers ts ]

pub parse_ports : Text → List ℤ
unfolding split numbers
parse_ports range = numbers (split range)

-- The system's functions on addresses: `inet_pton` gives what `net_n` then holds.
pub record Inet : Type 0 where
  pub inet_ntop : ℕ → Text
  pub inet_pton : Text → ℕ

module _ (inet : Inet) where
  subnet : ℕ → ℕ → Option ℕ → Text
  subnet address mask none = []
  subnet address mask (some bits) =
      inet.inet_ntop (bit_and address mask) ++ (text "/" ++ nat_to_text bits)

  -- `none` is a failure of `getifaddrs`; an empty text is no network.
  pub first_subnet : List Interface → Text
  unfolding prefix_bits subnet
  first_subnet [] = []
  first_subnet (i ∷ is) = elim i.ipv4 [
    | none ↦ first_subnet is
    | some (address, mask) ↦
        if text_eq i.name (text "lo")
        then first_subnet is
        else subnet address mask (prefix_bits 33 mask)
  ]

  pub detect_local_subnet : Option (List Interface) → Text
  unfolding first_subnet
  detect_local_subnet none = []
  detect_local_subnet (some interfaces) = first_subnet interfaces

  -- The loop over `i` up to `count`; the sum wraps.
  pub hosts_from : ℕ → ℕ → ℕ → List Text
  hosts_from net i zero = []
  hosts_from net i (suc n) = inet.inet_ntop ((net + i) % 2 ^ 32) ∷ hosts_from net (i + 1) n

  -- The hosts of a prefix that is given as a number.
  expand : ℕ → ℤ → List Text
  unfolding hosts_from
  expand net (negsuc n) = []
  expand net (pos bits) =
      if ltb bits 16 || ltb 30 bits then [] else hosts_from net 1 (min (2 ^ (32 - bits) - 2) 254)

  -- `none` is the exception of `std::stoi`.
  pub expand_cidr : Text → Option (List Text)
  unfolding expand
  expand_cidr cidr = elim (find (text "/") cidr) [
    | none ↦ some []
    | some slash ↦
        Option.map (expand (inet.inet_pton (take slash cidr))) (stoi (drop (slash + 1) cidr))
  ]

  -- What the probes of a host find: its name, and the time of its answer if it answers.
  module _ (ping_host : Text → Option ℤ) (resolve_hostname : Text → Text)
      (probe_port : Text → ℤ → Bool) where
    -- The loop that starts the tasks: `stop_requested n` is the flag before the n-th host.
    unfoldable pub probe_all : (ℕ → Bool) → ℕ → List ℤ → List Text → List Neighbor
    probe_all stop_requested n ports [] = []
    probe_all stop_requested n ports (ip ∷ ips) =
        let rest = probe_all stop_requested (n + 1) ports ips in
        let found : List Neighbor = elim (ping_host ip) [
          | none ↦ rest
          | some resp_ms ↦
              record {
                ip = ip;
                hostname = resolve_hostname ip;
                open_ports = keep (probe_port ip) ports;
                response_time_ms = resp_ms;
              }
              ∷ rest
        ] in
        if stop_requested n then [] else found

module _ (json : JsonLib) where
  neighbor_doc : Neighbor → json.Value
  neighbor_doc n = json.object (
      (text "ip", json.of_text n.ip)
      ∷ (text "hostname", json.of_text n.hostname)
      ∷ (text "open_ports", json.array (map json.of_int n.open_ports))
      ∷ (text "response_time_ms", json.of_int n.response_time_ms)
      ∷ [])

  pub discovery_doc : Text → Text → Text → List Neighbor → json.Value
  unfolding neighbor_doc
  discovery_doc device_id timestamp network neighbors = json.object (
      (text "device_id", json.of_text device_id)
      ∷ (text "timestamp", json.of_text timestamp)
      ∷ (text "network", json.of_text network)
      ∷ (text "neighbors", json.array (map neighbor_doc neighbors))
      ∷ [])
