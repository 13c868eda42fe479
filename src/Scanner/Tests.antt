-- ===== src/Scanner/Tests.antt =====
-- The hosts of 192.168.1.0/24, with addresses written as one character above the digits, and a host
-- that refuses every connection after a thousandth of a second.
use orbis_agent_desktop.Base.{
  ℕ, ◌+◌, ◌-◌, ◌^◌, min, ◌≡◌, refl, List, [], ◌∷◌, some, Text, text, text_eq, length, All, arith,
  true, Option, none, false,
}
use orbis_agent_desktop.Scanner.{Inet, Interface, detect_local_subnet, expand_cidr, pos}
use orbis_agent_desktop.Scanner.Cidr.{InetLaws, Distinct, IsHost, mask_of, expand_cidr-first_subnet}
use orbis_agent_desktop.Scanner.Probe.{
  resolve_hostname, Sockets, refused, Answer, LinuxSelect, over_sockets, neighbors-refused,
}
use orbis_agent_desktop.Scanner.Scan.{neighbors}
use Prim.Native.Nat.{bit_and}

abbrev write : ℕ → Text
write n = (n + 48) ∷ []

abbrev read : Text → ℕ
read [] = 0
read (c ∷ s) = c - 48

abbrev one_character : Inet
one_character = record { inet_ntop = write; inet_pton = read }

one_character-InetLaws : InetLaws one_character
one_character-InetLaws = record {
  no_slash = λ n. (ground arith, tt);
  reads_back = λ n h. omega arith;
}

abbrev ethernet : Interface
ethernet = record { name = text "eth0"; ipv4 = some (3232235786, mask_of 24) }

expand_cidr-first_subnet_example :
    (hosts : List Text) × (expand_cidr one_character
        (detect_local_subnet one_character (some (ethernet ∷ [])))
      ≡ some hosts)
    × (length hosts ≡ min (2 ^ (32 - 24) - 2) 254)
    × All (IsHost one_character (bit_and 3232235786 (mask_of 24)) 24) hosts
    × Distinct hosts
expand_cidr-first_subnet_example =
    expand_cidr-first_subnet one_character one_character-InetLaws ethernet [] 3232235786 24
      (unfold text text_eq in refl) refl (omega arith) (omega arith) (omega arith)

-- A connection takes 1000 microseconds, and nothing else happens to a socket.
abbrev refusing : Sockets
refusing = record {
  opens = λ ip port. true;
  select = λ ip port us. pos 1;
  getnameinfo = λ ip. none;
}

abbrev refuses : Text → ℕ → Option Answer
refuses ip port = some (refused 1000)

refusing-LinuxSelect : LinuxSelect refusing refuses
refusing-LinuxSelect = record { answered = λ ip port us a e early. refl }

neighbors-refused_example :
    neighbors one_character
      (over_sockets refusing none (λ ip. pos 1) (λ n. false) (text "now"))
      (pos 22 ∷ pos 80 ∷ [])
      (text "h" ∷ [])
    ≡ record {
      ip = text "h";
      hostname = resolve_hostname refusing (text "h");
      open_ports = pos 22 ∷ pos 80 ∷ [];
      response_time_ms = pos 1;
    }
      ∷ []
neighbors-refused_example =
    neighbors-refused refusing refuses refusing-LinuxSelect one_character none (λ ip. pos 1)
      (text "now") (text "h") (pos 22 ∷ pos 80 ∷ []) (1000, refl, omega arith, refl)
      ((1000, refl, omega arith, refl), ((1000, refl, omega arith, refl), tt))
