-- ===== src/Scanner/Adapters.antt =====
-- `detectLocalSubnet` of src/services/NetworkScanner.cpp for Windows: the first address of the first
-- adapter that is not a loopback, whether it is up or not.
use orbis_agent_desktop.Base.{
  ℕ, ◌-◌, ◌*◌, ◌/◌, ◌^◌, List, [], ◌∷◌, ◌++◌, Option, none, some, Text, text, if◌then◌else◌, ◌==◌,
}
use orbis_agent_desktop.Base.Decimal.{nat_to_text}
use orbis_agent_desktop.Scanner.{Inet}

-- An entry of `GetAdaptersAddresses`: its type, and its addresses with the lengths of their prefixes.
record Adapter : Type 0 where
  if_type : ℕ
  addresses : List (ℕ × ℕ)

-- `IF_TYPE_SOFTWARE_LOOPBACK`
abbrev software_loopback : ℕ
software_loopback = 24

-- `ip_n & msk_n`, with the leading `prefix` bits of 32 in the mask.
network_of : ℕ → ℕ → ℕ
network_of ip prefix = if prefix == 0 then 0 else ip / 2 ^ (32 - prefix) * 2 ^ (32 - prefix)

module _ (inet : Inet) where
  -- The return in the inner loop leaves both loops.
  adapter_subnet : List Adapter → Text
  unfolding network_of
  adapter_subnet [] = []
  adapter_subnet (a ∷ later) =
      let rest = adapter_subnet later in
      if a.if_type == software_loopback then rest else elim a.addresses [
        | [] ↦ rest
        | (ip, prefix) ∷ more ↦
            inet.inet_ntop (network_of ip prefix) ++ (text "/" ++ nat_to_text prefix)
      ]

  -- `none` is a failure of the call.
  detect_adapter_subnet : Option (List Adapter) → Text
  unfolding adapter_subnet
  detect_adapter_subnet none = []
  detect_adapter_subnet (some adapters) = adapter_subnet adapters
