-- ===== src/Heartbeat/MacOs.antt =====
-- The measurements of src/services/HeartbeatService.cpp for macOS: what its calls answer is given, and a
-- percentage of a `double` is kept as the fraction that it is computed from.
use orbis_agent_desktop.Base.{
  ℕ, ◌+◌, ◌*◌, ◌/◌, ◌%◌, ◌^◌, ◌≤◌, ◌<◌, ◌≡◌, refl, Bool, false, not, ◌&&◌, ◌||◌, List, [], ◌∷◌,
  ◌++◌, Option, none, some, Text, text, if◌then◌else◌, ◌==◌, ltb, arith, Bool-cases, inl, inr, All,
  ltb→lt, Option-cases,
}
use native.Mathlib.Nat.{div-le_of_le-mul}
use orbis_agent_desktop.Base.Int.{ℤ, pos, negsuc, sub_ℕ}
use orbis_agent_desktop.Heartbeat.Linux.{Percent, zero_percent, without, delta}

-- The ticks of a processor.
pub record CpuTicks : Type 0 where
  pub user : ℕ
  pub system : ℕ
  pub idle : ℕ
  pub nice : ℕ

-- The loop over the processors, on `uint64_t`: the busy and the total ticks.
sample : ℕ → ℕ → List CpuTicks → ℕ × ℕ
sample busy total [] = (busy, total)
sample busy total (load ∷ loads) =
    let used = load.user + load.system + load.nice in
    sample ((busy + used) % 2 ^ 64) ((total + used + load.idle) % 2 ^ 64) loads

-- 0.0, or 100.0 * part / total.
pub data Share : Type 0 where
  no_share : Share
  share : ℕ → ℕ → Share

get_cpu_percent : List CpuTicks → List CpuTicks → Share
unfolding sample
get_cpu_percent first second =
    let (busy1, total1) = sample 0 0 first in
    let (busy2, total2) = sample 0 0 second in
    if total2 == total1 then no_share else share (delta busy2 busy1) (delta total2 total1)

-- `vm_statistics64`: the counts of pages have 32 bits.
get_ram_percent : ℕ → ℕ → ℕ → ℕ → Percent
get_ram_percent free_count inactive_count page total_bytes =
    let free = (free_count + inactive_count) % 2 ^ 32 * page % 2 ^ 64 in
    if total_bytes == 0 then zero_percent else without free total_bytes

-- `statvfs`: the blocks and the free blocks.
get_disk_percent : Option (ℕ × ℕ) → Percent
get_disk_percent none = zero_percent
get_disk_percent (some (blocks, bfree)) = if blocks == 0 then zero_percent else without bfree blocks

-- `kern.osproductversion`
get_os_version : Text → Text
get_os_version version = text "macOS " ++ version

get_uptime_sec : ℕ → ℕ → ℤ
get_uptime_sec now boot = sub_ℕ now boot

-- The description of a power source: whether its type is that of an internal battery, its current and its
-- greatest capacity where both are given, and whether its state is that of the mains. Capacities are
-- not negative.
record PowerSource : Type 0 where
  pub is_internal : Bool
  pub capacities : Option (ℕ × ℕ)
  pub on_ac : Bool

-- The loop runs while no level was found; a source may have no description.
battery_level : List (Option PowerSource) → ℤ
battery_level [] = negsuc 0
battery_level (none ∷ sources) = battery_level sources
battery_level (some desc ∷ sources) =
    let later = battery_level sources in
    if desc.is_internal
    then elim desc.capacities [
      | none ↦ later
      | some (cur, mx) ↦ if ltb 0 mx then pos (cur * 100 / mx) else later
    ]
    else later

-- `none` is a list that the system does not give.
get_battery_level : Option (List (Option PowerSource)) → ℤ
unfolding battery_level
get_battery_level none = negsuc 0
get_battery_level (some sources) = battery_level sources

battery_charging : List (Option PowerSource) → Bool
battery_charging [] = false
battery_charging (none ∷ sources) = battery_charging sources
battery_charging (some desc ∷ sources) = desc.is_internal && desc.on_ac || battery_charging sources

is_battery_charging : Option (List (Option PowerSource)) → Bool
unfolding battery_charging
is_battery_charging none = false
is_battery_charging (some sources) = battery_charging sources

-- An entry of `getifaddrs`, with what a socket and `SIOCGIFMEDIA` answer for it: whether its active
-- medium is IEEE 802.11.
record Ifa : Type 0 where
  pub has_address : Bool
  pub is_up : Bool
  pub is_loopback : Bool
  pub is_ipv4 : Bool
  pub media : Option Bool

network_type : List Ifa → Text
network_type [] = text "NONE"
network_type (ifa ∷ ifas) =
    let later = network_type ifas in
    if ifa.has_address && (ifa.is_up && (not ifa.is_loopback && ifa.is_ipv4))
    then elim ifa.media [
      | none ↦ later
      | some wireless ↦ if wireless then text "WIFI" else text "ETHERNET"
    ]
    else later

get_network_type : Option (List Ifa) → Text
unfolding network_type
get_network_type none = text "NONE"
get_network_type (some ifas) = network_type ifas

-- The capacities of a battery are those of one that is not more than full.
abbrev NotOverfull : Option PowerSource → Type 0
NotOverfull none = Unit {0}
NotOverfull (some desc) = (cur mx : ℕ) → desc.capacities ≡ some (cur, mx) → (cur ≤ mx)

abbrev IsLevel : ℤ → Type 0
IsLevel (negsuc n) = n ≡ 0
IsLevel (pos n) = n ≤ 100

div-le : (cur mx : ℕ) → 0 < mx → cur ≤ mx → cur * 100 / mx ≤ 100
div-le cur mx h k = div-le_of_le-mul mx (omega (arith, k))

battery_level-IsLevel :
    (sources : List (Option PowerSource))
    → All NotOverfull sources
    → IsLevel (battery_level sources)
unfolding battery_level
battery_level-IsLevel [] h = refl
battery_level-IsLevel (none ∷ sources) h = battery_level-IsLevel sources h.1
battery_level-IsLevel (some desc ∷ sources) h =
    let later = battery_level-IsLevel sources h.1 in
    elim (Bool-cases desc.is_internal) [
      | inr e ↦ rw e later
      | inl e ↦ elim (Option-cases desc.capacities) [
        | inl none_given ↦ rw e (rw none_given later)
        | inr ((cur, mx), given) ↦ elim (Bool-cases (ltb 0 mx)) [
          | inr z ↦ rw e (rw given (rw z later))
          | inl z ↦ rw e (rw given (rw z (div-le cur mx (ltb→lt 0 mx z) (h.0 cur mx given))))
        ]
      ]
    ]

abbrev NoneOverfull : Option (List (Option PowerSource)) → Type 0
NoneOverfull none = Unit {0}
NoneOverfull (some given) = All NotOverfull given

-- A level of the battery that is reported is a percentage, from 0 to 100, or -1 where none is found,
-- if no battery gives more than its greatest capacity.
get_battery_level-IsLevel :
    (sources : Option (List (Option PowerSource)))
    → NoneOverfull sources
    → IsLevel (get_battery_level sources)
unfolding get_battery_level
get_battery_level-IsLevel none h = refl
get_battery_level-IsLevel (some sources) h = battery_level-IsLevel sources h
