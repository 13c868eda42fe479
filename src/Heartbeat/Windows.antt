-- ===== src/Heartbeat/Windows.antt =====
-- The measurements of src/services/HeartbeatService.cpp for Windows: what its calls answer is given, and
-- a percentage of a `double` is kept as the fraction that it is computed from.
use orbis_agent_desktop.Base.{
  ℕ, ◌+◌, ◌*◌, ◌/◌, ◌%◌, ◌^◌, ◌≤◌, ◌<◌, ◌≡◌, refl, Bool, false, List, [], ◌∷◌, ◌++◌, Option, none,
  some, Text, text, if◌then◌else◌, ◌==◌, arith, Bool-cases, inl, inr,
}
use orbis_agent_desktop.Base.Decimal.{nat_to_text}
use orbis_agent_desktop.Base.Int.{ℤ, pos, negsuc}
use orbis_agent_desktop.Heartbeat.Linux.{Percent, zero_percent, without, delta}

-- `FILETIME`, its high and its low part.
pub record FileTime : Type 0 where
  pub high : ℕ
  pub low : ℕ

unfoldable pub to_ull : FileTime → ℕ
to_ull t = t.high * 2 ^ 32 + t.low

-- `GetSystemTimes`; the time of the kernel includes the idle time.
pub record SystemTimes : Type 0 where
  pub idle : FileTime
  pub kernel : FileTime
  pub user : FileTime

-- From two samples.
pub get_cpu_percent : SystemTimes → SystemTimes → Percent
unfolding to_ull
get_cpu_percent first second =
    let idle = delta (to_ull second.idle) (to_ull first.idle) in
    let kernel = delta (to_ull second.kernel) (to_ull first.kernel) in
    let user = delta (to_ull second.user) (to_ull first.user) in
    let total = (kernel + user) % 2 ^ 64 in if total == 0 then zero_percent else without idle total

-- `GetDiskFreeSpaceExA`: the free and the total bytes.
get_disk_percent : Option (ℕ × ℕ) → Percent
get_disk_percent none = zero_percent
get_disk_percent (some (free_bytes, total_bytes)) =
    if total_bytes == 0 then zero_percent else without free_bytes total_bytes

-- What `RtlGetVersion` gives; `none` where it is not found or fails.
get_os_version : Option (ℕ × ℕ) → Text
get_os_version none = text "Windows"
get_os_version (some (major, minor)) =
    text "Windows " ++ (nat_to_text major ++ (text "." ++ nat_to_text minor))

-- `wProcessorArchitecture`
get_architecture : ℕ → Text
get_architecture architecture =
    if architecture == 9
    then text "x86_64"
    else if architecture == 12
    then text "arm64"
    else if architecture == 0
    then text "x86"
    else text "unknown"

-- From the milliseconds of `GetTickCount64`.
get_uptime_sec : ℕ → ℤ
get_uptime_sec ticks = pos (ticks / 1000)

-- `SYSTEM_POWER_STATUS`: two bytes.
record PowerStatus : Type 0 where
  pub battery_life_percent : ℕ
  pub ac_line_status : ℕ

get_battery_level : Option PowerStatus → ℤ
get_battery_level none = negsuc 0
get_battery_level (some sps) =
    if sps.battery_life_percent == 255 then negsuc 0 else pos sps.battery_life_percent

is_battery_charging : Option PowerStatus → Bool
is_battery_charging none = false
is_battery_charging (some sps) = sps.ac_line_status == 1

-- An entry of `GetAdaptersAddresses`.
record Adapter : Type 0 where
  pub is_up : Bool
  pub if_type : ℕ

-- The loop over the adapters: a loopback has the type 24, wireless 71, and Ethernet 6.
network_type : List Adapter → Text
network_type [] = text "NONE"
network_type (a ∷ adapters) =
    let later = network_type adapters in
    if a.is_up
    then if a.if_type == 24
      then later
      else if a.if_type == 71
      then text "WIFI"
      else if a.if_type == 6
      then text "ETHERNET"
      else later
    else later

-- `none` is a failure of the call.
get_network_type : Option (List Adapter) → Text
unfolding network_type
get_network_type none = text "NONE"
get_network_type (some adapters) = network_type adapters

-- A fraction between 0 and 1, with something to divide by.
abbrev pub InRange : Percent → Type 0
InRange zero_percent = Unit {0}
InRange (without part total) = (part ≤ total) × (0 < total)

-- From one sample to the next a counter of 64 bits advances by `n`, and may wrap.
abbrev pub Advances : FileTime → FileTime → ℕ → Type 0
Advances first second n = (to_ull first < 2 ^ 64) × (to_ull second ≡ (to_ull first + n) % 2 ^ 64)

delta-advanced : (a b n : ℕ) → a < 2 ^ 64 → n < 2 ^ 64 → b ≡ (a + n) % 2 ^ 64 → delta b a ≡ n
unfolding delta
delta-advanced a b n h k e = omega (arith, h, k, e)

part_of :
    (idle kernel user : ℕ)
    → idle ≤ kernel
    → InRange (if kernel + user == 0 then zero_percent else without idle (kernel + user))
part_of idle kernel user le = elim (Bool-cases (kernel + user == 0)) [
  | inl e ↦ rw e tt
  | inr e ↦ rw e (omega (arith, le), ground (arith, e))
]

-- Where the counters advance between the samples, across a wrap or not, by less than 2^64 together, and
-- the idle time by no more than the kernel's, which includes it: the share of the processor is 0
-- where nothing advanced, and else computed from what the counters advanced by; it is in range.
pub get_cpu_percent-InRange :
    (first second : SystemTimes) (idle kernel user : ℕ)
    → Advances first.idle second.idle idle
    → Advances first.kernel second.kernel kernel
    → Advances first.user second.user user
    → idle ≤ kernel
    → kernel + user < 2 ^ 64
    → (get_cpu_percent first second
        ≡ (if kernel + user == 0 then zero_percent else without idle (kernel + user)))
      × InRange (get_cpu_percent first second)
unfolding get_cpu_percent
get_cpu_percent-InRange first second idle kernel user i k u le room =
    let fits : (kernel + user) % 2 ^ 64 ≡ kernel + user = omega (arith, room) in
    let di = delta-advanced _ _ idle i.0 (omega (arith, le, room)) i.1 in
    let dk = delta-advanced _ _ kernel k.0 (omega (arith, room)) k.1 in
    let du = delta-advanced _ _ user u.0 (omega (arith, room)) u.1 in
    rw di (rw dk (rw du (rw fits (refl, part_of idle kernel user le))))
