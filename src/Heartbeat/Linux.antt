-- ===== src/Heartbeat/Linux.antt =====
-- The measurements of src/services/HeartbeatService.cpp for Linux, over the files and directories of the
-- system. What `operator>>` reads as a number, `statvfs` and the names of the system are parameters;
-- a percentage of a `double` is kept as the fraction that it is computed from.
pub mod Release
use orbis_agent_desktop.Base.{
  ℕ, zero, suc, ◌+◌, ◌-◌, ◌*◌, ◌^◌, ◌%◌, Bool, true, false, ◌&&◌, ◌||◌, not, List, [], ◌∷◌, ◌++◌,
  Option, none, some, Text, text, text_eq, starts_with, is_empty, if◌then◌else◌, ◌==◌, drop, take,
}
use orbis_agent_desktop.Base.Files.{Files}
use orbis_agent_desktop.Base.Int.{ℤ, pos, negsuc}
use orbis_agent_desktop.Base.Stoi.{is_space}

-- 0.0, or 100.0 * (1.0 - part / total).
pub data Percent : Type 0 where
  zero_percent : Percent
  without : ℕ → ℕ → Percent

-- The files and, for a directory, its entries in the order of `readdir`; `none` cannot be opened.
pub record Machine : Type 0 where
  pub files : Files
  pub directory : Text → Option (List Text)
  pub read_number : Text → Option ℕ
  pub read_int : Text → Option ℤ

-- The words that `operator>>` reads; `word` is what has been read of the next one.
unfoldable pub words_from : Text → Text → List Text
words_from word [] = if is_empty word then [] else word ∷ []
words_from word (c ∷ s) =
    let next = words_from [] s in
    let longer = words_from (word ++ c ∷ []) s in
    if is_space c then if is_empty word then next else word ∷ next else longer

-- The lines that `std::getline` reads.
unfoldable pub lines_from : Text → Text → List Text
lines_from line [] = if is_empty line then [] else line ∷ []
lines_from line (c ∷ s) =
    let next = lines_from [] s in
    let longer = lines_from (line ++ c ∷ []) s in if c == b'\n' then line ∷ next else longer

-- The difference of two `unsigned long long`.
unfoldable pub delta : ℕ → ℕ → ℕ
delta later earlier = (later + 2 ^ 64 - earlier) % 2 ^ 64

-- The idle and the total time of a sample; a file that cannot be read leaves them undefined, `none`.
pub read_stat : Machine → List Text → Option (ℕ × ℕ)
read_stat m (cpu ∷ user ∷ nice ∷ system ∷ idle ∷ rest) = elim (m.read_number user) [
  | none ↦ none
  | some u ↦ elim (m.read_number nice) [
    | none ↦ none
    | some n ↦ elim (m.read_number system) [
      | none ↦ none
      | some s ↦ elim (m.read_number idle) [
        | none ↦ none
        | some i ↦ some (i, (u + n + s + i) % 2 ^ 64)
      ]
    ]
  ]
]
read_stat m _ = none

-- From two samples.
pub get_cpu_percent : ℕ × ℕ → ℕ × ℕ → Percent
unfolding delta
get_cpu_percent (idle₁, total₁) (idle₂, total₂) =
    let total_delta = delta total₂ total₁ in
    if total_delta == 0 then zero_percent else without (delta idle₂ idle₁) total_delta

-- The loop over `/proc/meminfo`: `total` and `available` so far.
unfoldable pub read_meminfo : Machine → ℕ → ℕ → List Text → ℕ × ℕ
read_meminfo m total available (key ∷ value ∷ unit ∷ rest) = elim (m.read_number value) [
  | none ↦ (total, available)
  | some v ↦
      let total' = if text_eq key (text "MemTotal:") then v else total in
      let available' = if text_eq key (text "MemAvailable:") then v else available in
      let more = read_meminfo m total' available' rest in
      if not (total' == 0) && not (available' == 0) then (total', available') else more
]
read_meminfo m total available _ = (total, available)

unfoldable pub file_words : Machine → Text → List Text
unfolding words_from
file_words m path = elim (m.files path) [ none ↦ [] | some content ↦ words_from [] content ]

unfoldable pub get_ram_percent : Machine → Percent
unfolding read_meminfo file_words
get_ram_percent m =
    let (total, available) = read_meminfo m 0 0 (file_words m (text "/proc/meminfo")) in
    if total == 0 then zero_percent else without available total

-- `statvfs` gives the blocks, the free blocks and the size of a fragment.
pub get_disk_percent : Option (ℕ × (ℕ × ℕ)) → Percent
get_disk_percent none = zero_percent
get_disk_percent (some (blocks, (bfree, frsize))) =
    if blocks == 0
    then zero_percent
    else without (bfree * frsize % 2 ^ 64) (blocks * frsize % 2 ^ 64)

-- A quote at the front, and one at the back.
drop_front : Text → Text
drop_front [] = []
drop_front (c ∷ s) = if c == b'"' then s else c ∷ s

unfoldable pub drop_back : Text → Text
drop_back [] = []
drop_back (c ∷ []) = if c == b'"' then [] else c ∷ []
drop_back (c ∷ d ∷ s) = c ∷ drop_back (d ∷ s)

pretty_name : List Text → Text
unfolding drop_front drop_back
pretty_name [] = text "Linux"
pretty_name (line ∷ lines) =
    let later = pretty_name lines in
    if starts_with (text "PRETTY_NAME=") line then drop_back (drop_front (drop 12 line)) else later

pub get_os_version : Files → Text
unfolding pretty_name lines_from
get_os_version fs = elim (fs (text "/etc/os-release")) [
  | none ↦ text "Linux"
  | some content ↦ pretty_name (lines_from [] content)
]

abbrev power_supply : Text
power_supply = text "/sys/class/power_supply"

-- The first word of a file.
abbrev first_word : List Text → Option Text
first_word [] = none
first_word (word ∷ words) = some word

is_word : Text → Option Text → Bool
is_word expected none = false
is_word expected (some word) = text_eq word expected

-- The first entry of the directory that is a battery.
find_battery : Machine → List Text → Option Text
unfolding file_words is_word
find_battery m [] = none
find_battery m (name ∷ names) =
    let later = find_battery m names in
    let type = first_word (file_words m (power_supply ++ text "/" ++ name ++ text "/type")) in
    if text_eq name (text ".") || text_eq name (text "..")
    then later
    else if is_word (text "Battery") type
    then some name
    else later

battery : Machine → Option Text
unfolding find_battery
battery m = elim (m.directory power_supply) [ none ↦ none | some names ↦ find_battery m names ]

-- Where the capacity does not read as a number, `operator>>` stores 0, or leaves -1 where there is no
-- word at all.
pub get_battery_level : Machine → ℤ
unfolding battery file_words
get_battery_level m = elim (battery m) [
  | none ↦ negsuc 0
  | some name ↦
      elim (first_word (file_words m (power_supply ++ text "/" ++ name ++ text "/capacity"))) [
        | none ↦ negsuc 0
        | some word ↦ elim (m.read_int word) [ none ↦ pos 0 | some cap ↦ cap ]
      ]
]

pub is_battery_charging : Machine → Bool
unfolding battery file_words is_word
is_battery_charging m = elim (battery m) [
  | none ↦ false
  | some name ↦
      let status = first_word (file_words m (power_supply ++ text "/" ++ name ++ text "/status")) in
      is_word (text "Charging") status || is_word (text "Full") status
]

-- `line.find_first_not_of(" \t") != npos`
not_blank : Text → Bool
not_blank [] = false
not_blank (c ∷ s) = not (c == b' ' || c == b'\t') || not_blank s

any_not_blank : List Text → Bool
unfolding not_blank
any_not_blank [] = false
any_not_blank (line ∷ lines) = not_blank line || any_not_blank lines

-- A wired interface that is up.
wired : Machine → List Text → Bool
unfolding file_words is_word
wired m [] = false
wired m (iface ∷ ifaces) =
    let later = wired m ifaces in
    let state = first_word (file_words m (text "/sys/class/net/" ++ iface ++ text "/operstate")) in
    if text_eq iface (text ".") || text_eq iface (text "..") || text_eq iface (text "lo")
    then later
    else if text_eq (take 2 iface) (text "wl")
    then later
    else if is_word (text "up") state
    then true
    else later

-- The two header lines of `/proc/net/wireless` are passed over.
pub get_network_type : Machine → Text
unfolding lines_from any_not_blank wired
get_network_type m =
    let wireless : List Text = elim (m.files (text "/proc/net/wireless")) [
      | none ↦ []
      | some content ↦ drop 2 (lines_from [] content)
    ] in
    let cable : Bool = elim (m.directory (text "/sys/class/net")) [
      | none ↦ false
      | some ifaces ↦ wired m ifaces
    ] in
    if any_not_blank wireless then text "WIFI" else if cable then text "ETHERNET" else text "NONE"
