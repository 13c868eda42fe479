-- ===== src/MetricPlugins.antt =====
-- src/plugins/cpu_ram/cpu_ram.cpp and src/plugins/disk/disk.cpp: the plugins that measure, for Linux.
-- `statvfs`, the printing and comparison of a `double`, and its value in a document are parameters.
pub mod Bounds
pub mod Docker
pub mod Others
use orbis_agent_desktop.Base.{
  ℕ, zero, suc, ◌+◌, ◌-◌, ◌*◌, ◌/◌, ◌%◌, ◌^◌, Bool, true, false, ◌||◌, List, [], ◌∷◌, ◌++◌, Option,
  none, some, Text, text, text_eq, if◌then◌else◌, ◌==◌, leb, take, map,
}
use orbis_agent_desktop.Base.Decimal.{nat_to_text}
use orbis_agent_desktop.Json.{JsonLib, Result, ok, err}
use orbis_agent_desktop.Heartbeat.Linux.{
  Machine, Percent, zero_percent, without, delta, read_meminfo, file_words,
}

-- What the plugins do with a `double`: `%.1f`, `>=` and its JSON value.
pub record Doubles (json : JsonLib) : Type 0 where
  pub print : Percent → Text
  pub reaches : Percent → ℕ → Bool
  pub value : Percent → json.Value
  pub of_nat : ℕ → json.Value

pub record CpuSample : Type 0 where
  pub idle : ℕ
  pub total : ℕ

-- From the seven numbers of the first line of `/proc/stat`; a number that is not there counts as 0.
pub read_cpu_sample : ℕ × (ℕ × (ℕ × (ℕ × (ℕ × (ℕ × ℕ))))) → CpuSample
read_cpu_sample (user, (nice, (system, (idle, (iowait, (irq, softirq)))))) = record {
  idle = (idle + iowait) % 2 ^ 64;
  total = (user + nice + system + idle + iowait + irq + softirq) % 2 ^ 64;
}

pub measure_cpu : CpuSample → CpuSample → Percent
measure_cpu s1 s2 =
    let total_delta = delta s2.total s1.total in
    if total_delta == 0 then zero_percent else without (delta s2.idle s1.idle) total_delta

pub record Ram : Type 0 where
  pub percent : Percent
  pub used_mb : ℕ
  pub total_mb : ℕ

pub measure_ram : Machine → Ram
measure_ram m =
    let (total_kb, avail_kb) = read_meminfo m 0 0 (file_words m (text "/proc/meminfo")) in
    record {
      percent = if total_kb == 0 then zero_percent else without avail_kb total_kb;
      used_mb = delta total_kb avail_kb / 1024;
      total_mb = total_kb / 1024;
    }

pub record DiskInfo : Type 0 where
  pub mount : Text
  pub total_gb : ℕ
  pub used_gb : ℕ
  pub percent : Percent

-- The types of file system that are passed over.
pub passed_over : Text → Bool
passed_over fstype =
    text_eq fstype (text "tmpfs")
    || text_eq fstype (text "devtmpfs")
    || text_eq fstype (text "sysfs")
    || text_eq fstype (text "proc")
    || text_eq fstype (text "cgroup")
    || text_eq fstype (text "devpts")
    || text_eq fstype (text "securityfs")
    || text_eq fstype (text "pstore")

gigabytes : ℕ → ℕ → ℕ
gigabytes blocks frsize = blocks * frsize % 2 ^ 64 / (1024 * 1024 * 1024)

-- What `statvfs` says of a mount point; `none` where it fails or the disk has no blocks.
pub disk_info : Text → Option (ℕ × (ℕ × ℕ)) → Option DiskInfo
unfolding gigabytes
disk_info mp none = none
disk_info mp (some (blocks, (bfree, frsize))) =
    if blocks == 0
    then none
    else some (record {
      mount = mp;
      total_gb = gigabytes blocks frsize;
      used_gb = gigabytes (delta blocks bfree) frsize;
      percent = without bfree blocks;
    })

-- The loop over the words of `/proc/mounts`, with the number of disks found so far.
unfoldable pub gather : Machine → (Text → Option (ℕ × (ℕ × ℕ))) → ℕ → List Text → List DiskInfo
gather m statvfs found (dev ∷ mp ∷ fstype ∷ opts ∷ dump ∷ pass ∷ rest) =
    let skip = gather m statvfs found rest in
    let more = gather m statvfs (found + 1) rest in
    elim (m.read_int dump) [
      | none ↦ []
      | some d ↦ elim (m.read_int pass) [
        | none ↦ []
        | some p ↦ if passed_over fstype then skip else elim (disk_info mp (statvfs mp)) [
          | none ↦ skip
          | some disk ↦ disk ∷ (if leb 8 (found + 1) then [] else more)
        ]
      ]
    ]
gather m statvfs found _ = []

pub gather_disks : Machine → (Text → Option (ℕ × (ℕ × ℕ))) → List DiskInfo
gather_disks m statvfs = gather m statvfs 0 (file_words m (text "/proc/mounts"))

module _ (json : JsonLib) (doubles : Doubles json) where
  -- `snprintf` into 128 bytes.
  cpu_ram_message : Percent → Percent → Text
  cpu_ram_message cpu_pct ram_pct = take 127 (
      text "CPU: "
      ++ (doubles.print cpu_pct ++ (text "% RAM: " ++ (doubles.print ram_pct ++ text "%"))))

  disk_message : DiskInfo → Text
  disk_message d = take 127 (
      text "Disk "
      ++ (d.mount
          ++ (text ": "
              ++ (doubles.print d.percent
                  ++ (text "% used ("
                      ++ (nat_to_text d.used_gb
                          ++ (text "/" ++ (nat_to_text d.total_gb ++ text " GB)"))))))))

  disk_level : Percent → Text
  disk_level percent =
      if doubles.reaches percent 90
      then text "ERROR"
      else if doubles.reaches percent 75
      then text "WARNING"
      else text "INFO"

  entry_doc : Text → Text → Text → List (Text × json.Value) → json.Value
  entry_doc source level message metadata = json.object (
      (text "source", json.of_text source)
      ∷ (text "level", json.of_text level)
      ∷ (text "message", json.of_text message)
      ∷ (text "metadata", json.object metadata)
      ∷ [])

  or_empty : Result Text → Text
  or_empty (ok result) = result
  or_empty (err what) = text "[]"

  -- `collect` of cpu_ram, from the two samples and the memory.
  pub collect_cpu_ram : CpuSample → CpuSample → Ram → Text
  unfolding cpu_ram_message entry_doc or_empty
  collect_cpu_ram s1 s2 ram =
      let cpu_pct = measure_cpu s1 s2 in
      or_empty (
        json.dump (
          json.array (
            entry_doc (text "cpu_ram_plugin") (text "INFO") (cpu_ram_message cpu_pct ram.percent) (
              (text "cpu_percent", doubles.value cpu_pct)
              ∷ (text "ram_percent", doubles.value ram.percent)
              ∷ (text "ram_used_mb", doubles.of_nat ram.used_mb)
              ∷ (text "ram_total_mb", doubles.of_nat ram.total_mb)
              ∷ [])
            ∷ [])))

  disk_doc : DiskInfo → json.Value
  unfolding disk_message disk_level entry_doc
  disk_doc d = entry_doc (text "disk_plugin") (disk_level d.percent) (disk_message d) (
      (text "mount_point", json.of_text d.mount)
      ∷ (text "total_gb", doubles.of_nat d.total_gb)
      ∷ (text "used_gb", doubles.of_nat d.used_gb)
      ∷ (text "percent", doubles.value d.percent)
      ∷ [])

  -- `collect` of disk.
  pub collect_disk : List DiskInfo → Text
  unfolding disk_doc or_empty
  collect_disk disks = or_empty (json.dump (json.array (map disk_doc disks)))
