-- ===== src/MetricPlugins/Others.antt =====
-- src/plugins/disk/disk.cpp for macOS and Windows, and the processor and the memory of
-- src/plugins/cpu_ram/cpu_ram.cpp for macOS. What the calls of the systems answer is given.
use orbis_agent_desktop.Base.{
  ℕ, zero, suc, ◌+◌, ◌*◌, ◌/◌, ◌%◌, ◌^◌, ◌≤◌, Bool, List, [], ◌∷◌, Option, none, some, Text, text,
  if◌then◌else◌, ◌==◌, length, arith, Bool-cases, Option-cases, inl, inr,
}
use orbis_agent_desktop.Heartbeat.Linux.{zero_percent, without, delta}
use orbis_agent_desktop.Heartbeat.MacOs.{CpuTicks, Share, no_share, share}
use orbis_agent_desktop.MetricPlugins.{DiskInfo, disk_info, Ram}

-- The loop over the mount points of macOS.
mounted : (Text → Option (ℕ × (ℕ × ℕ))) → List Text → List DiskInfo
mounted statvfs [] = []
mounted statvfs (mp ∷ mps) = elim (disk_info mp (statvfs mp)) [
  | none ↦ mounted statvfs mps
  | some disk ↦ disk ∷ mounted statvfs mps
]

gather_disks_mac_os : (Text → Option (ℕ × (ℕ × ℕ))) → List DiskInfo
unfolding mounted
gather_disks_mac_os statvfs = mounted statvfs (text "/" ∷ text "/System/Volumes/Data" ∷ [])

-- What Windows answers of a drive.
record Drives : Type 0 where
  -- The bits of `GetLogicalDrives`, and whether `GetDriveTypeA` gives `DRIVE_FIXED`.
  present : ℕ → Bool
  is_fixed : Text → Bool
  -- The free and the total bytes; `none` where the call fails.
  space : Text → Option (ℕ × ℕ)

root_of : ℕ → Text
root_of i = (65 + i) ∷ text ":\\"

drive_info : Text → Option (ℕ × ℕ) → Option DiskInfo
drive_info root none = none
drive_info root (some (free_b, total_b)) =
    if total_b == 0
    then none
    else some (record {
      mount = root;
      total_gb = total_b / (1024 * 1024 * 1024);
      used_gb = delta total_b free_b / (1024 * 1024 * 1024);
      percent = without free_b total_b;
    })

-- The loop over the drives from `i` on, of which `n` are left.
drives_from : Drives → ℕ → ℕ → List DiskInfo
unfolding root_of
drives_from d i zero = []
drives_from d i (suc n) =
    let later = drives_from d (i + 1) n in
    if d.present i
    then if d.is_fixed (root_of i)
      then elim (drive_info (root_of i) (d.space (root_of i))) [
        | none ↦ later
        | some disk ↦ disk ∷ later
      ]
      else later
    else later

gather_disks_windows : Drives → List DiskInfo
unfolding drives_from
gather_disks_windows d = drives_from d 0 26

-- The loop over the processors of macOS; the ticks of one are added as `natural_t`, of 32 bits.
sample : ℕ → ℕ → List CpuTicks → ℕ × ℕ
sample busy total [] = (busy, total)
sample busy total (ld ∷ loads) =
    sample ((busy + (ld.user + ld.system + ld.nice) % 2 ^ 32) % 2 ^ 64)
      ((total + (ld.user + ld.system + ld.nice + ld.idle) % 2 ^ 32) % 2 ^ 64) loads

measure_cpu_mac_os : List CpuTicks → List CpuTicks → Share
unfolding sample
measure_cpu_mac_os first second =
    let (b1, t1) = sample 0 0 first in
    let (b2, t2) = sample 0 0 second in
    if delta t2 t1 == 0 then no_share else share (delta b2 b1) (delta t2 t1)

-- The counts of pages have 32 bits.
measure_ram_mac_os : ℕ → ℕ → ℕ → ℕ → Ram
measure_ram_mac_os total_bytes free_count inactive_count page =
    let free_bytes = (free_count + inactive_count) % 2 ^ 32 * page % 2 ^ 64 in
    record {
      percent = if total_bytes == 0 then zero_percent else without free_bytes total_bytes;
      used_mb = delta total_bytes free_bytes / (1024 * 1024);
      total_mb = total_bytes / (1024 * 1024);
    }

-- At most one disk for each letter that is left.
length-drives_from : (d : Drives) (i n : ℕ) → length (drives_from d i n) ≤ n
unfolding drives_from
length-drives_from d i zero = omega arith
length-drives_from d i (suc n) =
    let later = length-drives_from d (i + 1) n in
    elim (Bool-cases (d.present i)) [
      | inr e ↦ rw e (omega (arith, later))
      | inl e ↦ elim (Bool-cases (d.is_fixed (root_of i))) [
        | inr f ↦ rw e (rw f (omega (arith, later)))
        | inl f ↦ elim (Option-cases (drive_info (root_of i) (d.space (root_of i)))) [
          | inl g ↦ rw e (rw f (rw g (omega (arith, later))))
          | inr (disk, g) ↦ rw e (rw f (rw g (omega (arith, later))))
        ]
      ]
    ]
