-- ===== src/MetricPlugins/Bounds.antt =====
-- How many disks the plugin reports, and its memory against that of the heartbeat.
use orbis_agent_desktop.Base.{
  ℕ, ◌+◌, ◌≤◌, ◌≡◌, refl, List, [], ◌∷◌, Option, Text, text, length, Bool-cases, Option-cases, inl,
  inr, arith, leb, leb→le, if◌then◌else◌,
}
use orbis_agent_desktop.Heartbeat.Linux.{file_words, Machine, get_ram_percent}
use orbis_agent_desktop.MetricPlugins.{
  DiskInfo, passed_over, disk_info, gather, gather_disks, measure_ram,
}

-- The plugin and the heartbeat measure the same part of the memory.
pub percent-measure_ram : (m : Machine) → (measure_ram m).percent ≡ get_ram_percent m
unfolding measure_ram get_ram_percent
percent-measure_ram m = refl

module _ (m : Machine) (statvfs : Text → Option (ℕ × (ℕ × ℕ))) where
  length-last :
      (found : ℕ) (disks : List DiskInfo)
      → found ≤ 7
      → (found + 1 ≤ 7 → found + 1 + length disks ≤ 8)
      → found + 1 + length (if leb 8 (found + 1) then [] else disks) ≤ 8
  length-last found disks h more = elim (Bool-cases (leb 8 (found + 1))) [
    | inl e ↦ rw e (omega arith)
    | inr e ↦ rw e (more (grind (arith, leb→le)))
  ]

  length-gather :
      (found : ℕ) (words : List Text)
      → found ≤ 7
      → found + length (gather m statvfs found words) ≤ 8
  unfolding gather
  length-gather found (dev ∷ mp ∷ fstype ∷ opts ∷ dump ∷ pass ∷ rest) h =
      let skipped = length-gather found rest h in
      let later : found + 1 ≤ 7 → found + 1 + length (gather m statvfs (found + 1) rest) ≤ 8 =
        λ k. length-gather (found + 1) rest k in
      elim (Option-cases (m.read_int dump)) [
        | inl e ↦ rw (e, gather, length) (omega (arith, h))
        | inr (d, e) ↦
            rw (e, gather)
              (elim (Option-cases (m.read_int pass)) [
                | inl f ↦ rw (f, length) (omega (arith, h))
                | inr (p, f) ↦
                    rw (f, length)
                      (elim (Bool-cases (passed_over fstype)) [
                        | inl g ↦ rw (g, length) skipped
                        | inr g ↦
                            rw (g, length)
                              (elim (Option-cases (disk_info mp (statvfs mp))) [
                                | inl i ↦ rw (i, length) skipped
                                | inr (disk, i) ↦
                                    rw (i, length)
                                      (omega (
                                        arith,
                                        length-last found (gather m statvfs (found + 1) rest) h
                                            later,
                                      ))
                              ])
                      ])
              ])
      ]
  length-gather found _ h = omega arith

  -- At most eight disks are reported.
  pub length-gather_disks : length (gather_disks m statvfs) ≤ 8
  unfolding gather_disks
  length-gather_disks =
      omega (arith, length-gather 0 (file_words m (text "/proc/mounts")) (omega arith))
