-- ===== src/Plugins/IoTotal.antt =====
-- What `sys_IO_stat_read` of the connectors adds up.
use phantom_monitoring_clien.Base.{
  ℕ, ◌+◌, ◌%◌, ◌≡◌, refl, List, [], ◌∷◌, none, some, true, Bytes, if◌then◌else◌, add64, u64_mod,
  arith, Bool-cases, inl, inr,
}
use phantom_monitoring_clien.Plugins.ProcFs.{
  File, IoStats, io_lines, process_io_stat_read, starts_with_digit, add_io, io_entry, io_entries,
  sys_io_stat_read,
}

-- The counters of one entry of /proc: 0 where it is no process, or its file does not open.
abbrev pub counters : File → IoStats
counters none = record { read_bytes = 0; write_bytes = 0 }
counters (some lines) = io_lines lines (record { read_bytes = 0; write_bytes = 0 })

abbrev pub entry_counters : (Bytes → File) → Bytes → IoStats
entry_counters io_file name =
    if starts_with_digit name then counters (io_file name) else counters none

-- The sums over the entries.
abbrev pub total_read : (Bytes → File) → List Bytes → ℕ
total_read io_file [] = 0
total_read io_file (n ∷ ns) = (entry_counters io_file n).read_bytes + total_read io_file ns

abbrev pub total_write : (Bytes → File) → List Bytes → ℕ
total_write io_file [] = 0
total_write io_file (n ∷ ns) = (entry_counters io_file n).write_bytes + total_write io_file ns

-- Two counters agree modulo 2^64.
abbrev Sums : IoStats → IoStats → IoStats → Type 0
Sums a b c =
    (a.read_bytes % u64_mod ≡ (b.read_bytes + c.read_bytes) % u64_mod)
    × (a.write_bytes % u64_mod ≡ (b.write_bytes + c.write_bytes) % u64_mod)

process-Sums :
    (file : File) (pid total : IoStats)
    → let r = process_io_stat_read file pid in
      Sums (if r.0 then add_io total r.1 else total) total (counters file)
unfolding process_io_stat_read add_io add64
process-Sums none pid total = (omega arith, omega arith)
process-Sums (some lines) pid total = (omega arith, omega arith)

io_entry-Sums :
    (io_file : Bytes → File) (name : Bytes) (s : IoStats × IoStats)
    → Sums (io_entry io_file name s).1 s.1 (entry_counters io_file name)
unfolding io_entry
io_entry-Sums io_file name s = elim (Bool-cases (starts_with_digit name)) [
  | inl process ↦ rw process (process-Sums (io_file name) s.0 s.1)
  | inr other ↦ rw other (omega arith, omega arith)
]

io_entries-Sums :
    (io_file : Bytes → File) (names : List Bytes) (s : IoStats × IoStats)
    → Sums
        (io_entries io_file names s).1
        s.1
        (record { read_bytes = total_read io_file names; write_bytes = total_write io_file names })
unfolding io_entries
io_entries-Sums io_file [] s = (omega arith, omega arith)
io_entries-Sums io_file (n ∷ ns) s =
    let (r, w) = io_entry-Sums io_file n s in
    let (r', w') = io_entries-Sums io_file ns (io_entry io_file n s) in (omega arith, omega arith)

-- Where /proc opens, `sys_IO_stat_read` succeeds, and leaves, modulo 2^64, the sums of the counters of
-- the processes in it; neither what the totals held before nor the uninitialised local counts.
pub sys_io_stat_read-totals :
    (io_file : Bytes → File) (names : List Bytes) (pid_io_stat old : IoStats)
    → let r = sys_io_stat_read io_file (some names) pid_io_stat old in
      (r.0 ≡ true)
      × (r.1.read_bytes % u64_mod ≡ total_read io_file names % u64_mod)
      × (r.1.write_bytes % u64_mod ≡ total_write io_file names % u64_mod)
unfolding sys_io_stat_read
sys_io_stat_read-totals io_file names pid_io_stat old =
    let (r, w) =
      io_entries-Sums io_file names (pid_io_stat, record { read_bytes = 0; write_bytes = 0 }) in
    (refl, omega arith, omega arith)
