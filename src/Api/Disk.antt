-- ===== src/Api/Disk.antt =====
-- src/api/src/disk_monitor.c: the bytes that the process reads and writes, round by round. The loop
-- ends when `running` is cleared, so a run is the list of what its rounds read.
use phantom_monitoring_clien.Base.{
  ℕ, zero, suc, ◌+◌, ◌%◌, ◌^◌, ◌≡◌, refl, List, [], ◌∷◌, ◌++◌, Option, none, some, Bool, true,
  false, Bytes, codes, if◌then◌else◌, map, length, drop, add64, sub64, u64_mod, starts_with, arith,
  ap,
}
use phantom_monitoring_clien.Base.Float.{FloatOps}
use phantom_monitoring_clien.Base.Numeral.Decimal.{decimal}
use phantom_monitoring_clien.Plugins.ProcFs.{File, scan_into}
use phantom_monitoring_clien.Api.{Clock, timestamp_ms, log_field, log_time, file_in}
pub mod Totals

pub record DiskStats : Type 0 where
  pub read_bytes_before : ℕ
  pub read_bytes_after : ℕ
  pub write_bytes_before : ℕ
  pub write_bytes_after : ℕ

unfoldable pub disk_line : Bytes → DiskStats → DiskStats
disk_line line s = record s {
  read_bytes_after =
      if starts_with (codes "read_bytes:") line
      then scan_into (drop 12 line) s.read_bytes_after
      else s.read_bytes_after;
  write_bytes_after =
      if starts_with (codes "write_bytes:") line
      then scan_into (drop 13 line) s.write_bytes_after
      else s.write_bytes_after;
}

unfoldable pub disk_lines : List Bytes → DiskStats → DiskStats
disk_lines [] s = s
disk_lines (line ∷ lines) s = disk_lines lines (disk_line line s)

unfoldable pub update_before : DiskStats → DiskStats
update_before s = record s {
  read_bytes_before = s.read_bytes_after;
  write_bytes_before = s.write_bytes_after;
}

unfoldable pub disk_stats_read : File → DiskStats → Bool × DiskStats
disk_stats_read none s = (false, update_before s)
disk_stats_read (some lines) s = (true, disk_lines lines (update_before s))

-- What a round reads: the file of /proc, then the clock.
pub record Round : Type 0 where
  pub io : File
  pub clock : Clock

-- What a round writes: the time and the two increments.
pub record Sample : Type 0 where
  pub clock : Clock
  pub read : ℕ
  pub write : ℕ

unfoldable pub disk_round : Round → DiskStats → Sample × DiskStats
disk_round r s =
    let s' = (disk_stats_read r.io s).1 in
    (
      record {
        clock = r.clock;
        read = sub64 s'.read_bytes_after s'.read_bytes_before;
        write = sub64 s'.write_bytes_after s'.write_bytes_before;
      },
      s',
    )

unfoldable pub disk_rounds : List Round → DiskStats → List Sample × DiskStats
unfolding disk_round
disk_rounds [] s = ([], s)
disk_rounds (r ∷ rs) s =
    let (sample, s') = disk_round r s in
    let (samples, last) = disk_rounds rs s' in (sample ∷ samples, last)

-- The members before start as 0 only in part: the first read sets the others.
unfoldable pub first_stats : ℕ → ℕ → DiskStats
first_stats read_junk write_junk = record {
  read_bytes_before = read_junk;
  read_bytes_after = 0;
  write_bytes_before = write_junk;
  write_bytes_after = 0;
}

module _ (fl : FloatOps) where
  open fl use {of_nat, literal, mul, div, single, print_1, print_3}

  unfoldable pub disk_text : ℕ → Sample → Bytes
  disk_text sampling_interval s =
      log_time (print_1 (timestamp_ms fl s.clock))
      ++ log_field (codes "disk_read") (decimal s.read)
      ++ log_field (codes "disk_write") (decimal s.write)
      ++ log_field (codes "disk_throughput") (
          print_3 (
            single (
              div (mul (of_nat (add64 s.read s.write)) (literal 1000 0))
                (of_nat sampling_interval))))
      ++ codes "\n"

  -- The result and the lines that it appends to its file; `opens` says which files open.
  unfoldable pub disk_monitor :
      (Bytes → Bool) → Bytes → ℕ → DiskStats → File → List Round → ℕ × List Bytes
  disk_monitor opens data_path sampling_interval start first rounds =
      if opens (file_in data_path (codes "disk_io"))
      then (
        1,
        map (disk_text sampling_interval) (disk_rounds rounds (disk_stats_read first start).1).0,
      )
      else (0, [])
