-- ===== src/Api/Power/Readers.antt =====
-- The readers of src/api/src/power_monitor.c. What they read is the record Reading; locals that are
-- not initialised start as a part of it.
use phantom_monitoring_clien.Base.{
  ℕ, List, [], ◌∷◌, Option, none, some, Bool, true, false, Bytes, codes, if◌then◌else◌, ◌==◌, leb,
  length, drop, get_or, add64, starts_with, scan_fields,
}
use phantom_monitoring_clien.Base.Float.{FloatOps}
use phantom_monitoring_clien.Plugins.ProcFs.{File, scan_into}
use phantom_monitoring_clien.Api.ProcStat.{pid_time}
use phantom_monitoring_clien.Api.Power.CpuEnergy.{CpuFiles, cpu_freq_stat}

-- The files, and the count that the descriptor gives: `none` for a short read.
pub record Reading : Type 0 where
  pub pid_stat : File
  pub pid_io : File
  pub stat : File
  pub cpus : CpuFiles
  pub count : Option ℕ
  pub time_junk : ℕ × ℕ
  pub cpu_junk : List ℕ

module _ (fl : FloatOps) where
  open fl use {Double}

  pub record PidStats : Type 0 where
    pub sys_itv : ℕ
    pub sys_runtime : ℕ
    pub pid_runtime : ℕ
    pub pid_read_bytes : ℕ
    pub pid_write_bytes : ℕ
    pub pid_cancelled_writes : ℕ
    pub pid_l2_cache_misses : ℕ
    pub sys_cpu_energy : Double

  unfoldable pub read_pid_time : Reading → PidStats → Bool × PidStats
  read_pid_time r info = elim r.pid_stat [
    | none ↦ (false, info)
    | some lines ↦ (true, record info { pid_runtime = pid_time r.time_junk lines })
  ]

  unfoldable pub pid_io_line : Bytes → PidStats → PidStats
  pid_io_line line info =
      if starts_with (codes "read_bytes:") line
      then record info { pid_read_bytes = scan_into (drop 12 line) info.pid_read_bytes }
      else if starts_with (codes "write_bytes:") line
      then record info { pid_write_bytes = scan_into (drop 13 line) info.pid_write_bytes }
      else if starts_with (codes "cancelled_write_bytes:") line
      then record info { pid_cancelled_writes = scan_into (drop 23 line) info.pid_cancelled_writes }
      else info

  unfoldable pub pid_io_lines : List Bytes → PidStats → PidStats
  pid_io_lines [] info = info
  pid_io_lines (line ∷ lines) info = pid_io_lines lines (pid_io_line line info)

  unfoldable pub read_pid_io : Reading → PidStats → Bool × PidStats
  read_pid_io r info = elim r.pid_io [
    | none ↦ (false, info)
    | some lines ↦ (true, pid_io_lines lines info)
  ]

  -- The eight times of the line, where its conversions succeed.
  unfoldable pub sys_times : List ℕ → List ℕ → PidStats → PidStats
  sys_times junk fields info =
      let field : ℕ → ℕ = λ k. get_or fields k (get_or junk k 0) in
      record info {
        sys_itv =
            add64
              (add64
                (add64
                  (add64 (add64 (add64 (add64 (field 0) (field 1)) (field 2)) (field 3)) (field 4))
                  (field 5))
                (field 6))
              (field 7);
        sys_runtime = add64 (field 0) (field 2);
      }

  -- `fgets(line, 1024, fp)` into 128 bytes: `none` where the first line does not fit them.
  unfoldable pub read_sys_time : Reading → PidStats → Option (Bool × PidStats)
  read_sys_time r info = elim r.stat [
    | none ↦ some (false, info)
    | some [] ↦ some (true, sys_times r.cpu_junk [] info)
    | some (line ∷ lines) ↦
        if leb 128 (length line)
        then none
        else some (true, sys_times r.cpu_junk (scan_fields 8 (drop 5 line)) info)
  ]

  abbrev read_perf_counter : Reading → ℕ
  read_perf_counter r = elim r.count [ none ↦ 0 | some n ↦ n ]

  unfoldable pub check_counter : Reading → PidStats → Bool × PidStats
  check_counter r info =
      let misses = read_perf_counter r in
      (if misses == 0 then false else true, record info { pid_l2_cache_misses = misses })

  -- The last two of its five readings.
  unfoldable pub check_energy : (ℕ → Double) → Reading → PidStats → Bool × PidStats
  check_energy parameters_value r info = elim (cpu_freq_stat fl parameters_value r.cpus) [
    | none ↦ (false, info)
    | some energy ↦ check_counter r (record info { sys_cpu_energy = energy })
  ]

  unfoldable pub check_system : (ℕ → Double) → Reading → PidStats → Option (Bool × PidStats)
  check_system parameters_value r info = elim (read_sys_time r info) [
    | none ↦ none
    | some (read, info') ↦
        if read then some (check_energy parameters_value r info') else some (false, info')
  ]

  unfoldable pub check_io : (ℕ → Double) → Reading → Bool × PidStats → Option (Bool × PidStats)
  check_io parameters_value r (false, info) = some (false, info)
  check_io parameters_value r (true, info) = check_system parameters_value r info

  unfoldable pub check_time : (ℕ → Double) → Reading → Bool × PidStats → Option (Bool × PidStats)
  check_time parameters_value r (false, info) = some (false, info)
  check_time parameters_value r (true, info) = check_io parameters_value r (read_pid_io r info)

  unfoldable pub read_and_check : (ℕ → Double) → Reading → PidStats → Option (Bool × PidStats)
  unfolding check_time
  read_and_check parameters_value r info = check_time parameters_value r (read_pid_time r info)
