-- ===== src/Api/Power.antt =====
-- src/api/src/power_monitor.c: the power of CPU, memory and disk, from counters. The readers are in
-- Readers, the estimated energy of the CPUs in CpuEnergy. exit(0) in a round is the end `exited`, a
-- line that overflows its buffer the end `overflowed`.
use phantom_monitoring_clien.Base.{
  ℕ, zero, suc, ◌+◌, ◌-◌, ◌≤◌, ◌≡◌, refl, List, [], ◌∷◌, ◌++◌, Option, none, some, Bool, true,
  false, ◌||◌, Bytes, codes, if◌then◌else◌, leb, add64, sub64,
}
use phantom_monitoring_clien.Base.Float.{FloatOps}
use phantom_monitoring_clien.Api.{Clock, timestamp_ms, log_field, log_time, file_in}
use Readers.{PidStats, Reading, read_and_check}
pub mod Readers
pub mod CpuEnergy
pub mod Increments

-- How the loop ends: `running` is cleared, the process exits, or memory is overwritten.
pub data Ending : Type 0 where
  returned exited overflowed : Ending

module _ (fl : FloatOps) where
  open fl use {Double, of_nat, literal, add, sub, mul, div, single, print_1, print_3}

  -- `calcualte_and_update`: delta, and the values of before. `none` is a return of 0.
  unfoldable pub calcualte_and_update :
      PidStats fl → PidStats fl → Option (PidStats fl × PidStats fl)
  calcualte_and_update before after =
      if leb after.sys_itv before.sys_itv || leb after.sys_runtime before.sys_runtime
      then none
      else some (
        record {
          sys_itv = sub64 after.sys_itv before.sys_itv;
          sys_runtime = sub64 after.sys_runtime before.sys_runtime;
          pid_runtime = sub64 after.pid_runtime before.pid_runtime;
          pid_read_bytes = sub64 after.pid_read_bytes before.pid_read_bytes;
          pid_write_bytes = sub64 after.pid_write_bytes before.pid_write_bytes;
          pid_cancelled_writes = sub64 after.pid_cancelled_writes before.pid_cancelled_writes;
          pid_l2_cache_misses = sub64 after.pid_l2_cache_misses before.pid_l2_cache_misses;
          sys_cpu_energy = single (sub after.sys_cpu_energy before.sys_cpu_energy);
        },
        after,
      )

  -- A difference of two longs.
  unfoldable pub difference : ℕ → ℕ → Double
  difference a b = if leb b a then of_nat (a - b) else sub (literal 0 0) (of_nat (b - a))

  unfoldable pub duration : Clock → Clock → Double
  duration before after = single (
      add (difference after.tv_sec before.tv_sec)
        (div (difference after.tv_nsec before.tv_nsec) (literal 1000000000 0)))

  -- The operations on floats, and an integer as a float.
  abbrev float : ℕ → Double
  float n = single (of_nat n)

  abbrev times : Double → Double → Double
  times x y = single (mul x y)

  abbrev over : Double → Double → Double
  over x y = single (div x y)

  abbrev plus : Double → Double → Double
  plus x y = single (add x y)

  pub record Powers : Type 0 where
    pub sys_cpu_power : Double
    pub pid_cpu_power : Double
    pub pid_mem_power : Double
    pub pid_disk_power : Double

  unfoldable pub powers : (ℕ → Double) → PidStats fl → Double → Powers
  powers parameters_value delta interval =
      let sys_cpu_power =
        over (times delta.sys_cpu_energy (float delta.sys_runtime))
          (times (float delta.sys_itv) interval) in
      let written = sub64 delta.pid_write_bytes delta.pid_cancelled_writes in
      let moved =
        sub64 (add64 delta.pid_read_bytes delta.pid_write_bytes) delta.pid_cancelled_writes in
      let accesses =
        plus (over (float moved) (parameters_value 4)) (float delta.pid_l2_cache_misses) in
      record {
        sys_cpu_power = sys_cpu_power;
        pid_cpu_power =
            over (times sys_cpu_power (float delta.pid_runtime)) (float delta.sys_runtime);
        pid_mem_power = single (
            div
              (mul (times (times accesses (parameters_value 3)) (parameters_value 2)) (literal 1 6))
              interval);
        pid_disk_power =
            over
              (plus (times (float delta.pid_read_bytes) (parameters_value 5))
                (times (float written) (parameters_value 6)))
              (times (float 1024) interval);
      }

  unfoldable pub power_text : Clock → Powers → Bytes
  power_text clock p =
      log_time (print_1 (timestamp_ms fl clock))
      ++ log_field (codes "total_CPU_power") (print_3 p.sys_cpu_power)
      ++ log_field (codes "process_CPU_power") (print_3 p.pid_cpu_power)
      ++ log_field (codes "process_mem_power") (print_3 p.pid_mem_power)
      ++ log_field (codes "process_disk_power") (print_3 p.pid_disk_power)
      ++ codes "\n"

  -- A round: the clock before it, what it reads, and the clock after it.
  pub record Round : Type 0 where
    pub timestamp_before : Clock
    pub reading : Reading
    pub timestamp_after : Clock

  -- What a round does behind its readings: the line, or none where it is skipped, and before.
  unfoldable pub conclude :
      (ℕ → Double) → Round → PidStats fl → PidStats fl → Option Bytes × PidStats fl
  conclude parameters_value r before after = elim (calcualte_and_update before after) [
    | none ↦ (none, before)
    | some (delta, before') ↦ (
      some (
          power_text r.timestamp_after
            (powers parameters_value delta (duration r.timestamp_before r.timestamp_after))),
      before',
    )
  ]

  abbrev pub log_line : Option Bytes → List Bytes → List Bytes
  log_line none lines = lines
  log_line (some line) lines = line ∷ lines

  -- The loop, on before and after: the lines and how it ends.
  unfoldable pub power_rounds :
      (ℕ → Double) → List Round → PidStats fl → PidStats fl → List Bytes × Ending
  unfolding conclude
  power_rounds parameters_value [] before after = ([], Ending.returned)
  power_rounds parameters_value (r ∷ rs) before after =
      elim (read_and_check fl parameters_value r.reading after) [
        | none ↦ ([], Ending.overflowed)
        | some (checked, after') ↦
            let (line, before') = conclude parameters_value r before after' in
            let rest = power_rounds parameters_value rs before' after' in
            if checked then (log_line line rest.0, rest.1) else ([], Ending.exited)
      ]

  -- `opens` says which files open, `has_counter` whether create_perf_stat_counter gives a descriptor;
  -- before and after are not initialised.
  unfoldable pub power_monitor :
      (Bytes → Bool)
      → Bool
      → (ℕ → Double)
      → Bytes
      → Reading
      → List Round
      → PidStats fl × PidStats fl
      → List Bytes × Ending
  power_monitor opens has_counter parameters_value data_path first rounds junk =
      if opens (file_in data_path (codes "power"))
      then if has_counter
        then elim (read_and_check fl parameters_value first junk.0) [
          | none ↦ ([], Ending.overflowed)
          | some (checked, before) ↦
              if checked
              then power_rounds parameters_value rounds before junk.1
              else ([], Ending.exited)
        ]
        else ([], Ending.exited)
      else ([], Ending.exited)
