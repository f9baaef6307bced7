-- ===== src/Api/Examples.antt =====
-- Tests of the monitors of the user API, and their theorems at concrete inputs.
use phantom_monitoring_clien.Base.{
  ℤ, ◌++◌, ℕ, ◌+◌, ◌%◌, ◌≡◌, refl, List, [], ◌∷◌, none, some, true, codes, map, length, All, arith,
  u64_mod, starts_with, scan_fields, if◌then◌else◌, ◌==◌, add64,
}
use phantom_monitoring_clien.Base.Numeral.Decimal.{Fits}
use phantom_monitoring_clien.Plugins.Examples.{whole}
use phantom_monitoring_clien.Api.{Clock}
use phantom_monitoring_clien.Api.ProcStat.{pid_time}
use phantom_monitoring_clien.Api.Disk.{DiskStats, disk_rounds}
use phantom_monitoring_clien.Api.Disk.Totals
use phantom_monitoring_clien.Base.Numeral.Decimal.{decimal, FitsWord}
use phantom_monitoring_clien.Api.ProcStat.{stat_numbers}
use phantom_monitoring_clien.Api.Disk.Totals.{Frame, round_of, total_of, disk_rounds-totals}
use phantom_monitoring_clien.Api.Resources.{CpuTimes, resources_round, resources_text}
use phantom_monitoring_clien.Api.Resources.Usage
use phantom_monitoring_clien.Api.Resources.Usage.{Shown, rates, ticks, resources_round-shown}
use phantom_monitoring_clien.Api.Power.CpuEnergy.{
  cpu_freq_stat, cpu_dirents, cpu_dirent, sum_energies, read_freqs, energy_each, power_range,
}
use phantom_monitoring_clien.Api.Power.Readers.{
  PidStats, Reading, read_and_check, read_pid_time, check_io, read_pid_io, check_system,
  read_sys_time, check_energy, check_counter, sys_times, pid_io_lines, pid_io_line,
}
use phantom_monitoring_clien.Api.Power.{Round, Ending, power_rounds}
use phantom_monitoring_clien.Api.Power.Increments.{
  Read, IsRead, IsProcess, AddsUp, total_in, accepted, line_of, power_rounds-accepted,
}

abbrev noon : Clock
noon = record { tv_sec = 43200; tv_nsec = 0 }

-- The other lines of a round, in which rchar counts on.
abbrev frame : ℕ → Frame
frame rchar = ((codes "rchar: " ++ decimal rchar) ∷ [], codes "cancelled_write_bytes: 0\n" ∷ [])

abbrev io_rounds : List Totals.Shown
io_rounds =
    (frame 7, some (4096, 10), noon)
    ∷ (frame 8, none, noon)
    ∷ (frame 19, some (8192, 30), noon)
    ∷ []

abbrev at_first : DiskStats
at_first = record {
  read_bytes_before = 0;
  read_bytes_after = 96;
  write_bytes_before = 0;
  write_bytes_after = 4;
}

disk_rounds-totals_example :
    let samples = (disk_rounds (map round_of io_rounds) at_first).0 in
    (length samples ≡ 3)
    × ((total_of (λ x. x.read) samples + 96) % u64_mod ≡ 8192 % u64_mod)
    × ((total_of (λ x. x.write) samples + 4) % u64_mod ≡ 30 % u64_mod)
unfolding starts_with
disk_rounds-totals_example =
    disk_rounds-totals io_rounds at_first
      (
        ((((refl, refl), tt), ((refl, refl), tt)), (omega arith, omega arith)),
        (
          ((((refl, refl), tt), ((refl, refl), tt)), tt),
          (((((refl, refl), tt), ((refl, refl), tt)), (omega arith, omega arith)), tt),
        ),
      )
      (omega arith, omega arith)

abbrev simulation : Shown
simulation = record {
  pid = 4711;
  name = codes "sim";
  state = b'R';
  stat_front =
      ℤ.pos 1
      ∷ ℤ.pos 2
      ∷ ℤ.pos 3
      ∷ ℤ.pos 0
      ∷ ℤ.negsuc 0
      ∷ ℤ.pos 6
      ∷ ℤ.pos 7
      ∷ ℤ.pos 8
      ∷ ℤ.pos 9
      ∷ ℤ.pos 10
      ∷ [];
  times = (30, 12);
  stat_rest = codes " 0 0 20 0 1\n";
  cpu = 100 ∷ 0 ∷ 50 ∷ 900 ∷ 0 ∷ 0 ∷ 0 ∷ 0 ∷ [];
  cpu_rest = codes " 0 0\n";
  vm = (2048, 0);
  totals = (8192, 1024);
  vm_pads = (codes "   ", codes "      ");
  total_pads = (codes " ", []);
  status_lines = (codes "Name:" ∷ [], [], []);
  meminfo_lines = ([], codes "MemFree: 1 kB" ∷ [], []);
  stat_lines = [];
}

fields-Fits : All FitsWord (stat_numbers simulation.stat_front simulation.times)
fields-Fits = (
  omega arith,
  (
    omega arith,
    (
      omega arith,
      (
        omega arith,
        (
          omega arith,
          (
            omega arith,
            (
              omega arith,
              (omega arith, (omega arith, (omega arith, (omega arith, (omega arith, tt))))),
            ),
          ),
        ),
      ),
    ),
  ),
)

cpu-Fits : All Fits simulation.cpu
cpu-Fits = (
  omega arith,
  (
    omega arith,
    (omega arith, (omega arith, (omega arith, (omega arith, (omega arith, (omega arith, tt)))))),
  ),
)

abbrev earlier : CpuTimes
earlier = record { process_cpu_time = 12; global_cpu_time = 90 }

resources_round-shown_example :
    resources_round whole (Usage.round_of simulation noon (7, 7) (7, 7) (7, 7) (7, 7)) earlier
    ≡ some (resources_text whole noon (rates whole earlier simulation), ticks simulation)
unfolding starts_with
resources_round-shown_example =
    resources_round-shown whole earlier simulation noon (7, 7) (7, 7) (7, 7) (7, 7)
      (
        (omega arith, (refl, (refl, (refl, tt))), refl),
        (refl, fields-Fits, refl, omega arith),
        (refl, cpu-Fits, refl, omega arith),
        (
          (
            (refl, (refl, (refl, tt))),
            (refl, (refl, (refl, (refl, (refl, (refl, tt)))))),
            (refl, tt),
            tt,
          ),
          omega arith,
          omega arith,
          omega arith,
          omega arith,
        ),
        (((refl, refl), tt), tt, tt),
        (tt, ((refl, refl), tt), tt),
      )

-- A reading in which `runtime` ticks were spent, in user mode, and as many idle.
abbrev reading : ℕ → Reading
reading runtime = record {
  pid_stat = some [];
  pid_io = some (codes "read_bytes: 2048\n" ∷ []);
  stat = some [];
  cpus = record {
    has_cpu0_stats = true;
    cpu_dir = some (codes "cpu0" ∷ []);
    time_in_state = λ name. some (codes "800 5\n" ∷ codes "1600 2\n" ∷ []);
    freqs_junk = λ i. 0;
  };
  count = some 9;
  time_junk = (1, 1);
  cpu_junk = runtime ∷ 0 ∷ 0 ∷ runtime ∷ 0 ∷ 0 ∷ 0 ∷ 0 ∷ [];
}

abbrev stats : ℕ → PidStats whole
stats runtime = record {
  sys_itv = runtime + runtime;
  sys_runtime = runtime;
  pid_runtime = 2;
  pid_read_bytes = 2048;
  pid_write_bytes = 0;
  pid_cancelled_writes = 0;
  pid_l2_cache_misses = 9;
  sys_cpu_energy = 1320;
}

abbrev parameters : ℕ → ℕ
parameters i = if i == 0 then 24 else 6

abbrev power_round : ℕ → Round whole
power_round runtime = record {
  timestamp_before = noon;
  reading = reading runtime;
  timestamp_after = noon;
}

-- The second round is skipped: the counters stand still.
abbrev reads : List (Read whole)
reads = (power_round 20, stats 20) ∷ (power_round 20, stats 20) ∷ (power_round 50, stats 50) ∷ []

reads-IsRead : IsRead whole parameters reads (stats 10)
unfolding read_and_check read_pid_time check_io read_pid_io check_system read_sys_time check_energy
    check_counter sys_times pid_io_lines pid_io_line cpu_freq_stat cpu_dirents cpu_dirent
    sum_energies read_freqs energy_each power_range add64 starts_with pid_time scan_fields
reads-IsRead = (refl, (refl, (refl, tt)))

stats-IsProcess : (runtime : ℕ) → IsProcess whole (stats runtime)
stats-IsProcess runtime = (omega arith, omega arith, omega arith, omega arith, omega arith)

power_rounds-accepted_example :
    (power_rounds whole parameters (map (λ x. x.0) reads) (stats 10) (stats 10)
      ≡ (map (line_of whole parameters) (accepted whole reads (stats 10)), Ending.returned))
    × (total_in whole (λ d. d.sys_itv) (accepted whole reads (stats 10)) + 20 ≡ 100)
    × (total_in whole (λ d. d.sys_runtime) (accepted whole reads (stats 10)) + 10 ≡ 50)
    × AddsUp whole (λ d. d.pid_runtime) (accepted whole reads (stats 10)) (stats 10) (stats 50)
    × AddsUp whole (λ d. d.pid_read_bytes) (accepted whole reads (stats 10)) (stats 10) (stats 50)
    × AddsUp whole (λ d. d.pid_write_bytes) (accepted whole reads (stats 10)) (stats 10) (stats 50)
    × AddsUp whole
        (λ d. d.pid_cancelled_writes)
        (accepted whole reads (stats 10))
        (stats 10)
        (stats 50)
    × AddsUp whole
        (λ d. d.pid_l2_cache_misses)
        (accepted whole reads (stats 10))
        (stats 10)
        (stats 50)
power_rounds-accepted_example =
    power_rounds-accepted whole parameters reads (stats 10) (stats 10) reads-IsRead
      ((omega arith, omega arith), ((omega arith, omega arith), ((omega arith, omega arith), tt)))
      (stats-IsProcess 10) (stats-IsProcess 20, (stats-IsProcess 20, (stats-IsProcess 50, tt)))
