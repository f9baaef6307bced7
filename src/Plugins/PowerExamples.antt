-- ===== src/Plugins/PowerExamples.antt =====
-- The theorems on the report and the values of Linux_sys_power at concrete inputs.
use phantom_monitoring_clien.Base.{
  ◌≡◌, false, refl, List, [], ◌∷◌, none, some, true, Bytes, codes, str_eq, get_or, has_flag, ℤ,
  arith,
}
use phantom_monitoring_clien.Plugins.Examples.{whole, no_net, no_io, io_file}
use phantom_monitoring_clien.Plugins.SysPower.{Machine}
use phantom_monitoring_clien.Plugins.SysPower.Sample.{Power, init}
use phantom_monitoring_clien.Plugins.Metrics.{flag_init, flag_events, flag_event}
use phantom_monitoring_clien.Plugins.Fill.{rank}
use phantom_monitoring_clien.Plugins.SysPower.Start.{flag_of}
use phantom_monitoring_clien.Plugins.SysPower.Aligned.{Stands, present, sample-Stands}
use phantom_monitoring_clien.Plugins.SysPower.Report.{Reports, to_json-wanted}

abbrev machine : Machine whole
machine = record {
  tv_sec = 10;
  tv_nsec = 0;
  net_dev = none;
  io_file = io_file;
  proc = some (codes "1" ∷ []);
  has_cpu0_stats = true;
  cpu_dir = some (codes "cpu0" ∷ []);
  time_in_state = λ name. some (codes "100 5\n" ∷ codes "200 6\n" ∷ []);
  online = 1;
  perf_event_open = λ i. ℤ.pos 3;
  read_fd = λ fd. some 4;
  net_junk = (0, 0);
  io_junk = no_io;
  freqs_junk = λ i. 0;
  result_junk = 0;
}

abbrev before_start : Power whole
before_start = (
  record {
    flag = 0;
    before_time = 0;
    after_time = 0;
    nr_cpus = 0;
    fd = λ i. ℤ.pos 0;
    cpu_energy_before = 0;
    cpu_energy_after = 0;
    memaccess_before = 0;
    memaccess_after = 0;
    net_stat_before = no_net;
    net_stat_after = no_net;
    io_stat_before = no_io;
    io_stat_after = no_io;
  },
  record { events = λ i. []; values = λ i. 0; num_events = 0 },
)

-- Only the disk is asked for; the memory comes along with it.
abbrev disk_event : List Bytes
disk_event = codes "estimated_disk_power" ∷ []

to_json-wanted_example :
    Reports whole machine disk_event (init whole machine disk_event before_start)
unfolding str_eq
to_json-wanted_example =
    to_json-wanted whole machine machine disk_event before_start 3 refl (omega arith) refl

disk_present : get_or (present (flag_of disk_event)) 3 false ≡ true
unfolding flag_init flag_events flag_event str_eq has_flag
disk_present = refl

sample-Stands_example :
    Stands whole machine
      (flag_of disk_event)
      3
      (rank (present (flag_of disk_event)) 3)
      (init whole machine disk_event before_start)
unfolding str_eq
sample-Stands_example =
    sample-Stands whole machine machine disk_event before_start 3 3 refl (omega arith) refl
      disk_present
