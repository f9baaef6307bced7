-- ===== src/Plugins/CpuExamples.antt =====
-- The theorem on the CPU usage at concrete inputs.
use phantom_monitoring_clien.Base.{
  ◌≡◌, refl, [], ◌∷◌, some, Bytes, codes, arith, scan_fields, scan_u64,
}
use phantom_monitoring_clien.Plugins.Examples.{whole}
use phantom_monitoring_clien.Plugins.LinuxResources.{CpuStats, cpu_stat_read}
use phantom_monitoring_clien.Plugins.LinuxResources.Sample.{cpu_usage_rate}
use phantom_monitoring_clien.Plugins.LinuxResources.Cpu.{Ticks, Gives, cpu_usage_rate-cpu_stat_read}

abbrev unread : CpuStats
unread = record { total_cpu_time = 0; total_idle_time = 0 }

abbrev earlier : Ticks
earlier = record {
  user = 1;
  nice = 2;
  sys = 3;
  idle = 4;
  iowait = 5;
  irq = 6;
  softirq = 7;
  steal = 8;
}

abbrev later : Ticks
later = record {
  user = 4;
  nice = 2;
  sys = 3;
  idle = 5;
  iowait = 5;
  irq = 6;
  softirq = 7;
  steal = 8;
}

abbrev earlier_line : Bytes
earlier_line = codes "cpu  1 2 3 4 5 6 7 8 0 0\n"

abbrev later_line : Bytes
later_line = codes "cpu  4 2 3 5 5 6 7 8 0 0\n"

earlier_line-Gives : Gives earlier_line earlier
unfolding scan_fields scan_u64
earlier_line-Gives = (refl, omega arith)

later_line-Gives : Gives later_line later
unfolding scan_fields scan_u64
later_line-Gives = (refl, omega arith)

cpu_usage_rate-cpu_stat_read_example :
    cpu_usage_rate whole
      (cpu_stat_read [] (some (earlier_line ∷ [])) unread).1
      (cpu_stat_read [] (some (later_line ∷ [])) unread).1
    ≡ some 75
cpu_usage_rate-cpu_stat_read_example =
    cpu_usage_rate-cpu_stat_read whole [] [] earlier_line later_line [] [] unread unread earlier
      later earlier_line-Gives later_line-Gives (omega arith) (omega arith)
