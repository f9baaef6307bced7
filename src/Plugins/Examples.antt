-- ===== src/Plugins/Examples.antt =====
-- The theorems on the connectors at concrete inputs, with numbers for the floating-point values.
use phantom_monitoring_clien.Base.{
  ℕ, ◌+◌, ◌-◌, ◌*◌, ◌/◌, ◌%◌, ◌≡◌, refl, List, [], ◌∷◌, none, some, true, Bytes, codes, str_eq,
  if◌then◌else◌, arith, u64_mod, ltb, All, starts_with, scan_fields, scan_u64,
}
use phantom_monitoring_clien.Base.Float.{FloatOps}
use phantom_monitoring_clien.Plugins.ProcFs.{File, NetStats, IoStats, sys_io_stat_read}
use phantom_monitoring_clien.Plugins.IoTotal.{total_read, total_write, sys_io_stat_read-totals}
use phantom_monitoring_clien.Plugins.Fill.{rank}
use phantom_monitoring_clien.Plugins.LinuxResources.{
  CpuStats, Machine, Resources, init, swap_usage_rate_read,
}
use phantom_monitoring_clien.Plugins.LinuxResources.Aligned.{At, requested, sample-aligned}
use phantom_monitoring_clien.Plugins.LinuxResources.Usage.{
  Exhausted, swap_usage_rate_read-Exhausted,
}

abbrev pub whole : FloatOps
whole = record {
  Double = ℕ;
  of_nat = λ n. n;
  literal = λ n k. n;
  add = λ a b. a + b;
  sub = λ a b. a - b;
  mul = λ a b. a * b;
  div = λ a b. if ltb 0 b then a / b else 0;
  single = λ a. a;
  is_nonneg = λ a. true;
  is_pos = λ a. ltb 0 a;
  print_1 = λ a. a ∷ [];
  print_3 = λ a. a ∷ [];
}

abbrev pub no_net : NetStats
no_net = record { rcv_bytes = 0; send_bytes = 0 }

abbrev pub no_io : IoStats
no_io = record { read_bytes = 0; write_bytes = 0 }

abbrev no_cpu : CpuStats
no_cpu = record { total_cpu_time = 0; total_idle_time = 0 }

abbrev pub io_file : Bytes → File
io_file name = some (codes "read_bytes: 7\n" ∷ codes "write_bytes: 5\n" ∷ [])

abbrev pub machine : Machine whole
machine = record {
  tv_sec = 10;
  tv_nsec = 0;
  stat = some (codes "cpu  1 2 3 4 5 6 7 8\n" ∷ []);
  meminfo = some (codes "MemTotal: 8 kB\n" ∷ codes "MemFree: 2 kB\n" ∷ []);
  net_dev = none;
  io_file = io_file;
  proc = some (codes "1" ∷ codes "self" ∷ codes "23" ∷ []);
  cpu_junk = [];
  net_junk = (0, 0);
  io_junk = no_io;
}

abbrev pub before_start : Resources whole
before_start = (
  record {
    flag = 0;
    before_time = 0;
    after_time = 0;
    cpu_stat_before = no_cpu;
    cpu_stat_after = no_cpu;
    net_stat_before = no_net;
    net_stat_after = no_net;
    io_stat_before = no_io;
    io_stat_after = no_io;
  },
  record { events = λ i. []; values = λ i. 0; num_events = 0 },
)

abbrev pub two_events : List Bytes
two_events = codes "io_throughput" ∷ codes "RAM_usage_rate" ∷ []

sample-aligned_example :
    At whole machine 4 (init whole machine two_events before_start) (rank (requested two_events) 4)
unfolding str_eq
sample-aligned_example =
    sample-aligned whole machine machine two_events before_start 4 refl (omega arith) refl

abbrev full_swap : List Bytes
full_swap = codes "SwapTotal: 9 kB\n" ∷ codes "SwapFree: 0 kB\n" ∷ []

full_swap-Exhausted : All (Exhausted whole (codes "SwapFree:")) full_swap
unfolding starts_with scan_fields scan_u64
full_swap-Exhausted = (λ h. refl, (λ h. refl, tt))

swap_usage_rate_read-Exhausted_example : swap_usage_rate_read whole (some full_swap) ≡ 0
swap_usage_rate_read-Exhausted_example =
    swap_usage_rate_read-Exhausted whole full_swap full_swap-Exhausted

sys_io_stat_read-totals_example :
    let r =
      sys_io_stat_read io_file
        (some (codes "1" ∷ codes "self" ∷ []))
        no_io
        (record { read_bytes = 3; write_bytes = 3 }) in
    (r.0 ≡ true)
    × (r.1.read_bytes % u64_mod ≡ total_read io_file (codes "1" ∷ codes "self" ∷ []) % u64_mod)
    × (r.1.write_bytes % u64_mod ≡ total_write io_file (codes "1" ∷ codes "self" ∷ []) % u64_mod)
sys_io_stat_read-totals_example =
    sys_io_stat_read-totals io_file (codes "1" ∷ codes "self" ∷ []) no_io
      (record { read_bytes = 3; write_bytes = 3 })
