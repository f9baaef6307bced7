-- ===== src/Plugins/LinuxResources.antt =====
-- src/plugins/Linux_resources/src/mf_Linux_resources_connector.c: usage rates of CPU, memory and swap,
-- and throughputs of network and disks, from /proc. Its globals are the record Globals; what a call
-- reads of the machine is the record Machine.
use phantom_monitoring_clien.Base.{
  ℕ, zero, suc, ◌+◌, ◌-◌, ◌*◌, ◌%◌, ◌^◌, ◌≤◌, ◌<◌, ◌≡◌, refl, List, [], ◌∷◌, ◌++◌, Option, none,
  some, Bool, true, false, not, ◌&&◌, ◌||◌, Bytes, codes, if◌then◌else◌, ◌==◌, ltb, length, get_or,
  drop, add64, sub64, u64_mod, has_flag, starts_with, scan_fields, arith,
}
use phantom_monitoring_clien.Base.Float.{FloatOps}
use phantom_monitoring_clien.Plugins.Metrics.{PluginMetrics, fill, flag_init}
use phantom_monitoring_clien.Plugins.ProcFs.{
  File, NetStats, IoStats, net_stat_read, sys_io_stat_read,
}
pub mod Sample
pub mod Usage
pub mod Cpu
pub mod Aligned

abbrev pub linux_resources_metrics : List Bytes
linux_resources_metrics =
    codes "CPU_usage_rate"
    ∷ codes "RAM_usage_rate"
    ∷ codes "swap_usage_rate"
    ∷ codes "net_throughput"
    ∷ codes "io_throughput"
    ∷ []

pub record CpuStats : Type 0 where
  pub total_cpu_time : ℕ
  pub total_idle_time : ℕ

-- `CPU_stat_read`; `junk` is what its eight locals start with.
unfoldable pub cpu_stat_read : List ℕ → File → CpuStats → Bool × CpuStats
cpu_stat_read junk none cpu_info = (false, cpu_info)
cpu_stat_read junk (some []) cpu_info = (true, record { total_cpu_time = 0; total_idle_time = 0 })
cpu_stat_read junk (some (line ∷ lines)) cpu_info =
    let fields = scan_fields 8 (drop 5 line) in
    let field : ℕ → ℕ = λ k. get_or fields k (get_or junk k 0) in
    let total =
      add64
        (add64
          (add64 (add64 (add64 (add64 (add64 (field 0) (field 1)) (field 2)) (field 3)) (field 4))
            (field 5))
          (field 6))
        (field 7) in
    (true, record { total_cpu_time = total; total_idle_time = add64 (field 3) (field 4) })

-- `sscanf(s, "%d", &v)` of a number without a sign; an `int` is its 32 bits.
abbrev pub scan_int : Bytes → ℕ → ℕ
scan_int s v = get_or (scan_fields 1 s) 0 v % 2 ^ 32

module _ (fl : FloatOps) where
  open fl use {
    Double, of_nat, literal, add, sub, mul, div, single, is_nonneg, is_pos, print_1, print_3,
  }

  -- The value of an `int` given by its bits.
  abbrev pub of_int : ℕ → Double
  of_int n = if ltb n (2 ^ 31) then of_nat n else sub (literal 0 0) (of_nat (2 ^ 32 - n))

  -- The loop of `RAM_usage_rate_read` and of `swap_usage_rate_read`, which differ in the two keys.
  unfoldable pub usage_scan : Bytes → Bytes → List Bytes → ℕ → ℕ → Double
  usage_scan total_key free_key [] total free = literal 0 0
  usage_scan total_key free_key (line ∷ lines) total free =
      let total' =
        if starts_with total_key line
        then scan_int (drop (length total_key) line) total
        else total in
      let free' =
        if starts_with free_key line then scan_int (drop (length free_key) line) free else free in
      let rest = usage_scan total_key free_key lines total' free' in
      if total' * free' % 2 ^ 32 == 0
      then rest
      else single
          (div (mul (of_int ((total' + 2 ^ 32 - free') % 2 ^ 32)) (literal 100 0)) (of_int total'))

  unfoldable pub usage_rate_read : Bytes → Bytes → File → Double
  unfolding usage_scan
  usage_rate_read total_key free_key none = literal 0 0
  usage_rate_read total_key free_key (some lines) = usage_scan total_key free_key lines 0 0

  unfoldable pub ram_usage_rate_read : File → Double
  ram_usage_rate_read file = usage_rate_read (codes "MemTotal:") (codes "MemFree:") file

  unfoldable pub swap_usage_rate_read : File → Double
  swap_usage_rate_read file = usage_rate_read (codes "SwapTotal:") (codes "SwapFree:") file

  -- What a call reads: the clock, the files of /proc, the names in it, and uninitialised locals.
  pub record Machine : Type 0 where
    pub tv_sec : ℕ
    pub tv_nsec : ℕ
    pub stat : File
    pub meminfo : File
    pub net_dev : File
    pub io_file : Bytes → File
    pub proc : Option (List Bytes)
    pub cpu_junk : List ℕ
    pub net_junk : ℕ × ℕ
    pub io_junk : IoStats

  pub record Globals : Type 0 where
    pub flag : ℕ
    pub before_time : Double
    pub after_time : Double
    pub cpu_stat_before : CpuStats
    pub cpu_stat_after : CpuStats
    pub net_stat_before : NetStats
    pub net_stat_after : NetStats
    pub io_stat_before : IoStats
    pub io_stat_after : IoStats

  -- The seconds of the clock.
  unfoldable pub seconds : Machine → Double
  seconds m =
      add (mul (of_nat m.tv_sec) (literal 1 0)) (div (of_nat m.tv_nsec) (literal 1000000000 0))

  abbrev interfaces : List (Bytes × ℕ)
  interfaces = (codes "eth", 5) ∷ (codes "wlan", 6) ∷ []

  unfoldable pub resources_net_stat_read : Machine → NetStats → NetStats
  resources_net_stat_read m s = (net_stat_read interfaces m.net_junk m.net_dev s).1

  unfoldable pub resources_io_stat_read : Machine → IoStats → IoStats
  resources_io_stat_read m s = (sys_io_stat_read m.io_file m.proc m.io_junk s).1

  -- The events are given their names one by one, where the flag has them.
  unfoldable pub named : ℕ → List (Bool × Option Bytes)
  named flag =
      (has_flag flag 0x01, some (codes "CPU_usage_rate"))
      ∷ (has_flag flag 0x02, some (codes "RAM_usage_rate"))
      ∷ (has_flag flag 0x04, some (codes "swap_usage_rate"))
      ∷ (has_flag flag 0x08, some (codes "net_throughput"))
      ∷ (has_flag flag 0x10, some (codes "io_throughput"))
      ∷ []

  abbrev pub Resources : Type 0
  Resources = Globals × PluginMetrics Double

  -- The state that `mf_Linux_resources_init` leaves behind its guard.
  unfoldable pub ready : Machine → ℕ → Resources → Resources
  ready m f (g, metrics) =
      let names = fill (named f) (metrics.events, 0) in
      (
        record g {
          flag = f;
          before_time = seconds m;
          cpu_stat_before =
              if has_flag f 0x01
              then (cpu_stat_read m.cpu_junk m.stat g.cpu_stat_before).1
              else g.cpu_stat_before;
          net_stat_before =
              if has_flag f 0x08
              then resources_net_stat_read m g.net_stat_before
              else g.net_stat_before;
          io_stat_before =
              if has_flag f 0x10
              then resources_io_stat_read m g.io_stat_before
              else g.io_stat_before;
        },
        record metrics { events = names.0; num_events = names.1 },
      )

  -- `mf_Linux_resources_init`
  unfoldable pub init : Machine → List Bytes → Resources → Bool × Resources
  init m events (g, metrics) =
      let f = flag_init linux_resources_metrics events g.flag in
      if f.0 then (true, ready m f.1 (g, metrics)) else (false, (record g { flag = f.1 }, metrics))
