-- ===== src/Plugins/SysPower.antt =====
-- src/plugins/Linux_sys_power/src/mf_Linux_sys_power_connector.c: the energy that CPU, wireless card,
-- memory and disk are estimated to use. The globals are the record Globals; what a call reads of the
-- machine is the record Machine.
use phantom_monitoring_clien.Base.{
  ℕ, zero, suc, ◌+◌, ◌-◌, ◌/◌, ◌≡◌, refl, List, [], ◌∷◌, Option, none, some, Bool, true, false,
  Bytes, codes, if◌then◌else◌, ltb, length, take, get_or, add64, sub64, starts_with, scan_fields, ℤ,
}
use phantom_monitoring_clien.Base.Float.{FloatOps}
use phantom_monitoring_clien.Plugins.ProcFs.{
  File, NetStats, IoStats, net_stat_read, sys_io_stat_read,
}
pub mod Sample
pub mod Start
pub mod Report
pub mod Aligned

abbrev pub linux_sys_power_metrics : List Bytes
linux_sys_power_metrics =
    codes "estimated_CPU_power"
    ∷ codes "estimated_wifi_power"
    ∷ codes "estimated_memory_power"
    ∷ codes "estimated_disk_power"
    ∷ codes "estimated_total_power"
    ∷ []

module _ (fl : FloatOps) where
  open fl use {Double, of_nat, literal, add, sub, mul, div, single}

  -- What a call reads: the clock, /proc/net/dev, /proc and its files, the directory of the CPUs with
  -- their files time_in_state, the performance counters, and uninitialised locals. A read of a counter
  -- is `none` where it is short.
  pub record Machine : Type 0 where
    pub tv_sec : ℕ
    pub tv_nsec : ℕ
    pub net_dev : File
    pub io_file : Bytes → File
    pub proc : Option (List Bytes)
    pub has_cpu0_stats : Bool
    pub cpu_dir : Option (List Bytes)
    pub time_in_state : Bytes → File
    pub online : ℕ
    pub perf_event_open : ℕ → ℤ
    pub read_fd : ℕ → Option ℕ
    pub net_junk : ℕ × ℕ
    pub io_junk : IoStats
    pub freqs_junk : ℕ → ℕ
    pub result_junk : ℕ

  pub record Globals : Type 0 where
    pub flag : ℕ
    pub before_time : Double
    pub after_time : Double
    pub nr_cpus : ℕ
    pub fd : ℕ → ℤ
    pub cpu_energy_before : Double
    pub cpu_energy_after : Double
    pub memaccess_before : ℕ
    pub memaccess_after : ℕ
    pub net_stat_before : NetStats
    pub net_stat_after : NetStats
    pub io_stat_before : IoStats
    pub io_stat_after : IoStats

  unfoldable pub seconds : Machine → Double
  seconds m =
      add (mul (of_nat m.tv_sec) (literal 1 0)) (div (of_nat m.tv_nsec) (literal 1000000000 0))

  abbrev interfaces : List (Bytes × ℕ)
  interfaces = (codes "wlan", 6) ∷ []

  unfoldable pub power_net_stat_read : Machine → NetStats → NetStats
  power_net_stat_read m s = (net_stat_read interfaces m.net_junk m.net_dev s).1

  unfoldable pub power_io_stat_read : Machine → IoStats → IoStats
  power_io_stat_read m s = (sys_io_stat_read m.io_file m.proc m.io_junk s).1

  -- `(a * x + b * y) / 1024`
  abbrev energy : ℕ → Double → ℕ → Double → Double
  energy a x b y = single (div (add (mul (of_nat a) x) (mul (of_nat b) y)) (of_nat 1024))

  -- The energy, and stats_before after it.
  unfoldable pub sys_net_energy : NetStats → NetStats → Double × NetStats
  sys_net_energy before after =
      let rcv_bytes = sub64 after.rcv_bytes before.rcv_bytes in
      let send_bytes = sub64 after.send_bytes before.send_bytes in
      (
        energy rcv_bytes (div (of_nat 1400) (mul (of_nat 1024) (literal 5665 3))) send_bytes
            (div (of_nat 1800) (mul (of_nat 1024) (literal 12330 3))),
        record { rcv_bytes = after.rcv_bytes; send_bytes = after.send_bytes },
      )

  unfoldable pub sys_disk_energy : IoStats → IoStats → Double × IoStats
  sys_disk_energy before after =
      let read_bytes = sub64 after.read_bytes before.read_bytes in
      let write_bytes = sub64 after.write_bytes before.write_bytes in
      (
        energy read_bytes (mul (literal 2 2) (literal 278 2)) write_bytes
            (mul (literal 2 2) (literal 219 2)),
        record { read_bytes = after.read_bytes; write_bytes = after.write_bytes },
      )

  -- The times that `sscanf(line, "%llu %llu", &tmp, &freqs[i])` leaves, for the lines of one file.
  unfoldable pub frequencies : (ℕ → ℕ) → ℕ → List Bytes → List ℕ
  frequencies junk i [] = []
  frequencies junk i (line ∷ lines) =
      get_or (scan_fields 2 line) 1 (junk i) ∷ frequencies junk (suc i) lines

  -- The energies of the frequencies from the one numbered `i` on, added to the total.
  unfoldable pub add_energies : ℕ → ℕ → List ℕ → Double → Double
  add_energies max_i i [] energy_total = energy_total
  add_energies max_i i (time ∷ times) energy_total =
      let power_range = single (sub (literal 823 2) (literal 75 2)) in
      let share =
        single (div (single (mul power_range (single (of_nat i)))) (single (of_nat max_i))) in
      let energy_each =
        single (mul (mul (sub (literal 823 2) share) (of_nat time)) (literal 10 0)) in
      add_energies max_i (suc i) times (single (add energy_total energy_each))

  -- One entry of the directory of the CPUs, on freqs and energy_total; at most sixteen lines of its
  -- file are read.
  unfoldable pub cpu_entry : Machine → Bytes → (ℕ → ℕ) × Double → (ℕ → ℕ) × Double
  cpu_entry m name (freqs, energy_total) = elim (m.time_in_state name) [
    | none ↦ (freqs, energy_total)
    | some lines ↦
        let times = frequencies freqs 0 (take 16 lines) in
        if starts_with (codes "cpu") name
        then (λ i. get_or times i (freqs i), add_energies (length times - 1) 0 times energy_total)
        else (freqs, energy_total)
  ]

  unfoldable pub cpu_entries : Machine → List Bytes → (ℕ → ℕ) × Double → (ℕ → ℕ) × Double
  cpu_entries m [] s = s
  cpu_entries m (name ∷ names) s = cpu_entries m names (cpu_entry m name s)

  unfoldable pub cpu_energy_read : Machine → Double
  cpu_energy_read m =
      if m.has_cpu0_stats
      then elim m.cpu_dir [
        | none ↦ literal 0 0
        | some names ↦ (cpu_entries m names (m.freqs_junk, literal 0 0)).1
      ]
      else literal 0 0

  unfoldable pub create_perf_stat_counter : Machine → Globals → Globals
  create_perf_stat_counter m g = record g {
    nr_cpus = m.online;
    fd = λ i. if ltb i m.online then m.perf_event_open i else g.fd i;
  }

  unfoldable pub read_counter : Machine → ℤ → ℕ
  read_counter m (ℤ.negsuc n) = 0
  read_counter m (ℤ.pos zero) = 0
  read_counter m (ℤ.pos (suc n)) = elim (m.read_fd (suc n)) [ none ↦ 0 | some count ↦ count ]

  -- The loop of `memory_counter_read`, on `result`, for `n` processors from `i` on.
  unfoldable pub add_counters : Machine → (ℕ → ℤ) → ℕ → ℕ → ℕ → ℕ
  add_counters m fd zero i result = result
  add_counters m fd (suc n) i result =
      add_counters m fd n (suc i) (add64 result (read_counter m (fd i)))

  -- `result` is not initialised.
  unfoldable pub memory_counter_read : Machine → Globals → ℕ
  memory_counter_read m g = add_counters m g.fd g.nr_cpus 0 m.result_junk
