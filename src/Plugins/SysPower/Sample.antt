-- ===== src/Plugins/SysPower/Sample.antt =====
-- `mf_Linux_sys_power_init`, `mf_Linux_sys_power_sample` and `mf_Linux_sys_power_to_json`.
use phantom_monitoring_clien.Base.{
  ℕ, zero, suc, ◌/◌, List, [], ◌∷◌, ◌++◌, Option, some, Bool, true, false, not, ◌&&◌, ◌||◌, Bytes,
  codes, str_eq, if◌then◌else◌, add64, sub64, has_flag,
}
use phantom_monitoring_clien.Base.Float.{FloatOps}
use phantom_monitoring_clien.Plugins.Metrics.{PluginMetrics, fill, flag_init}
use phantom_monitoring_clien.Plugins.SysPower.{
  linux_sys_power_metrics, Machine, Globals, seconds, power_net_stat_read, power_io_stat_read,
  sys_net_energy, sys_disk_energy, cpu_energy_read, create_perf_stat_counter, memory_counter_read,
}

abbrev pub has_cpu_stat : ℕ → Bool
has_cpu_stat flag = has_flag flag 0x01

abbrev pub has_net_stat : ℕ → Bool
has_net_stat flag = has_flag flag 0x02

abbrev pub has_memory_or_disk : ℕ → Bool
has_memory_or_disk flag = has_flag flag 0x04 || has_flag flag 0x08

abbrev pub has_all : ℕ → Bool
has_all flag = has_flag flag 0x10

-- The names of the metrics other than the total, which both branches of the initialisation store.
unfoldable pub part_names : ℕ → List (Bool × Option Bytes)
part_names flag =
    (has_cpu_stat flag, some (codes "estimated_CPU_power"))
    ∷ (has_net_stat flag, some (codes "estimated_wifi_power"))
    ∷ (has_memory_or_disk flag, some (codes "estimated_memory_power"))
    ∷ (has_memory_or_disk flag, some (codes "estimated_disk_power"))
    ∷ []

unfoldable pub names : ℕ → List (Bool × Option Bytes)
names flag =
    if has_all flag
    then (true, some (codes "estimated_total_power")) ∷ part_names flag
    else part_names flag

-- The two `continue`s of the loop: metrics that came along with another.
unfoldable pub is_skipped : ℕ → Bytes → Bool
is_skipped flag name =
    str_eq name (codes "estimated_memory_power") && not (has_flag flag 0x04)
    || str_eq name (codes "estimated_disk_power") && not (has_flag flag 0x08)

module _ (fl : FloatOps) where
  open fl use {Double, of_nat, literal, add, sub, mul, div, single, is_nonneg, print_1, print_3}

  abbrev pub Power : Type 0
  Power = Globals fl × PluginMetrics Double

  unfoldable pub start_cpu : Machine fl → Globals fl → Globals fl
  start_cpu m g = record g { cpu_energy_before = cpu_energy_read fl m }

  unfoldable pub start_net : Machine fl → Globals fl → Globals fl
  start_net m g = record g { net_stat_before = power_net_stat_read fl m g.net_stat_before }

  unfoldable pub start_memory : Machine fl → Globals fl → Globals fl
  start_memory m g =
      let c = create_perf_stat_counter fl m g in
      record c { memaccess_before = memory_counter_read fl m c }

  unfoldable pub start_io : Machine fl → Globals fl → Globals fl
  start_io m g = record g { io_stat_before = power_io_stat_read fl m g.io_stat_before }

  -- The counters that the initialisation reads, with all and with some of the metrics.
  unfoldable pub start_all : Machine fl → Globals fl → Globals fl
  start_all m g = start_io m (start_net m (start_memory m (start_cpu m g)))

  unfoldable pub start_some : Machine fl → Globals fl → Globals fl
  start_some m g =
      let c = if has_cpu_stat g.flag then start_cpu m g else g in
      let n = if has_net_stat g.flag then start_net m c else c in
      if has_memory_or_disk g.flag then start_io m (start_memory m n) else n

  -- The state behind the guard of the initialisation.
  unfoldable pub ready : Machine fl → ℕ → Power → Power
  unfolding start_all start_some start_cpu start_net start_memory start_io
  ready m f (g, metrics) =
      let flagged = record g { flag = f } in
      let started = if has_all f then start_all m flagged else start_some m flagged in
      let a = fill (names f) (metrics.events, 0) in
      (
        record started { before_time = seconds fl m },
        record metrics { events = a.0; num_events = a.1 },
      )

  unfoldable pub init : Machine fl → List Bytes → Power → Bool × Power
  init m events (g, metrics) =
      let f = flag_init linux_sys_power_metrics events g.flag in
      if f.0 then (true, ready m f.1 (g, metrics)) else (false, (record g { flag = f.1 }, metrics))

  -- ecpu, emem, enet and edisk, with the globals after them: a read, the difference to the value of
  -- before, and the update of the latter.
  unfoldable pub cpu_part : Machine fl → Globals fl → Double × Globals fl
  cpu_part m g =
      let after = cpu_energy_read fl m in
      (
        single (sub after g.cpu_energy_before),
        record g { cpu_energy_after = after; cpu_energy_before = after },
      )

  -- It reads the disk statistics as well, which edisk needs.
  unfoldable pub memory_part : Machine fl → Globals fl → Double × Globals fl
  memory_part m g =
      let after = memory_counter_read fl m g in
      let io = power_io_stat_read fl m g.io_stat_after in
      let moved =
        sub64 (sub64 (add64 io.read_bytes io.write_bytes) g.io_stat_before.read_bytes)
          g.io_stat_before.write_bytes in
      let accesses = add64 (moved / 256) (sub64 after g.memaccess_before) in
      (
        single (mul (mul (mul (of_nat accesses) (literal 209 2)) (literal 32 1)) (literal 1 6)),
        record g { memaccess_after = after; io_stat_after = io; memaccess_before = after },
      )

  unfoldable pub net_part : Machine fl → Globals fl → Double × Globals fl
  net_part m g =
      let after = power_net_stat_read fl m g.net_stat_after in
      let e = sys_net_energy fl g.net_stat_before after in
      (e.0, record g { net_stat_after = after; net_stat_before = e.1 })

  -- It uses the statistics that memory_part has read.
  unfoldable pub disk_part : Globals fl → Double × Globals fl
  disk_part g =
      let e = sys_disk_energy fl g.io_stat_before g.io_stat_after in
      (e.0, record g { io_stat_before = e.1 })

  unfoldable pub power : Double → Double → Double
  power energy time_interval = single (div energy time_interval)

  abbrev Values : Type 0
  Values = List (Bool × Option Double)

  unfoldable pub part_values : ℕ → Double → Double → Double → Double → Double → Values
  part_values flag time_interval ecpu enet emem edisk =
      (has_cpu_stat flag, some (power ecpu time_interval))
      ∷ (has_net_stat flag, some (power enet time_interval))
      ∷ (has_memory_or_disk flag, some (power emem time_interval))
      ∷ (has_memory_or_disk flag, some (power edisk time_interval))
      ∷ []

  -- The branch for the total: all energies are read.
  unfoldable pub sample_all : Machine fl → Double → Globals fl → Values × Globals fl
  unfolding part_values
  sample_all m time_interval g =
      let ecpu = cpu_part m g in
      let emem = memory_part m ecpu.1 in
      let enet = net_part m emem.1 in
      let edisk = disk_part enet.1 in
      let sum = single (add (single (add (single (add ecpu.0 emem.0)) enet.0)) edisk.0) in
      (
        (true, some (power sum time_interval))
            ∷ part_values g.flag time_interval ecpu.0 enet.0 emem.0 edisk.0,
        edisk.1,
      )

  -- An energy that the flag does not ask for is not computed; its place is not filled.
  abbrev pub when : Bool → (Globals fl → Double × Globals fl) → Globals fl → Double × Globals fl
  when b part g = if b then part g else (literal 0 0, g)

  unfoldable pub sample_some : Machine fl → Double → Globals fl → Values × Globals fl
  unfolding part_values
  sample_some m time_interval g =
      let ecpu = when (has_cpu_stat g.flag) (cpu_part m) g in
      let enet = when (has_net_stat g.flag) (net_part m) ecpu.1 in
      let emem = when (has_memory_or_disk g.flag) (memory_part m) enet.1 in
      let edisk = when (has_memory_or_disk g.flag) disk_part emem.1 in
      (part_values g.flag time_interval ecpu.0 enet.0 emem.0 edisk.0, edisk.1)

  unfoldable pub readings : Machine fl → Globals fl → Values × Globals fl
  readings m g =
      let timed = record g { after_time = seconds fl m } in
      let time_interval = sub (seconds fl m) g.before_time in
      if has_all g.flag then sample_all m time_interval timed else sample_some m time_interval timed

  unfoldable pub sample : Machine fl → Power → Power
  sample m (g, metrics) =
      let r = readings m g in
      (
        record r.1 { before_time = r.1.after_time },
        record metrics { values = (fill r.0 (metrics.values, 0)).0 },
      )

  unfoldable pub append_metrics : ℕ → PluginMetrics Double → ℕ → ℕ → Bytes → Bytes
  append_metrics flag metrics zero i json = json
  append_metrics flag metrics (suc n) i json = append_metrics flag metrics n (suc i) (
      if not (is_skipped flag (metrics.events i)) && is_nonneg (metrics.values i)
      then json ++ codes ",\"" ++ metrics.events i ++ codes "\":" ++ print_3 (metrics.values i)
      else json)

  unfoldable pub to_json : Power → Bytes
  to_json (g, metrics) = append_metrics g.flag metrics metrics.num_events 0 (
      codes "\"type\":\"Linux_sys_power\""
      ++ codes ",\"local_timestamp\":\""
      ++ print_1 (mul g.after_time (literal 1000 0))
      ++ codes "\"")
