-- ===== src/Plugins/LinuxResources/Sample.antt =====
-- `mf_Linux_resources_sample` and `mf_Linux_resources_to_json`, on the record Globals.
use phantom_monitoring_clien.Base.{
  ℕ, zero, suc, List, [], ◌∷◌, ◌++◌, Option, none, some, Bool, false, Bytes, codes, if◌then◌else◌,
  ltb, add64, sub64, has_flag,
}
use phantom_monitoring_clien.Base.Float.{FloatOps}
use phantom_monitoring_clien.Plugins.Metrics.{PluginMetrics, fill}
use phantom_monitoring_clien.Plugins.ProcFs.{NetStats, IoStats}
use phantom_monitoring_clien.Plugins.LinuxResources.{
  CpuStats, cpu_stat_read, Machine, Globals, Resources, seconds, resources_net_stat_read,
  resources_io_stat_read, ram_usage_rate_read, swap_usage_rate_read,
}

module _ (fl : FloatOps) where
  open fl use {Double, of_nat, literal, sub, mul, div, single, is_nonneg, is_pos, print_1, print_3}

  -- The values of a sample, metric by metric. `none` is a metric without progress.
  unfoldable pub cpu_usage_rate : CpuStats → CpuStats → Option Double
  cpu_usage_rate before after =
      if ltb before.total_cpu_time after.total_cpu_time
      then some (
          single (
            div
              (mul
                (of_nat (
                  sub64 (sub64 after.total_cpu_time before.total_cpu_time)
                    (sub64 after.total_idle_time before.total_idle_time)))
                (literal 100 0))
              (of_nat (sub64 after.total_cpu_time before.total_cpu_time))))
      else none

  -- The two sums of bytes are unsigned: `total_bytes > 0.0` is that they are not zero.
  unfoldable pub throughput : ℕ → Double → Option Double
  throughput total_bytes time_interval =
      if is_pos (of_nat total_bytes)
      then some (single (div (mul (of_nat total_bytes) (literal 1 0)) time_interval))
      else none

  unfoldable pub net_bytes : NetStats → NetStats → ℕ
  net_bytes before after =
      add64 (sub64 after.rcv_bytes before.rcv_bytes) (sub64 after.send_bytes before.send_bytes)

  unfoldable pub io_bytes : IoStats → IoStats → ℕ
  io_bytes before after =
      add64 (sub64 after.read_bytes before.read_bytes) (sub64 after.write_bytes before.write_bytes)

  -- The counters after the reads of a sample, of the metrics that the flag has.
  unfoldable pub read_counters : Machine fl → Globals fl → Globals fl
  read_counters m g = record g {
    after_time = seconds fl m;
    cpu_stat_after =
        if has_flag g.flag 0x01
        then (cpu_stat_read m.cpu_junk m.stat g.cpu_stat_after).1
        else g.cpu_stat_after;
    net_stat_after =
        if has_flag g.flag 0x08
        then resources_net_stat_read fl m g.net_stat_after
        else g.net_stat_after;
    io_stat_after =
        if has_flag g.flag 0x10
        then resources_io_stat_read fl m g.io_stat_after
        else g.io_stat_after;
  }

  -- What a sample stores for each metric, from the globals after its reads.
  unfoldable pub readings : Machine fl → Globals fl → List (Bool × Option Double)
  readings m g =
      let time_interval = sub g.after_time g.before_time in
      (has_flag g.flag 0x01, cpu_usage_rate g.cpu_stat_before g.cpu_stat_after)
      ∷ (has_flag g.flag 0x02, some (ram_usage_rate_read fl m.meminfo))
      ∷ (has_flag g.flag 0x04, some (swap_usage_rate_read fl m.meminfo))
      ∷ (
        has_flag g.flag 0x08,
        throughput (net_bytes g.net_stat_before g.net_stat_after) time_interval,
      )
      ∷ (has_flag g.flag 0x10, throughput (io_bytes g.io_stat_before g.io_stat_after) time_interval)
      ∷ []

  abbrev progressed : Bool → Option Double → Bool
  progressed flagged none = false
  progressed flagged (some v) = flagged

  -- The updates of the values of before, each where the metric is asked for and made progress.
  unfoldable pub keep_counters : Globals fl → Globals fl
  keep_counters g =
      let time_interval = sub g.after_time g.before_time in
      record g {
        before_time = g.after_time;
        cpu_stat_before =
            if progressed (has_flag g.flag 0x01) (cpu_usage_rate g.cpu_stat_before g.cpu_stat_after)
            then g.cpu_stat_after
            else g.cpu_stat_before;
        net_stat_before =
            if progressed (has_flag g.flag 0x08)
              (throughput (net_bytes g.net_stat_before g.net_stat_after) time_interval)
            then g.net_stat_after
            else g.net_stat_before;
        io_stat_before =
            if progressed (has_flag g.flag 0x10)
              (throughput (io_bytes g.io_stat_before g.io_stat_after) time_interval)
            then g.io_stat_after
            else g.io_stat_before;
      }

  -- `mf_Linux_resources_sample`; it reads meminfo between the counters, which it does not change.
  unfoldable pub sample : Machine fl → Resources fl → Resources fl
  sample m (g, metrics) =
      let r = read_counters m g in
      (keep_counters r, record metrics { values = (fill (readings m r) (metrics.values, 0)).0 })

  -- The loop of `mf_Linux_resources_to_json`, for the metrics from `i` on.
  unfoldable pub append_metrics : PluginMetrics Double → ℕ → ℕ → Bytes → Bytes
  append_metrics metrics zero i json = json
  append_metrics metrics (suc n) i json = append_metrics metrics n (suc i) (
      if is_nonneg (metrics.values i)
      then json ++ codes ",\"" ++ metrics.events i ++ codes "\":" ++ print_3 (metrics.values i)
      else json)

  unfoldable pub to_json : Resources fl → Bytes
  to_json (g, metrics) = append_metrics metrics metrics.num_events 0 (
      codes "\"type\":\"Linux_resources\""
      ++ codes ",\"local_timestamp\":\""
      ++ print_1 (mul g.after_time (literal 1000 0))
      ++ codes "\"")
