-- ===== src/Plugins/RaplPower/Sample.antt =====
-- `mf_RAPL_power_sample` and `mf_RAPL_power_to_json`. The loop of the sample advances by the sockets of
-- the metric that the name at its index has, and for a name that has neither it never ends: it runs on
-- fuel.
use phantom_monitoring_clien.Base.{
  ℕ, zero, suc, ◌++◌, Option, none, some, Bool, true, false, Bytes, codes, strstr, if◌then◌else◌,
  ◌==◌, ltb, ◌>>=◌,
}
use phantom_monitoring_clien.Base.Float.{FloatOps}
use phantom_monitoring_clien.Plugins.Metrics.{PluginMetrics}
use phantom_monitoring_clien.Plugins.Nvml.{store}
use phantom_monitoring_clien.Plugins.RaplPower.{Globals, Rapl, rapl_stat_read, seconds}

unfoldable pub has_metric : Bytes → Bytes → Bool
has_metric name metric = elim (strstr name metric) [ none ↦ false | some rest ↦ true ]

module _ (fl : FloatOps) where
  open fl use {Double, literal, sub, mul, div, single, is_nonneg, print_1, print_3}

  -- data->values, the index, and the two arrays of before.
  pub record Progress : Type 0 where
    pub values : ℕ → Double
    pub i : ℕ
    pub epackage_before : ℕ → Double
    pub edram_before : ℕ → Double

  pub data End : Type 0 where
    completed : Progress → End
    overflowed unfinished : End

  -- An inner loop, for `n` sockets from `j` on: values, the index and the energies of before.
  unfoldable pub socket_loop :
      (ℕ → Double)
      → Double
      → ℕ
      → ℕ
      → (ℕ → Double) × ℕ × (ℕ → Double)
      → Option ((ℕ → Double) × ℕ × (ℕ → Double))
  socket_loop after time_interval zero j s = some s
  socket_loop after time_interval (suc n) j (values, i, before) =
      store i (single (div (single (sub (after j) (before j))) time_interval)) values >>= λ values'.
      socket_loop after time_interval n (suc j)
        (values', suc i, λ k. if k == j then after k else before k)

  -- The first test of a round, and the second.
  unfoldable pub total_test : Globals fl → (ℕ → Bytes) → Double → Progress → Option Progress
  total_test g events time_interval p =
      if has_metric (events p.i) (codes "total_power")
      then (socket_loop g.epackage_after time_interval g.num_sockets 0
            (p.values, p.i, p.epackage_before)
          >>= (λ r. some (record p { values = r.0; i = r.1; epackage_before = r.2 })))
      else some p

  unfoldable pub dram_test : Globals fl → (ℕ → Bytes) → Double → Progress → Option Progress
  dram_test g events time_interval p =
      if has_metric (events p.i) (codes "dram_power")
      then (socket_loop g.edram_after time_interval g.num_sockets 0 (p.values, p.i, p.edram_before)
          >>= (λ r. some (record p { values = r.0; i = r.1; edram_before = r.2 })))
      else some p

  unfoldable pub sample_loop : ℕ → Globals fl → (ℕ → Bytes) → ℕ → Double → Progress → End
  sample_loop zero g events num_events time_interval p = unfinished
  sample_loop (suc fuel) g events num_events time_interval p = elim (ltb p.i num_events) [
    | false ↦ completed p
    | true ↦ elim (total_test g events time_interval p >>= dram_test g events time_interval) [
      | none ↦ overflowed
      | some p' ↦ sample_loop fuel g events num_events time_interval p'
    ]
  ]

  -- `none` is an overflow, or a loop that the fuel does not end.
  unfoldable pub after_loop : Globals fl → PluginMetrics Double → End → Option (Rapl fl)
  after_loop g m unfinished = none
  after_loop g m overflowed = none
  after_loop g m (completed p) = some (
    record g {
      before_time = g.after_time;
      epackage_before = p.epackage_before;
      edram_before = p.edram_before;
    },
    record m { values = p.values },
  )

  unfoldable pub sample : ℕ → Option (ℕ → ℕ) → ℕ × ℕ → Rapl fl → Option (Rapl fl)
  sample fuel counters clock (g, m) =
      let after_time = seconds fl clock in
      let energies : (ℕ → Double) × (ℕ → Double) = (g.epackage_after, g.edram_after) in
      (if g.rapl_is_available
        then rapl_stat_read fl counters g.num_sockets g.denominator energies
        else some energies)
      >>= λ e.
          let h = record g { after_time = after_time; epackage_after = e.0; edram_after = e.1 } in
          let p : Progress = record {
            values = m.values;
            i = 0;
            epackage_before = g.epackage_before;
            edram_before = g.edram_before;
          } in
          after_loop h m (sample_loop fuel h m.events m.num_events (sub after_time g.before_time) p)

  -- The loop of to_json, for `n` metrics from `i` on.
  unfoldable pub append_metrics : PluginMetrics Double → ℕ → ℕ → Bytes → Bytes
  append_metrics m zero i json = json
  append_metrics m (suc n) i json = append_metrics m n (suc i) (
      if is_nonneg (m.values i)
      then json ++ codes ",\"" ++ m.events i ++ codes "\":" ++ print_3 (m.values i)
      else json)

  unfoldable pub to_json : Rapl fl → Bytes
  to_json (g, m) = append_metrics m m.num_events 0 (
      codes "\"type\":\"RAPL_power\""
      ++ codes ",\"local_timestamp\":\""
      ++ print_1 (mul g.after_time (literal 1000 0))
      ++ codes "\"")
