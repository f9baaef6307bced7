-- ===== src/Plugins/LinuxResources/Aligned.antt =====
-- The names that `mf_Linux_resources_init` leaves and the values that `mf_Linux_resources_sample`
-- stores stand at the same indices.
use phantom_monitoring_clien.Base.{
  ℕ, zero, suc, ◌<◌, ◌≡◌, refl, sym, ap, subst, ◌∙◌, List, [], ◌∷◌, Option, none, some, Bool, true,
  false, Bytes, codes, str_eq, if◌then◌else◌, map, get_or, has_flag, arith,
}
use phantom_monitoring_clien.Base.Float.{FloatOps}
use phantom_monitoring_clien.Plugins.Metrics.{
  fill, flag_init, flag_init_lem, flag_init_some, contains,
}
use phantom_monitoring_clien.Plugins.Fill.{rank, stored, fill-flagged}
use phantom_monitoring_clien.Plugins.LinuxResources.{
  linux_resources_metrics, Machine, Globals, Resources, init, named, ready, seconds, cpu_stat_read,
  resources_net_stat_read, resources_io_stat_read, ram_usage_rate_read, swap_usage_rate_read,
}
use phantom_monitoring_clien.Plugins.LinuxResources.Sample.{
  sample, readings, read_counters, cpu_usage_rate, throughput, net_bytes, io_bytes,
}

-- Which metrics some events ask for.
abbrev pub requested : List Bytes → List Bool
requested events = map (contains events) linux_resources_metrics

module _ (fl : FloatOps) where
  abbrev flags : ℕ → List Bool
  flags f =
      has_flag f 0x01 ∷ has_flag f 0x02 ∷ has_flag f 0x04 ∷ has_flag f 0x08 ∷ has_flag f 0x10 ∷ []

  flags-requested :
      (events : List Bytes)
      → flags (flag_init linux_resources_metrics events 0).1 ≡ requested events
  flags-requested events =
      let bit =
        λ (k : ℕ) (lt : k < 5). flag_init_lem linux_resources_metrics events k (omega arith) lt in
      rw
        (
          bit 0 (omega arith),
          bit 1 (omega arith),
          bit 2 (omega arith),
          bit 3 (omega arith),
          bit 4 (omega arith),
        )
        refl

  -- What a sample is to store under a name, from the counters of before and what it reads now.
  abbrev pub reading : Machine fl → Globals fl → Bytes → Option fl.Double
  reading m g name =
      let elapsed = fl.sub (seconds fl m) g.before_time in
      if str_eq name (codes "CPU_usage_rate")
      then cpu_usage_rate fl g.cpu_stat_before (cpu_stat_read m.cpu_junk m.stat g.cpu_stat_after).1
      else if str_eq name (codes "RAM_usage_rate")
      then some (ram_usage_rate_read fl m.meminfo)
      else if str_eq name (codes "swap_usage_rate")
      then some (swap_usage_rate_read fl m.meminfo)
      else if str_eq name (codes "net_throughput")
      then throughput fl
          (net_bytes fl g.net_stat_before (resources_net_stat_read fl m g.net_stat_after)) elapsed
      else if str_eq name (codes "io_throughput")
      then throughput fl
          (io_bytes fl g.io_stat_before (resources_io_stat_read fl m g.io_stat_after)) elapsed
      else none

  -- The entries of a sample are these readings.
  readings-reading :
      (m : Machine fl) (g : Globals fl) (k : ℕ)
      → k < 5
      → get_or (flags g.flag) k false ≡ true
      → (get_or (readings fl m (read_counters fl m g)) k (false, none)).1
        ≡ reading m g (get_or linux_resources_metrics k [])
  unfolding readings read_counters str_eq
  readings-reading m g zero lt on = rw on refl
  readings-reading m g (suc zero) lt on = refl
  readings-reading m g (suc (suc zero)) lt on = refl
  readings-reading m g (suc (suc (suc zero))) lt on = rw on refl
  readings-reading m g (suc (suc (suc (suc zero)))) lt on = rw on refl
  readings-reading m g (suc (suc (suc (suc (suc k))))) lt on = absurd (omega arith)

  abbrev flag_of : List Bytes → ℕ
  flag_of events = (flag_init linux_resources_metrics events 0).1

  init-ready :
      (m : Machine fl) (events : List Bytes) (s : Resources fl)
      → s.0.flag ≡ 0
      → (flag_init linux_resources_metrics events 0).0 ≡ true
      → init fl m events s ≡ (true, ready fl m (flag_of events) s)
  unfolding init
  init-ready m events s fresh ok = simp (init, fresh, ok) refl

  metric-name :
      (f k : ℕ)
      → k < 5
      → (get_or (named fl f) k (false, none)).1 ≡ some (get_or linux_resources_metrics k [])
  unfolding named
  metric-name f zero lt = refl
  metric-name f (suc zero) lt = refl
  metric-name f (suc (suc zero)) lt = refl
  metric-name f (suc (suc (suc zero))) lt = refl
  metric-name f (suc (suc (suc (suc zero)))) lt = refl
  metric-name f (suc (suc (suc (suc (suc k))))) lt = absurd (omega arith)

  names-at :
      (f k : ℕ) (a : ℕ → Bytes)
      → k < 5
      → get_or (flags f) k false ≡ true
      → (rank (flags f) k < (fill (named fl f) (a, 0)).1)
        × ((fill (named fl f) (a, 0)).0 (rank (flags f) k) ≡ get_or linux_resources_metrics k [])
  unfolding named
  names-at f k a lt on =
      let (inside, h) = fill-flagged (named fl f) a k on in
      (inside, h ∙ ap (λ v. stored v (a (rank (flags f) k))) (metric-name f k lt))

  values-at :
      (m : Machine fl) (g : Globals fl) (k : ℕ) (a : ℕ → fl.Double)
      → get_or (flags g.flag) k false ≡ true
      → (fill (readings fl m g) (a, 0)).0 (rank (flags g.flag) k)
        ≡ stored (get_or (readings fl m g) k (false, none)).1 (a (rank (flags g.flag) k))
  unfolding readings
  values-at m g k a on = (fill-flagged (readings fl m g) a k on).1

  requested-at :
      (events : List Bytes) (k : ℕ)
      → k < 5
      → contains events (get_or linux_resources_metrics k []) ≡ true
      → get_or (requested events) k false ≡ true
  requested-at events zero lt asked = asked
  requested-at events (suc zero) lt asked = asked
  requested-at events (suc (suc zero)) lt asked = asked
  requested-at events (suc (suc (suc zero))) lt asked = asked
  requested-at events (suc (suc (suc (suc zero)))) lt asked = asked
  requested-at events (suc (suc (suc (suc (suc k))))) lt asked = absurd (omega arith)

  -- Of what an initialisation returns: it succeeds, index `i` is below num_events, the event there is
  -- metric k, and a sample that follows stores the reading of the metric of this name there, or leaves
  -- the old value where the reading made no progress.
  abbrev pub At : Machine fl → ℕ → Bool × Resources fl → ℕ → Type 0
  At now k (ok, t) i =
      let u = sample fl now t in
      (ok ≡ true)
      × (i < u.1.num_events)
      × (u.1.events i ≡ get_or linux_resources_metrics k [])
      × (u.1.values i ≡ stored (reading now t.0 (u.1.events i)) (t.1.values i))

  -- Take an initialisation with the flag at 0, as the program starts, and a sample that follows, and a
  -- metric that is among the events. Then the initialisation succeeds, and at one index below
  -- num_events, the number of metrics asked for that come before it in the table, the events have the
  -- name of this metric, and the values, after the sample, its new reading, or their old value where
  -- the reading made no progress.
  pub sample-aligned :
      (boot now : Machine fl) (events : List Bytes) (s : Resources fl) (k : ℕ)
      → s.0.flag ≡ 0
      → k < 5
      → contains events (get_or linux_resources_metrics k []) ≡ true
      → At now k (init fl boot events s) (rank (requested events) k)
  unfolding sample ready read_counters
  sample-aligned boot now events s k fresh lt asked =
      let ok = flag_init_some linux_resources_metrics events k (omega arith) (omega arith) asked in
      let e = flags-requested events in
      let on : get_or (flags (flag_of events)) k false ≡ true =
        subst (λ l. get_or l k false ≡ true) (sym e) (requested-at events k lt asked) in
      let (inside, name) = names-at (flag_of events) k s.1.events lt on in
      let r = ready fl boot (flag_of events) s in
      let same : (fill (named fl (flag_of events)) (s.1.events, 0)).0
            (rank (flags (flag_of events)) k)
          ≡ get_or linux_resources_metrics k [] =
        name in
      let value =
        values-at now (read_counters fl now r.0) k s.1.values on
        ∙ ap (λ v. stored v (s.1.values (rank (flags (flag_of events)) k)))
            (readings-reading now r.0 k lt on ∙ ap (reading now r.0) (sym same)) in
      subst (λ r. At now k r (rank (requested events) k)) (sym (init-ready boot events s fresh ok))
        (subst (λ l. At now k (true, r) (rank l k)) e (refl, inside, name, value))
