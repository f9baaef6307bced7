-- ===== src/Plugins/SysPower/Start.antt =====
-- What `mf_Linux_sys_power_init` leaves for the calls that follow, and what a sample keeps of it.
use phantom_monitoring_clien.Base.{
  ℕ, ◌≡◌, refl, ◌∙◌, List, [], ◌∷◌, Bool, true, false, Bytes, codes, if◌then◌else◌, Bool-cases, inl,
  inr,
}
use phantom_monitoring_clien.Base.Float.{FloatOps}
use phantom_monitoring_clien.Plugins.Metrics.{fill, flag_init}
use phantom_monitoring_clien.Plugins.Fill.{with_some, kept, row, fill-kept}
use phantom_monitoring_clien.Plugins.SysPower.{
  linux_sys_power_metrics, Machine, Globals, create_perf_stat_counter,
}
use phantom_monitoring_clien.Plugins.SysPower.Sample.{
  names, part_names, has_all, has_cpu_stat, has_net_stat, has_memory_or_disk, Power, ready, init,
  start_all, start_some, start_cpu, start_net, start_memory, start_io, cpu_part, memory_part,
  net_part, disk_part, when, sample_all, sample_some, readings, sample,
}

abbrev pub part_list : ℕ → List (Bool × Bytes)
part_list flag =
    (has_cpu_stat flag, codes "estimated_CPU_power")
    ∷ (has_net_stat flag, codes "estimated_wifi_power")
    ∷ (has_memory_or_disk flag, codes "estimated_memory_power")
    ∷ (has_memory_or_disk flag, codes "estimated_disk_power")
    ∷ []

abbrev pub name_list : ℕ → List (Bool × Bytes)
name_list flag =
    if has_all flag then (true, codes "estimated_total_power") ∷ part_list flag else part_list flag

pub names-with_some : (flag : ℕ) → names flag ≡ with_some (name_list flag)
unfolding names part_names
names-with_some flag = elim (Bool-cases (has_all flag)) [
  | inl all ↦ rw all refl
  | inr part ↦ rw part refl
]

pub filled_names :
    (flag : ℕ) (a : ℕ → Bytes)
    → let r = fill (names flag) (a, 0) in row r.0 0 r.1 ≡ kept (name_list flag)
filled_names flag a = rw (names-with_some flag) (fill-kept (name_list flag) a)

abbrev pub flag_of : List Bytes → ℕ
flag_of events = (flag_init linux_sys_power_metrics events 0).1

module _ (fl : FloatOps) where
  pub init-ready :
      (m : Machine fl) (events : List Bytes) (s : Power fl)
      → s.0.flag ≡ 0
      → (flag_init linux_sys_power_metrics events 0).0 ≡ true
      → init fl m events s ≡ (true, ready fl m (flag_of events) s)
  unfolding init
  init-ready m events s fresh ok = simp (init, fresh, ok) refl

  if-flag :
      (b : Bool) (x y : Globals fl) (f : ℕ)
      → x.flag ≡ f
      → y.flag ≡ f
      → (if b then x else y).flag ≡ f
  if-flag true x y f h i = h
  if-flag false x y f h i = i

  step-flag :
      (b : Bool) (part : Globals fl → Globals fl) (g : Globals fl)
      → ((h : Globals fl) → (part h).flag ≡ h.flag)
      → (if b then part g else g).flag ≡ g.flag
  step-flag true part g keeps = keeps g
  step-flag false part g keeps = refl

  start_some-flag : (m : Machine fl) (g : Globals fl) → (start_some fl m g).flag ≡ g.flag
  unfolding start_some start_cpu start_net start_memory start_io create_perf_stat_counter
  start_some-flag m g =
      let c = if has_cpu_stat g.flag then start_cpu fl m g else g in
      let n = if has_net_stat g.flag then start_net fl m c else c in
      step-flag (has_memory_or_disk g.flag) (λ h. start_io fl m (start_memory fl m h)) n (λ h. refl)
      ∙ step-flag (has_net_stat g.flag) (start_net fl m) c (λ h. refl)
      ∙ step-flag (has_cpu_stat g.flag) (start_cpu fl m) g (λ h. refl)

  pub ready-flag : (m : Machine fl) (f : ℕ) (s : Power fl) → (ready fl m f s).0.flag ≡ f
  unfolding ready start_all start_cpu start_net start_memory start_io create_perf_stat_counter
  ready-flag m f s =
      let flagged = record s.0 { flag = f } in
      if-flag (has_all f) (start_all fl m flagged) (start_some fl m flagged) f refl
        (start_some-flag m flagged)

  when-flag :
      (b : Bool) (part : Globals fl → fl.Double × Globals fl) (g : Globals fl)
      → ((h : Globals fl) → (part h).1.flag ≡ h.flag)
      → (when fl b part g).1.flag ≡ g.flag
  when-flag true part g keeps = keeps g
  when-flag false part g keeps = refl

  sample_some-flag :
      (m : Machine fl) (t : fl.Double) (g : Globals fl) → (sample_some fl m t g).1.flag ≡ g.flag
  unfolding sample_some cpu_part net_part memory_part disk_part
  sample_some-flag m t g =
      when-flag _ (disk_part fl) _ (λ h. refl)
      ∙ when-flag _ (memory_part fl m) _ (λ h. refl)
      ∙ when-flag _ (net_part fl m) _ (λ h. refl)
      ∙ when-flag _ (cpu_part fl m) g (λ h. refl)

  pub sample-flag : (m : Machine fl) (s : Power fl) → (sample fl m s).0.flag ≡ s.0.flag
  unfolding sample readings sample_all cpu_part net_part memory_part disk_part
  sample-flag m s = elim (Bool-cases (has_all s.0.flag)) [
    | inl all ↦ rw all refl
    | inr part ↦ rw part (sample_some-flag m _ _)
  ]
