-- ===== src/Plugins/SysPower/Aligned.antt =====
-- The names that `mf_Linux_sys_power_init` leaves and the values that `mf_Linux_sys_power_sample` stores
-- stand at the same indices.
use phantom_monitoring_clien.Base.{
  ℕ, zero, suc, ◌<◌, ◌≡◌, refl, sym, ap, subst, ◌∙◌, List, [], ◌∷◌, none, Bool, true, false, Bytes,
  some, codes, str_eq, add64, sub64, ◌/◌, if◌then◌else◌, get_or, Bool-cases, inl, inr, arith,
}
use phantom_monitoring_clien.Base.Float.{FloatOps}
use phantom_monitoring_clien.Plugins.Metrics.{fill, flag_init_some, contains}
use phantom_monitoring_clien.Plugins.Fill.{rank, flags_of, stored, with_some, fill-flagged}
use phantom_monitoring_clien.Plugins.SysPower.{
  linux_sys_power_metrics, Machine, Globals, seconds, power_net_stat_read, power_io_stat_read,
  sys_net_energy, sys_disk_energy, cpu_energy_read, memory_counter_read,
}
use phantom_monitoring_clien.Plugins.SysPower.Sample.{
  names, has_all, Power, has_cpu_stat, has_net_stat, has_memory_or_disk, ready, init, sample_all,
  sample_some, part_values, cpu_part, memory_part, net_part, disk_part, power, readings, sample,
}
use phantom_monitoring_clien.Plugins.SysPower.Start.{
  name_list, names-with_some, flag_of, init-ready, ready-flag,
}

-- Which entries of a report there are.
abbrev pub present : ℕ → List Bool
present f = flags_of (with_some (name_list f))

stored-with_some :
    {V : Type 0} (l : List (Bool × V)) (j : ℕ) (old default : V)
    → get_or (flags_of (with_some l)) j false ≡ true
    → stored (get_or (with_some l) j (false, none)).1 old ≡ (get_or l j (false, default)).1
stored-with_some [] j old default on = absurd (ground arith)
stored-with_some (x ∷ l) zero old default on = refl
stored-with_some (x ∷ l) (suc j) old default on = stored-with_some l j old default on

name-at :
    (f j : ℕ) (a : ℕ → Bytes)
    → get_or (present f) j false ≡ true
    → (rank (present f) j < (fill (names f) (a, 0)).1)
      × ((fill (names f) (a, 0)).0 (rank (present f) j) ≡ (get_or (name_list f) j (false, [])).1)
name-at f j a on = rw (names-with_some f) (
    let (inside, e) = fill-flagged (with_some (name_list f)) a j on in
    (inside, e ∙ stored-with_some (name_list f) j _ [] on))

module _ (fl : FloatOps) where
  readings-flags :
      (m : Machine fl) (g : Globals fl)
      → flags_of (readings fl m g).0 ≡ flags_of (with_some (name_list g.flag))
  unfolding readings sample_all sample_some part_values
  readings-flags m g = elim (Bool-cases (has_all g.flag)) [
    | inl all ↦ rw all refl
    | inr part ↦ rw part refl
  ]

  -- The energies since the values of before.
  abbrev pub cpu_energy : Machine fl → Globals fl → fl.Double
  cpu_energy m g = fl.single (fl.sub (cpu_energy_read fl m) g.cpu_energy_before)

  abbrev pub net_energy : Machine fl → Globals fl → fl.Double
  net_energy m g =
      (sys_net_energy fl g.net_stat_before (power_net_stat_read fl m g.net_stat_after)).0

  abbrev pub disk_energy : Machine fl → Globals fl → fl.Double
  disk_energy m g =
      (sys_disk_energy fl g.io_stat_before (power_io_stat_read fl m g.io_stat_after)).0

  -- The accesses of memory are those of blocks of 256 bytes and those that the counter has.
  abbrev pub memory_energy : Machine fl → Globals fl → fl.Double
  memory_energy m g =
      let io = power_io_stat_read fl m g.io_stat_after in
      let moved =
        sub64 (sub64 (add64 io.read_bytes io.write_bytes) g.io_stat_before.read_bytes)
          g.io_stat_before.write_bytes in
      let accesses = add64 (moved / 256) (sub64 (memory_counter_read fl m g) g.memaccess_before) in
      fl.single (
        fl.mul (fl.mul (fl.mul (fl.of_nat accesses) (fl.literal 209 2)) (fl.literal 32 1))
          (fl.literal 1 6))

  abbrev pub total_energy : Machine fl → Globals fl → fl.Double
  total_energy m g = fl.single (
      fl.add
        (fl.single
          (fl.add (fl.single (fl.add (cpu_energy m g) (memory_energy m g))) (net_energy m g)))
        (disk_energy m g))

  -- What a sample is to report under a name: the energy over the time since the sample before.
  abbrev pub energy_of : Machine fl → Globals fl → Bytes → fl.Double
  energy_of m g name =
      if str_eq name (codes "estimated_CPU_power")
      then cpu_energy m g
      else if str_eq name (codes "estimated_wifi_power")
      then net_energy m g
      else if str_eq name (codes "estimated_memory_power")
      then memory_energy m g
      else if str_eq name (codes "estimated_disk_power")
      then disk_energy m g
      else total_energy m g

  abbrev pub reported : Machine fl → Globals fl → Bytes → fl.Double
  reported m g name = fl.single (fl.div (energy_of m g name) (fl.sub (seconds fl m) g.before_time))

  reported-all :
      (m : Machine fl) (g : Globals fl) (j : ℕ)
      → has_all g.flag ≡ true
      → get_or (present g.flag) j false ≡ true
      → (get_or (readings fl m g).0 j (false, none)).1
        ≡ some (reported m g (get_or (name_list g.flag) j (false, [])).1)
  unfolding readings sample_all part_values cpu_part memory_part net_part disk_part power str_eq
      memory_counter_read
  reported-all m g zero all on = rw all refl
  reported-all m g (suc zero) all on = rw all refl
  reported-all m g (suc (suc zero)) all on = rw all refl
  reported-all m g (suc (suc (suc zero))) all on = rw all refl
  reported-all m g (suc (suc (suc (suc zero)))) all on = rw all refl
  reported-all m g (suc (suc (suc (suc (suc j))))) all on =
      let off : get_or (present g.flag) (suc (suc (suc (suc (suc j))))) false ≡ false =
        rw all refl in
      absurd cc

  part-flag :
      (f j : ℕ)
      → has_all f ≡ false
      → get_or (present f) j false
        ≡ get_or
            (has_cpu_stat f ∷ has_net_stat f ∷ has_memory_or_disk f ∷ has_memory_or_disk f ∷ [])
            j
            false
  part-flag f j part = rw part refl

  reported-part :
      (m : Machine fl) (g : Globals fl) (j : ℕ)
      → has_all g.flag ≡ false
      → get_or (present g.flag) j false ≡ true
      → (get_or (readings fl m g).0 j (false, none)).1
        ≡ some (reported m g (get_or (name_list g.flag) j (false, [])).1)
  unfolding readings sample_some part_values cpu_part memory_part net_part disk_part power str_eq
      memory_counter_read
  reported-part m g zero part on =
      let cpu : has_cpu_stat g.flag ≡ true = sym (part-flag g.flag 0 part) ∙ on in
      rw (part, cpu) refl
  reported-part m g (suc zero) part on =
      let net : has_net_stat g.flag ≡ true = sym (part-flag g.flag 1 part) ∙ on in
      elim (Bool-cases (has_cpu_stat g.flag)) [
        | inl cpu ↦ rw (part, cpu, net) refl
        | inr cpu ↦ rw (part, cpu, net) refl
      ]
  reported-part m g (suc (suc zero)) part on =
      let io : has_memory_or_disk g.flag ≡ true = sym (part-flag g.flag 2 part) ∙ on in
      elim (Bool-cases (has_cpu_stat g.flag)) [
        | inl cpu ↦ elim (Bool-cases (has_net_stat g.flag)) [
          | inl net ↦ rw (part, cpu, net, io) refl
          | inr net ↦ rw (part, cpu, net, io) refl
        ]
        | inr cpu ↦ elim (Bool-cases (has_net_stat g.flag)) [
          | inl net ↦ rw (part, cpu, net, io) refl
          | inr net ↦ rw (part, cpu, net, io) refl
        ]
      ]
  reported-part m g (suc (suc (suc zero))) part on =
      let io : has_memory_or_disk g.flag ≡ true = sym (part-flag g.flag 3 part) ∙ on in
      elim (Bool-cases (has_cpu_stat g.flag)) [
        | inl cpu ↦ elim (Bool-cases (has_net_stat g.flag)) [
          | inl net ↦ rw (part, cpu, net, io) refl
          | inr net ↦ rw (part, cpu, net, io) refl
        ]
        | inr cpu ↦ elim (Bool-cases (has_net_stat g.flag)) [
          | inl net ↦ rw (part, cpu, net, io) refl
          | inr net ↦ rw (part, cpu, net, io) refl
        ]
      ]
  reported-part m g (suc (suc (suc (suc j)))) part on =
      let off = part-flag g.flag (suc (suc (suc (suc j)))) part in absurd cc

  -- Entry j of a report is stored at index `i` of the two arrays.
  abbrev pub Stands : Machine fl → ℕ → ℕ → ℕ → Bool × Power fl → Type 0
  Stands now f j i r =
      let t = r.1 in
      let u = sample fl now t in
      (r.0 ≡ true)
      × (i < u.1.num_events)
      × (u.1.events i ≡ (get_or (name_list f) j (false, [])).1)
      × (u.1.values i ≡ reported now t.0 (u.1.events i))

  readings-reported :
      (m : Machine fl) (g : Globals fl) (f j : ℕ)
      → g.flag ≡ f
      → get_or (present f) j false ≡ true
      → (get_or (readings fl m g).0 j (false, none)).1
        ≡ some (reported m g (get_or (name_list f) j (false, [])).1)
  readings-reported m g f j e on =
      let on' : get_or (present g.flag) j false ≡ true =
        subst (λ x. get_or (present x) j false ≡ true) (sym e) on in
      subst
        (λ x.
          (get_or (readings fl m g).0 j (false, none)).1
          ≡ some (reported m g (get_or (name_list x) j (false, [])).1))
        e
        (elim (Bool-cases (has_all g.flag)) [
          | inl all ↦ reported-all m g j all on'
          | inr part ↦ reported-part m g j part on'
        ])

  value-at :
      (m : Machine fl) (g : Globals fl) (f j : ℕ) (a : ℕ → fl.Double)
      → g.flag ≡ f
      → get_or (present f) j false ≡ true
      → (fill (readings fl m g).0 (a, 0)).0 (rank (present f) j)
        ≡ stored (get_or (readings fl m g).0 j (false, none)).1 (a (rank (present f) j))
  value-at m g f j a e on =
      let r = (readings fl m g).0 in
      let same : flags_of r ≡ present f = readings-flags m g ∙ ap present e in
      subst (λ l. (fill r (a, 0)).0 (rank l j) ≡ stored (get_or r j (false, none)).1 (a (rank l j)))
        same (fill-flagged r a j (subst (λ l. get_or l j false ≡ true) (sym same) on)).1

  -- Take an initialisation with the flag at 0, as the program starts, whose events name one of the
  -- metrics, and a sample that follows. Then the initialisation succeeds, and each entry of the list of
  -- names that is there stands at one index below num_events, the number of entries before it that are
  -- there, and the value at this index is what is to be reported under this name: the energy of the CPU,
  -- of the network, of memory or of the disk since the values of before, or their sum, over the time.
  pub sample-Stands :
      (boot now : Machine fl) (events : List Bytes) (s : Power fl) (k j : ℕ)
      → s.0.flag ≡ 0
      → k < 5
      → contains events (get_or linux_sys_power_metrics k []) ≡ true
      → get_or (present (flag_of events)) j false ≡ true
      → Stands now (flag_of events) j (rank (present (flag_of events)) j) (init fl boot events s)
  unfolding ready sample
  sample-Stands boot now events s k j fresh lt asked on =
      let ok = flag_init_some linux_sys_power_metrics events k (omega arith) lt asked in
      let f = flag_of events in
      let t = ready fl boot f s in
      let (inside, name) = name-at f j s.1.events on in
      let value = value-at now t.0 f j s.1.values (ready-flag fl boot f s) on in
      let power_ = readings-reported now t.0 f j (ready-flag fl boot f s) on in
      subst (Stands now f j (rank (present f) j)) (sym (init-ready fl boot events s fresh ok)) (
        refl,
        inside,
        name,
        value
            ∙ ap (λ v. stored v (s.1.values (rank (present f) j))) power_
            ∙ ap (reported now t.0) (sym name),
      )
