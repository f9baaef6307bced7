-- ===== src/Api/Power/CpuEnergy.antt =====
-- `cpu_freq_stat` of src/api/src/power_monitor.c: the energy of the CPUs, in millijoule, from the time
-- that each has spent at each of its frequencies. Its arithmetic is that of floats.
use phantom_monitoring_clien.Base.{
  ℕ, suc, ◌-◌, List, [], ◌∷◌, Option, none, some, Bool, Bytes, codes, if◌then◌else◌, length, take,
  get_or, starts_with, scan_fields,
}
use phantom_monitoring_clien.Base.Float.{FloatOps}
use phantom_monitoring_clien.Plugins.ProcFs.{File}

-- The directory of the CPUs, and the files time_in_state; `freqs` is not initialised.
pub record CpuFiles : Type 0 where
  pub has_cpu0_stats : Bool
  pub cpu_dir : Option (List Bytes)
  pub time_in_state : Bytes → File
  pub freqs_junk : ℕ → ℕ

-- The times that `sscanf(line, "%llu %llu", &tmp, &freqs[i])` leaves, for the lines of one file.
unfoldable pub read_freqs : (ℕ → ℕ) → ℕ → List Bytes → List ℕ
read_freqs freqs i [] = []
read_freqs freqs i (line ∷ lines) =
    get_or (scan_fields 2 line) 1 (freqs i) ∷ read_freqs freqs (suc i) lines

module _ (fl : FloatOps) (parameters_value : ℕ → fl.Double) where
  open fl use {Double, of_nat, literal, add, sub, mul, div, single}

  unfoldable pub power_range : Double
  power_range = single (sub (parameters_value 0) (parameters_value 1))

  -- energy_each of the frequency numbered `i`.
  unfoldable pub energy_each : ℕ → ℕ → ℕ → Double
  energy_each max_i i time =
      let share =
        single (div (single (mul power_range (single (of_nat i)))) (single (of_nat max_i))) in
      let power = single (sub (parameters_value 0) share) in
      single (mul (single (mul power (single (of_nat time)))) (literal 10 0))

  unfoldable pub sum_energies : ℕ → ℕ → List ℕ → Double → Double
  sum_energies max_i i [] energy_total = energy_total
  sum_energies max_i i (time ∷ times) energy_total =
      sum_energies max_i (suc i) times (single (add energy_total (energy_each max_i i time)))

  -- One entry of the directory, on freqs and energy_total; at most sixteen lines of its file count.
  unfoldable pub cpu_dirent : CpuFiles → Bytes → (ℕ → ℕ) × Double → (ℕ → ℕ) × Double
  cpu_dirent c name (freqs, energy_total) = elim (c.time_in_state name) [
    | none ↦ (freqs, energy_total)
    | some lines ↦
        let times = read_freqs freqs 0 (take 16 lines) in
        if starts_with (codes "cpu") name
        then (λ i. get_or times i (freqs i), sum_energies (length times - 1) 0 times energy_total)
        else (freqs, energy_total)
  ]

  unfoldable pub cpu_dirents : CpuFiles → List Bytes → (ℕ → ℕ) × Double → (ℕ → ℕ) × Double
  cpu_dirents c [] s = s
  cpu_dirents c (name ∷ names) s = cpu_dirents c names (cpu_dirent c name s)

  unfoldable pub cpu_freq_stat : CpuFiles → Option Double
  cpu_freq_stat c =
      if c.has_cpu0_stats
      then elim c.cpu_dir [
        | none ↦ none
        | some names ↦ some (cpu_dirents c names (c.freqs_junk, single (literal 0 0))).1
      ]
      else none
