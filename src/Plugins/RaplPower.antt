-- ===== src/Plugins/RaplPower.antt =====
-- src/plugins/RAPL_power/src/mf_RAPL_power_connector.c: the power of packages and memory, from the energy
-- counters of PAPI. PAPI, hwloc and the instruction cpuid are a parameter. A store behind the 32 slots of
-- the metrics or the four sockets of the globals is `none`. A counter is a number that is not negative.
use phantom_monitoring_clien.Base.{
  ℕ, zero, suc, ◌+◌, ◌*◌, List, [], ◌∷◌, ◌++◌, Option, none, some, Bool, true, false, ◌&&◌, not,
  Bytes, codes, str_eq, strstr, if◌then◌else◌, ◌==◌, ltb, leb, length, ◌>>=◌,
}
use phantom_monitoring_clien.Base.Float.{FloatOps}
use phantom_monitoring_clien.Base.Numeral.Decimal.{decimal}
use phantom_monitoring_clien.Plugins.Metrics.{PluginMetrics}
use phantom_monitoring_clien.Plugins.Nvml.{store_all}
pub mod Sample
pub mod Blocks
pub mod Named

-- What PAPI and the machine answer: the components with their names and whether they are disabled, the
-- number of sockets if hwloc knows it, and the model number of the CPU.
pub record Papi : Type 0 where
  pub is_initialized : Bool
  pub library_init : Bool
  pub components : List (Bytes × Bool)
  pub sockets : Option ℕ
  pub create_eventset : Bool
  pub start : Bool
  pub cpu_model : ℕ

unfoldable pub load_papi_library : Papi → Bool
load_papi_library p = if p.is_initialized then true else p.library_init

-- The first component whose name has "rapl" decides.
unfoldable pub check_rapl_component : List (Bytes × Bool) → Bool
check_rapl_component [] = false
check_rapl_component ((name, disabled) ∷ components) = elim (strstr name (codes "rapl")) [
  | none ↦ check_rapl_component components
  | some rest ↦ not disabled
]

unfoldable pub hardware_sockets_count : Papi → ℕ
hardware_sockets_count p = elim p.sockets [ none ↦ 0 | some n ↦ n ]

-- The names of the sockets `j` to `j + n - 1` for one of the two metrics.
unfoldable pub package_names : Bytes → ℕ → ℕ → List Bytes
package_names metric zero j = []
package_names metric (suc n) j =
    (codes "package" ++ (decimal j ++ (codes ":" ++ metric))) ∷ package_names metric n (suc j)

-- What the two tests of a round of the loop over the configured events store.
unfoldable pub event_names : ℕ → Bytes → List Bytes
event_names num_sockets event =
    (if str_eq event (codes "total_power")
      then package_names (codes "total_power") num_sockets 0
      else [])
    ++ (if str_eq event (codes "dram_power")
        then package_names (codes "dram_power") num_sockets 0
        else [])

-- The loop, on data->events and ii.
unfoldable pub name_events : ℕ → List Bytes → (ℕ → Bytes) × ℕ → Option ((ℕ → Bytes) × ℕ)
name_events num_sockets [] s = some s
name_events num_sockets (e ∷ es) (events, ii) =
    let names = event_names num_sockets e in
    store_all ii names events >>= λ events'. name_events num_sockets es (events', ii + length names)

module _ (fl : FloatOps) where
  open fl use {Double, of_nat, literal, add, mul, div, single}

  pub record Globals : Type 0 where
    pub rapl_is_available : Bool
    pub num_sockets : ℕ
    pub denominator : Double
    pub before_time : Double
    pub after_time : Double
    pub epackage_before : ℕ → Double
    pub edram_before : ℕ → Double
    pub epackage_after : ℕ → Double
    pub edram_after : ℕ → Double

  abbrev pub Rapl : Type 0
  Rapl = Globals × PluginMetrics Double

  unfoldable pub rapl_get_denominator : Papi → Double
  rapl_get_denominator p = if p.cpu_model == 15 then literal 153 1 else literal 1 0

  unfoldable pub rapl_init : Papi → List Bytes → Rapl → Option (Bool × Rapl)
  rapl_init p events (g, m) =
      let n = hardware_sockets_count p in
      let h = record g { num_sockets = n } in
      if load_papi_library p && check_rapl_component p.components
      then (if ltb 0 n && p.create_eventset
          then (name_events n events (m.events, 0) >>= (λ s. some (
            p.start,
            (
              record h { denominator = rapl_get_denominator p },
              record m { events = s.0; num_events = s.1 },
            ),
          )))
          else some (false, (h, m)))
      else some (false, (g, m))

  -- `values` is what PAPI_read leaves in the array, none where it fails.
  unfoldable pub rapl_stat_read :
      Option (ℕ → ℕ)
      → ℕ
      → Double
      → (ℕ → Double) × (ℕ → Double)
      → Option ((ℕ → Double) × (ℕ → Double))
  rapl_stat_read none num_sockets denominator energies = some energies
  rapl_stat_read (some values) num_sockets denominator (epackage, edram) =
      if leb num_sockets 4
      then some (
        λ j.
            if ltb j num_sockets
            then single (mul (of_nat (values (2 * j))) (literal 1 6))
            else epackage j,
        λ j.
            if ltb j num_sockets
            then single (div (single (mul (of_nat (values (2 * j + 1))) (literal 1 6))) denominator)
            else edram j,
      )
      else none

  unfoldable pub seconds : ℕ × ℕ → Double
  seconds (tv_sec, tv_nsec) =
      add (mul (of_nat tv_sec) (literal 1 0)) (div (of_nat tv_nsec) (literal 1000000000 0))

  -- `mf_RAPL_power_init` behind rapl_init.
  unfoldable pub begin_sampling : Option (ℕ → ℕ) → ℕ × ℕ → Bool × Rapl → Option (Bool × Rapl)
  begin_sampling values clock (available, (g, m)) =
      let h = record g { rapl_is_available = available } in
      if available && not (m.num_events == 0)
      then (rapl_stat_read values g.num_sockets g.denominator (g.epackage_before, g.edram_before)
          >>= (λ e. some (
            true,
            (
              record h { epackage_before = e.0; edram_before = e.1; before_time = seconds clock },
              m,
            ),
          )))
      else some (false, (h, m))

  unfoldable pub init : Papi → Option (ℕ → ℕ) → ℕ × ℕ → List Bytes → Rapl → Option (Bool × Rapl)
  init p values clock events s = rapl_init p events s >>= begin_sampling values clock
