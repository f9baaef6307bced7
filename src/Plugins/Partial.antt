-- ===== src/Plugins/Partial.antt =====
-- The plugin files of NVML, RAPL_power, CPU_temperature and Board_power (src/plugins/*/src/mf_plugin_*.c), which are like those
-- of Registration, but whose connectors can leave their bounds or exit: `none`.
use phantom_monitoring_clien.Base.{
  ℕ, ◌+◌, ◌≡◌, refl, List, Option, none, some, Bool, true, Bytes, codes, take, length, ltb, [],
  if◌then◌else◌, ℤ, ◌>>=◌,
}
use phantom_monitoring_clien.Base.Float.{FloatOps}
use phantom_monitoring_clien.Parser.Hash.{HashTable}
use phantom_monitoring_clien.Parser.{Parser, MfpData, mfp_get_data_filtered_by_value, mfp_get_value}
use phantom_monitoring_clien.Agent.Manager.{HookType, ConcurrentQueue, PluginManager, register_hook}
use phantom_monitoring_clien.Plugins.Registration.{Plugin, init_plugin}
use phantom_monitoring_clien.Plugins.Nvml
use phantom_monitoring_clien.Plugins.RaplPower
use phantom_monitoring_clien.Plugins.RaplPower.Sample as RaplSample
use phantom_monitoring_clien.Plugins.CpuTemperature
use phantom_monitoring_clien.Plugins.BoardPower
use phantom_monitoring_clien.Plugins.BoardPower.Sample as BoardSample

module _ {Hook State : Type 0} (ecq : ConcurrentQueue (HookType Hook)) (h : HashTable) where
  -- What follows the connector's init.
  unfoldable pub after_init :
      Bytes
      → Hook
      → Plugin State
      → PluginManager ecq
      → MfpData
      → Bool × State
      → (ℤ × PluginManager ecq) × Plugin State
  after_init section hook p pm on r =
      if r.0
      then (
        (ℤ.pos 1, register_hook ecq pm section hook),
        record { conf_data = on; is_initialized = true; state = r.1 },
      )
      else ((ℤ.pos 0, pm), record p { conf_data = on; state = r.1 })

  unfoldable pub init_partial :
      Bytes
      → (List Bytes → State → Option (Bool × State))
      → Hook
      → Parser h
      → Plugin State
      → PluginManager ecq
      → Option ((ℤ × PluginManager ecq) × Plugin State)
  init_partial section connector_init hook config p pm =
      let on = mfp_get_data_filtered_by_value h config section p.conf_data (some (codes "on")) in
      connector_init (take on.size on.keys) p.state >>= λ r.
      some (after_init section hook p pm on r)

  -- Where the connector's init stays in bounds, the plugin's is the one of Registration.
  init_partial-init_plugin :
      (section : Bytes) (connector_init : List Bytes → State → Option (Bool × State)) (hook : Hook)
      (config : Parser h) (p : Plugin State) (pm : PluginManager ecq) (r : Bool × State)
      → (let on = mfp_get_data_filtered_by_value h config section p.conf_data (some (codes "on")) in
          connector_init (take on.size on.keys) p.state ≡ some r)
      → init_partial section connector_init hook config p pm
        ≡ some (init_plugin ecq h section (λ events s. r) hook config p pm)
  unfolding init_partial after_init init_plugin
  init_partial-init_plugin section connector_init hook config p pm r e = rw e refl

-- `mf_plugin_X_hook`; the inner `none` is NULL.
unfoldable pub hook_partial :
    {State : Type 0}
    → (State → Option State)
    → (List Bytes → State → Bytes)
    → Plugin State
    → Option (Option Bytes × Plugin State)
hook_partial sample to_json p =
    if p.is_initialized
    then (sample p.state >>= (λ s.
        some (some (to_json (take p.conf_data.size p.conf_data.keys) s), record p { state = s })))
    else some (none, p)

module _ {Hook : Type 0} (ecq : ConcurrentQueue (HookType Hook)) (h : HashTable)
    (fl : FloatOps) where
  unfoldable pub init_mf_plugin_nvml :
      Nvml.Nvml
      → Hook
      → Parser h
      → Plugin (Nvml.Gpus fl)
      → PluginManager ecq
      → Option ((ℤ × PluginManager ecq) × Plugin (Nvml.Gpus fl))
  unfolding init_partial
  init_mf_plugin_nvml l hook config p pm =
      init_partial ecq h (codes "mf_plugin_NVML") (Nvml.init fl l) hook config p pm

  -- The clock is given in seconds and nanoseconds.
  unfoldable pub mf_plugin_nvml_hook :
      Nvml.Nvml → ℕ × ℕ → Plugin (Nvml.Gpus fl) → Option (Option Bytes × Plugin (Nvml.Gpus fl))
  unfolding hook_partial
  mf_plugin_nvml_hook l clock p =
      hook_partial (Nvml.sample fl l) (λ events s. Nvml.to_json fl clock.0 clock.1 s events) p

  unfoldable pub init_mf_plugin_rapl_power :
      RaplPower.Papi
      → Option (ℕ → ℕ)
      → ℕ × ℕ
      → Hook
      → Parser h
      → Plugin (RaplPower.Rapl fl)
      → PluginManager ecq
      → Option ((ℤ × PluginManager ecq) × Plugin (RaplPower.Rapl fl))
  unfolding init_partial
  init_mf_plugin_rapl_power papi values clock hook config p pm =
      init_partial ecq h (codes "mf_plugin_RAPL_power") (RaplPower.init fl papi values clock) hook
        config p pm

  -- The fuel that RaplPower/Named shows to be enough.
  unfoldable pub mf_plugin_rapl_power_hook :
      Option (ℕ → ℕ)
      → ℕ × ℕ
      → Plugin (RaplPower.Rapl fl)
      → Option (Option Bytes × Plugin (RaplPower.Rapl fl))
  unfolding hook_partial
  mf_plugin_rapl_power_hook values clock p =
      hook_partial (λ s. RaplSample.sample fl (s.1.num_events + 1) values clock s)
        (λ events s. RaplSample.to_json fl s) p

  unfoldable pub init_mf_plugin_cpu_temperature :
      CpuTemperature.Sensors
      → Hook
      → Parser h
      → Plugin (CpuTemperature.Temperatures fl)
      → PluginManager ecq
      → Option ((ℤ × PluginManager ecq) × Plugin (CpuTemperature.Temperatures fl))
  unfolding init_partial
  init_mf_plugin_cpu_temperature l hook config p pm =
      init_partial ecq h (codes "mf_plugin_CPU_temperature") (CpuTemperature.init fl l) hook config
        p pm

  -- With what the sensors read, what `value` holds at first, and the clock.
  unfoldable pub mf_plugin_cpu_temperature_hook :
      CpuTemperature.Readings fl
      → fl.Double
      → ℕ × ℕ
      → Plugin (CpuTemperature.Temperatures fl)
      → Option (Option Bytes × Plugin (CpuTemperature.Temperatures fl))
  unfolding hook_partial
  mf_plugin_cpu_temperature_hook read value clock p =
      hook_partial (CpuTemperature.sample fl read value)
        (λ events s. CpuTemperature.to_json fl clock.0 clock.1 s) p

  -- The name of the board has 16 bytes, with its NUL.
  unfoldable pub init_board :
      (Bytes → fl.Double)
      → (Bytes → BoardPower.Context)
      → Bytes
      → List Bytes
      → BoardPower.Power fl
      → Option (Bool × BoardPower.Power fl)
  init_board atof contexts acme_name events s =
      if ltb (length acme_name) 16
      then BoardPower.init fl atof (contexts acme_name) events s
      else none

  unfoldable pub init_mf_plugin_board_power :
      (Bytes → fl.Double)
      → (Bytes → BoardPower.Context)
      → Hook
      → Parser h
      → Plugin (BoardPower.Power fl)
      → PluginManager ecq
      → Option ((ℤ × PluginManager ecq) × Plugin (BoardPower.Power fl))
  unfolding init_partial
  init_mf_plugin_board_power atof contexts hook config p pm =
      let section = codes "mf_plugin_Board_power" in
      let acme_name = mfp_get_value h config section (codes "ACME_BOARD_NAME") [] in
      init_partial ecq h section (init_board atof contexts acme_name) hook config p pm

  -- The hook does not look at the result of the sample.
  unfoldable pub mf_plugin_board_power_hook :
      List (Option (List BoardSample.IioSample))
      → ℕ × ℕ
      → Plugin (BoardPower.Power fl)
      → Option (Option Bytes × Plugin (BoardPower.Power fl))
  unfolding hook_partial
  mf_plugin_board_power_hook buffers clock p =
      hook_partial (λ s. BoardSample.sample fl buffers s >>= (λ r. some r.1))
        (λ events s. BoardSample.to_json fl clock.0 clock.1 events s.1) p
