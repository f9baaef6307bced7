-- ===== src/Plugins/Registration.antt =====
-- The plugin files src/plugins/*/src/mf_plugin_*.c, which are alike: the init function gives the
-- connector the metrics that are on in the plugin's section, and registers the hook if it succeeds;
-- the hook samples and formats. Here they are for Linux_resources and Linux_sys_power.
use phantom_monitoring_clien.Base.{
  ◌≡◌, refl, List, Option, none, some, Bool, true, false, Bytes, codes, take, if◌then◌else◌, ℤ,
  Bool-cases, inl, inr,
}
use phantom_monitoring_clien.Base.Float.{FloatOps}
use phantom_monitoring_clien.Parser.Hash.{HashTable}
use phantom_monitoring_clien.Parser.{Parser, MfpData, mfp_get_data_filtered_by_value}
use phantom_monitoring_clien.Agent.Manager.{HookType, ConcurrentQueue, PluginManager, register_hook}
use phantom_monitoring_clien.Agent.Discover.{is_failure}
use phantom_monitoring_clien.Agent.Discover.Loaded.{Registers}
use phantom_monitoring_clien.Plugins.LinuxResources
use phantom_monitoring_clien.Plugins.LinuxResources.Sample as ResourcesSample
use phantom_monitoring_clien.Plugins.SysPower
use phantom_monitoring_clien.Plugins.SysPower.Sample as PowerSample

-- The globals of a plugin file; `state` is monitoring_data and the globals of the connector.
pub record Plugin (State : Type 0) : Type 0 where
  pub conf_data : MfpData
  pub is_initialized : Bool
  pub state : State

module _ {Hook State : Type 0} (ecq : ConcurrentQueue (HookType Hook)) (h : HashTable) where
  -- `init_mf_plugin_X`, with its result, the manager and the globals after it.
  unfoldable pub init_plugin :
      Bytes
      → (List Bytes → State → Bool × State)
      → Hook
      → Parser h
      → Plugin State
      → PluginManager ecq
      → (ℤ × PluginManager ecq) × Plugin State
  init_plugin section connector_init hook config p pm =
      let on = mfp_get_data_filtered_by_value h config section p.conf_data (some (codes "on")) in
      let r = connector_init (take on.size on.keys) p.state in
      if r.0
      then (
        (ℤ.pos 1, register_hook ecq pm section hook),
        record { conf_data = on; is_initialized = true; state = r.1 },
      )
      else ((ℤ.pos 0, pm), record p { conf_data = on; state = r.1 })

-- `mf_plugin_X_hook`; `none` is NULL.
unfoldable pub plugin_hook :
    {State : Type 0}
    → (State → State)
    → (State → Bytes)
    → Plugin State
    → Option Bytes × Plugin State
plugin_hook sample to_json p =
    let s = sample p.state in
    if p.is_initialized then (some (to_json s), record p { state = s }) else (none, p)

module _ {Hook : Type 0} (ecq : ConcurrentQueue (HookType Hook)) (h : HashTable)
    (fl : FloatOps) where
  unfoldable pub init_mf_plugin_linux_resources :
      LinuxResources.Machine fl
      → Hook
      → Parser h
      → Plugin (LinuxResources.Resources fl)
      → PluginManager ecq
      → (ℤ × PluginManager ecq) × Plugin (LinuxResources.Resources fl)
  unfolding init_plugin
  init_mf_plugin_linux_resources m hook config p pm =
      init_plugin ecq h (codes "mf_plugin_Linux_resources") (LinuxResources.init fl m) hook config p
        pm

  unfoldable pub mf_plugin_linux_resources_hook :
      LinuxResources.Machine fl
      → Plugin (LinuxResources.Resources fl)
      → Option Bytes × Plugin (LinuxResources.Resources fl)
  unfolding plugin_hook
  mf_plugin_linux_resources_hook m p =
      plugin_hook (ResourcesSample.sample fl m) (ResourcesSample.to_json fl) p

  unfoldable pub init_mf_plugin_linux_sys_power :
      SysPower.Machine fl
      → Hook
      → Parser h
      → Plugin (PowerSample.Power fl)
      → PluginManager ecq
      → (ℤ × PluginManager ecq) × Plugin (PowerSample.Power fl)
  unfolding init_plugin
  init_mf_plugin_linux_sys_power m hook config p pm =
      init_plugin ecq h (codes "mf_plugin_Linux_sys_power") (PowerSample.init fl m) hook config p pm

  unfoldable pub mf_plugin_linux_sys_power_hook :
      SysPower.Machine fl
      → Plugin (PowerSample.Power fl)
      → Option Bytes × Plugin (PowerSample.Power fl)
  unfolding plugin_hook
  mf_plugin_linux_sys_power_hook m p =
      plugin_hook (PowerSample.sample fl m) (PowerSample.to_json fl) p

module _ {Hook State : Type 0} (ecq : ConcurrentQueue (HookType Hook)) (h : HashTable) where
  -- The init function of a plugin, with its globals as it finds them, keeps the contract under which
  -- the agent matches hooks with names: it registers one hook, under its section's name, if it
  -- succeeds, and none if it fails.
  pub init_plugin-Registers :
      (section : Bytes) (connector_init : List Bytes → State → Bool × State) (hook : Hook)
      (config : Parser h) (p : Plugin State)
      → Registers ecq
          (λ pm. (init_plugin ecq h section connector_init hook config p pm).0)
          (record { hook = hook; name = section })
  unfolding init_plugin register_hook
  init_plugin-Registers section connector_init hook config p pm =
      let on = mfp_get_data_filtered_by_value h config section p.conf_data (some (codes "on")) in
      elim (Bool-cases (connector_init (take on.size on.keys) p.state).0) [
        | inl ok ↦ rw ok (ecq.contents-enqueue _ _)
        | inr bad ↦ rw bad refl
      ]

  -- After the init function of a plugin that was not initialised before, the hook gives the sample as
  -- JSON if the init function has succeeded, and NULL, with the globals unchanged, if it has failed.
  pub plugin_hook-init_plugin :
      (section : Bytes) (connector_init : List Bytes → State → Bool × State) (hook : Hook)
      (config : Parser h) (p : Plugin State) (pm : PluginManager ecq) (sample : State → State)
      (to_json : State → Bytes)
      → p.is_initialized ≡ false
      → let r = init_plugin ecq h section connector_init hook config p pm in
        let s = sample r.1.state in
        plugin_hook sample to_json r.1
        ≡ (if is_failure r.0.0 then (none, r.1) else (some (to_json s), record r.1 { state = s }))
  unfolding init_plugin plugin_hook
  plugin_hook-init_plugin section connector_init hook config p pm sample to_json fresh =
      let on = mfp_get_data_filtered_by_value h config section p.conf_data (some (codes "on")) in
      elim (Bool-cases (connector_init (take on.size on.keys) p.state).0) [
        | inl ok ↦ rw ok refl
        | inr bad ↦ rw (bad, fresh) refl
      ]
