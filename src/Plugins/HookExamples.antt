-- ===== src/Plugins/HookExamples.antt =====
-- The theorems on the plugin files at concrete inputs: Linux_resources with one metric on.
use phantom_monitoring_clien.Base.{
  ◌≡◌, refl, [], ◌∷◌, none, some, false, Bytes, codes, if◌then◌else◌, ℤ,
}
use phantom_monitoring_clien.Parser.Assoc.{assoc}
use phantom_monitoring_clien.Parser.{Parser, mfp_parse}
use phantom_monitoring_clien.Agent.Examples.{fifo, setting}
use phantom_monitoring_clien.Agent.Discover.{is_failure}
use phantom_monitoring_clien.Agent.Discover.Loaded.{Registers}
use phantom_monitoring_clien.Plugins.Examples.{whole, machine, before_start}
use phantom_monitoring_clien.Plugins.LinuxResources.{Resources, init}
use phantom_monitoring_clien.Plugins.LinuxResources.Sample.{sample, to_json}
use phantom_monitoring_clien.Plugins.Registration.{
  Plugin, init_mf_plugin_linux_resources, mf_plugin_linux_resources_hook, init_plugin-Registers,
  plugin_hook-init_plugin,
}

abbrev section : Bytes
section = codes "mf_plugin_Linux_resources"

config : Parser assoc
config =
    (mfp_parse assoc (record {
      error = ℤ.pos 0;
      calls = setting section (codes "RAM_usage_rate") (codes "on") ∷ [];
    })).0

abbrev plugin : Plugin (Resources whole)
plugin = record {
  conf_data = record { keys = []; values = []; size = 0 };
  is_initialized = false;
  state = before_start;
}

init_plugin-Registers_example :
    Registers fifo
      (λ pm. (init_mf_plugin_linux_resources fifo assoc whole machine section config plugin pm).0)
      (record { hook = section; name = section })
unfolding init_mf_plugin_linux_resources
init_plugin-Registers_example =
    init_plugin-Registers fifo assoc section (init whole machine) section config plugin

plugin_hook-init_plugin_example :
    let r =
      init_mf_plugin_linux_resources fifo assoc whole machine section config plugin
        (record { hook_queue = [] }) in
    let s = sample whole machine r.1.state in
    mf_plugin_linux_resources_hook fifo assoc whole machine r.1
    ≡ (if is_failure r.0.0 then (none, r.1) else (some (to_json whole s), record r.1 { state = s }))
unfolding init_mf_plugin_linux_resources mf_plugin_linux_resources_hook
plugin_hook-init_plugin_example =
    plugin_hook-init_plugin fifo assoc section (init whole machine) section config plugin
      (record { hook_queue = [] }) (sample whole machine) (to_json whole) refl
