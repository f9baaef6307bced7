-- ===== src/Agent/Discover.antt =====
-- src/agent/plugin_discover.c: the plugins of a directory that are not switched off are loaded.
-- The dynamic linker is a parameter: which files open, and the init function behind a symbol.
pub mod Loaded
use phantom_monitoring_clien.Base.{
  ℕ, ◌+◌, List, [], ◌∷◌, ◌++◌, Option, none, some, Bool, true, false, not, Bytes, codes, str_eq,
  strrchr, drop, if◌then◌else◌, ◌==◌, ℤ,
}
use phantom_monitoring_clien.Parser.Hash.{HashTable}
use phantom_monitoring_clien.Parser.{Parser, mfp_get_value}
use phantom_monitoring_clien.Agent.Manager.{HookType, ConcurrentQueue, PluginManager}

-- `rc <= 0`
abbrev pub is_failure : ℤ → Bool
is_failure (ℤ.pos n) = n == 0
is_failure (ℤ.negsuc n) = true

-- The text behind the last slash.
abbrev pub after_slash : Bytes → Bytes
after_slash s = elim (strrchr s b'/') [ none ↦ s | some (before, slashed) ↦ drop 1 slashed ]

-- The plugin's name, if the entry ends in ".so".
unfoldable pub plugin_name : Bytes → Option Bytes
plugin_name d_name = elim (strrchr d_name b'.') [
  | none ↦ none
  | some (before, last_dot) ↦
      if str_eq last_dot (codes ".so") then some (after_slash before) else none
]

module _ {Hook : Type 0} (ecq : ConcurrentQueue (HookType Hook)) where
  abbrev pub PluginInitFunc : Type 0
  PluginInitFunc = PluginManager ecq → ℤ × PluginManager ecq

  -- dlopen on a path, and dlsym on a path and a symbol.
  pub record Linker : Type 0 where
    pub opens : Bytes → Bool
    pub symbol : Bytes → Bytes → Option PluginInitFunc

  -- `pluginCount`, `plugins_name`, the list of handles (by path), and the plugin manager.
  pub record Discovery : Type 0 where
    pub plugin_count : ℕ
    pub plugins_name : ℕ → Option Bytes
    pub handle_list : List Bytes
    pub manager : PluginManager ecq

  -- Whether a handle comes back, and the manager after the init function.
  run_init : ℤ × PluginManager ecq → Bool × PluginManager ecq
  run_init (rc, pm) = if is_failure rc then (false, pm) else (true, pm)

  unfoldable pub load_plugin : Linker → Bytes → Bytes → PluginManager ecq → Bool × PluginManager ecq
  unfolding run_init
  load_plugin l name fullpath pm =
      if not (l.opens fullpath)
      then (false, pm)
      else elim (l.symbol fullpath (codes "init_" ++ name)) [
        | none ↦ (false, pm)
        | some init_func ↦ run_init (init_func pm)
      ]

  module _ (h : HashTable) (l : Linker) (config : Parser h) (dirname : Bytes) where
    abbrev pub fullpath_of : Bytes → Bytes
    fullpath_of d_name = dirname ++ (codes "/" ++ d_name)

    -- Switched off in the section `plugins`.
    unfoldable pub is_off : Bytes → Bool
    is_off name = str_eq (mfp_get_value h config (codes "plugins") name []) (codes "off")

    record_plugin : Bytes → Discovery → Bool × PluginManager ecq → Discovery
    record_plugin fullpath s (true, pm) = record s {
      plugin_count = s.plugin_count + 1;
      handle_list = fullpath ∷ s.handle_list;
      manager = pm;
    }
    record_plugin fullpath s (false, pm) = record s { manager = pm }

    -- The name is written before the plugin is loaded, also where that fails.
    write_name : Discovery → Bytes → Discovery
    write_name s name = record s {
      plugins_name = λ i. if i == s.plugin_count then some name else s.plugins_name i;
    }

    -- One directory entry.
    unfoldable pub visit_entry : Discovery → Bytes → Discovery
    unfolding record_plugin write_name
    visit_entry s d_name = elim (plugin_name d_name) [
      | none ↦ s
      | some name ↦
          if is_off name
          then s
          else record_plugin (fullpath_of d_name) (write_name s name)
              (load_plugin l name (fullpath_of d_name) s.manager)
    ]

    unfoldable pub visit_entries : Discovery → List Bytes → Discovery
    visit_entries s [] = s
    visit_entries s (d ∷ ds) = visit_entries (visit_entry s d) ds

  -- `none` is a directory that cannot be opened. The result is NULL unless a handle was kept.
  unfoldable pub discover_plugins :
      (h : HashTable)
      → Linker
      → Parser h
      → Bytes
      → Option (List Bytes)
      → PluginManager ecq
      → Option (List Bytes) × Discovery
  unfolding visit_entries
  discover_plugins h l config dirname entries pm =
      let start : Discovery = record {
        plugin_count = 0;
        plugins_name = λ i. none;
        handle_list = [];
        manager = pm;
      } in
      elim entries [
        | none ↦ (none, start)
        | some ds ↦
            let s = visit_entries h l config dirname start ds in
            (elim s.handle_list [ [] ↦ none | p ∷ ps ↦ some (p ∷ ps) ], s)
      ]

-- The handles that `cleanup_plugins` closes, in order.
unfoldable pub cleanup_plugins : Option (List Bytes) → List Bytes
cleanup_plugins none = []
cleanup_plugins (some handles) = handles
