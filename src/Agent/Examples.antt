-- ===== src/Agent/Examples.antt =====
-- The theorems on the agent at concrete inputs: a queue, a linker and a configuration of two plugins.
use phantom_monitoring_clien.Base.{
  ◌≡◌, refl, subst, List, [], ◌∷◌, ◌++◌, Option, none, some, true, Bytes, codes, str_eq, strrchr,
  drop, ◌<◌, ℤ, arith, get_elem?,
}
use phantom_monitoring_clien.Parser.Hash.{lookup}
use phantom_monitoring_clien.Parser.Assoc.{assoc, insert}
use phantom_monitoring_clien.Parser.{
  Parser, Setting, IniResult, mfp_parse, mfp_get_value, handle_parser, mfp_set_value,
}
use phantom_monitoring_clien.Agent.Manager.{
  HookType, ConcurrentQueue, PluginManager_new, register_hook,
}
use phantom_monitoring_clien.Agent.Discover.{
  Linker, PluginInitFunc, discover_plugins, visit_entries, visit_entry, plugin_name, is_off,
  load_plugin,
}
use phantom_monitoring_clien.Agent.Discover.Loaded.{Registers, Aligned, discover_plugins-Aligned}
use phantom_monitoring_clien.Agent.Hooks.{gather, entry_threads, start_threads, start_threads-hooks}

abbrev Hook : Type 0
Hook = HookType Bytes

abbrev pop : List Hook → Option (Hook × List Hook)
pop [] = none
pop (t ∷ q) = some (t, q)

abbrev pub fifo : ConcurrentQueue Hook
fifo = record {
  Queue = List Hook;
  create = [];
  enqueue = λ q t. q ++ t ∷ [];
  try_dequeue = pop;
  contents = λ q. q;
  contents-create = refl;
  contents-enqueue = λ q t. refl;
  dequeue_empty = λ q e. rw e refl;
  dequeue_front = λ q t ts e. (ts, rw e refl, refl);
}

-- The plugins' symbols all resolve, to an init function that registers the name as its hook.
abbrev hook_of : Bytes → Hook
hook_of name = record { hook = name; name = name }

abbrev init_of : Bytes → PluginInitFunc fifo
init_of symbol pm = (ℤ.pos 1, register_hook fifo pm (drop 5 symbol) (drop 5 symbol))

abbrev linker : Linker fifo
linker = record { opens = λ path. true; symbol = λ path symbol. some (init_of symbol) }

init_of-Registers : (name : Bytes) → Registers fifo (init_of (codes "init_" ++ name)) (hook_of name)
unfolding register_hook
init_of-Registers name pm = refl

linker_contract :
    (path name : Bytes) (init : PluginInitFunc fifo)
    → linker.symbol path (codes "init_" ++ name) ≡ some init
    → Registers fifo init (hook_of name)
linker_contract path name init e =
    let same : init_of (codes "init_" ++ name) ≡ init = ground arith in
    subst (λ f. Registers fifo f (hook_of name)) same (init_of-Registers name)

abbrev pub setting : Bytes → Bytes → Bytes → Setting
setting s n v = record { section = s; name = n; value = v }

abbrev agent_ini : IniResult
agent_ini = record {
  error = ℤ.pos 0;
  calls =
      setting (codes "plugins") (codes "b") (codes "off")
      ∷ setting (codes "timings") (codes "a") (codes "2500000000ns")
      ∷ setting (codes "timings") (codes "default") (codes "1000000000ns")
      ∷ setting (codes "generic") (codes "platform_id") (codes "node")
      ∷ [];
}

config : Parser assoc
config = (mfp_parse assoc agent_ini).0

abbrev entries : Option (List Bytes)
entries = some (codes "a.so" ∷ codes "notes.txt" ∷ codes "b.so" ∷ codes "c.so" ∷ [])

discover_plugins-Aligned_example :
    Aligned fifo hook_of []
      (codes "a" ∷ codes "c" ∷ [])
      (discover_plugins fifo assoc linker config
        (codes "lib")
        entries
        (record { hook_queue = [] })).1
unfolding plugin_name strrchr str_eq is_off mfp_get_value config mfp_parse handle_parser
    mfp_set_value lookup insert load_plugin
discover_plugins-Aligned_example =
    discover_plugins-Aligned fifo hook_of linker linker_contract assoc config (codes "lib") entries
      (record { hook_queue = [] })

-- Two plugins are loaded: `b` is off, and `notes.txt` is none.
two_threads :
    1 < (start_threads fifo assoc linker config (codes "lib") entries).discovery.plugin_count
unfolding start_threads discover_plugins visit_entries visit_entry plugin_name strrchr is_off
    load_plugin PluginManager_new register_hook config mfp_get_value mfp_parse handle_parser
    mfp_set_value insert lookup str_eq
two_threads = omega arith

start_threads-hooks_example :
    let r = start_threads fifo assoc linker config (codes "lib") entries in
    (name : Bytes) × (r.discovery.plugins_name 1 ≡ some name)
    × (get_elem? r.hooks 1 ≡ some (some (hook_of name).hook))
    × (entry_threads r.discovery.plugin_count 1 ≡ gather 1)
start_threads-hooks_example =
    start_threads-hooks fifo hook_of linker linker_contract assoc config (codes "lib") entries 1
      two_threads
