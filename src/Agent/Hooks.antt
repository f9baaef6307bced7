-- ===== src/Agent/Hooks.antt =====
-- `startThreads` and `entryThreads` of src/agent/thread_handler.c: which hook and which name each
-- thread gets. The threads' bodies are in Agent/Gather and Agent/Timings; thread creation, signals
-- and joining are the system's.
use phantom_monitoring_clien.Base.{
  ℕ, zero, suc, ◌+◌, ◌<◌, ◌≡◌, refl, sym, ap, ◌∙◌, List, [], ◌∷◌, ◌++◌, Option, some, Bytes, codes,
  if◌then◌else◌, ltb, map, length, get_elem?, arith,
}
use phantom_monitoring_clien.Parser.Hash.{HashTable}
use phantom_monitoring_clien.Parser.{Parser}
use phantom_monitoring_clien.Agent.Manager.{
  HookType, ConcurrentQueue, PluginManager, PluginManager_new, get_hook,
}
use phantom_monitoring_clien.Agent.Discover.{PluginInitFunc, Linker, Discovery, discover_plugins}
use phantom_monitoring_clien.Agent.Discover.Loaded.{
  registered, Registers, Aligned, loaded_of, discover_plugins-Aligned,
}

-- What a thread runs.
pub data Job : Type 0 where
  gather : ℕ → Job
  check_conf : Job

unfoldable pub entry_threads : ℕ → ℕ → Job
entry_threads plugin_count t = if ltb t plugin_count then gather t else check_conf

module _ {Hook : Type 0} (ecq : ConcurrentQueue (HookType Hook)) where
  -- The loop that fills `hooks`.
  unfoldable pub take_hooks : ℕ → PluginManager ecq → List (Option Hook) × PluginManager ecq
  take_hooks zero pm = ([], pm)
  take_hooks (suc n) pm =
      let (hook, pm') = get_hook ecq pm in
      let (hooks, pm'') = take_hooks n pm' in (hook ∷ hooks, pm'')

  -- What `startThreads` prepares for its threads.
  pub record Threads : Type 0 where
    pub discovery : Discovery ecq
    pub hooks : List (Option Hook)
    pub jobs : List Job

  jobs_from : ℕ → ℕ → ℕ → List Job
  jobs_from plugin_count t zero = []
  jobs_from plugin_count t (suc k) = entry_threads plugin_count t ∷ jobs_from plugin_count (suc t) k

  unfoldable pub start_threads :
      (h : HashTable) → Linker ecq → Parser h → Bytes → Option (List Bytes) → Threads
  unfolding jobs_from
  start_threads h l config plugin_location entries =
      let (pdstate, s) =
        discover_plugins ecq h l config plugin_location entries (PluginManager_new ecq) in
      let (hooks, pm) = take_hooks s.plugin_count s.manager in
      record {
        discovery = record s { manager = pm };
        hooks = hooks;
        jobs = jobs_from s.plugin_count 0 (s.plugin_count + 1);
      }

  registered-new : registered ecq (PluginManager_new ecq) ≡ []
  unfolding PluginManager_new
  registered-new = ecq.contents-create

  get_hook-front :
      (pm : PluginManager ecq) (t : HookType Hook) (ts : List (HookType Hook))
      → registered ecq pm ≡ t ∷ ts
      → ((get_hook ecq pm).0 ≡ some t.hook) × (registered ecq (get_hook ecq pm).1 ≡ ts)
  unfolding get_hook
  get_hook-front pm t ts e =
      let (q, taken, rest) = ecq.dequeue_front pm.hook_queue t ts e in ground arith

  take_hooks-registered :
      (ts : List (HookType Hook)) (pm : PluginManager ecq)
      → registered ecq pm ≡ ts
      → (take_hooks (length ts) pm).0 ≡ map (λ t. some t.hook) ts
  unfolding take_hooks
  take_hooks-registered [] pm e = refl
  take_hooks-registered (t ∷ ts) pm e =
      let (front, rest) = get_hook-front pm t ts e in
      λ i. front i ∷ take_hooks-registered ts (get_hook ecq pm).1 rest i

  length_types :
      (type_of : Bytes → HookType Hook) (names : List Bytes)
      → length (map type_of names) ≡ length names
  length_types type_of [] = refl
  length_types type_of (n ∷ names) = ap suc (length_types type_of names)

  hook_at :
      (type_of : Bytes → HookType Hook) (names : List Bytes) (t : ℕ) {name : Bytes}
      → get_elem? names t ≡ some name
      → get_elem? (map (λ (u : HookType Hook). some u.hook) (map type_of names)) t
        ≡ some (some (type_of name).hook)
  hook_at type_of [] t e = cc
  hook_at type_of (n ∷ names) zero e = ground arith
  hook_at type_of (n ∷ names) (suc t) e = hook_at type_of names t e

  elem_in_range :
      (names : List Bytes) (t : ℕ)
      → t < length names
      → (name : Bytes) × (get_elem? names t ≡ some name)
  elem_in_range [] t lt = elim lt [ ]
  elem_in_range (n ∷ names) zero lt = (n, refl)
  elem_in_range (n ∷ names) (suc t) lt = elem_in_range names t (omega arith)

  -- Thread `t` below `pluginCount` gathers for plugin `t`: its hook is the one that the plugin
  -- named `plugins_name[t]` registered, so it samples the plugin whose interval it sleeps. This
  -- takes init functions that register one hook if they succeed and none if they fail.
  pub start_threads-hooks :
      (type_of : Bytes → HookType Hook) (l : Linker ecq)
      → ((path name : Bytes) (init : PluginInitFunc ecq)
          → l.symbol path (codes "init_" ++ name) ≡ some init
          → Registers ecq init (type_of name))
      → (h : HashTable) (config : Parser h) (dirname : Bytes) (entries : Option (List Bytes))
        (t : ℕ)
      → t < (start_threads h l config dirname entries).discovery.plugin_count
      → let r = start_threads h l config dirname entries in
        (name : Bytes) × (r.discovery.plugins_name t ≡ some name)
        × (get_elem? r.hooks t ≡ some (some (type_of name).hook))
        × (entry_threads r.discovery.plugin_count t ≡ gather t)
  unfolding start_threads entry_threads
  start_threads-hooks type_of l contract h config dirname entries t lt = (
    found.0,
    a.named t below ∙ found.1,
    ap (λ hs. get_elem? hs t)
          (ap (λ n. (take_hooks n s.manager).0) (a.counted ∙ sym (length_types type_of names))
            ∙ take_hooks-registered (map type_of names) s.manager queue)
        ∙ hook_at type_of names t found.1,
    ground arith,
  )
    where
      s : Discovery ecq
      s = (discover_plugins ecq h l config dirname entries (PluginManager_new ecq)).1

      names : List Bytes
      names = loaded_of ecq h l config dirname (PluginManager_new ecq) entries

      a : Aligned ecq type_of (registered ecq (PluginManager_new ecq)) names s
      a =
          discover_plugins-Aligned ecq type_of l contract h config dirname entries
            (PluginManager_new ecq)

      queue : registered ecq s.manager ≡ map type_of names
      queue = a.hooked ∙ ap (λ q. q ++ map type_of names) (registered-new)

      below : t < length names
      below = omega (arith, a.counted)

      found : (name : Bytes) × (get_elem? names t ≡ some name)
      found = elem_in_range names t below
