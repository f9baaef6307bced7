-- ===== src/Agent/Manager.antt =====
-- src/agent/plugin_manager.c: a queue of plugin hooks. The queue is that of
-- ext/queue/excess_concurrent_queue.h, a C adapter of an external C++ library; one thread uses it
-- here, through a handle of its own for each call.
use phantom_monitoring_clien.Base.{◌≡◌, List, [], ◌∷◌, ◌++◌, Option, none, some, Bytes}

-- `PluginHookType`; `Hook` is the type of the entry functions.
pub record HookType (Hook : Type 0) : Type 0 where
  pub hook : Hook
  pub name : Bytes

-- The queue, with the sequence that it holds; documented to be first in, first out.
pub record ConcurrentQueue (A : Type 0) : Type 1 where
  pub Queue : Type 0
  pub create : Queue
  pub enqueue : Queue → A → Queue
  pub try_dequeue : Queue → Option (A × Queue)
  pub contents : Queue → List A
  pub contents-create : contents create ≡ []
  pub contents-enqueue : (q : Queue) (a : A) → contents (enqueue q a) ≡ contents q ++ a ∷ []
  pub dequeue_empty : (q : Queue) → contents q ≡ [] → try_dequeue q ≡ none
  pub dequeue_front :
      (q : Queue) (a : A) (as_ : List A)
      → contents q ≡ a ∷ as_
      → (r : Queue) × (try_dequeue q ≡ some (a, r)) × (contents r ≡ as_)

module _ {Hook : Type 0} (ecq : ConcurrentQueue (HookType Hook)) where
  open ecq use {Queue, create, enqueue, try_dequeue}

  pub record PluginManager : Type 0 where
    pub hook_queue : Queue

  unfoldable pub PluginManager_new : PluginManager
  PluginManager_new = record { hook_queue = create }

  unfoldable pub register_hook : PluginManager → Bytes → Hook → PluginManager
  register_hook pm name hook = record {
    hook_queue = enqueue pm.hook_queue (record { hook = hook; name = name });
  }

  -- `none` is the NULL of an empty queue.
  unfoldable pub get_hook : PluginManager → Option Hook × PluginManager
  get_hook pm = elim (try_dequeue pm.hook_queue) [
    | some (t, q) ↦ (some t.hook, record { hook_queue = q })
    | none ↦ (none, pm)
  ]
