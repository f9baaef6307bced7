-- ===== src/Agent/Discover/Loaded.antt =====
-- What the discovery leaves behind: names, handles and registered hooks go together.
use phantom_monitoring_clien.Base.{
  ℕ, zero, suc, ◌<◌, ◌≡◌, refl, sym, subst, ap, ◌∙◌, List, [], ◌∷◌, ◌++◌, Option, none, some, Bool,
  true, false, Bytes, codes, if◌then◌else◌, ◌==◌, map, length, get_elem?, Bool-cases, Option-cases,
  inl, inr, arith, length-append, append_assoc, append-nil,
}
use phantom_monitoring_clien.Parser.Hash.{HashTable}
use phantom_monitoring_clien.Parser.{Parser}
use phantom_monitoring_clien.Agent.Manager.{HookType, ConcurrentQueue, PluginManager}
use phantom_monitoring_clien.Agent.Discover.{
  is_failure, plugin_name, PluginInitFunc, Linker, Discovery, load_plugin, fullpath_of, is_off,
  record_plugin, write_name, visit_entry, visit_entries, discover_plugins,
}

get_elem?-last {ℓ} :
    {A : Type ℓ} (xs : List A) (a : A) → get_elem? (xs ++ a ∷ []) (length xs) ≡ some a
get_elem?-last [] a = refl
get_elem?-last (x ∷ xs) a = get_elem?-last xs a

get_elem?-init {ℓ} :
    {A : Type ℓ} (xs : List A) (a : A) (i : ℕ)
    → i < length xs
    → get_elem? (xs ++ a ∷ []) i ≡ get_elem? xs i
get_elem?-init [] a i h = elim h [ ]
get_elem?-init (x ∷ xs) a zero h = refl
get_elem?-init (x ∷ xs) a (suc i) h = get_elem?-init xs a i (omega arith)

pub map-concat {ℓ κ} :
    {A : Type ℓ} {B : Type κ} (f : A → B) (xs : List A) (a : A)
    → map f (xs ++ a ∷ []) ≡ map f xs ++ f a ∷ []
map-concat f [] a = refl
map-concat f (x ∷ xs) a = ap (◌∷◌ (f x)) (map-concat f xs a)

module _ {Hook : Type 0} (ecq : ConcurrentQueue (HookType Hook)) where
  abbrev pub registered : PluginManager ecq → List (HookType Hook)
  registered pm = ecq.contents pm.hook_queue

  -- An init function that succeeds registers one hook, and one that fails registers none.
  abbrev pub Registers : PluginInitFunc ecq → HookType Hook → Type 0
  Registers init t =
      (pm : PluginManager ecq)
      → registered (init pm).1
        ≡ (if is_failure (init pm).0 then registered pm else registered pm ++ t ∷ [])

  -- The state after some entries, from which the plugins `names` are loaded.
  pub record Aligned (type_of : Bytes → HookType Hook) (old : List (HookType Hook))
      (names : List Bytes) (s : Discovery ecq) : Type 0 where
    pub counted : s.plugin_count ≡ length names
    pub named : (i : ℕ) → i < length names → s.plugins_name i ≡ get_elem? names i
    pub handles : length s.handle_list ≡ length names
    pub hooked : registered s.manager ≡ old ++ map type_of names

  written_name :
      (s : Discovery ecq) (name : Bytes) (names : List Bytes) (i : ℕ)
      → s.plugin_count ≡ length names
      → ((j : ℕ) → j < length names → s.plugins_name j ≡ get_elem? names j)
      → i < length (names ++ name ∷ [])
      → (if i == s.plugin_count then some name else s.plugins_name i)
        ≡ get_elem? (names ++ name ∷ []) i
  written_name s name names i counted named lt = elim (Bool-cases (i == s.plugin_count)) [
    | inl new ↦
        rw new (let e : i ≡ length names = ground arith in rw e (sym (get_elem?-last names name)))
    | inr old ↦ rw old (
        let below : i < length names = ground (arith, length-append names (name ∷ [])) in
        named i below ∙ sym (get_elem?-init names name i below))
  ]

  module _ (h : HashTable) (l : Linker ecq) (config : Parser h) (dirname : Bytes) where
    abbrev named_if : Bytes → Bool × PluginManager ecq → List Bytes × PluginManager ecq
    named_if name (true, pm) = (name ∷ [], pm)
    named_if name (false, pm) = ([], pm)

    -- The plugin that an entry of the directory gives, if it is a plugin that is not switched off and
    -- that loads, and the manager after it.
    abbrev pub entry_plugin : PluginManager ecq → Bytes → List Bytes × PluginManager ecq
    entry_plugin pm d = elim (plugin_name d) [
      | none ↦ ([], pm)
      | some name ↦
          if is_off ecq h l config dirname name
          then ([], pm)
          else named_if name (load_plugin ecq l name (fullpath_of ecq h l config dirname d) pm)
    ]

    -- The plugins that the entries give, one after the other.
    abbrev pub loaded : PluginManager ecq → List Bytes → List Bytes
    loaded pm [] = []
    loaded pm (d ∷ ds) = (entry_plugin pm d).0 ++ loaded (entry_plugin pm d).1 ds

    -- A directory that does not open gives none.
    abbrev pub loaded_of : PluginManager ecq → Option (List Bytes) → List Bytes
    loaded_of pm none = []
    loaded_of pm (some ds) = loaded pm ds

  module _ (type_of : Bytes → HookType Hook) (l : Linker ecq)
      (contract : (path name : Bytes) (init : PluginInitFunc ecq)
        → l.symbol path (codes "init_" ++ name) ≡ some init
        → Registers init (type_of name)) where
    Loads : Bytes → PluginManager ecq → Bool × PluginManager ecq → Type 0
    Loads name pm r =
        registered r.1 ≡ (if r.0 then registered pm ++ type_of name ∷ [] else registered pm)

    load_plugin-Loads :
        (name path : Bytes) (pm : PluginManager ecq)
        → Loads name pm (load_plugin ecq l name path pm)
    unfolding load_plugin Loads
    load_plugin-Loads name path pm = elim (Option-cases (l.symbol path (codes "init_" ++ name))) [
      | inl missing ↦ ground arith
      | inr (init, found) ↦ ground (arith, contract path name init found pm)
    ]

    module _ (h : HashTable) (config : Parser h) (dirname : Bytes)
        (old : List (HookType Hook)) where
      -- Further plugins are loaded, and this is the manager.
      abbrev Grown : List Bytes → List Bytes × PluginManager ecq → Discovery ecq → Type 0
      Grown names r s = Aligned type_of old (names ++ r.0) s × (s.manager ≡ r.1)

      unchanged :
          (names : List Bytes) (s : Discovery ecq)
          → Aligned type_of old names s
          → Aligned type_of old (names ++ []) s
      unchanged names s a = subst (λ x. Aligned type_of old x s) (sym (append-nil names)) a

      record_plugin-Grown :
          (names : List Bytes) (s : Discovery ecq) (name path : Bytes)
          (r : Bool × PluginManager ecq)
          → Loads name s.manager r
          → Aligned type_of old names s
          → Grown names (named_if h l config dirname name r) (
              record_plugin ecq h l config dirname path
                (write_name ecq h l config dirname s name)
                r)
      unfolding record_plugin write_name Loads
      record_plugin-Grown names s name path (false, pm) e a = (
        unchanged names _ (record {
          counted = a.counted;
          named = λ i lt. ground (arith, a.named i lt, a.counted);
          handles = a.handles;
          hooked = e ∙ a.hooked;
        }),
        refl,
      )
      record_plugin-Grown names s name path (true, pm) e a = (
        record {
          counted = omega (arith, a.counted, length-append names (name ∷ []));
          named = λ i lt. written_name s name names i a.counted a.named lt;
          handles = omega (arith, a.handles, length-append names (name ∷ []));
          hooked =
              e
              ∙ ap (λ c. c ++ type_of name ∷ []) a.hooked
              ∙ append_assoc old (map type_of names) (type_of name ∷ [])
              ∙ ap (λ c. old ++ c) (sym (map-concat type_of names name));
        },
        refl,
      )

      visit_entry-Grown :
          (names : List Bytes) (s : Discovery ecq) (d : Bytes)
          → Aligned type_of old names s
          → Grown names
              (entry_plugin h l config dirname s.manager d)
              (visit_entry ecq h l config dirname s d)
      unfolding visit_entry
      visit_entry-Grown names s d a = elim (Option-cases (plugin_name d)) [
        | inl other ↦ rw (other, visit_entry, entry_plugin) (unchanged names s a, refl)
        | inr (name, plugin) ↦ elim (Bool-cases (is_off ecq h l config dirname name)) [
          | inl off ↦ rw (plugin, visit_entry, entry_plugin) (rw off (unchanged names s a, refl))
          | inr on ↦
              rw (plugin, visit_entry, entry_plugin)
                (rw on (
                  record_plugin-Grown names s name (fullpath_of ecq h l config dirname d) _
                    (load_plugin-Loads name (fullpath_of ecq h l config dirname d) s.manager) a))
        ]
      ]

      visit_entries-Aligned :
          (names : List Bytes) (s : Discovery ecq) (ds : List Bytes)
          → Aligned type_of old names s
          → Aligned type_of old
              (names ++ loaded h l config dirname s.manager ds)
              (visit_entries ecq h l config dirname s ds)
      unfolding visit_entries
      visit_entries-Aligned names s [] a = unchanged names s a
      visit_entries-Aligned names s (d ∷ ds) a =
          let r = entry_plugin h l config dirname s.manager d in
          let s' = visit_entry ecq h l config dirname s d in
          let (grown, manager) = visit_entry-Grown names s d a in
          let later = visit_entries-Aligned (names ++ r.0) s' ds grown in
          let same : (names ++ r.0) ++ loaded h l config dirname s'.manager ds
              ≡ names ++ (r.0 ++ loaded h l config dirname r.1 ds) =
            append_assoc names r.0 (loaded h l config dirname s'.manager ds)
            ∙ ap (λ pm. names ++ (r.0 ++ loaded h l config dirname pm ds)) manager in
          subst (λ x. Aligned type_of old x (visit_entries ecq h l config dirname s' ds)) same later

    -- After the discovery the first `pluginCount` entries of `plugins_name` are the names of the
    -- plugins that the entries of the directory give, in their order: those that are plugins, are not
    -- switched off and load. One handle is kept for each, and the manager's queue has got their hooks, in
    -- the same order. This takes init functions that register exactly one hook when they succeed and
    -- none when they fail.
    pub discover_plugins-Aligned :
        (h : HashTable) (config : Parser h) (dirname : Bytes) (entries : Option (List Bytes))
        (pm : PluginManager ecq)
        → Aligned type_of
            (registered pm)
            (loaded_of h l config dirname pm entries)
            (discover_plugins ecq h l config dirname entries pm).1
    unfolding discover_plugins
    discover_plugins-Aligned h config dirname none pm = record {
      counted = refl;
      named = λ i lt. elim lt [ ];
      handles = refl;
      hooked = sym (append-nil _);
    }
    discover_plugins-Aligned h config dirname (some ds) pm =
        visit_entries-Aligned h config dirname (registered pm) [] _ ds (record {
          counted = refl;
          named = λ i lt. elim lt [ ];
          handles = refl;
          hooked = sym (append-nil _);
        })
