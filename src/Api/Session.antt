-- ===== src/Api/Session.antt =====
-- api_prepare, mf_user_metric, mf_start and MonitorStart of src/api/src/mf_api.c, on the record Api of
-- its globals. What the threads then do is in Threads.
use phantom_monitoring_clien.Base.{
  ℕ, zero, suc, ◌+◌, ◌≡◌, refl, List, [], ◌∷◌, ◌++◌, Option, none, some, Bool, true, false, Bytes,
  codes, if◌then◌else◌, take, str_eq, strrchr,
}
use phantom_monitoring_clien.Base.Float.{FloatOps}
use phantom_monitoring_clien.Base.Numeral.Decimal.{decimal}
use phantom_monitoring_clien.Publisher.{Curl, Net}
use phantom_monitoring_clien.Publisher.Receive.{Realloc}
use phantom_monitoring_clien.Api.{Clock, timestamp_ms, log_field, log_time, file_in}
use phantom_monitoring_clien.Api.Parameters.{get_config_parameters}
pub mod Started

-- A call returns, ends the process, or reads or writes out of bounds.
pub data Outcome (Result : Type 0) : Type 0 where
  returns : Result → Outcome Result
  exits undefined : Outcome Result

abbrev pub then_do : {A B : Type 0} → Outcome A → (A → Outcome B) → Outcome B
then_do (returns a) f = f a
then_do exits f = exits
then_do undefined f = undefined

pub record EachMetric : Type 0 where
  pub sampling_interval : ℕ
  pub metric_name : Bytes

-- `metrics`: the two arrays as one list of their three entries.
pub record Metrics : Type 0 where
  pub entries : List EachMetric
  pub num_metrics : ℕ
  pub local_data_storage : Bool

-- The process and the file system: the pid, what readlink gives for the executable, which files open
-- and which paths exist, and which threads pthread_create creates.
pub record Os : Type 0 where
  pub pid : ℕ
  pub exe : Option Bytes
  pub opens : Bytes → Bool
  pub is_there : Bytes → Bool
  pub creates : ℕ → Bool

-- `api_prepare`: the path, whether the log file is open, and the directories that it makes.
pub record Prepared : Type 0 where
  pub data_path : Bytes
  pub has_log : Bool
  pub made : List Bytes

unfoldable pub prepare_in : Os → Bytes → Prepared
prepare_in os folder =
    let data_path = folder ++ codes "/" ++ decimal os.pid in
    record {
      data_path = data_path;
      has_log = os.opens (folder ++ codes "/log.txt");
      made = if os.is_there data_path then [] else data_path ∷ [];
    }

-- The executable's path is cut at 200 bytes; without a slash in it, the null pointer is used.
unfoldable pub prepare_at : Os → Option Bytes → Outcome Prepared
unfolding prepare_in
prepare_at os none = exits
prepare_at os (some path) = elim (strrchr (take 200 path) b'/') [
  | none ↦ undefined
  | some (folder, name) ↦ returns (prepare_in os folder)
]

unfoldable pub api_prepare : Os → Outcome Prepared
api_prepare os = prepare_at os os.exe

pub data Monitor : Type 0 where
  resources disk power unknown : Monitor

-- `MonitorStart`
unfoldable pub monitor_start : Bytes → Monitor
monitor_start name =
    if str_eq name (codes "resources_usage")
    then resources
    else if str_eq name (codes "disk_io")
    then disk
    else if str_eq name (codes "power")
    then power
    else unknown

abbrev pub user_text : Bytes → Bytes → Bytes → Bytes
user_text time metric_name value = log_time time ++ log_field metric_name value ++ codes "\n"

-- The loop that creates the threads, from the one numbered `t` on: whether all are created, and the
-- list of those that are. The arrays have three entries.
unfoldable pub create_threads : Os → ℕ → ℕ → List EachMetric → Outcome (Bool × List EachMetric)
create_threads os zero t entries = returns (true, [])
create_threads os (suc n) t [] = undefined
create_threads os (suc n) t (e ∷ entries) =
    let later = create_threads os n (suc t) entries in
    if os.creates t then then_do later (λ r. returns (r.0, e ∷ r.1)) else returns (false, [])

module _ (fl : FloatOps) where
  open fl use {Double, print_1}

  pub record Api : Type 0 where
    pub prepared : Prepared
    pub pid : ℕ
    pub running : Bool
    pub keep_local_data_flag : Bool
    pub parameters_value : ℕ → Double
    pub num_threads : ℕ
    pub threads : List EachMetric
    pub net : Net

  unfoldable pub set_path : Os → Api → Outcome Api
  set_path os a = then_do (api_prepare os) (λ p. returns (record a { prepared = p; pid = os.pid }))

  -- `if(DataPath[0] == '\0')`
  unfoldable pub ensure_path : Os → Api → Outcome Api
  unfolding set_path
  ensure_path os a = elim a.prepared.data_path [ [] ↦ set_path os a | c ∷ path ↦ returns a ]

  -- The result, and the line that is appended to the file user_defined, if it opens.
  abbrev append_line : Os → Bytes → Api → ℕ × List (Bytes × Bytes) × Api
  append_line os line a =
      let file = file_in a.prepared.data_path (codes "user_defined") in
      if os.opens file then (1, (file, line) ∷ [], a) else (0, [], a)

  unfoldable pub mf_user_metric_with_timestamp :
      Os → Bytes → Bytes → Bytes → Api → Outcome (ℕ × List (Bytes × Bytes) × Api)
  mf_user_metric_with_timestamp os time metric_name value a =
      then_do (ensure_path os a)
        (λ b. returns (append_line os (user_text time metric_name value) b))

  unfoldable pub mf_user_metric :
      Os → Clock → Bytes → Bytes → Api → Outcome (ℕ × List (Bytes × Bytes) × Api)
  mf_user_metric os clock metric_name value a = then_do (ensure_path os a) (λ b.
      returns (append_line os (user_text (print_1 (timestamp_ms fl clock)) metric_name value) b))

  -- `mf_start` behind the query: the path, or none for NULL.
  unfoldable pub start_monitors : Os → Metrics → Api → Outcome (Option Bytes × Api)
  start_monitors os m a = then_do (create_threads os m.num_metrics 0 m.entries) (λ r. returns (
    if r.0 then some a.prepared.data_path else none,
    record a {
      running = true;
      keep_local_data_flag = m.local_data_storage;
      num_threads = m.num_metrics;
      threads = r.1;
    },
  ))

  -- The parameters that a failed query has set are kept.
  unfoldable pub after_query :
      Os → Metrics → Api → Option (Bool × (ℕ → Double)) × Net → Outcome (Option Bytes × Api)
  after_query os m a (none, n) = undefined
  after_query os m a (some (configured, values), n) =
      let b = record a { parameters_value = values; net = n } in
      if configured then start_monitors os m b else returns (none, b)

  module _ (atof : Bytes → Double) (c : Curl) (realloc : Bytes → Realloc) where
    unfoldable pub configure : Os → Bytes → Bytes → Metrics → Api → Outcome (Option Bytes × Api)
    unfolding after_query
    configure os server platform_id m a =
        after_query os m a
          (get_config_parameters fl atof c realloc server platform_id a.net a.parameters_value)

    unfoldable pub mf_start : Os → Bytes → Bytes → Metrics → Api → Outcome (Option Bytes × Api)
    mf_start os server platform_id m a = then_do (set_path os a) (configure os server platform_id m)
