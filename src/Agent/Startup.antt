-- ===== src/Agent/Startup.antt =====
-- `main` and `prepare` of src/agent/main.c: options, configuration, the experiment, the threads,
-- and the exit status. Buffers are texts of any length; the log file is not modelled.
use phantom_monitoring_clien.Base.{
  ℕ, List, [], ◌∷◌, ◌++◌, some, Bool, true, false, not, ◌||◌, Bytes, codes, if◌then◌else◌,
}
use phantom_monitoring_clien.Parser.Hash.{HashTable}
use phantom_monitoring_clien.Parser.{Parser, IniResult, mfp_get_value, mfp_parse}
use phantom_monitoring_clien.Publisher.{Curl, Net, create_new_experiment}
use phantom_monitoring_clien.Publisher.Receive.{Realloc}
use phantom_monitoring_clien.Agent.Timings.{is_empty}

-- What getopt returns for "a:t:h", in turn.
pub data Flag : Type 0 where
  application : Bytes → Flag
  task : Bytes → Flag
  help : Flag
  unknown : Flag

-- The identifiers that the program keeps in global variables, and the URL for the metrics.
pub record Ids : Type 0 where
  pub application_id : Bytes
  pub task_id : Bytes
  pub platform_id : Bytes
  pub experiment_id : Bytes
  pub metrics_publish_url : Bytes

abbrev pub no_ids : Ids
no_ids = record {
  application_id = [];
  task_id = [];
  platform_id = [];
  experiment_id = [];
  metrics_publish_url = [];
}

-- The identifiers given, and whether the usage is to be printed.
unfoldable pub parse_options : List Flag → Ids × Bool → Ids × Bool
parse_options [] r = r
parse_options (application a ∷ fs) (d, usage) =
    parse_options fs (record d { application_id = a }, usage)
parse_options (task t ∷ fs) (d, usage) = parse_options fs (record d { task_id = t }, usage)
parse_options (help ∷ fs) (d, usage) = parse_options fs (d, true)
parse_options (unknown ∷ fs) (d, usage) = parse_options fs (d, true)

-- The defaults where the application or the task is not given.
unfoldable pub default_ids : Ids → Ids
default_ids d =
    if is_empty d.application_id || is_empty d.task_id
    then record d { application_id = codes "infrastructure"; task_id = d.platform_id }
    else d

unfoldable pub experiment_message : Ids → Bytes
experiment_message d =
    codes "{\"application\":\""
    ++ (d.application_id
        ++ (codes "\", \"task\": \""
            ++ (d.task_id ++ (codes "\", \"host\": \"" ++ (d.platform_id ++ codes "\"}")))))

abbrev pub experiments_url : Bytes → Ids → Bytes
experiments_url server_name d =
    server_name ++ (codes "/phantom_mf/experiments/" ++ d.application_id)

-- The identifiers as `prepare` sets them before it creates the experiment.
unfoldable pub configured_ids : (h : HashTable) → Parser h → Ids → Ids
unfolding default_ids
configured_ids h config d = default_ids (record d {
  platform_id = mfp_get_value h config (codes "generic") (codes "platform_id") [];
  metrics_publish_url =
      mfp_get_value h config (codes "generic") (codes "server") [] ++ codes "/phantom_mf/metrics";
})

module _ (h : HashTable) (c : Curl) (realloc : Bytes → Realloc) where
  unfoldable pub prepare : Parser h → Ids → Net → Bool × Ids × Net
  unfolding experiment_message
  prepare config d n =
      let server_name = mfp_get_value h config (codes "generic") (codes "server") [] in
      let d' = configured_ids h config d in
      let answer =
        create_new_experiment c realloc (some (experiments_url server_name d'))
          (some (experiment_message d')) (record { contents = []; is_dangling = false }) n in
      let experiment_id = answer.1.0.contents in
      (not (is_empty experiment_id), record d' { experiment_id = experiment_id }, answer.1.1)

  -- How the process ends: the status given to `exit`, and whether the file with the PID is left.
  pub record Finish : Type 0 where
    pub status : ℕ
    pub pid_file_left : Bool
    pub ids : Ids
    pub net : Net

  -- SUCCESS is 1 and FAILURE is 0 in the source.
  fail : Bool → Ids → Net → Finish
  fail left d n = record { status = 0; pid_file_left = left; ids = d; net = n }

  after_prepare : Bool → Bool × Ids × Net → Finish
  after_prepare threads_started r =
      if not r.0
      then fail true r.1 r.2
      else if not threads_started
      then fail true r.1 r.2
      else record { status = 1; pid_file_left = false; ids = r.1; net = r.2 }

  -- The PID file, the options, what the configuration file holds, and whether all threads start.
  unfoldable pub main : Bool → List Flag → IniResult → Bool → Net → Finish
  unfolding after_prepare fail
  main pid_written flags file threads_started n =
      let (d, usage) = parse_options flags (no_ids, false) in
      let parsed = mfp_parse h file in
      if not pid_written
      then fail false no_ids n
      else if usage
      then fail true d n
      else if not parsed.1
      then fail true d n
      else after_prepare threads_started (prepare parsed.0 d n)
