-- ===== src/Api/Send.antt =====
-- `mf_send` of src/api/src/mf_api.c: a new experiment, and all files of the data's directory to the
-- server. A text of sprintf that does not fit its 256 bytes, and the closing of a log file that did not
-- open, are `undefined`.
use phantom_monitoring_clien.Base.{
  ℕ, zero, suc, ◌+◌, ◌≡◌, refl, List, [], ◌∷◌, ◌++◌, Option, none, some, Bool, true, false, not,
  ◌&&◌, Bytes, codes, if◌then◌else◌, ltb, length, str_eq,
}
use phantom_monitoring_clien.Publisher.{Curl, Net, create_new_experiment}
use phantom_monitoring_clien.Publisher.Lines.{publish_file}
use phantom_monitoring_clien.Publisher.Receive.{Stream, Realloc}
use phantom_monitoring_clien.Api.{file_in}
use phantom_monitoring_clien.Api.Session.{Outcome, returns, undefined, then_do}
pub mod Left
pub mod Requests

-- The texts that the caller gives, and what is known of the session.
pub record Target : Type 0 where
  pub server : Bytes
  pub application_id : Bytes
  pub component_id : Bytes
  pub platform_id : Bytes
  pub data_path : Bytes
  pub keep_local_data : Bool
  pub has_log : Bool

-- The data's directory: the names in it, "." and ".." with them, none where it does not open, the
-- paths that are directories, and the files by their paths; a directory opens, but fgets reads no line.
pub record Store : Type 0 where
  pub entries : Option (List Bytes)
  pub is_directory : Bytes → Bool
  pub files : Bytes → Option (List Bytes)

-- `sprintf` into a buffer of 256 bytes.
unfoldable pub fits_buffer : Bytes → Bool
fits_buffer s = ltb (length s) 256

unfoldable pub experiment_text : Target → Bytes
experiment_text t =
    codes "{\"application\":\""
    ++ t.application_id
    ++ codes "\", \"task\": \""
    ++ t.component_id
    ++ codes "\", \"host\": \""
    ++ t.platform_id
    ++ codes "\"}"

unfoldable pub experiments_path : Target → Bytes
experiments_path t = t.server ++ codes "/v1/phantom_mf/experiments/" ++ t.application_id

unfoldable pub metrics_path : Target → Bytes
metrics_path t = t.server ++ codes "/v1/phantom_mf/metrics"

-- static_string of a file, by its name.
unfoldable pub static_text : Target → Bytes → Bytes → Bytes
static_text t experiment_id name =
    codes "\"WorkflowID\":\""
    ++ t.application_id
    ++ codes "\", \"TaskID\":\""
    ++ t.component_id
    ++ codes "\", \"ExperimentID\":\""
    ++ experiment_id
    ++ codes "\", \"type\":\""
    ++ name
    ++ codes "\", \"host\":\""
    ++ t.platform_id
    ++ codes "\""

-- `unlink`, which fails on a directory.
unfoldable pub unlink :
    (Bytes → Bool) → Bytes → (Bytes → Option (List Bytes)) → Bytes → Option (List Bytes)
unlink is_directory path files other =
    if str_eq other path && not (is_directory other) then none else files other

module _ (c : Curl) where
  -- One round of the loop over the directory, on the files and the network.
  unfoldable pub send_entry :
      (Bytes → Bool)
      → Target
      → Bytes
      → Bytes
      → (Bytes → Option (List Bytes)) × Net
      → Outcome ((Bytes → Option (List Bytes)) × Net)
  send_entry is_directory t experiment_id name (files, n) =
      let filename = file_in t.data_path name in
      let static_string = static_text t experiment_id name in
      let n' =
        (publish_file c files (some (metrics_path t)) (some static_string) (some filename) n).1 in
      if fits_buffer filename && fits_buffer static_string
      then returns (if t.keep_local_data then files else unlink is_directory filename files, n')
      else undefined

  unfoldable pub send_entries :
      (Bytes → Bool)
      → Target
      → Bytes
      → List Bytes
      → (Bytes → Option (List Bytes)) × Net
      → Outcome ((Bytes → Option (List Bytes)) × Net)
  unfolding send_entry
  send_entries is_directory t experiment_id [] s = returns s
  send_entries is_directory t experiment_id (name ∷ names) s =
      then_do (send_entry is_directory t experiment_id name s)
        (send_entries is_directory t experiment_id names)

  -- From `opendir` on: the identifier, or none for NULL, and whether rmdir is called.
  unfoldable pub send_directory :
      Target
      → Bytes
      → Store
      → Net
      → Outcome (Option Bytes × Bool × (Bytes → Option (List Bytes)) × Net)
  send_directory t experiment_id store n = elim store.entries [
    | none ↦ returns (none, false, store.files, n)
    | some names ↦
        then_do (send_entries store.is_directory t experiment_id names (store.files, n)) (λ r.
          if t.has_log
          then returns (some experiment_id, if t.keep_local_data then false else true, r.0, r.1)
          else undefined)
  ]

  -- What follows the request for an experiment, whose result is not looked at.
  unfoldable pub after_experiment :
      Target
      → Store
      → Stream
      → Net
      → Outcome (Option Bytes × Bool × (Bytes → Option (List Bytes)) × Net)
  after_experiment t store s n = if s.is_dangling then undefined else elim s.contents [
    | [] ↦ returns (none, false, store.files, n)
    | b ∷ id ↦ if fits_buffer (metrics_path t) then send_directory t (b ∷ id) store n else undefined
  ]

  unfoldable pub mf_send :
      (Bytes → Realloc)
      → Target
      → Store
      → Net
      → Outcome (Option Bytes × Bool × (Bytes → Option (List Bytes)) × Net)
  mf_send realloc t store n =
      let buffer : Stream = record { contents = []; is_dangling = false } in
      let (done, (s, n')) =
        create_new_experiment c realloc (some (experiments_path t)) (some (experiment_text t))
          buffer n in
      if fits_buffer (experiment_text t) && fits_buffer (experiments_path t)
      then after_experiment t store s n'
      else undefined
