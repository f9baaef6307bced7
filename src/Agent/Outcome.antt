-- ===== src/Agent/Outcome.antt =====
-- What `prepare` and `main` of src/agent/main.c achieve.
use phantom_monitoring_clien.Base.{
  ◌≡◌, List, [], ◌∷◌, ◌++◌, Bool, false, not, ◌&&◌, Bytes, codes, if◌then◌else◌, arith,
}
use phantom_monitoring_clien.Parser.Hash.{HashTable}
use phantom_monitoring_clien.Parser.{Parser, IniResult, mfp_parse}
use phantom_monitoring_clien.Publisher.{Curl, Net}
use phantom_monitoring_clien.Publisher.Receive.{Realloc, Stream}
use phantom_monitoring_clien.Agent.Startup.{Flag, no_ids, parse_options, prepare, main}

-- `main` exits with 1 and removes its PID file exactly if the PID is written, no usage is asked for,
-- the configuration is read, the experiment gets an identifier and the threads start. Every other
-- run exits with 0, and leaves the PID file behind if it was written.
pub main_status :
    (h : HashTable) (c : Curl) (realloc : Bytes → Realloc) (pid_written : Bool) (flags : List Flag)
    (file : IniResult) (threads_started : Bool) (n : Net)
    → let r = main h c realloc pid_written flags file threads_started n in
      let options = parse_options flags (no_ids, false) in
      let parsed = mfp_parse h file in
      let runs =
        pid_written
        && (not options.1
            && (parsed.1 && ((prepare h c realloc parsed.0 options.0 n).0 && threads_started))) in
      (r.status ≡ (if runs then 1 else 0)) × (r.pid_file_left ≡ (pid_written && not runs))
unfolding main
main_status h c realloc pid_written flags file threads_started n = ground arith

abbrev pub empty : Stream
empty = record { contents = []; is_dangling = false }

-- A JSON object of texts.
abbrev json_members : List (Bytes × Bytes) → Bytes
json_members [] = codes "}"
json_members ((key, value) ∷ ms) =
    codes ", \"" ++ (key ++ (codes "\": \"" ++ (value ++ (codes "\"" ++ json_members ms))))

abbrev pub json_object : Bytes × Bytes → List (Bytes × Bytes) → Bytes
json_object (key, value) ms =
    codes "{\"" ++ (key ++ (codes "\":\"" ++ (value ++ (codes "\"" ++ json_members ms))))
