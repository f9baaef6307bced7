-- ===== src/Api/SessionExamples.antt =====
-- The theorems on a session of the user API at concrete inputs.
use phantom_monitoring_clien.Base.{
  ◌||◌, if◌then◌else◌, ℕ, ◌+◌, ◌*◌, ◌≡◌, ◌≤◌, ◌⊎◌, refl, ap, List, [], ◌∷◌, ◌++◌, Option, none,
  some, Bool, true, false, Bytes, codes, map, concat, length, All, arith, ◌==◌, if◌then◌else◌,
  strrchr, str_eq, take, strstr, starts_with, inl, inr,
}
use phantom_monitoring_clien.Base.Numeral.Decimal.{decimal}
use phantom_monitoring_clien.Plugins.Examples.{whole}
use phantom_monitoring_clien.Publisher.{
  Curl, Net, Request, query_json, check_url, prepare_query, perform,
}
use phantom_monitoring_clien.Publisher.Receive.{Realloc, in_place, deliver}
use phantom_monitoring_clien.Api.Threads.{
  World, Main, Thread, Step, Reach, Run, Move, starting, finished, joining, ended, testing,
}
use phantom_monitoring_clien.Api.Threads.Joined.{IsFinished, Reach-joined}
use phantom_monitoring_clien.Api.Threads.Ending.{is_over, CanStep, mf_end-is_over}
use phantom_monitoring_clien.Api.Parameters.{
  parameters_name, has_text, parse_response, get_config_parameters, configs_url,
}
use phantom_monitoring_clien.Api.Session.{
  EachMetric, Metrics, Os, Prepared, Api, returns, prepare_in, mf_start,
}
use phantom_monitoring_clien.Api.Session.Started.{configured_api, started_api, mf_start_outcome}
use phantom_monitoring_clien.Api.{file_in}
use phantom_monitoring_clien.Api.Send.{
  Target, fits_buffer, experiment_text, experiments_path, metrics_path, static_text, mf_send,
}
use phantom_monitoring_clien.Api.Send.Left.{Files, left}
use phantom_monitoring_clien.Api.Send.Requests.{file_requests, LeftFile, mf_send-requests}
use phantom_monitoring_clien.Api.Parameters.Configured.{
  AllConfigured, merged, parse_response-AllConfigured,
}

-- One thread, at the test of `running` when mf_end is called.
abbrev world : Bool → Main → Thread → World
world running main thread = record { running = running; main = main; threads = thread ∷ [] }

called : Reach 1 (world false (joining 0) testing)
called =
    Reach.next
      (Reach.next
        (Reach.next (Reach.next Reach.start (Step.create 0 refl (omega arith)))
          (Step.thread_moves 0 starting testing refl Move.opens))
        (Step.start_returns refl))
      (Step.end_called refl)

to_the_end : Run 1 (world false (joining 0) testing) 3 (world false ended finished)
to_the_end =
    Run.step 2
      (Run.step 1
        (Run.step 0 Run.stay (Step.thread_moves 0 testing finished refl (Move.stops refl)))
        (Step.join 0 refl (omega arith) refl))
      (Step.end_returns refl)

returned : Reach 1 (world false ended finished)
returned =
    Reach.next
      (Reach.next (Reach.next called (Step.thread_moves 0 testing finished refl (Move.stops refl)))
        (Step.join 0 refl (omega arith) refl))
      (Step.end_returns refl)

Reach-joined_example : (length (finished ∷ []) ≡ 1) × All IsFinished (finished ∷ [])
Reach-joined_example = Reach-joined 1 (world false ended finished) returned refl

mf_end-is_over_example :
    (3 ≤ 4 * 1 + 1) × ((is_over ended ≡ true) ⊎ CanStep 1 (world false ended finished))
mf_end-is_over_example =
    mf_end-is_over 1 0 3 (world false (joining 0) testing) (world false ended finished) called refl
      to_the_end

-- An answer that sets two of the nine parameters.
abbrev answer : Bytes
answer = codes "{\"parameters\":{\"MAX_CPU_POWER\":\"24\",\"MEMORY_POWER\":\"2\"}}"

abbrev setting : ℕ → Option Bytes
setting i = if i == 0 then some (codes "24") else if i == 2 then some (codes "2") else none

all_configured : AllConfigured answer parameters_name 0 setting
unfolding strstr starts_with
all_configured = (
  (b',', codes "\"MEMORY_POWER\":\"2\"}}", refl, refl, omega arith, inl refl),
  (
    refl,
    (
      (b'}', codes "}", refl, refl, omega arith, inr (refl, refl, refl)),
      (refl, (refl, (refl, (refl, (refl, (refl, tt)))))),
    ),
  ),
)

parse_response-AllConfigured_example :
    parse_response whole length (record { contents = answer; is_dangling = false }) (λ i. 7)
    ≡ some (true, merged whole length setting 9 0 (λ i. 7))
unfolding has_text strstr starts_with
parse_response-AllConfigured_example =
    parse_response-AllConfigured whole length setting answer (λ i. 7) refl all_configured

-- An application in /opt/app, and a network that answers each request with the text `body`.
abbrev linux : Os
linux = record {
  pid = 42;
  exe = some (codes "/opt/app/sim");
  opens = λ path. true;
  is_there = λ path. false;
  creates = λ t. t == 0;
}

abbrev answering : Bytes → Curl
answering body = record {
  easy_init = λ k. true;
  perform = λ k. record { completes = true; chunks = body ∷ [] };
}

abbrev stays : Bytes → Realloc
stays b = in_place

abbrev idle : Net
idle = record { has_headers = false; inits = 0; open_handles = 0; performs = 0; requests = [] }

abbrev no_path : Prepared
no_path = record { data_path = []; has_log = false; made = [] }

abbrev at_load : Api whole
at_load = record {
  prepared = no_path;
  pid = 0;
  running = false;
  keep_local_data_flag = true;
  parameters_value = λ i. 0;
  num_threads = 0;
  threads = [];
  net = idle;
}

abbrev every_second : Bytes → EachMetric
every_second name = record { sampling_interval = 1000; metric_name = name }

-- Two of the three entries are asked for, and the second thread cannot be created.
abbrev metrics : Metrics
metrics = record {
  entries =
      every_second (codes "disk_io")
      ∷ every_second (codes "power")
      ∷ every_second (codes "resources_usage")
      ∷ [];
  num_metrics = 2;
  local_data_storage = true;
}

abbrev query : Option (Bool × (ℕ → ℕ)) × Net
query =
    get_config_parameters whole length (answering answer) stays (codes "s") (codes "p") idle
      (λ i. 0)

query_answer : query ≡ (some (true, merged whole length setting 9 0 (λ i. 0)), query.1)
unfolding get_config_parameters query_json configs_url check_url prepare_query perform deliver
    has_text strstr starts_with
query_answer =
    ap (λ r. (r, query.1))
      (parse_response-AllConfigured whole length setting answer (λ i. 0) refl all_configured)

mf_start_outcome_example :
    let p = prepare_in linux (codes "/opt/app") in
    let values = merged whole length setting 9 0 (λ i. 0) in
    let b = configured_api whole length (answering answer) stays linux p values query.1 at_load in
    (mf_start whole length (answering answer) stays linux (codes "s") (codes "p") metrics at_load
      ≡ returns (none, started_api whole length (answering answer) stays linux metrics b))
    × (p.data_path ≡ codes "/opt/app" ++ codes "/" ++ decimal 42)
    × (take 200 (codes "/opt/app/sim") ≡ codes "/opt/app" ++ codes "/sim")
unfolding strrchr
mf_start_outcome_example =
    mf_start_outcome whole length (answering answer) stays linux (codes "s") (codes "p")
      (codes "/opt/app/sim") (codes "/opt/app") (codes "/sim") metrics at_load true
      (merged whole length setting 9 0 (λ i. 0)) query.1 refl refl query_answer (omega arith)

abbrev target : Target
target = record {
  server = codes "s";
  application_id = codes "a";
  component_id = codes "c";
  platform_id = codes "p";
  data_path = codes "/opt/app/42";
  keep_local_data = false;
  has_log = true;
}

abbrev entry_names : List Bytes
entry_names = codes "." ∷ codes ".." ∷ codes "disk_io" ∷ codes "power" ∷ []

-- The two first entries are directories.
abbrev directories : Bytes → Bool
directories path = str_eq path (codes "/opt/app/42/.") || str_eq path (codes "/opt/app/42/..")

abbrev content : Bytes → List Bytes
content name =
    if str_eq name (codes ".") || str_eq name (codes "..") then [] else codes "\"x\":1\n" ∷ []

abbrev files : Files
files path = some (if directories path then [] else codes "\"x\":1\n" ∷ [])

mf_send-requests_example :
    let first : Request = record {
      url = experiments_path target;
      body = some (experiment_text target);
    } in
    (n' : Net) × (mf_send
        (answering (codes "id"))
        stays
        target
        (record { entries = some entry_names; is_directory = directories; files = files })
        idle
      ≡ returns (
        some (codes "id"),
        true,
        left false directories (codes "/opt/app/42") entry_names files,
        n',
      ))
    × (n'.requests ≡ first ∷ concat (map (file_requests target (codes "id") content) entry_names))
    × (n'.open_handles ≡ 0)
    × All (LeftFile false directories (codes "/opt/app/42") entry_names files content) entry_names
unfolding deliver fits_buffer experiment_text experiments_path metrics_path static_text file_in
    str_eq
mf_send-requests_example =
    mf_send-requests (answering (codes "id")) stays target entry_names directories files content
      b'i' (codes "d") idle (λ k. refl) (λ k. refl) refl refl refl refl
      ((refl, (refl, (refl, tt))), ((refl, (refl, tt)), ((refl, tt), (tt, tt))))
      ((refl, refl, refl), ((refl, refl, refl), ((refl, refl, refl), ((refl, refl, refl), tt))))
